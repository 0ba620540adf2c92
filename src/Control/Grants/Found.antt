-- ===== src/Control/Grants/Found.antt =====
-- internal/control/grants.go, RequestGrant: what a request finds.
use mathlib.Core.Path.{subst}
use multi_derp.Base.{
  >>=-eq-ok, Bool, Bool-cases, ap, arith, bool_eq, fail_if, false, inl, inr, list_eq, nat_beq_iff,
  nat_eq, none, not, ok, option_eq, some, string_eq, true, ℕ, ◌&&◌, ◌+◌, ◌==◌, ◌||◌, ◌∙◌, ◌≡◌, ◌⊎◌,
}
use multi_derp.Clock.{Instant}
use multi_derp.Control.Grants.{Grant, is_closed, request_base, scan_grant}
use multi_derp.Control.Schema.{
  Database, GrantRow, GrantState, cancelled, conflict, expired, grant_state_beq_iff, grant_state_eq,
  node_state_eq, rejected, revoked, role_eq,
}

-- A grant that is over, by a decision or at its end.
abbrev pub IsShut : GrantState → Type 0
IsShut s = (s ≡ cancelled) ⊎ ((s ≡ rejected) ⊎ ((s ≡ revoked) ⊎ (s ≡ expired)))

is_closed-IsShut : (s : GrantState) → is_closed s ≡ true → IsShut s
is_closed-IsShut s h = ground (arith, h)

pub request_base-new :
    (db : Database) (now : Instant) (expected : ℕ) (until : Instant) (state : GrantState)
    (blank g : Grant) (same : Bool)
    → request_base db now expected until state blank none ≡ ok (g, same)
    → (g ≡ blank) × (same ≡ false) × (expected ≡ 0)
unfolding request_base
request_base-new db now expected until state blank g same h =
    let (x, e, h') = >>=-eq-ok (fail_if (not (expected == 0)) conflict) _ h in
    (ground (arith, h'), ground (arith, h'), ground (arith, e, nat_beq_iff expected 0))

-- What a request finds if there is a grant already.
pub data Found (db : Database) (now : Instant) (expected : ℕ) (until : Instant) (state : GrantState)
    (row : GrantRow) (g : Grant) (same : Bool) : Type 0 where
  equal :
      same ≡ true
      → g.state ≡ state
      → g.explicit_until ≡ until
      → (g.revision ≡ expected) ⊎ (g.revision ≡ expected + 1)
      → Found db now expected until state row g same
  closed :
      same ≡ false
      → g.revision ≡ expected
      → IsShut g.state
      → Found db now expected until state row g same

pub request_base-Found :
    (db : Database) (now : Instant) (expected : ℕ) (until : Instant) (state : GrantState)
    (blank g : Grant) (same : Bool) (row : GrantRow)
    → request_base db now expected until state blank (some row) ≡ ok (g, same)
    → (scan_grant db now row ≡ ok g) × Found db now expected until state row g same
unfolding request_base
request_base-Found db now expected until state blank g same row h =
    let (g₁, e, h') = >>=-eq-ok (scan_grant db now row) _ h in
    elim (Bool-cases (
      g₁.state == state
      && g₁.explicit_until == until
      && (expected == g₁.revision || expected + 1 == g₁.revision))) [
        | inl fits ↦
            let as_is : g₁ ≡ g = ground (arith, h', fits) in
            let is_same : same ≡ true = ground (arith, h', fits) in
            (
              e ∙ ap ok as_is,
              subst (λ x. Found db now expected until state row x same) as_is
                  (equal is_same (ground (arith, fits, grant_state_beq_iff g₁.state state))
                    (ground (arith, fits, nat_beq_iff g₁.explicit_until until))
                    (ground (
                      arith,
                      fits,
                      nat_beq_iff expected g₁.revision,
                      nat_beq_iff (expected + 1) g₁.revision,
                    ))),
            )
        | inr differs ↦
            let (x, e₁, h₁) =
              >>=-eq-ok
                (fail_if (not (expected == g₁.revision) || not (is_closed g₁.state)) conflict) _
                (rw differs at h') in
            let as_is : g₁ ≡ g = ground (arith, h₁) in
            let not_same : same ≡ false = ground (arith, h₁) in
            (
              e ∙ ap ok as_is,
              subst (λ x. Found db now expected until state row x same) as_is
                  (closed not_same (ground (arith, e₁, nat_beq_iff expected g₁.revision))
                    (is_closed-IsShut g₁.state (ground (arith, e₁)))),
            )
      ]
