-- ===== src/Control/Grants/Lasting.antt =====
-- internal/control/grants.go, scanGrant: the state that is shown and the one that is stored.
use mathlib.Core.Path.{subst}
use multi_derp.Base.{
  Bool-cases, arith, bool_eq, false, inl, inr, list_eq, nat_beq_iff, nat_eq, not, option_eq, refl,
  string_eq, sym, ◌&&◌, ◌<◌, ◌==◌, ◌≡◌, ◌≢◌, ◌⊎◌,
}
use multi_derp.Clock.{Instant, before, unix_time}
use multi_derp.Control.Grants.{GrantAction, is_open, shown_state}
use multi_derp.Control.Grants.Moves.{
  Move, approves, cancels_approval, cancels_request, confirms, leaves_active, leaves_approval,
  rejects, revokes_active, revokes_approval,
}
use multi_derp.Control.Grants.Retry.{Move-IsOpen}
use multi_derp.Control.Schema.{
  GrantRow, GrantState, expired, grant_state_eq, node_state_eq, role_eq,
}

-- The end of the grant lies ahead, or there is none.
abbrev pub NotEnded : GrantRow → Instant → Type 0
NotEnded row now = (row.explicit_until ≡ 0) ⊎ (now < unix_time row.explicit_until)

-- A state other than `expired` is shown as it is stored.
pub shown_state-stored :
    (row : GrantRow) (now : Instant) (s : GrantState)
    → s ≢ expired
    → shown_state row now ≡ s
    → (row.state ≡ s) × (NotEnded row now ⊎ (is_open row.state ≡ false))
unfolding shown_state
shown_state-stored row now s lasting h =
    elim (Bool-cases (
      not (row.explicit_until == 0)
      && not (before now (unix_time row.explicit_until))
      && is_open row.state)) [
        | inl over ↦ absurd (lasting (ground (arith, h, over)))
        | inr stands ↦
            (ground (arith, h, stands), ground (arith, stands, nat_beq_iff row.explicit_until 0))
      ]

pub Move-lasting :
    (s s' : GrantState) (a : GrantAction) → Move s a s' → (s ≢ expired) × (s' ≢ expired)
Move-lasting s s' a approves = (ground arith, ground arith)
Move-lasting s s' a confirms = (ground arith, ground arith)
Move-lasting s s' a cancels_request = (ground arith, ground arith)
Move-lasting s s' a cancels_approval = (ground arith, ground arith)
Move-lasting s s' a rejects = (ground arith, ground arith)
Move-lasting s s' a revokes_approval = (ground arith, ground arith)
Move-lasting s s' a revokes_active = (ground arith, ground arith)
Move-lasting s s' a leaves_approval = (ground arith, ground arith)
Move-lasting s s' a leaves_active = (ground arith, ground arith)

-- A state that an action moves is the stored one, of a grant that has not ended.
pub Move-stored :
    (row : GrantRow) (now : Instant) (a : GrantAction) (next : GrantState)
    → Move (shown_state row now) a next
    → Move row.state a next × NotEnded row now
Move-stored row now a next m =
    let (same, standing) =
      shown_state-stored row now (shown_state row now)
        (Move-lasting (shown_state row now) next a m).0 refl in
    let m' = subst (λ s. Move s a next) (sym same) m in
    (m', ground (arith, standing, Move-IsOpen row.state next a m'))
