-- ===== src/Control/Grants/Written.antt =====
-- internal/control/grants.go, RequestGrant: what the writes of a request leave.
use mathlib.Core.Path.{subst}
use multi_derp.Base.{
  >>=-eq-ok, Bool-cases, List, String, [], any, arith, eq_iff, false, find, if◌then◌else◌, inl, inr,
  nat_beq_iff, ok, refl, some, sym, true, update, ◌++◌, ◌+◌, ◌<◌, ◌∷◌, ◌≡◌, ◌⊎◌,
}
use multi_derp.Clock.{Instant, is_zero}
use multi_derp.Control.Access.{Actor, write_audit}
use multi_derp.Control.Grants.{Grant, control_success, put_grant, same_pair, store_request}
use multi_derp.Control.Grants.Acted.{Contact, control_success-Contact}
use multi_derp.Control.Policy.{build_policy}
use multi_derp.Control.Policy.Built.{build_policy-only}
use multi_derp.Control.Schema.{Database, Env, GrantRow, GrantState, unix}

-- `put_grant` stores under the pair of node and tailnet.
pub record IsStored (g : GrantRow) (rows : List GrantRow) : Type 0 where
  pub stored : GrantRow
  pub found : find (same_pair g.node_id g.tailnet_id) rows ≡ some stored
  pub state : stored.state ≡ g.state
  pub revision : stored.revision ≡ g.revision
  pub until : stored.explicit_until ≡ g.explicit_until
  pub success : stored.last_control_success ≡ g.last_control_success

abbrev put_row : GrantRow → GrantRow → GrantRow
put_row g r = record r {
  state = g.state;
  revision = g.revision;
  explicit_until = g.explicit_until;
  last_control_success = g.last_control_success;
}

update-put :
    (g : GrantRow) (rows : List GrantRow)
    → any (same_pair g.node_id g.tailnet_id) rows ≡ true
    → (r : GrantRow) × (find
          (same_pair g.node_id g.tailnet_id)
          (update (same_pair g.node_id g.tailnet_id) (put_row g) rows)
        ≡ some (put_row g r))
update-put g [] h = absurd (ground arith)
update-put g (r ∷ rows) h = elim (Bool-cases (same_pair g.node_id g.tailnet_id r)) [
  | inl e ↦ (r, ground (arith, e))
  | inr e ↦ let (r', e') = update-put g rows (ground (arith, e, h)) in (r', ground (arith, e, e'))
]

append-put :
    (g : GrantRow) (rows : List GrantRow)
    → any (same_pair g.node_id g.tailnet_id) rows ≡ false
    → find (same_pair g.node_id g.tailnet_id) (rows ++ g ∷ []) ≡ some g
append-put g [] h = ground (arith, eq_iff g.node_id g.node_id, eq_iff g.tailnet_id g.tailnet_id)
append-put g (r ∷ rows) h = ground (arith, h, append-put g rows)

pub put_grant-IsStored :
    (g : GrantRow) (rows rows' : List GrantRow) → put_grant g rows ≡ ok rows' → IsStored g rows'
unfolding put_grant
put_grant-IsStored g rows rows' h =
    elim (Bool-cases (any (same_pair g.node_id g.tailnet_id) rows)) [
      | inl e ↦
          let (r, e') = update-put g rows e in
          let same : update (same_pair g.node_id g.tailnet_id) (put_row g) rows ≡ rows' =
            ground (arith, e, h) in
          record {
            stored = put_row g r;
            found = rw same at e';
            state = refl;
            revision = refl;
            until = refl;
            success = refl;
          }
      | inr e ↦
          let same : rows ++ g ∷ [] ≡ rows' = ground (arith, e, h) in
          record {
            stored = g;
            found =
                subst (λ x. find (same_pair g.node_id g.tailnet_id) x ≡ some g) same
                  (append-put g rows e);
            state = refl;
            revision = refl;
            until = refl;
            success = refl;
          }
    ]

-- The grant of the node and the tailnet, as the tables hold it after a request.
pub record IsWritten (node tailnet : String) (g' : Grant) (now : Instant) (rows : List GrantRow)
    : Type 0 where
  pub row : GrantRow
  pub row_found : find (same_pair node tailnet) rows ≡ some row
  pub same_state : row.state ≡ g'.state
  pub same_revision : row.revision ≡ g'.revision
  pub same_end :
      ((g'.explicit_until ≡ 0) × (row.explicit_until ≡ 0))
      ⊎ ((0 < g'.explicit_until) × (row.explicit_until ≡ unix g'.explicit_until))
  pub contact : Contact g'.state now row.last_control_success

abbrev pub next_of : GrantState → Instant → Grant → Grant
next_of state until g = record g {
  state = state;
  revision = g.revision + 1;
  explicit_until = until;
}

until_stored :
    (until : Instant)
    → ((until ≡ 0) × ((if is_zero until then 0 else unix until) ≡ 0))
      ⊎ ((0 < until) × ((if is_zero until then 0 else unix until) ≡ unix until))
until_stored until = ground (arith, nat_beq_iff until 0)

module _ (env : Env) where
  -- The row that a request writes.
  abbrev pub request_row : Grant → GrantState → Instant → Instant → GrantRow
  request_row g state until now = record {
    id = g.id;
    node_id = g.node_id;
    tailnet_id = g.tailnet_id;
    state = state;
    revision = g.revision + 1;
    explicit_until = if is_zero until then 0 else unix until;
    last_control_success = control_success state now;
  }

  store_request-IsStored :
      (actor : Actor) (g g' : Grant) (state : GrantState) (until now : Instant) (db db' : Database)
      → store_request env actor g state until now db ≡ ok (g', db')
      → (g' ≡ record g { state = state; revision = g.revision + 1; explicit_until = until })
        × IsStored (request_row g state until now) db'.grants
  unfolding store_request write_audit
  store_request-IsStored actor g g' state until now db db' h =
      let row = request_row g state until now in
      let (rows, e₁, h₁) = >>=-eq-ok (put_grant row db.grants) _ h in
      let ((p, db₁), e₂, h₂) =
        >>=-eq-ok (build_policy env g.node_id now (record db { grants = rows })) _ h₁ in
      let only : db₁ ≡ record db { grants = rows; node_policies = db₁.node_policies } =
        build_policy-only env g.node_id now (record db { grants = rows }) db₁ p e₂ in
      let same : db'.grants ≡ rows = ground (arith, only, h₂) in
      (
        ground (arith, h₂),
        subst (IsStored row) (sym same) (put_grant-IsStored row db.grants rows e₁),
      )

  -- What the writes of a request leave.
  pub store_request-IsWritten :
      (actor : Actor) (g g' : Grant) (node tailnet : String) (state : GrantState)
      (until now : Instant) (db db' : Database)
      → g.node_id ≡ node
      → g.tailnet_id ≡ tailnet
      → store_request env actor g state until now db ≡ ok (g', db')
      → (g' ≡ record g { state = state; revision = g.revision + 1; explicit_until = until })
        × IsWritten node tailnet g' now db'.grants
  store_request-IsWritten actor g g' node tailnet state until now db db' at_node at_tailnet h =
      let (made, w) = store_request-IsStored actor g g' state until now db db' h in
      let pair : find (same_pair node tailnet) db'.grants ≡ some w.stored =
        subst (λ x. find (same_pair x tailnet) db'.grants ≡ some w.stored) at_node
          (subst (λ x. find (same_pair g.node_id x) db'.grants ≡ some w.stored) at_tailnet
            w.found) in
      let new : Grant = record g {
        state = state;
        revision = g.revision + 1;
        explicit_until = until;
      } in
      let written : IsWritten node tailnet new now db'.grants = record {
        row = w.stored;
        row_found = pair;
        same_state = w.state;
        same_revision = w.revision;
        same_end = ground (arith, until_stored until, w.until);
        contact = subst (Contact state now) (sym w.success) (control_success-Contact state now);
      } in
      (made, subst (λ x. IsWritten node tailnet x now db'.grants) (sym made) written)
