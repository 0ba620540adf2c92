-- ===== src/Control/Grants/Moves.antt =====
-- internal/control/grants.go, ApplyGrantAction: who may take an action on a grant, and from where to
-- where it leads.
use mathlib.Core.Path.{subst}
use multi_derp.Base.{
  >>=-eq-ok, Bool-cases, Result, String, ap, arith, bool_eq, fail_if, if◌then◌else◌, inl, inr, leb,
  list_eq, nat_beq_iff, nat_eq, not, ok, option_eq, or_fail, or_fail-some, some, string_eq, sym,
  true, update, ℕ, ◌&&◌, ◌+◌, ◌==◌, ◌>>◌, ◌||◌, ◌∙◌, ◌≡◌, ◌⊎◌,
}
use multi_derp.Clock.{Instant}
use multi_derp.Cluster.Validate.{max_int64}
use multi_derp.Control.Access.{Actor, active_actor, require_owner, write_audit}
use multi_derp.Control.Grants.{
  Grant, GrantAction, action_allowed, action_next, action_owner, apply_grant_action, approve,
  cancel, check_resources, confirm, control_success, find_grant, leave, reject, revoke, scan_grant,
  shown_state, store_action,
}
use multi_derp.Control.Policy.{build_policy}
use multi_derp.Control.Policy.Built.{build_policy-only}
use multi_derp.Control.Schema.{
  Database, Env, GrantRow, GrantState, StoreError, active, cancelled, conflict, grant_state_beq_iff,
  grant_state_eq, invalid, no_rows, node_state_eq, owner_approved, rejected, requested, revoked,
  role_eq,
}

-- The life of a grant between two owners, one constructor for each action and state it starts from.
pub data Move : GrantState → GrantAction → GrantState → Type 0 where
  approves : Move requested approve owner_approved
  confirms : Move owner_approved confirm active
  cancels_request : Move requested cancel cancelled
  cancels_approval : Move owner_approved cancel cancelled
  rejects : Move requested reject rejected
  revokes_approval : Move owner_approved revoke revoked
  revokes_active : Move active revoke revoked
  leaves_approval : Move owner_approved leave revoked
  leaves_active : Move active leave revoked

pub action_allowed-Move :
    (a : GrantAction) (s : GrantState) → action_allowed a s ≡ true → Move s a (action_next a)
unfolding action_allowed
action_allowed-Move approve requested h = approves
action_allowed-Move confirm owner_approved h = confirms
action_allowed-Move cancel requested h = cancels_request
action_allowed-Move cancel owner_approved h = cancels_approval
action_allowed-Move reject requested h = rejects
action_allowed-Move revoke owner_approved h = revokes_approval
action_allowed-Move revoke active h = revokes_active
action_allowed-Move leave owner_approved h = leaves_approval
action_allowed-Move leave active h = leaves_active
action_allowed-Move approve _ h = absurd (ground arith)
action_allowed-Move confirm _ h = absurd (ground arith)
action_allowed-Move cancel _ h = absurd (ground arith)
action_allowed-Move reject _ h = absurd (ground arith)
action_allowed-Move revoke _ h = absurd (ground arith)
action_allowed-Move leave _ h = absurd (ground arith)

module _ (env : Env) where
  -- What `build_policy` and `write_audit` leave of the tables.
  store_action-tables :
      (actor : Actor) (id : String) (action : GrantAction) (g g' : Grant) (now : Instant)
      (db db' : Database)
      → store_action env actor id action g now db ≡ ok (g', db')
      → (g' ≡ record g { state = action_next action; revision = g.revision + 1 })
        × (db'.grants
            ≡ update
                (λ r. r.id == id)
                (λ r. record r {
                  state = action_next action;
                  revision = g.revision + 1;
                  last_control_success = control_success (action_next action) now;
                })
                db.grants)
        × (db'.users ≡ db.users)
        × (db'.nodes ≡ db.nodes)
        × (db'.tailnets ≡ db.tailnets)
  unfolding store_action write_audit
  store_action-tables actor id action g g' now db db' h =
      let changed : Database = record db {
        grants =
            update (λ r. r.id == id)
              (λ r. record r {
                state = action_next action;
                revision = g.revision + 1;
                last_control_success = control_success (action_next action) now;
              })
              db.grants;
      } in
      let ((p, db₁), e, h') = >>=-eq-ok (build_policy env g.node_id now changed) _ h in
      let only : db₁ ≡ record changed { node_policies = db₁.node_policies } =
        build_policy-only env g.node_id now changed db₁ p e in
      ground (arith, only, h')

  -- The grant is as the action would have it, or the action is a move from its state, taken at the
  -- revision that the caller expected.
  pub data Applied (id : String) (expected : ℕ) (action : GrantAction) (now : Instant)
      (row : GrantRow) (db : Database) (g' : Grant) (db' : Database) : Type 0 where
    already :
        shown_state row now ≡ action_next action
        → (row.revision ≡ expected) ⊎ (row.revision ≡ expected + 1)
        → scan_grant db now row ≡ ok g'
        → db' ≡ db
        → Applied id expected action now row db g' db'
    moved :
        Move (shown_state row now) action (action_next action)
        → row.revision ≡ expected
        → (g : Grant) × (scan_grant db now row ≡ ok g)
          × (check_resources action g db ≡ ok tt)
          × (g' ≡ record g { state = action_next action; revision = expected + 1 })
        → (db'.grants
            ≡ update
                (λ r. r.id == id)
                (λ r. record r {
                  state = action_next action;
                  revision = expected + 1;
                  last_control_success = control_success (action_next action) now;
                })
                db.grants)
        → (db'.users ≡ db.users) × (db'.nodes ≡ db.nodes) × (db'.tailnets ≡ db.tailnets)
        → Applied id expected action now row db g' db'

  pub scan_grant-row :
      (db : Database) (now : Instant) (row : GrantRow) (g : Grant)
      → scan_grant db now row ≡ ok g
      → (g.state ≡ shown_state row now)
        × (g.revision ≡ row.revision)
        × (g.node_id ≡ row.node_id)
        × (g.tailnet_id ≡ row.tailnet_id)
  unfolding scan_grant
  scan_grant-row db now row g h = ground arith

  -- The last part of `apply_grant_action`.
  abbrev pub try_action :
      Actor
      → String
      → ℕ
      → GrantAction
      → Grant
      → Instant
      → Database
      → Result StoreError (Grant × Database)
  try_action actor id expected action g now db =
      if g.state == action_next action && (g.revision == expected || g.revision == expected + 1)
      then ok (g, db)
      else (do
        fail_if (not (g.revision == expected) || not (action_allowed action g.state)) conflict
        check_resources action g db
        store_action env actor id action g now db)

  pub try_action-Applied :
      (actor : Actor) (id : String) (expected : ℕ) (action : GrantAction) (now : Instant)
      (row : GrantRow) (g g' : Grant) (db db' : Database)
      → scan_grant db now row ≡ ok g
      → try_action actor id expected action g now db ≡ ok (g', db')
      → Applied id expected action now row db g' db'
  try_action-Applied actor id expected action now row g g' db db' scanned h =
      let (shown, numbered, named, tailnet) = scan_grant-row db now row g scanned in
      elim (Bool-cases
        (g.state == action_next action && (g.revision == expected || g.revision == expected + 1))) [
          | inl e ↦
              let rest : (g ≡ g') × (db ≡ db') = ground arith in
              already (ground (arith, grant_state_beq_iff g.state (action_next action)))
                (ground
                  (arith, nat_beq_iff g.revision expected, nat_beq_iff g.revision (expected + 1)))
                (scanned ∙ ap ok rest.0) (sym rest.1)
          | inr e ↦
              let (x, free, h₁) =
                >>=-eq-ok
                  (fail_if (not (g.revision == expected) || not (action_allowed action g.state))
                    conflict)
                  _ (rw e at h) in
              let (y, able, h₂) = >>=-eq-ok (check_resources action g db) _ h₁ in
              let (made, grants, users, nodes, tailnets) =
                store_action-tables actor id action g g' now db db' h₂ in
              let current : g.revision ≡ expected =
                ground (arith, nat_beq_iff g.revision expected) in
              let fit : action_allowed action g.state ≡ true = ground arith in
              moved
                (subst (λ s. Move s action (action_next action)) shown
                  (action_allowed-Move action g.state fit))
                (sym numbered ∙ current) (g, scanned, able, rw current at made)
                (rw current at grants) (users, nodes, tailnets)
        ]

  pub apply_grant_action-parts :
      (actor : Actor) (id : String) (expected : ℕ) (action : GrantAction) (now : Instant)
      (db db' : Database) (g' : Grant)
      → apply_grant_action env actor id expected action now db ≡ ok (g', db')
      → (row : GrantRow) × (g : Grant) × (find_grant id db ≡ some row)
        × (scan_grant db now row ≡ ok g)
        × (active_actor db actor ≡ ok tt)
        × (require_owner actor (action_owner action g) ≡ ok tt)
        × (try_action actor id expected action g now db ≡ ok (g', db'))
  unfolding apply_grant_action
  apply_grant_action-parts actor id expected action now db db' g' h =
      let (x, e₀, h₀) = >>=-eq-ok (fail_if (expected == 0 || leb max_int64 expected) invalid) _ h in
      let (y, e₁, h₁) = >>=-eq-ok (active_actor db actor) _ h₀ in
      let (row, e₂, h₂) = >>=-eq-ok (or_fail (find_grant id db) no_rows) _ h₁ in
      let (g, e₃, h₃) = >>=-eq-ok (scan_grant db now row) _ h₂ in
      let (z, e₄, h₄) = >>=-eq-ok (require_owner actor (action_owner action g)) _ h₃ in
      (row, g, or_fail-some _ _ e₂, e₃, e₁, e₄, h₄)
