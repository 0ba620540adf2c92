-- ===== src/Control/Grants/Acted.antt =====
-- internal/control/grants.go, ApplyGrantAction: what an action that succeeds has done.
use mathlib.Core.Path.{subst}
use multi_derp.Base.{
  >>=-eq-ok, String, ap, arith, bool_eq, fail_if, false, inl, inr, list_eq, nat_eq, not, ok,
  option_eq, or_fail, or_fail-some, refl, some, string_eq, sym, true, update, ℕ, ◌+◌, ◌==◌, ◌>>=◌,
  ◌∙◌, ◌≡◌, ◌≢◌, ◌⊎◌,
}
use multi_derp.Clock.{Instant}
use multi_derp.Control.Access.{Actor}
use multi_derp.Control.Access.Rights.{require_owner-ok}
use multi_derp.Control.Grants.{
  Grant, GrantAction, action_next, action_owner, apply_grant_action, approve, cancel,
  check_resources, confirm, control_success, find_grant, grant_resources_enabled, is_open, leave,
  reject, revoke, scan_grant,
}
use multi_derp.Control.Grants.Enabled.{AreEnabled, grant_resources_enabled-AreEnabled}
use multi_derp.Control.Grants.Lasting.{Move-lasting, Move-stored, NotEnded, shown_state-stored}
use multi_derp.Control.Grants.Moves.{
  Applied, Move, already, apply_grant_action-parts, approves, cancels_request, confirms,
  leaves_active, moved, rejects, revokes_active, scan_grant-row, try_action-Applied,
}
use multi_derp.Control.Policy.{find_node, find_tailnet, find_user}
use multi_derp.Control.Schema.{
  Database, Env, GrantRow, GrantState, Node, Tailnet, active, admin, cancelled, conflict, expired,
  grant_state_eq, no_rows, node_state_eq, owner_approved, rejected, requested, revoked, role_eq,
  storage, unix,
}

-- On whose side an action is: the node's owner's or the tailnet's owner's.
pub data ActsFor (n : Node) (t : Tailnet) (id : String) : GrantAction → Type 0 where
  node_approves : id ≡ n.owner_id → ActsFor n t id approve
  node_rejects : id ≡ n.owner_id → ActsFor n t id reject
  node_revokes : id ≡ n.owner_id → ActsFor n t id revoke
  tailnet_confirms : id ≡ t.owner_id → ActsFor n t id confirm
  tailnet_cancels : id ≡ t.owner_id → ActsFor n t id cancel
  tailnet_leaves : id ≡ t.owner_id → ActsFor n t id leave

-- What an action needs: one that opens a grant further needs both sides in use.
pub data Backed (db : Database) (n : Node) (t : Tailnet) : GrantAction → Type 0 where
  approval : AreEnabled db n t → Backed db n t approve
  confirmation : AreEnabled db n t → Backed db n t confirm
  cancellation : Backed db n t cancel
  rejection : Backed db n t reject
  revocation : Backed db n t revoke
  departure : Backed db n t leave

-- The last contact with the control plane that is stored with a state: now for an active grant.
abbrev pub Contact : GrantState → Instant → ℕ → Type 0
Contact s now contact = ((s ≡ active) × (contact ≡ unix now)) ⊎ ((s ≢ active) × (contact ≡ 0))

-- Either the grant already was where the action leads and nothing is stored, or its stored state
-- moves.
pub data Acted (id : String) (expected : ℕ) (action : GrantAction) (now : Instant) (row : GrantRow)
    (n : Node) (t : Tailnet) (db : Database) (g' : Grant) (db' : Database) : Type 0 where
  stood :
      (from : GrantState)
      → Move from action row.state
      → NotEnded row now ⊎ (is_open row.state ≡ false)
      → (row.revision ≡ expected) ⊎ (row.revision ≡ expected + 1)
      → scan_grant db now row ≡ ok g'
      → db' ≡ db
      → Acted id expected action now row n t db g' db'
  takes_effect :
      (next : GrantState) (contact : ℕ)
      → Move row.state action next
      → NotEnded row now
      → row.revision ≡ expected
      → Backed db n t action
      → Contact next now contact
      → (g : Grant) × (scan_grant db now row ≡ ok g)
        × (g' ≡ record g { state = next; revision = expected + 1 })
      → (db'.grants
          ≡ update
              (λ r. r.id == id)
              (λ r. record r {
                state = next;
                revision = expected + 1;
                last_control_success = contact;
              })
              db.grants)
      → (db'.users ≡ db.users) × (db'.nodes ≡ db.nodes) × (db'.tailnets ≡ db.tailnets)
      → Acted id expected action now row n t db g' db'

action_owner-ActsFor :
    (n : Node) (t : Tailnet) (id : String) (a : GrantAction) (g : Grant)
    → g.node_owner_id ≡ n.owner_id
    → g.tailnet_owner_id ≡ t.owner_id
    → id ≡ action_owner a g
    → ActsFor n t id a
action_owner-ActsFor n t id approve g a b h = node_approves (h ∙ a)
action_owner-ActsFor n t id reject g a b h = node_rejects (h ∙ a)
action_owner-ActsFor n t id revoke g a b h = node_revokes (h ∙ a)
action_owner-ActsFor n t id confirm g a b h = tailnet_confirms (h ∙ b)
action_owner-ActsFor n t id cancel g a b h = tailnet_cancels (h ∙ b)
action_owner-ActsFor n t id leave g a b h = tailnet_leaves (h ∙ b)

action_next-Move : (a : GrantAction) → (s : GrantState) × Move s a (action_next a)
action_next-Move approve = (requested, approves)
action_next-Move confirm = (owner_approved, confirms)
action_next-Move cancel = (requested, cancels_request)
action_next-Move reject = (requested, rejects)
action_next-Move revoke = (active, revokes_active)
action_next-Move leave = (active, leaves_active)

pub control_success-Contact :
    (s : GrantState) (now : Instant) → Contact s now (control_success s now)
control_success-Contact active now = inl (refl, refl)
control_success-Contact requested now = inr (ground arith, refl)
control_success-Contact owner_approved now = inr (ground arith, refl)
control_success-Contact cancelled now = inr (ground arith, refl)
control_success-Contact rejected now = inr (ground arith, refl)
control_success-Contact revoked now = inr (ground arith, refl)
control_success-Contact expired now = inr (ground arith, refl)

scan_grant-sides :
    (db : Database) (now : Instant) (row : GrantRow) (g : Grant)
    → scan_grant db now row ≡ ok g
    → (n : Node) × (t : Tailnet) × (find_node row.node_id db ≡ some n)
      × (find_tailnet row.tailnet_id db ≡ some t)
      × (g.node_owner_id ≡ n.owner_id)
      × (g.tailnet_owner_id ≡ t.owner_id)
unfolding scan_grant
scan_grant-sides db now row g h =
    let (n, e₀, h₀) = >>=-eq-ok (or_fail (find_node row.node_id db) no_rows) _ h in
    let (t, e₁, h₁) = >>=-eq-ok (or_fail (find_tailnet row.tailnet_id db) no_rows) _ h₀ in
    let (u, e₂, h₂) = >>=-eq-ok (or_fail (find_user t.owner_id db) storage) _ h₁ in
    (n, t, or_fail-some _ _ e₀, or_fail-some _ _ e₁, ground (arith, h₂), ground (arith, h₂))

enabled_true :
    (db : Database) (node tailnet : String)
    → (grant_resources_enabled db node tailnet >>= λ enabled. fail_if (not enabled) conflict)
      ≡ ok tt
    → grant_resources_enabled db node tailnet ≡ ok true
enabled_true db node tailnet h =
    let (b, e, h') = >>=-eq-ok (grant_resources_enabled db node tailnet) _ h in
    let on : b ≡ true = ground (arith, h') in e ∙ ap ok on

check_resources-Backed :
    (action : GrantAction) (g : Grant) (db : Database) (n : Node) (t : Tailnet)
    → find_node g.node_id db ≡ some n
    → find_tailnet g.tailnet_id db ≡ some t
    → check_resources action g db ≡ ok tt
    → Backed db n t action
unfolding check_resources
check_resources-Backed approve g db n t a b h = approval (
    grant_resources_enabled-AreEnabled db n t g.node_id g.tailnet_id a b
      (enabled_true db g.node_id g.tailnet_id h))
check_resources-Backed confirm g db n t a b h = confirmation (
    grant_resources_enabled-AreEnabled db n t g.node_id g.tailnet_id a b
      (enabled_true db g.node_id g.tailnet_id h))
check_resources-Backed cancel g db n t a b h = cancellation
check_resources-Backed reject g db n t a b h = rejection
check_resources-Backed revoke g db n t a b h = revocation
check_resources-Backed leave g db n t a b h = departure

module _ (env : Env) where
  Applied-Acted :
      (id : String) (expected : ℕ) (action : GrantAction) (now : Instant) (row : GrantRow)
      (n : Node) (t : Tailnet) (db db' : Database) (g' : Grant)
      → find_node row.node_id db ≡ some n
      → find_tailnet row.tailnet_id db ≡ some t
      → Applied env id expected action now row db g' db'
      → Acted id expected action now row n t db g' db'
  Applied-Acted id expected action now row n t db db' g' at_n at_t
        (already shown current scanned same) =
      let (from, m) = action_next-Move action in
      let (stored, standing) =
        shown_state-stored row now (action_next action)
          (Move-lasting from (action_next action) action m).1 shown in
      stood from (subst (Move from action) (sym stored) m) standing current scanned same
  Applied-Acted id expected action now row n t db db' g' at_n at_t
        (moved move current (g, scanned, able, made) grants others) =
      let (m, standing) = Move-stored row now action (action_next action) move in
      let (shown, numbered, node, tailnet) = scan_grant-row env db now row g scanned in
      let backed = check_resources-Backed action g db n t (rw node at_n) (rw tailnet at_t) able in
      takes_effect (action_next action) (control_success (action_next action) now) m standing
        current backed (control_success-Contact (action_next action) now) (g, scanned, made) grants
        others

  -- If an action on a grant succeeds, then the actor is enabled, and is an administrator or the owner
  -- of the node that approves, rejects or revokes, or the owner of the tailnet that confirms, cancels
  -- or leaves. Either the grant already stood where the action leads, at the revision the caller
  -- expected or the next, and nothing is stored; or the grant has not reached its end, its stored
  -- state moves the way the table of moves says, at the revision the caller expected, an approval or
  -- a confirmation finds both sides enabled, and the new state is stored under the next revision, with
  -- the time of the contact if it is active.
  pub apply_grant_action-Acted :
      (actor : Actor) (id : String) (expected : ℕ) (action : GrantAction) (now : Instant)
      (db db' : Database) (g' : Grant)
      → apply_grant_action env actor id expected action now db ≡ ok (g', db')
      → (row : GrantRow) × (n : Node) × (t : Tailnet) × (find_grant id db ≡ some row)
        × (find_node row.node_id db ≡ some n)
        × (find_tailnet row.tailnet_id db ≡ some t)
        × (actor.enabled ≡ true)
        × ((actor.role ≡ admin) ⊎ ActsFor n t actor.id action)
        × Acted id expected action now row n t db g' db'
  apply_grant_action-Acted actor id expected action now db db' g' h =
      let (row, g, found, scanned, actives, owned, rest) =
        apply_grant_action-parts env actor id expected action now db db' g' h in
      let (enabled, named, entitled) = require_owner-ok actor (action_owner action g) owned in
      let (n, t, at_n, at_t, own_n, own_t) = scan_grant-sides db now row g scanned in
      let side : (actor.role ≡ admin) ⊎ ActsFor n t actor.id action = elim entitled [
        | inl as_admin ↦ inl as_admin
        | inr mine ↦ inr (action_owner-ActsFor n t actor.id action g own_n own_t mine)
      ] in
      (
        row,
        n,
        t,
        found,
        at_n,
        at_t,
        enabled,
        side,
        Applied-Acted id expected action now row n t db db' g' at_n at_t
            (try_action-Applied env actor id expected action now row g g' db db' scanned rest),
      )
