-- ===== src/Control/Grants/Retry.antt =====
-- internal/control/grants.go, ApplyGrantAction: an action that is sent again.
use mathlib.Core.Path.{subst}
use multi_derp.Base.{
  Bool-cases, List, String, [], ap, arith, bool_eq, eq_iff, false, find, inl, inr, leb, list_eq,
  nat_beq_iff, nat_eq, ok, option_eq, refl, some, string_eq, sym, true, update, ℕ, ◌+◌, ◌==◌, ◌||◌,
  ◌∙◌, ◌∷◌, ◌≡◌,
}
use multi_derp.Clock.{Instant}
use multi_derp.Cluster.Validate.{max_int64}
use multi_derp.Control.Access.{Actor, active_actor, require_owner}
use multi_derp.Control.Grants.{
  Grant, GrantAction, action_next, action_owner, apply_grant_action, control_success, find_grant,
  is_open, scan_grant, shown_state,
}
use multi_derp.Control.Grants.Moves.{
  Applied, Move, already, apply_grant_action-parts, approves, cancels_approval, cancels_request,
  confirms, leaves_active, leaves_approval, moved, rejects, revokes_active, revokes_approval,
  try_action-Applied,
}
use multi_derp.Control.Schema.{
  Database, Env, GrantRow, GrantState, grant_state_beq_iff, grant_state_eq, node_state_eq, role_eq,
}

find_grant-update :
    (id : String) (f : GrantRow → GrantRow) (rows : List GrantRow) (row : GrantRow)
    → ((r : GrantRow) → (f r).id ≡ r.id)
    → find (λ r. r.id == id) rows ≡ some row
    → find (λ r. r.id == id) (update (λ r. r.id == id) f rows) ≡ some (f row)
find_grant-update id f [] row keep h = cc
find_grant-update id f (r ∷ rows) row keep h =
    ground (arith, keep r, find_grant-update id f rows row keep, eq_iff r.id id)

pub Move-IsOpen : (s s' : GrantState) (a : GrantAction) → Move s a s' → is_open s ≡ true
Move-IsOpen s s' a approves = refl
Move-IsOpen s s' a confirms = refl
Move-IsOpen s s' a cancels_request = refl
Move-IsOpen s s' a cancels_approval = refl
Move-IsOpen s s' a rejects = refl
Move-IsOpen s s' a revokes_approval = refl
Move-IsOpen s s' a revokes_active = refl
Move-IsOpen s s' a leaves_approval = refl
Move-IsOpen s s' a leaves_active = refl

-- A state that an action moves is shown as it is stored, and so is the one it moves to.
Move-shown :
    (row : GrantRow) (s : GrantState) (r : ℕ) (n : ℕ) (now : Instant) (a : GrantAction)
    → Move (shown_state row now) a s
    → shown_state (record row { state = s; revision = r; last_control_success = n }) now ≡ s
unfolding shown_state
Move-shown row s r n now a m = ground (arith, Move-IsOpen (shown_state row now) s a m)

module _ (env : Env) where
  scan_grant-moved :
      (db db' : Database) (now : Instant) (row : GrantRow) (g : Grant) (s : GrantState) (r n : ℕ)
      → (db'.users ≡ db.users) × (db'.nodes ≡ db.nodes) × (db'.tailnets ≡ db.tailnets)
      → shown_state (record row { state = s; revision = r; last_control_success = n }) now ≡ s
      → scan_grant db now row ≡ ok g
      → scan_grant db' now (record row { state = s; revision = r; last_control_success = n })
        ≡ ok (record g { state = s; revision = r })
  unfolding scan_grant
  scan_grant-moved db db' now row g s r n (users, nodes, tailnets) shown h =
      rw (users, nodes, tailnets) (ground (arith, shown, h))

  action_owner-moved :
      (a : GrantAction) (g : Grant) (s : GrantState) (r : ℕ)
      → action_owner a (record g { state = s; revision = r }) ≡ action_owner a g
  action_owner-moved a g s r = ground arith

  apply_grant_action-bounds :
      (actor : Actor) (id : String) (expected : ℕ) (action : GrantAction) (now : Instant)
      (db : Database) (r : Grant × Database)
      → apply_grant_action env actor id expected action now db ≡ ok r
      → (expected == 0 || leb max_int64 expected) ≡ false
  unfolding apply_grant_action
  apply_grant_action-bounds actor id expected action now db r h =
      elim (Bool-cases (expected == 0 || leb max_int64 expected)) [
        | inl e ↦ absurd (ground (arith, rw e at h))
        | inr e ↦ e
      ]

  active_actor-users :
      (actor : Actor) (db db' : Database)
      → db'.users ≡ db.users
      → active_actor db' actor ≡ active_actor db actor
  unfolding active_actor
  active_actor-users actor db db' e = rw e

  -- An action that has been done.
  apply_grant_action-done :
      (actor : Actor) (id : String) (expected : ℕ) (action : GrantAction) (now : Instant)
      (db : Database) (row : GrantRow) (g : Grant)
      → (expected == 0 || leb max_int64 expected) ≡ false
      → active_actor db actor ≡ ok tt
      → find_grant id db ≡ some row
      → scan_grant db now row ≡ ok g
      → require_owner actor (action_owner action g) ≡ ok tt
      → g.state ≡ action_next action
      → g.revision ≡ expected + 1
      → apply_grant_action env actor id expected action now db ≡ ok (g, db)
  unfolding apply_grant_action
  apply_grant_action-done actor id expected action now db row g e₀ e₁ e₂ e₃ e₄ e₅ e₆ =
      rw (e₀, e₁, e₂, e₃, e₄)
        (ground (
          arith,
          grant_state_beq_iff g.state (action_next action),
          nat_beq_iff g.revision (expected + 1),
        ))

  retry :
      (actor : Actor) (id : String) (expected : ℕ) (action : GrantAction) (now : Instant)
      (row : GrantRow) (g g' : Grant) (db db' : Database)
      → apply_grant_action env actor id expected action now db ≡ ok (g', db')
      → find_grant id db ≡ some row
      → scan_grant db now row ≡ ok g
      → active_actor db actor ≡ ok tt
      → require_owner actor (action_owner action g) ≡ ok tt
      → Applied env id expected action now row db g' db'
      → apply_grant_action env actor id expected action now db' ≡ ok (g', db')
  retry actor id expected action now row g g' db db' h found scanned actives owned
        (already shown current same e) =
      subst (λ d. apply_grant_action env actor id expected action now d ≡ ok (g', db')) (sym e) h
  retry actor id expected action now row g g' db db' h found scanned actives owned
        (moved move current (g₁, scanned₁, able, made) grants (users, nodes, tailnets)) =
      let next = action_next action in
      let n = control_success next now in
      let f : GrantRow → GrantRow =
        λ r. record r { state = next; revision = expected + 1; last_control_success = n } in
      let same : g₁ ≡ g = ground (arith, scanned, scanned₁) in
      let found' : find_grant id db' ≡ some (f row) =
        rw grants (find_grant-update id f db.grants row (λ r. refl) found) in
      let owner : action_owner action g' ≡ action_owner action g =
        rw (made, same) (action_owner-moved action g next (expected + 1)) in
      let scanned' : scan_grant db' now (f row) ≡ ok g' =
        rw (made, same)
          (scan_grant-moved db db' now row g next (expected + 1) n (users, nodes, tailnets)
            (Move-shown row next (expected + 1) n now action move) scanned) in
      apply_grant_action-done actor id expected action now db' (f row) g'
        (apply_grant_action-bounds actor id expected action now db (g', db') h)
        (active_actor-users actor db db' users ∙ actives) found' scanned'
        (ap (require_owner actor) owner ∙ owned) (ap (λ (x : Grant). x.state) made)
        (ap (λ (x : Grant). x.revision) made)

  -- An action on a grant that succeeded and is sent again at the same time, with the revision that
  -- it expected the first time, succeeds again with the same grant and changes nothing more: no
  -- second revision, no second policy and no second line of the audit trail.
  pub apply_grant_action-retry :
      (actor : Actor) (id : String) (expected : ℕ) (action : GrantAction) (now : Instant)
      (g' : Grant) (db db' : Database)
      → apply_grant_action env actor id expected action now db ≡ ok (g', db')
      → apply_grant_action env actor id expected action now db' ≡ ok (g', db')
  apply_grant_action-retry actor id expected action now g' db db' h =
      let (row, g, found, scanned, actives, owned, rest) =
        apply_grant_action-parts env actor id expected action now db db' g' h in
      retry actor id expected action now row g g' db db' h found scanned actives owned
        (try_action-Applied env actor id expected action now row g g' db db' scanned rest)
