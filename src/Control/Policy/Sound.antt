-- ===== src/Control/Policy/Sound.antt =====
-- internal/control/policy.go, buildPolicy: a policy against what the tables allow.
use mathlib.Core.Path.{subst}
use multi_derp.Base.{
  >>=-eq-ok, All, Bool-cases, List, Result, String, [], ap, arith, err, if◌then◌else◌, inl, inr, ok,
  or_fail, or_fail-some, some, sym, ◌+◌, ◌∙◌, ◌≡◌, ◌⊎◌,
}
use multi_derp.Clock.{Instant}
use multi_derp.Cluster.Policy.{GrantPolicy, Policy}
use multi_derp.Control.Identity.{conflicting_keys}
use multi_derp.Control.Policy.{
  Items, Retentions, active_grants, build_policy, collect, draft_policy, find_node, find_policy,
  find_user, node_serves, publish_policy, read_retentions,
}
use multi_derp.Control.Policy.Built.{IsKept, Parts, build_policy-Parts, keeps, publishes}
use multi_derp.Control.Policy.Grants.{IsGranted, active_grants-IsJoin, collect-IsGranted}
use multi_derp.Control.Policy.Serving.{IsServing, node_serves-IsServing}
use multi_derp.Control.Schema.{Database, Env, Node, NodePolicy, StoreError, User, no_rows}

move_silent :
    (Serves : Type 0) (gs gs' : List GrantPolicy)
    → gs' ≡ gs
    → Serves ⊎ (gs ≡ [])
    → Serves ⊎ (gs' ≡ [])
move_silent Serves gs gs' same (inl on) = inl on
move_silent Serves gs gs' same (inr off) = inr (same ∙ off)

module _ (env : Env) where
  -- The JSON text of a policy, where it reads back, reads back as that policy.
  abbrev pub Readable : Type 0
  Readable = (p q : Policy) → env.codec.decode (env.codec.encode p) ≡ some q → q ≡ p

  -- What the tables allow a node's policy to grant: grants that `IsGranted` stands behind, and none
  -- at all unless `IsServing` holds of the node and its owner.
  pub record IsAllowed (db : Database) (id : String) (draft : Policy) : Type 0 where
    pub node : Node
    pub owner : User
    pub retention : Retentions
    pub node_found : find_node id db ≡ some node
    pub owner_found : find_user node.owner_id db ≡ some owner
    pub retained : read_retentions db ≡ ok retention
    pub granted : All (IsGranted db id retention) draft.grants
    pub silent : IsServing node owner ⊎ (draft.grants ≡ [])

  draft_items :
      (db : Database) (id : String) (n : Node) (u : User) (retention : Retentions) (items : Items)
      → (if node_serves n u
          then collect db n.owner_id retention
              (conflicting_keys db.identity_snapshots)
              (active_grants db id)
          else ok ([], []))
        ≡ ok items
      → All (IsGranted db id retention) items.0 × (IsServing n u ⊎ (items.0 ≡ []))
  draft_items db id n u retention items h = elim (Bool-cases (node_serves n u)) [
    | inl on ↦ (
      collect-IsGranted db id n.owner_id retention (active_grants db id) items
          (active_grants-IsJoin db id) (rw on at h),
      inl (node_serves-IsServing n u on),
    )
    | inr off ↦ let e : items ≡ ([], []) = ground arith in (rw e tt, inr (rw e))
  ]

  same_grants-IsAllowed :
      (db : Database) (id : String) (p q : Policy)
      → q.grants ≡ p.grants
      → IsAllowed db id p
      → IsAllowed db id q
  same_grants-IsAllowed db id p q same a = record {
    node = a.node;
    owner = a.owner;
    retention = a.retention;
    node_found = a.node_found;
    owner_found = a.owner_found;
    retained = a.retained;
    granted = subst (All (IsGranted db id a.retention)) (sym same) a.granted;
    silent = move_silent _ _ _ same a.silent;
  }

  abbrev first_grants : Result StoreError (Policy × NodePolicy) → List GrantPolicy
  first_grants (ok (p, r)) = p.grants
  first_grants (err e) = []

  draft_policy-IsAllowed :
      (db : Database) (id : String) (draft : Policy) (row : NodePolicy)
      → draft_policy env db id ≡ ok (draft, row)
      → IsAllowed db id draft
  unfolding draft_policy
  draft_policy-IsAllowed db id draft row h =
      let (n, e₁, h₁) = >>=-eq-ok (or_fail (find_node id db) no_rows) _ h in
      let (u, e₂, h₂) = >>=-eq-ok (or_fail (find_user n.owner_id db) no_rows) _ h₁ in
      let (r, e₃, h₃) = >>=-eq-ok (or_fail (find_policy id db) no_rows) _ h₂ in
      let (retention, e₄, h₄) = >>=-eq-ok (read_retentions db) _ h₃ in
      let (items, e₅, h₅) = >>=-eq-ok _ _ h₄ in
      let (granted, silent) = draft_items db id n u retention items e₅ in
      record {
        node = n;
        owner = u;
        retention = retention;
        node_found = or_fail-some _ _ e₁;
        owner_found = or_fail-some _ _ e₂;
        retained = e₄;
        granted = subst (λ r. All (IsGranted db id retention) (first_grants r)) h₅ granted;
        silent = move_silent _ _ _ (sym (ap first_grants h₅)) silent;
      }

  -- A policy that is kept is the one that the tables give now.
  IsKept-same :
      (draft : Policy) (row : NodePolicy) (p : Policy) (body : String)
      → Readable
      → IsKept env draft row p body
      → p ≡ record draft { revision = p.revision; generated_at = p.generated_at }
  IsKept-same draft row p body readable kept =
      let candidate : Policy = record draft {
        revision = p.revision;
        generated_at = p.generated_at;
      } in
      ground (arith, readable candidate p, kept.same, kept.decoded)

  pub publish_policy-same :
      (draft : Policy) (row : NodePolicy) (p : Policy) (now : Instant) (db db' : Database)
      → publish_policy env draft row now db ≡ ok (p, db')
      → p ≡ record draft { revision = row.desired_revision + 1; generated_at = now }
  unfolding publish_policy
  publish_policy-same draft row p now db db' h = ground arith

  Parts-grants :
      (id : String) (now : Instant) (db db' : Database) (draft : Policy) (row : NodePolicy)
      (p : Policy)
      → Readable
      → Parts env id now db draft row p db'
      → p.grants ≡ draft.grants
  Parts-grants id now db db' draft row p readable (keeps body kept same) =
      ap (λ (q : Policy). q.grants) (IsKept-same draft row p body readable kept)
  Parts-grants id now db db' draft row p readable (publishes h) =
      ap (λ (q : Policy). q.grants) (publish_policy-same draft row p now db db' h)

  -- If the JSON text of a policy reads back as nothing else, then a policy that `build_policy` gives, be it new or kept
  -- from before, holds only what the tables now allow: each grant is an active grant of this node
  -- to a tailnet that is enabled and whose owner is, with deadlines counted from the last successes
  -- and keys that the tailnet's own snapshot lists and the snapshot of no other tailnet does; and a
  -- node that is disabled, or whose owner is, or that has not joined, moves to another domain or is
  -- in conflict over its identity, is given no grant at all.
  pub build_policy-IsAllowed :
      (id : String) (now : Instant) (db db' : Database) (p : Policy)
      → Readable
      → build_policy env id now db ≡ ok (p, db')
      → IsAllowed db id p
  build_policy-IsAllowed id now db db' p readable h =
      let (draft, row, drafted, room, parts) = build_policy-Parts env id now db db' p h in
      same_grants-IsAllowed db id draft p (Parts-grants id now db db' draft row p readable parts)
        (draft_policy-IsAllowed db id draft row drafted)
