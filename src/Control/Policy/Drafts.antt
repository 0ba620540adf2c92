-- ===== src/Control/Policy/Drafts.antt =====
-- internal/control/policy.go, buildPolicy: what a draft is made from, before and after publishing.
use multi_derp.Base.{
  >>=-eq-ok, List, Option-cases, Result, String, [], ap, arith, bool_eq, find, if◌then◌else◌, inl,
  inr, nat_eq, ok, option_eq, or_fail, or_fail-some, refl, some, string_eq, update, ◌==◌, ◌∙◌, ◌∷◌,
  ◌≡◌,
}
use multi_derp.Cluster.Policy.{Policy}
use multi_derp.Control.Identity.{conflicting_keys}
use multi_derp.Control.Policy.{
  GrantJoin, Items, Retentions, active_grants, collect, draft_policy, find_node, find_policy,
  find_user, join_grant, join_grants, join_tailnet, node_serves, read_retentions,
}
use multi_derp.Control.Policy.Built.{find_policy-update}
use multi_derp.Control.Schema.{
  Database, Env, GrantRow, Node, NodePolicy, StoreError, User, grant_state_eq, no_rows,
  node_state_eq, role_eq, unix,
}

module _ (env : Env) where
  -- The row of a node after `publish_policy`.
  abbrev pub published_row : NodePolicy → Policy → NodePolicy
  published_row r p = record r {
    desired_revision = p.revision;
    generated_at = unix p.generated_at;
    policy_json = some (env.codec.encode p);
  }

  abbrev pub published_db : String → Policy → Database → Database
  published_db id p db = record db {
    node_policies = update (λ r. r.node_id == id) (λ r. published_row r p) db.node_policies;
  }

  join_grants-published :
      (db : Database) (rows : List NodePolicy) (gs : List GrantRow)
      → join_grants (record db { node_policies = rows }) gs ≡ join_grants db gs
  unfolding join_grants join_grant join_tailnet
  join_grants-published db rows [] = refl
  join_grants-published db rows (g ∷ gs) = rw (join_grants-published db rows gs)

  active_grants-published :
      (db : Database) (rows : List NodePolicy) (id : String)
      → active_grants (record db { node_policies = rows }) id ≡ active_grants db id
  unfolding active_grants
  active_grants-published db rows id = rw (join_grants-published db rows)

  collect-published :
      (db : Database) (rows : List NodePolicy) (owner : String) (retention : Retentions)
      (conflicts : List String) (js : List GrantJoin)
      → collect (record db { node_policies = rows }) owner retention conflicts js
        ≡ collect db owner retention conflicts js
  unfolding collect
  collect-published db rows owner retention conflicts [] = refl
  collect-published db rows owner retention conflicts (j ∷ js) =
      let rest = collect-published db rows owner retention conflicts js in
      elim (Option-cases (find (λ s. s.tailnet_id == j.grant.tailnet_id) db.identity_snapshots)) [
        | inl e ↦ ground (arith, e, rest)
        | inr (snap, e) ↦ ground (arith, e, rest)
      ]

  read_retentions-published :
      (db : Database) (rows : List NodePolicy)
      → read_retentions (record db { node_policies = rows }) ≡ read_retentions db
  unfolding read_retentions
  read_retentions-published db rows = refl

  abbrev drafted : String → NodePolicy → Items → Policy
  drafted id row items = record {
    cluster_id = env.cluster_id;
    node_id = id;
    revision = 0;
    generated_at = 0;
    grants = items.0;
    qos = record {
      budget_bps = row.budget_bps;
      owner_weight = row.owner_weight;
      shared_weight = row.shared_weight;
      shared_max_bps = row.shared_max_bps;
      tailnets = items.1;
    };
  }

  abbrev collected : Database → String → Node → User → Retentions → Result StoreError Items
  collected db id n u retention =
      if node_serves n u
      then collect db n.owner_id retention (conflicting_keys db.identity_snapshots)
          (active_grants db id)
      else ok ([], [])

  collected-published :
      (db : Database) (rows : List NodePolicy) (id : String) (n : Node) (u : User)
      (retention : Retentions)
      → collected (record db { node_policies = rows }) id n u retention
        ≡ collected db id n u retention
  collected-published db rows id n u retention = rw (
    active_grants-published db rows id,
    collect-published db rows n.owner_id retention (conflicting_keys db.identity_snapshots)
        (active_grants db id),
  )

  draft_policy-ok :
      (db : Database) (id : String) (n : Node) (u : User) (row : NodePolicy)
      (retention : Retentions) (items : Items)
      → find_node id db ≡ some n
      → find_user n.owner_id db ≡ some u
      → find_policy id db ≡ some row
      → read_retentions db ≡ ok retention
      → collected db id n u retention ≡ ok items
      → draft_policy env db id ≡ ok (drafted id row items, row)
  unfolding draft_policy
  draft_policy-ok db id n u row retention items e₁ e₂ e₃ e₄ e₅ = rw (e₁, e₂, e₃, e₄, e₅)

  draft_policy-parts :
      (db : Database) (id : String) (draft : Policy) (row : NodePolicy)
      → draft_policy env db id ≡ ok (draft, row)
      → (n : Node) × (u : User) × (retention : Retentions) × (items : Items) × (find_node id db
          ≡ some n)
        × (find_user n.owner_id db ≡ some u)
        × (find_policy id db ≡ some row)
        × (read_retentions db ≡ ok retention)
        × (collected db id n u retention ≡ ok items)
        × (drafted id row items ≡ draft)
  unfolding draft_policy
  draft_policy-parts db id draft row h =
      let (n, e₁, h₁) = >>=-eq-ok (or_fail (find_node id db) no_rows) _ h in
      let (u, e₂, h₂) = >>=-eq-ok (or_fail (find_user n.owner_id db) no_rows) _ h₁ in
      let (r, e₃, h₃) = >>=-eq-ok (or_fail (find_policy id db) no_rows) _ h₂ in
      let (retention, e₄, h₄) = >>=-eq-ok (read_retentions db) _ h₃ in
      let (items, e₅, h₅) = >>=-eq-ok (collected db id n u retention) _ h₄ in
      let same : r ≡ row = ground (arith, h₅) in
      (
        n,
        u,
        retention,
        items,
        or_fail-some _ _ e₁,
        or_fail-some _ _ e₂,
        or_fail-some _ _ e₃ ∙ ap some same,
        e₄,
        e₅,
        ground (arith, h₅),
      )

  -- The draft does not depend on what was published.
  pub draft_policy-published :
      (db : Database) (id : String) (draft p : Policy) (row : NodePolicy)
      → draft_policy env db id ≡ ok (draft, row)
      → draft_policy env (published_db id p db) id ≡ ok (draft, published_row row p)
  draft_policy-published db id draft p row h =
      let rows = (published_db id p db).node_policies in
      let (n, u, retention, items, e₁, e₂, e₃, e₄, e₅, same) =
        draft_policy-parts db id draft row h in
      let there =
        find_policy-update id (λ x. published_row x p) db.node_policies row (λ x. refl) e₃ in
      let f =
        draft_policy-ok (published_db id p db) id n u (published_row row p) retention items e₁ e₂
          there (read_retentions-published db rows ∙ e₄)
          (collected-published db rows id n u retention ∙ e₅) in
      f ∙ ap (λ x. ok (x, published_row row p)) same
