-- ===== src/Control/Resources.antt =====
-- internal/control/resources.go, qos.go and policy.go: switching a node or a tailnet on and off, the
-- bandwidth rules of a node, and how long permissions outlast their last confirmation.
pub mod Silence
use multi_derp.Base.{
  Bool, List, Result, String, [], bool_eq, fail_if, find, if◌then◌else◌, map_err, nat_eq, not, ok,
  option_eq, or_fail, select, some, string_eq, update, ◌&&◌, ◌++◌, ◌==◌, ◌>>=◌, ◌>>◌, ◌||◌, ◌∷◌,
}
use multi_derp.Clock.{Instant}
use multi_derp.Cluster.Policy.{QosPolicy, TailnetQos}
use multi_derp.Cluster.Validate.{validate_qos}
use multi_derp.Control.Access.{Actor, active_actor, require_owner, write_audit}
use multi_derp.Control.Grants.{is_open}
use multi_derp.Control.Policy.{
  Retentions, build_policy, find_node, find_tailnet, rebuild_policies, valid_retentions,
}
use multi_derp.Control.Schema.{
  Database, Env, Node, StoreError, TailnetRule, admin, conflict, domain_pending, forbidden,
  grant_state_eq, invalid, no_rows, node_state_eq, pending, role_eq, unix,
}

-- `tailnetOwner`, internal/control/credentials.go.
unfoldable pub tailnet_owner : Database → Actor → String → Result StoreError String
tailnet_owner db actor id = do
  active_actor db actor
  t ← or_fail (find_tailnet id db) no_rows
  require_owner actor t.owner_id
  ok t.owner_id

-- The rules that `SetNodeQoS` stores, one tailnet after the other.
unfoldable pub put_rules :
    Database → String → String → List TailnetQos → Result StoreError (List TailnetRule)
put_rules db node owner [] = ok []
put_rules db node owner (t ∷ ts) = do
  g ←
      or_fail
        (find (λ g. g.node_id == node && g.tailnet_id == t.tailnet_id && is_open g.state) db.grants)
        invalid
  tailnet ← or_fail (find_tailnet g.tailnet_id db) invalid
  fail_if (t.group == "owner" && not (tailnet.owner_id == owner)) invalid
  rules ← put_rules db node owner ts
  ok (
      record {
        node_id = node;
        tailnet_id = t.tailnet_id;
        group_name = t.group;
        weight = t.weight;
        max_bps = t.max_bps;
      }
      ∷ rules)

module _ (env : Env) where
  unfoldable pub set_tailnet_enabled :
      Actor → String → Bool → Instant → Database → Result StoreError Database
  set_tailnet_enabled actor id on now db = do
    owner ← tailnet_owner db actor id
    db₁ ← rebuild_policies env now (record db {
      tailnets = update (λ t. t.id == id) (λ t. record t { enabled = on }) db.tailnets;
    })
    ok (write_audit actor.id owner "tailnet" id "tailnet.enabled" (unix now) db₁)

  -- `SetNodeEnabled` from its update on.
  unfoldable pub switch_node : Actor → Node → Bool → Instant → Database → Result StoreError Database
  switch_node actor n on now db = do
    let db₁ : Database = record db {
      nodes = update (λ m. m.id == n.id) (λ m. record m { enabled = on }) db.nodes;
    }
    db₂ ← if n.state == pending then ok db₁ else (do (p, d) ← build_policy env n.id now db₁; ok d)
    ok (write_audit actor.id n.owner_id "node" n.id "node.enabled" (unix now) db₂)

  unfoldable pub set_node_enabled :
      Actor → String → Bool → Instant → Database → Result StoreError Database
  set_node_enabled actor id on now db = do
    active_actor db actor
    n ← or_fail (find_node id db) no_rows
    require_owner actor n.owner_id
    fail_if (on && n.state == domain_pending) conflict
    switch_node actor n on now db

  unfoldable pub set_node_qos :
      Actor → String → QosPolicy → Instant → Database → Result StoreError Database
  set_node_qos actor node q now db = do
    map_err (λ _. invalid) (validate_qos q)
    active_actor db actor
    n ← or_fail (find_node node db) no_rows
    require_owner actor n.owner_id
    rules ← put_rules db node n.owner_id q.tailnets
    (p, db₁) ← build_policy env node now (record db {
      node_policies =
          update (λ r. r.node_id == node)
            (λ r. record r {
              budget_bps = q.budget_bps;
              owner_weight = q.owner_weight;
              shared_weight = q.shared_weight;
              shared_max_bps = q.shared_max_bps;
            })
            db.node_policies;
      tailnet_rules = select (λ r. not (r.node_id == node)) db.tailnet_rules ++ rules;
    })
    ok (write_audit actor.id n.owner_id "node" node "node.qos" (unix now) db₁)

  unfoldable pub set_retentions :
      Actor → Retentions → Instant → Database → Result StoreError Database
  set_retentions actor r now db = do
    fail_if (not actor.enabled || not (actor.role == admin)) forbidden
    fail_if (not (valid_retentions r)) invalid
    active_actor db actor
    db₁ ← rebuild_policies env now (record db {
      identity_retention = some r.identity_seconds;
      control_retention = some r.control_seconds;
    })
    ok (write_audit actor.id actor.id "cluster" env.cluster_id "retention.update" (unix now) db₁)
