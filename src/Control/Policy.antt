-- ===== src/Control/Policy.antt =====
-- internal/control/policy.go: a node's policy is computed from the tables, and published under a new
-- revision if it differs from the last one.
pub mod Built
pub mod Serving
pub mod Grants
pub mod Sound
pub mod Drafts
pub mod Again
use multi_derp.Base.{
  Bool, List, Option, Result, String, [], bool_eq, contains, fail_if, false, find, if◌then◌else◌,
  leb, len, ltb, map, map_err, nat_eq, none, not, ok, option_eq, or_fail, select, some, sort_by,
  string_eq, true, update, ℕ, ◌&&◌, ◌*◌, ◌++◌, ◌+◌, ◌/◌, ◌==◌, ◌>>=◌, ◌>>◌, ◌∷◌,
}
use multi_derp.Clock.{Instant, before, second, unix_time}
use multi_derp.Cluster.Cache.{decode_policy, max_policy_bytes}
use multi_derp.Cluster.Policy.{DeviceKey, GrantPolicy, Policy, TailnetQos}
use multi_derp.Cluster.Validate.{max_int64, validate_policy}
use multi_derp.Control.Identity.{conflicting_keys}
use multi_derp.Control.Schema.{
  Database, Env, GrantRow, IdentityKey, IdentitySnapshot, Node, NodePolicy, NodeState, StoreError,
  Tailnet, TailnetRule, User, active, conflict, grant_state_eq, invalid, no_rows, node_state_eq,
  offline, ready, refused, registered, role_eq, unix,
}
use multi_derp.Text.{text_le}

pub record Retentions : Type 0 where
  pub identity_seconds : ℕ
  pub control_seconds : ℕ

abbrev pub max_seconds : ℕ
max_seconds = max_int64 / second

unfoldable pub valid_retentions : Retentions → Bool
valid_retentions r =
    ltb 0 r.identity_seconds
    && ltb 0 r.control_seconds
    && leb r.identity_seconds max_seconds
    && leb r.control_seconds max_seconds

unfoldable pub read_retentions : Database → Result StoreError Retentions
read_retentions db = do
  identity ← or_fail db.identity_retention invalid
  control ← or_fail db.control_retention invalid
  let r : Retentions = record { identity_seconds = identity; control_seconds = control }
  fail_if (not (valid_retentions r)) invalid
  ok r

abbrev pub is_serving : NodeState → Bool
is_serving registered = true
is_serving ready = true
is_serving offline = true
is_serving _ = false

abbrev pub find_user : String → Database → Option User
find_user id db = find (λ u. u.id == id) db.users

abbrev pub find_node : String → Database → Option Node
find_node id db = find (λ n. n.id == id) db.nodes

abbrev pub find_tailnet : String → Database → Option Tailnet
find_tailnet id db = find (λ t. t.id == id) db.tailnets

abbrev pub find_policy : String → Database → Option NodePolicy
find_policy id db = find (λ r. r.node_id == id) db.node_policies

-- `n.enabled=1 AND u.enabled=1`, and the state is one that serves.
unfoldable pub node_serves : Node → User → Bool
node_serves n u = n.enabled && u.enabled && is_serving n.state

-- A row of the join in `buildPolicy`.
pub record GrantJoin : Type 0 where
  pub grant : GrantRow
  pub tailnet : Tailnet
  pub rule : Option TailnetRule

unfoldable pub join_tailnet : Database → GrantRow → Option User → Tailnet → List GrantJoin
join_tailnet db g none t = []
join_tailnet db g (some u) t =
    if t.enabled && u.enabled
    then record {
      grant = g;
      tailnet = t;
      rule = find (λ r. r.node_id == g.node_id && r.tailnet_id == g.tailnet_id) db.tailnet_rules;
    }
      ∷ []
    else []

unfoldable pub join_grant : Database → GrantRow → List GrantJoin
join_grant db g = elim (find_tailnet g.tailnet_id db) [
  | none ↦ []
  | some t ↦ join_tailnet db g (find_user t.owner_id db) t
]

unfoldable pub join_grants : Database → List GrantRow → List GrantJoin
join_grants db [] = []
join_grants db (g ∷ gs) = join_grant db g ++ join_grants db gs

-- The active grants of a node whose tailnet and its owner are enabled, by tailnet.
unfoldable pub active_grants : Database → String → List GrantJoin
active_grants db id =
    sort_by (λ a b. text_le a.grant.tailnet_id b.grant.tailnet_id)
      (join_grants db (select (λ g. g.node_id == id && g.state == active) db.grants))

-- The keys of a snapshot that no other tailnet claims.
unfoldable pub free_keys : List String → List IdentityKey → List DeviceKey
free_keys conflicts [] = []
free_keys conflicts (k ∷ ks) =
    let rest = free_keys conflicts ks in
    if contains conflicts k.node_public
    then rest
    else record { node_public = k.node_public; not_after = k.not_after } ∷ rest

unfoldable pub policy_grant : Retentions → List String → GrantRow → IdentitySnapshot → GrantPolicy
policy_grant retention conflicts g snap = record {
  grant_id = g.id;
  grant_revision = g.revision;
  tailnet_id = g.tailnet_id;
  last_identity_success = unix_time snap.last_success;
  identity_until = unix_time snap.last_success + retention.identity_seconds * second;
  control_until = unix_time g.last_control_success + retention.control_seconds * second;
  explicit_until = if g.explicit_until == 0 then 0 else unix_time g.explicit_until;
  keys = free_keys conflicts snap.keys;
}

-- The bandwidth group: the rule's, or by ownership.
unfoldable pub rule_group : String → GrantJoin → String
rule_group owner j = elim j.rule [
  | some r ↦ r.group_name
  | none ↦ if j.tailnet.owner_id == owner then "owner" else "shared"
]

unfoldable pub policy_rule : String → GrantJoin → TailnetQos
policy_rule owner j = record {
  tailnet_id = j.grant.tailnet_id;
  group = rule_group owner j;
  weight = elim j.rule [ none ↦ 1 | some r ↦ r.weight ];
  max_bps = elim j.rule [ none ↦ 0 | some r ↦ r.max_bps ];
}

abbrev pub Items : Type 0
Items = List GrantPolicy × List TailnetQos

abbrev pub add_item : GrantPolicy → TailnetQos → Items → Items
add_item g t (gs, ts) = (g ∷ gs, t ∷ ts)

-- The loop over the rows of the join.
module _ (db : Database) (owner : String) (retention : Retentions) (conflicts : List String) where
  unfoldable pub collect : List GrantJoin → Result StoreError Items
  collect [] = ok ([], [])
  collect (j ∷ js) = elim (find (λ s. s.tailnet_id == j.grant.tailnet_id) db.identity_snapshots) [
    | none ↦ collect js
    | some snap ↦
        let rest = collect js in
        if j.grant.last_control_success == 0 then rest else (do
          fail_if (rule_group owner j == "owner" && not (j.tailnet.owner_id == owner)) invalid
          items ← rest
          ok (add_item (policy_grant retention conflicts j.grant snap) (policy_rule owner j) items))
  ]

module _ (env : Env) where
  -- The first part of `buildPolicy`: the policy with no revision and date yet, and the old row.
  unfoldable pub draft_policy : Database → String → Result StoreError (Policy × NodePolicy)
  draft_policy db id = do
    n ← or_fail (find_node id db) no_rows
    u ← or_fail (find_user n.owner_id db) no_rows
    row ← or_fail (find_policy id db) no_rows
    retention ← read_retentions db
    items ←
        if node_serves n u
        then collect db n.owner_id retention (conflicting_keys db.identity_snapshots)
            (active_grants db id)
        else ok ([], [])
    ok (
      record {
        cluster_id = env.cluster_id;
        node_id = id;
        revision = 0;
        generated_at = 0;
        grants = items.0;
        qos = record {
          budget_bps = row.budget_bps;
          owner_weight = row.owner_weight;
          shared_weight = row.shared_weight;
          shared_max_bps = row.shared_max_bps;
          tailnets = items.1;
        };
      },
      row,
    )

  -- The stored policy, if it still is what the tables give.
  unfoldable pub compare_previous :
      Policy → NodePolicy → Instant → String → Policy → Result StoreError (Option Policy)
  compare_previous p row now body old = do
    fail_if (not (old.revision == row.desired_revision)) invalid
    let candidate : Policy = record p { revision = old.revision; generated_at = old.generated_at }
    let changed : Result StoreError (Option Policy) =
        fail_if (before now old.generated_at) conflict >> ok none
    if env.codec.encode candidate == body then ok (some old) else changed

  unfoldable pub check_previous :
      Policy → NodePolicy → Instant → Option String → Result StoreError (Option Policy)
  check_previous p row now none = ok none
  check_previous p row now (some body) = if body == "" then ok none else do
    old ← map_err (λ _. invalid) (decode_policy env.keys env.codec body env.cluster_id p.node_id)
    compare_previous p row now body old

  -- The last part: a new revision.
  unfoldable pub publish_policy :
      Policy → NodePolicy → Instant → Database → Result StoreError (Policy × Database)
  publish_policy draft row now db = do
    let p : Policy = record draft { revision = row.desired_revision + 1; generated_at = now }
    map_err refused (validate_policy env.keys p env.cluster_id p.node_id)
    let body = env.codec.encode p
    fail_if (ltb max_policy_bytes (len body)) invalid
    ok (
      p,
      record db {
        node_policies =
            update (λ r. r.node_id == p.node_id)
              (λ r. record r {
                desired_revision = p.revision;
                generated_at = unix p.generated_at;
                policy_json = some body;
              })
              db.node_policies;
      },
    )

  unfoldable pub build_policy : String → Instant → Database → Result StoreError (Policy × Database)
  build_policy id now db = do
    (draft, row) ← draft_policy db id
    fail_if (leb max_int64 row.desired_revision) conflict
    kept ← check_previous draft row now row.policy_json
    elim kept [ some old ↦ ok (old, db) | none ↦ publish_policy draft row now db ]

  -- The loop of `rebuildPolicies`.
  unfoldable pub build_each : List String → Instant → Database → Result StoreError Database
  build_each [] now db = ok db
  build_each (id ∷ ids) now db = do (p, db') ← build_policy id now db; build_each ids now db'

  unfoldable pub rebuild_policies : Instant → Database → Result StoreError Database
  rebuild_policies now db =
      build_each (sort_by text_le (map (λ r. r.node_id) db.node_policies)) now db
