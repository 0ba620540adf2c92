-- ===== src/Control/Nodes.antt =====
-- internal/control/nodes.go and resources.go: an owner adds a node, lets it enroll, gives it another
-- domain and removes it.
pub mod Regions
use multi_derp.Base.{
  Bool, List, Option, Result, String, [], any, bool_eq, delete, fail_if, false, if◌then◌else◌, len,
  list_eq, ltb, nat_eq, none, not, ok, option_eq, or_fail, some, string_eq, suc, true, update, zero,
  ℕ, ◌&&◌, ◌++◌, ◌+◌, ◌==◌, ◌>>=◌, ◌>>◌, ◌||◌, ◌∷◌,
}
use multi_derp.Clock.{Instant}
use multi_derp.Control.Access.{Actor, active_actor, require_owner, write_audit}
use multi_derp.Control.Challenges.{minutes}
use multi_derp.Control.Domain.{DomainEnv, normalize_node_domain}
use multi_derp.Control.Grants.{whole_seconds}
use multi_derp.Control.Policy.{find_node, find_policy, is_serving}
use multi_derp.Control.Release.{bad_port, drop_node_rows, release_rows}
use multi_derp.Control.Schema.{
  Database, EnrollmentRow, Env, Node, NodePolicy, NodeState, StoreError, admin, conflict,
  domain_pending, forbidden, grant_state_eq, invalid, no_rows, node_state_eq, pending, provider,
  role_eq, storage, unix,
}
use multi_derp.Text.{trim_space}

pub record Enrollment : Type 0 where
  pub node_id : String
  pub cluster_id : String
  pub domain : String
  pub code : String
  pub expires_at : Instant

-- `SELECT min(n)` of the numbers from `first` on, `count` of them, that no node has.
unfoldable pub free_region : ℕ → ℕ → List Node → Option ℕ
free_region first zero nodes = none
free_region first (suc count) nodes =
    let rest = free_region (first + 1) count nodes in
    if any (λ n. n.region_id == first) nodes then rest else some first

-- `INSERT INTO nodes`, with what is unique in it and the owner that it refers to.
unfoldable pub insert_node : Node → Database → Result StoreError (List Node)
insert_node n db = do
  fail_if (any (λ m. m.id == n.id || m.domain == n.domain || m.region_id == n.region_id) db.nodes)
      conflict
  fail_if (not (any (λ u. u.id == n.owner_id) db.users)) conflict
  ok (db.nodes ++ n ∷ [])

-- `INSERT INTO enrollments … ON CONFLICT(node_id) DO UPDATE`: the row of a node is set anew.
abbrev pub put_enrollment : EnrollmentRow → List EnrollmentRow → List EnrollmentRow
put_enrollment e rows =
    if any (λ r. r.node_id == e.node_id) rows
    then update (λ r. r.node_id == e.node_id) (λ _. e) rows
    else rows ++ e ∷ []

-- Deleting a node, and the rows that refer to it.
unfoldable pub remove_node : String → Database → Database
remove_node id db = record (drop_node_rows id db) {
  nodes = delete (λ n. n.id == id) db.nodes;
  grants = delete (λ g. g.node_id == id) db.grants;
  node_policies = delete (λ r. r.node_id == id) db.node_policies;
  tailnet_rules = delete (λ r. r.node_id == id) db.tailnet_rules;
}

-- Whether the node is on line with a policy that it has not applied.
abbrev pub is_behind : Bool → Option NodePolicy → Bool
is_behind connected none = false
is_behind connected (some p) = connected && not (p.applied_revision == p.desired_revision)

unfoldable pub delete_node : Actor → String → Bool → Instant → Database → Result StoreError Database
delete_node actor id connected now db = do
  active_actor db actor
  n ← or_fail (find_node id db) no_rows
  require_owner actor n.owner_id
  fail_if (not (n.state == pending) && (n.enabled || is_behind connected (find_policy id db)))
      conflict
  ok (write_audit actor.id n.owner_id "node" id "node.delete" (unix now) (remove_node id db))

abbrev pub can_move : NodeState → Bool
can_move s = is_serving s || s == domain_pending

module _ (text : DomainEnv) where
  unfoldable pub change_node_domain :
      Actor → String → String → Bool → Instant → Database → Result StoreError Database
  change_node_domain actor id raw connected now db = do
    domain ← normalize_node_domain text raw
    active_actor db actor
    n ← or_fail (find_node id db) no_rows
    require_owner actor n.owner_id
    fail_if (n.enabled || not (can_move n.state)) conflict
    if domain == n.domain then ok db else (do
      fail_if (any (λ m. m.domain == domain && not (m.id == id)) db.nodes) conflict
      row ← or_fail (find_policy id db) no_rows
      fail_if (is_behind connected (some row)) conflict
      ok (
          write_audit actor.id n.owner_id "node" id "node.domain.change" (unix now)
            (record (drop_node_rows id db) {
              nodes =
                  update (λ m. m.id == id)
                    (λ m. record m {
                      domain = domain;
                      state = domain_pending;
                      domain_verified_at = 0;
                      last_error = "";
                    })
                    db.nodes;
            })))

module _ (env : Env) where
  -- `issueEnrollment`; `fresh` is what `randomToken` gives.
  unfoldable pub put_code :
      Node → String → Instant → Database → Result StoreError (Enrollment × Database)
  put_code n fresh now db = do
    let until = whole_seconds (now + minutes 30)
    fail_if (any (λ r. r.code_hash == env.digest fresh && not (r.node_id == n.id)) db.enrollments)
        storage
    ok (
      record {
        node_id = n.id;
        cluster_id = env.cluster_id;
        domain = n.domain;
        code = fresh;
        expires_at = until;
      },
      record db {
        enrollments =
            put_enrollment
              (record {
                node_id = n.id;
                owner_id = some n.owner_id;
                code_hash = env.digest fresh;
                expires_at = unix until;
                consumed_at = 0;
                request_hash = none;
                response_encrypted = none;
              })
              db.enrollments;
        node_challenges = delete (λ c. c.node_id == n.id) db.node_challenges;
      },
    )

  abbrev pub new_node : Actor → String → String → ℕ → ℕ → ℕ → String → Node
  new_node actor name domain region derp stun id = record {
    id = id;
    owner_id = actor.id;
    domain = domain;
    display_name = name;
    region_id = region;
    public_key = none;
    state = pending;
    instance_id = "";
    lease_until = 0;
    last_heartbeat = 0;
    last_error = "";
    enabled = true;
    domain_verified_at = 0;
    derp_port = derp;
    stun_port = stun;
  }

  unfoldable pub create_node :
      DomainEnv
      → Actor
      → String
      → String
      → ℕ
      → ℕ
      → String
      → String
      → Instant
      → Database
      → Result StoreError (Node × Enrollment × Database)
  create_node text actor name raw derp stun id fresh now db = do
    fail_if (not (actor.role == admin) && not (actor.role == provider)) forbidden
    fail_if
        (env.cluster_id == ""
          || trim_space name == ""
          || ltb 160 (len name)
          || bad_port derp
          || bad_port stun)
        invalid
    domain ← normalize_node_domain text raw
    active_actor db actor
    require_owner actor actor.id
    region ← or_fail (free_region 900 100 db.nodes) conflict
    let n = new_node actor name domain region derp stun id
    nodes ← insert_node n db
    (e, db₁) ← put_code n fresh now (record db { nodes = nodes })
    ok (n, e, write_audit actor.id n.owner_id "node" n.id "node.create" (unix now) db₁)

  unfoldable pub issue_enrollment :
      Actor → String → String → Instant → Database → Result StoreError (Enrollment × Database)
  issue_enrollment actor id fresh now db = do
    active_actor db actor
    n ← or_fail (find_node id db) no_rows
    require_owner actor n.owner_id
    db₁ ← if n.state == pending then ok db else release_rows env id now db
    (e, db₂) ← put_code n fresh now db₁
    ok (e, write_audit actor.id n.owner_id "node" id "enrollment.issue" (unix now) db₂)
