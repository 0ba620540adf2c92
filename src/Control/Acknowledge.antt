-- ===== src/Control/Acknowledge.antt =====
-- internal/control/control_stream.go: what a node reports of the policies it is sent.
pub mod Order
pub mod Usable
use Prim.Native.String.{◌++◌ as join}
use multi_derp.Base.{
  Bool, List, Option, Result, String, [], any, bool_eq, fail_if, false, if◌then◌else◌, leb, ltb,
  map_err, nat_eq, none, not, ok, option_eq, or_fail, some, string_eq, true, update, ℕ, ◌&&◌, ◌==◌,
  ◌>>=◌, ◌>>◌, ◌||◌, ◌∷◌,
}
use multi_derp.Clock.{Instant, before}
use multi_derp.Cluster.Cache.{decode_policy}
use multi_derp.Cluster.Policy.{DeviceKey, GrantPolicy, effective_until}
use multi_derp.Cluster.Validate.{max_int64}
use multi_derp.Control.Policy.{find_node, find_policy}
use multi_derp.Control.Schema.{
  Database, Env, Event, Node, NodePolicy, StoreError, conflict, grant_state_eq, invalid, no_rows,
  node_state_eq, ready, registered, role_eq, storage, unix,
}
use multi_derp.Control.Sessions.{node_session}

-- cluster.PolicyACK, internal/cluster/control.go.
pub record PolicyAck : Type 0 where
  pub revision : ℕ
  pub state : String
  pub usable : Bool
  pub error : String

unfoldable pub known_error : String → Bool
known_error e =
    e == "invalid_policy" || e == "persist_failed" || e == "apply_failed" || e == "clock_rollback"

unfoldable pub bad_ack : PolicyAck → Bool
bad_ack a =
    if a.revision == 0 || ltb max_int64 a.revision
    then true
    else (if a.state == "received" || a.state == "applied"
        then not (a.error == "") || a.state == "received" && a.usable
        else (if a.state == "nack" then a.usable || not (known_error a.error) else true))

unfoldable pub live_key : GrantPolicy → Instant → List DeviceKey → Bool
live_key g now [] = false
live_key g now (k ∷ ks) = before now (effective_until g k) || live_key g now ks

-- The loops that look for a key that is permitted now.
unfoldable pub live_grant : Instant → List GrantPolicy → Bool
live_grant now [] = false
live_grant now (g ∷ gs) = live_key g now g.keys || live_grant now gs

abbrev pub on_policy : String → (NodePolicy → NodePolicy) → Database → Database
on_policy id f db = record db { node_policies = update (λ r. r.node_id == id) f db.node_policies }

abbrev pub on_node : String → (Node → Node) → Database → Database
on_node id f db = record db { nodes = update (λ n. n.id == id) f db.nodes }

-- An unresolved `policy_apply_failed` of a node.
abbrev pub is_failure : String → Event → Bool
is_failure id e =
    e.resource_type == "node"
    && e.resource_id == id
    && e.kind == "policy_apply_failed"
    && e.resolved_at == 0

unfoldable pub acknowledge_received :
    String → PolicyAck → NodePolicy → Database → Result StoreError Database
acknowledge_received id a row db = do
  fail_if (ltb a.revision row.received_revision) conflict
  ok (on_policy id (λ r. record r { received_revision = a.revision }) db)

abbrev pub body_text : Option String → String
body_text none = ""
body_text (some b) = b

module _ (env : Env) where
  unfoldable pub acknowledge_applied :
      String → PolicyAck → NodePolicy → Instant → Database → Result StoreError Database
  acknowledge_applied id a row now db = do
    fail_if (ltb row.received_revision a.revision || ltb a.revision row.applied_revision) conflict
    p ←
        map_err (λ _. storage)
          (decode_policy env.keys env.codec (body_text row.policy_json) env.cluster_id id)
    let usable = a.usable && a.revision == row.desired_revision && live_grant now p.grants
    let db₁ =
        on_policy id (λ r. record r { applied_revision = a.revision; derper_usable = usable }) db
    let db₂ =
        on_node id (λ n. record n { state = if usable then ready else registered; last_error = "" })
          db₁
    ok (record db₂ {
      events = update (is_failure id) (λ e. record e { resolved_at = unix now }) db₂.events;
    })

unfoldable pub acknowledge_nack :
    String → PolicyAck → NodePolicy → String → Instant → Database → Result StoreError Database
acknowledge_nack id a row owner now db = do
  fail_if (leb a.revision row.applied_revision || ltb a.revision row.received_revision) conflict
  let db₁ =
      on_node id
        (λ n. record n {
          state = registered;
          last_error = join "policy application failed: " a.error;
        })
        db
  let failure : Event = record {
    owner_id = owner;
    resource_type = "node";
    resource_id = id;
    kind = "policy_apply_failed";
    message = join "Policy application failed: " a.error;
    created_at = unix now;
    resolved_at = 0;
  }
  ok (if any (is_failure id) db.events then db₁ else record db₁ { events = failure ∷ db.events })

module _ (env : Env) where
  -- `Store.AcknowledgePolicy`.
  unfoldable pub acknowledge_policy :
      String → PolicyAck → Instant → Database → Result StoreError Database
  acknowledge_policy token a now db = do
    fail_if (bad_ack a) invalid
    session ← node_session env token now db
    row ← or_fail (find_policy session.node_id db) no_rows
    n ← or_fail (find_node session.node_id db) no_rows
    fail_if (ltb row.desired_revision a.revision) conflict
    if a.state == "received"
        then acknowledge_received session.node_id a row db
        else (if a.state == "applied"
            then acknowledge_applied env session.node_id a row now db
            else acknowledge_nack session.node_id a row n.owner_id now db)
