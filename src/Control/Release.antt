-- ===== src/Control/Release.antt =====
-- internal/control/node_self.go, and the ports of internal/control/resources.go: what a node does
-- with its own row, and how it is released from its controller.
pub mod Revoked
use Prim.Native.String.{◌++◌ as join}
use multi_derp.Base.{
  Bool, Result, String, any, bool_eq, delete, fail_if, false, if◌then◌else◌, ltb, nat_eq, none, not,
  ok, option_eq, or_fail, string_eq, update, ℕ, ◌&&◌, ◌+◌, ◌==◌, ◌>>=◌, ◌>>◌, ◌||◌,
}
use multi_derp.Clock.{Instant}
use multi_derp.Control.Access.{Actor, active_actor, require_owner, write_audit}
use multi_derp.Control.Policy.{build_policy, find_node}
use multi_derp.Control.Schema.{
  Database, Env, GrantRow, Node, StoreError, grant_state_eq, invalid, no_rows, node_state_eq,
  pending, revoked, role_eq, unix,
}
use multi_derp.Control.Sessions.{node_session}

abbrev pub bad_port : ℕ → Bool
bad_port p = ltb p 1 || ltb 65535 p

-- `setNodePorts`.
unfoldable pub put_node_ports :
    Node → String → ℕ → ℕ → Instant → Database → Result StoreError Database
put_node_ports n actor_id derp stun now db = do
  fail_if (bad_port derp || bad_port stun) invalid
  if derp == n.derp_port && stun == n.stun_port
      then ok db
      else ok (
          write_audit actor_id n.owner_id "node" n.id "node.ports.change" (unix now) (record db {
            nodes =
                update (λ m. m.id == n.id) (λ m. record m { derp_port = derp; stun_port = stun })
                  db.nodes;
            node_observations =
                update (λ o. o.node_id == n.id) (λ o. record o { probes_json = none })
                  db.node_observations;
          }))

unfoldable pub set_node_ports :
    Actor → String → ℕ → ℕ → Instant → Database → Result StoreError Database
set_node_ports actor id derp stun now db = do
  fail_if (bad_port derp || bad_port stun) invalid
  active_actor db actor
  n ← or_fail (find_node id db) no_rows
  require_owner actor n.owner_id
  put_node_ports n actor.id derp stun now db

-- A grant after its node was released.
abbrev pub revoke_grant : GrantRow → GrantRow
revoke_grant g = record g { state = revoked; revision = g.revision + 1; last_control_success = 0 }

-- The four tables that lose the rows of a node.
unfoldable pub drop_node_rows : String → Database → Database
drop_node_rows id db = record db {
  node_sessions = delete (λ r. r.node_id == id) db.node_sessions;
  node_challenges = delete (λ r. r.node_id == id) db.node_challenges;
  enrollments = delete (λ r. r.node_id == id) db.enrollments;
  node_observations = delete (λ r. r.node_id == id) db.node_observations;
}

-- The updates of `releaseNode`.
unfoldable pub clear_node : String → Database → Database
clear_node id db = record (drop_node_rows id db) {
  nodes =
      update (λ n. n.id == id)
        (λ n. record n {
          state = pending;
          instance_id = "";
          lease_until = 0;
          domain_verified_at = 0;
          last_heartbeat = 0;
          last_error = "";
        })
        db.nodes;
  grants = update (λ g. g.node_id == id && not (g.state == revoked)) revoke_grant db.grants;
  node_policies =
      update (λ r. r.node_id == id)
        (λ r. record r {
          received_revision = 0;
          applied_revision = 0;
          derper_usable = false;
          policy_json = none;
        })
        db.node_policies;
}

module _ (env : Env) where
  -- `releaseNode`.
  unfoldable pub release_rows : String → Instant → Database → Result StoreError Database
  release_rows id now db = do
    let db₁ = clear_node id db
    if any (λ r. r.node_id == id) db₁.node_policies
        then (do (p, db₂) ← build_policy env id now db₁; ok db₂)
        else ok db₁

  -- `ReleaseNode`, by the node itself.
  unfoldable pub release_node : String → Instant → Database → Result StoreError Database
  release_node token now db = do
    session ← node_session env token now db
    release_rows session.node_id now db

  unfoldable pub set_node_session_ports :
      String → ℕ → ℕ → Instant → Database → Result StoreError Database
  set_node_session_ports token derp stun now db = do
    session ← node_session env token now db
    n ← or_fail (find_node session.node_id db) no_rows
    put_node_ports n (join "node:" n.id) derp stun now db
