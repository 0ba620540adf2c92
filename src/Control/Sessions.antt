-- ===== src/Control/Sessions.antt =====
-- internal/control/nodes.go: the session that a node's token stands for.
use multi_derp.Base.{
  List, Option, Result, String, [], bool_eq, fail_if, if◌then◌else◌, ltb, nat_eq, none, not, ok,
  option_eq, or_fail, some, string_eq, ◌&&◌, ◌==◌, ◌>>=◌, ◌>>◌, ◌∷◌,
}
use multi_derp.Clock.{Instant, unix_time}
use multi_derp.Control.Policy.{find_node, find_user, is_serving}
use multi_derp.Control.Schema.{
  Database, Env, Node, NodeSessionRow, StoreError, grant_state_eq, node_state_eq, role_eq,
  unauthorized, unix,
}
use multi_derp.Text.{is_hex_token}

-- cluster.NodeSession. Only a session that was just opened names its token.
pub record NodeSession : Type 0 where
  pub cluster_id : String
  pub node_id : String
  pub instance_id : String
  pub token : String
  pub expires_at : Instant
  pub lease_until : Instant

-- The conditions of the query on one row of node_sessions.
unfoldable pub session_of : Database → String → NodeSessionRow → Instant → Option Node
session_of db hash s now = elim (find_node s.node_id db) [
  | none ↦ none
  | some n ↦ elim (find_user n.owner_id db) [
    | none ↦ none
    | some u ↦
        if s.token_hash == hash
          && ltb (unix now) s.expires_at
          && s.instance_id == n.instance_id
          && is_serving n.state
          && u.enabled
        then some n
        else none
  ]
]

unfoldable pub scan_sessions :
    Database → String → Instant → List NodeSessionRow → Option (NodeSessionRow × Node)
scan_sessions db hash now [] = none
scan_sessions db hash now (s ∷ ss) =
    let rest = scan_sessions db hash now ss in
    elim (session_of db hash s now) [ some n ↦ some (s, n) | none ↦ rest ]

module _ (env : Env) where
  unfoldable pub node_session : String → Instant → Database → Result StoreError NodeSession
  node_session token now db = do
    fail_if (not (is_hex_token token)) unauthorized
    (s, n) ← or_fail (scan_sessions db (env.digest token) now db.node_sessions) unauthorized
    ok (record {
      cluster_id = env.cluster_id;
      node_id = n.id;
      instance_id = n.instance_id;
      token = "";
      expires_at = unix_time s.expires_at;
      lease_until = unix_time n.lease_until;
    })
