-- ===== src/Control/Challenges/Mint.antt =====
-- internal/control/nodes.go, mintNodeSession: the shape of its result.
use multi_derp.Base.{
  >>=-eq-ok, List, String, [], any, arith, bool_eq, delete, fail_if, false, list_eq, nat_eq, ok,
  option_eq, string_eq, ◌*◌, ◌++◌, ◌+◌, ◌==◌, ◌∷◌, ◌≡◌,
}
use multi_derp.Clock.{Instant, second}
use multi_derp.Control.Challenges.{mint_node_session, minutes}
use multi_derp.Control.Grants.{whole_seconds}
use multi_derp.Control.Schema.{
  Database, Env, NodeSessionRow, grant_state_eq, node_state_eq, role_eq, storage, unix,
}
use multi_derp.Control.Sessions.{NodeSession}

abbrev pub minted : Env → String → String → String → Instant → NodeSession
minted env id instance fresh now = record {
  cluster_id = env.cluster_id;
  node_id = id;
  instance_id = instance;
  token = fresh;
  expires_at = whole_seconds (now + minutes 60);
  lease_until = whole_seconds (now + 90 * second);
}

abbrev pub minted_row : Env → String → String → String → Instant → NodeSessionRow
minted_row env id instance fresh now = record {
  token_hash = env.digest fresh;
  node_id = id;
  instance_id = instance;
  expires_at = unix (whole_seconds (now + minutes 60));
}

abbrev pub other_sessions : String → Database → List NodeSessionRow
other_sessions id db = delete (λ s. s.node_id == id) db.node_sessions

pub mint_node_session-Minted :
    (env : Env) (id instance fresh : String) (now : Instant) (db db' : Database) (s : NodeSession)
    → mint_node_session env id instance fresh now db ≡ ok (s, db')
    → (any (λ r. r.token_hash == env.digest fresh) (other_sessions id db) ≡ false)
      × (s ≡ minted env id instance fresh now)
      × (db' ≡ record db {
        node_sessions = other_sessions id db ++ minted_row env id instance fresh now ∷ [];
      })
unfolding mint_node_session
mint_node_session-Minted env id instance fresh now db db' s h =
    let (x, e, h') =
      >>=-eq-ok
        (fail_if (any (λ r. r.token_hash == env.digest fresh) (other_sessions id db)) storage) _
        h in
    (ground (arith, e), ground (arith, h'), ground (arith, h'))
