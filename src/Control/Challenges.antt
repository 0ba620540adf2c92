-- ===== src/Control/Challenges.antt =====
-- internal/control/nodes.go: challenges that a node signs, and the sessions that they open.
pub mod Once
pub mod Mint
use multi_derp.Base.{
  Bool, List, Option, Result, String, [], any, bool_eq, delete, fail_if, find, leb, len, length,
  ltb, nat_eq, not, ok, option_eq, or_fail, select, string_eq, update, ℕ, ◌&&◌, ◌*◌, ◌++◌, ◌+◌,
  ◌==◌, ◌>>=◌, ◌>>◌, ◌||◌, ◌∷◌,
}
use multi_derp.Clock.{Instant, before, second}
use multi_derp.Control.Grants.{whole_seconds}
use multi_derp.Control.Schema.{
  ChallengeRow, Database, Env, StoreError, conflict, grant_state_eq, node_state_eq, role_eq,
  storage, unauthorized, unix,
}
use multi_derp.Control.Sessions.{NodeSession}
use multi_derp.Text.{all_chars}

-- cluster.NodeChallenge, internal/cluster/enrollment.go. Bytes are text.
pub record NodeChallenge : Type 0 where
  pub purpose : String
  pub cluster_id : String
  pub node_id : String
  pub domain : String
  pub nonce : String
  pub expires_at : Instant
  pub public_key : String
  pub instance_id : String

pub record EnrollmentRequest : Type 0 where
  pub code : String
  pub challenge : NodeChallenge
  pub signature : String

-- What the sources call and do not implement: JSON texts of challenges, requests and sessions,
-- crypto/ed25519, SHA-256 of a request and the sealing of secrets under the controller's key.
pub record NodeCrypto : Type 0 where
  pub signing_bytes : NodeChallenge → String
  pub verify : String → String → String → Bool
  pub request_digest : EnrollmentRequest → String
  pub seal : String → NodeSession → String → String
  pub unseal : String → String → Option NodeSession

abbrev pub is_instance_char : ℕ → Bool
is_instance_char c =
    leb b'a' c && leb c b'z'
    || leb b'A' c && leb c b'Z'
    || leb b'0' c && leb c b'9'
    || c == b'-'
    || c == b'_'

unfoldable pub valid_node_instance : String → Bool
valid_node_instance instance =
    not (len instance == 0) && leb (len instance) 128 && all_chars is_instance_char instance

abbrev pub minutes : ℕ → ℕ
minutes n = n * 60 * second

-- A challenge that is of no use any more.
abbrev pub is_spent : String → ℕ → ChallengeRow → Bool
is_spent id now r = r.node_id == id && (leb r.expires_at now || not (r.used_at == 0))

abbrev pub is_open_challenge : String → String → ℕ → ChallengeRow → Bool
is_open_challenge hash id now r =
    r.nonce_hash == hash && r.node_id == id && ltb now r.expires_at && r.used_at == 0

unfoldable pub use_challenge : String → ℕ → List ChallengeRow → List ChallengeRow
use_challenge hash now rows =
    update (λ r. r.nonce_hash == hash) (λ r. record r { used_at = now }) rows

module _ (env : Env) (crypto : NodeCrypto) where
  -- `newNodeChallenge`; `nonce` is what `randomToken` gives.
  unfoldable pub new_node_challenge :
      String
      → String
      → String
      → String
      → String
      → String
      → Instant
      → Database
      → Result StoreError (NodeChallenge × Database)
  new_node_challenge purpose id domain public_key instance nonce now db = do
    let c : NodeChallenge = record {
      purpose = purpose;
      cluster_id = env.cluster_id;
      node_id = id;
      domain = domain;
      nonce = nonce;
      expires_at = whole_seconds (now + minutes 2);
      public_key = public_key;
      instance_id = instance;
    }
    let kept = delete (is_spent id (unix now)) db.node_challenges
    fail_if (leb 8 (length (select (λ r. r.node_id == id) kept))) conflict
    fail_if (any (λ r. r.nonce_hash == env.digest nonce) kept) storage
    ok (
      c,
      record db {
        node_challenges =
            kept
            ++ record {
              nonce_hash = env.digest nonce;
              node_id = id;
              payload = crypto.signing_bytes c;
              expires_at = unix c.expires_at;
              used_at = 0;
            }
              ∷ [];
      },
    )

  unfoldable pub bad_challenge : NodeChallenge → String → String → Instant → Bool
  bad_challenge c sig purpose now =
      not (c.cluster_id == env.cluster_id)
      || not (c.purpose == purpose)
      || not (len c.public_key == 32)
      || not (len sig == 64)
      || not (len c.nonce == 64)
      || not (before now c.expires_at)

  unfoldable pub check_node_challenge :
      NodeChallenge → String → String → Instant → Database → Result StoreError (Unit {0})
  check_node_challenge c sig purpose now db = do
    fail_if (bad_challenge c sig purpose now) unauthorized
    r ←
        or_fail
          (find (is_open_challenge (env.digest c.nonce) c.node_id (unix now)) db.node_challenges)
          unauthorized
    fail_if
        (not (r.payload == crypto.signing_bytes c)
          || not (crypto.verify c.public_key r.payload sig))
        unauthorized

-- `mintNodeSession`: the new session of a node takes the place of all others.
unfoldable pub mint_node_session :
    Env → String → String → String → Instant → Database → Result StoreError (NodeSession × Database)
mint_node_session env id instance fresh now db = do
  let session : NodeSession = record {
    cluster_id = env.cluster_id;
    node_id = id;
    instance_id = instance;
    token = fresh;
    expires_at = whole_seconds (now + minutes 60);
    lease_until = whole_seconds (now + 90 * second);
  }
  let kept = delete (λ s. s.node_id == id) db.node_sessions
  fail_if (any (λ s. s.token_hash == env.digest fresh) kept) storage
  ok (
    session,
    record db {
      node_sessions =
          kept
          ++ record {
            token_hash = env.digest fresh;
            node_id = id;
            instance_id = instance;
            expires_at = unix session.expires_at;
          }
            ∷ [];
    },
  )
