-- ===== src/Control/Renew.antt =====
-- internal/control/nodes.go: a node with a key opens new sessions, and a key that two running
-- instances show is locked until its owner picks one.
pub mod Once
pub mod Locked
pub mod Single
use Prim.Native.String.{◌++◌ as join}
use multi_derp.Base.{
  Bool, Option, Result, String, any, bool_eq, delete, fail_if, false, find, if◌then◌else◌, len,
  list_eq, ltb, nat_eq, none, not, ok, option_eq, or_fail, some, string_eq, update, ℕ, ◌&&◌, ◌*◌,
  ◌+◌, ◌==◌, ◌>>=◌, ◌>>◌, ◌||◌, ◌∷◌,
}
use multi_derp.Clock.{Instant, second}
use multi_derp.Control.Access.{Actor, active_actor, require_owner, write_audit}
use multi_derp.Control.Challenges.{
  NodeChallenge, NodeCrypto, check_node_challenge, mint_node_session, new_node_challenge,
  use_challenge, valid_node_instance,
}
use multi_derp.Control.Policy.{build_policy, find_node, find_user, is_serving}
use multi_derp.Control.Schema.{
  Database, Env, Event, Node, NodeState, StoreError, conflict, domain_pending, grant_state_eq,
  identity_conflict, invalid, no_rows, node_state_eq, registered, role_eq, unauthorized, unix,
}
use multi_derp.Control.Sessions.{NodeSession}

-- Whether the owner of a node is enabled.
abbrev pub owner_acts : Database → Node → Bool
owner_acts db n = elim (find_user n.owner_id db) [ none ↦ false | some u ↦ u.enabled ]

abbrev pub key_length : Option String → ℕ
key_length none = 0
key_length (some key) = len key

-- Which states a challenge of a purpose is good for.
abbrev pub is_renewable : String → NodeState → Bool
is_renewable purpose s =
    purpose == "session" && is_serving s || purpose == "domain_change" && s == domain_pending

-- A session, or the finding that another instance still holds the node; both are committed.
pub data Renewal : Type 0 where
  renewed : NodeSession → Renewal
  locked : Renewal

-- An event of a lock that is not resolved.
abbrev pub is_lock : String → Event → Bool
is_lock id e =
    e.resource_type == "node"
    && e.resource_id == id
    && e.kind == "identity_conflict"
    && e.resolved_at == 0

module _ (env : Env) (crypto : NodeCrypto) where
  unfoldable pub session_challenge :
      String → String → String → Instant → Database → Result StoreError (NodeChallenge × Database)
  session_challenge id instance nonce now db = do
    fail_if (not (valid_node_instance instance) || env.cluster_id == "") invalid
    n ←
        or_fail
          (find
            (λ n.
              n.id == id && (is_serving n.state || n.state == domain_pending) && owner_acts db n)
            db.nodes)
          unauthorized
    fail_if (not (key_length n.public_key == 32)) unauthorized
    key ← or_fail n.public_key unauthorized
    new_node_challenge env crypto (if n.state == domain_pending then "domain_change" else "session")
        id n.domain key instance nonce now db

  -- The branch for a node that another instance holds.
  unfoldable pub lock_node :
      NodeChallenge → Node → Instant → Database → Result StoreError (Renewal × Database)
  lock_node c n now db = do
    let db₁ : Database = record db {
      nodes =
          update (λ m. m.id == c.node_id)
            (λ m. record m {
              state = identity_conflict;
              last_error = "node identity is active on another instance";
            })
            db.nodes;
      node_sessions = delete (λ s. s.node_id == c.node_id) db.node_sessions;
      node_challenges = use_challenge (env.digest c.nonce) (unix now) db.node_challenges;
      events =
          record {
            owner_id = n.owner_id;
            resource_type = "node";
            resource_id = c.node_id;
            kind = "identity_conflict";
            message = "Node identity was presented by another running instance.";
            created_at = unix now;
            resolved_at = 0;
          }
          ∷ db.events;
    }
    (p, db₂) ← build_policy env c.node_id now (
        write_audit (join "node:" c.node_id) n.owner_id "node" c.node_id "node.identity_conflict"
          (unix now) db₁)
    ok (locked, db₂)

  -- The other branch: the instance of the challenge holds the node now.
  unfoldable pub held_rows : NodeChallenge → Instant → Database → Database
  held_rows c now db = record db {
    node_challenges = use_challenge (env.digest c.nonce) (unix now) db.node_challenges;
    nodes =
        update (λ m. m.id == c.node_id)
          (λ m. record m {
            instance_id = c.instance_id;
            lease_until = unix (now + 90 * second);
            state = if m.state == domain_pending then registered else m.state;
            domain_verified_at =
                if c.purpose == "domain_change" then unix now else m.domain_verified_at;
          })
          db.nodes;
  }

  unfoldable pub note_domain : NodeChallenge → Node → Instant → Database → Database
  note_domain c n now db =
      if c.purpose == "domain_change"
      then write_audit (join "node:" c.node_id) n.owner_id "node" c.node_id "node.domain.verify"
          (unix now) db
      else db

  unfoldable pub hold_node :
      NodeChallenge → Node → String → Instant → Database → Result StoreError (Renewal × Database)
  hold_node c n fresh now db = do
    (session, db₁) ←
        mint_node_session env c.node_id c.instance_id fresh now
          (note_domain c n now (held_rows c now db))
    ok (renewed session, db₁)

  -- The last transaction of `RenewNodeSession`.
  unfoldable pub renew_commit :
      NodeChallenge → String → String → Instant → Database → Result StoreError (Renewal × Database)
  renew_commit c sig fresh now db = do
    check_node_challenge env crypto c sig c.purpose now db
    n ←
        or_fail
          (find
            (λ n.
              n.id == c.node_id
              && n.domain == c.domain
              && is_renewable c.purpose n.state
              && owner_acts db n)
            db.nodes)
          unauthorized
    fail_if (not (n.public_key == some c.public_key)) unauthorized
    if not (n.instance_id == c.instance_id) && ltb (unix now) n.lease_until
        then lock_node c n now db
        else hold_node c n fresh now db

  -- What it looks at before it asks a new domain for a proof.
  unfoldable pub check_domain_change :
      NodeChallenge → String → Instant → Database → Result StoreError (Unit {0})
  check_domain_change c sig now db = do
    check_node_challenge env crypto c sig "domain_change" now db
    fail_if
        (not (
          any
            (λ n.
              n.id == c.node_id
              && n.domain == c.domain
              && n.public_key == some c.public_key
              && n.state == domain_pending
              && owner_acts db n)
            db.nodes))
        unauthorized

  -- `RenewNodeSession`, with the tables of its two transactions and the answer of the domain.
  unfoldable pub renew_node_session :
      NodeChallenge
      → String
      → String
      → Instant
      → Database
      → Bool
      → Instant
      → Database
      → Result StoreError (Renewal × Database)
  renew_node_session c sig fresh seen_at seen verified now db = do
    fail_if (not (c.purpose == "session") && not (c.purpose == "domain_change")) unauthorized
    if c.purpose == "domain_change"
        then (do
          check_domain_change c sig seen_at seen
          fail_if (not verified) unauthorized
          renew_commit c sig fresh now db)
        else renew_commit c sig fresh now db

module _ (env : Env) where
  unfoldable pub recover_node_instance :
      Actor → String → String → Instant → Database → Result StoreError Database
  recover_node_instance actor id instance now db = do
    fail_if (not (valid_node_instance instance)) invalid
    active_actor db actor
    n ← or_fail (find_node id db) no_rows
    require_owner actor n.owner_id
    fail_if (not (n.state == identity_conflict)) conflict
    (p, db₁) ← build_policy env id now (
        write_audit actor.id n.owner_id "node" id "node.recover" (unix now) (record db {
          nodes =
              update (λ m. m.id == id)
                (λ m. record m {
                  state = registered;
                  instance_id = instance;
                  lease_until = unix (now + 90 * second);
                  last_error = "";
                })
                db.nodes;
          node_sessions = delete (λ s. s.node_id == id) db.node_sessions;
          node_challenges = delete (λ c. c.node_id == id) db.node_challenges;
          events = update (is_lock id) (λ e. record e { resolved_at = unix now }) db.events;
        }))
    ok db₁
