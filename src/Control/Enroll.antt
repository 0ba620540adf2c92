-- ===== src/Control/Enroll.antt =====
-- internal/control/nodes.go: a node enrolls with a code and a signed challenge.
pub mod Receipt
pub mod Again
use Prim.Native.String.{◌++◌ as join}
use multi_derp.Base.{
  Bool, List, Option, Result, String, [], any, bool_eq, fail_if, false, find, if◌then◌else◌, len,
  list_eq, ltb, nat_eq, none, not, ok, option_eq, or_fail, some, string_eq, true, update, ◌&&◌, ◌*◌,
  ◌++◌, ◌+◌, ◌==◌, ◌>>=◌, ◌>>◌, ◌||◌, ◌∷◌,
}
use multi_derp.Clock.{Instant, before, second}
use multi_derp.Control.Access.{write_audit}
use multi_derp.Control.Challenges.{
  EnrollmentRequest, NodeChallenge, NodeCrypto, check_node_challenge, mint_node_session,
  new_node_challenge, use_challenge, valid_node_instance,
}
use multi_derp.Control.Policy.{build_policy, find_node, find_user}
use multi_derp.Control.Schema.{
  Database, EnrollmentRow, Env, Node, NodePolicy, StoreError, User, grant_state_eq, invalid,
  node_state_eq, pending, registered, role_eq, unauthorized, unix,
}
use multi_derp.Control.Sessions.{NodeSession}

abbrev pub owned_by : Option String → String → Bool
owned_by none id = false
owned_by (some owner) id = owner == id

-- `n.public_key IS NULL OR n.public_key=?`.
abbrev pub key_fits : Option String → String → Bool
key_fits none key = true
key_fits (some old) key = old == key

-- The node of an enrollment, if it stands with its owner and the owner may act.
abbrev pub with_owner : Option String → Option User → Node → Option Node
with_owner owner none n = none
with_owner owner (some u) n = if owned_by owner n.owner_id && u.enabled then some n else none

abbrev pub with_node : Database → Option String → Option Node → Option Node
with_node db owner none = none
with_node db owner (some n) = with_owner owner (find_user n.owner_id db) n

unfoldable pub enrollment_node : Database → EnrollmentRow → Option Node
enrollment_node db e = with_node db e.owner_id (find_node e.node_id db)

unfoldable pub scan_enrollments :
    Database
    → (EnrollmentRow → Bool)
    → (Node → Bool)
    → List EnrollmentRow
    → Option (EnrollmentRow × Node)
scan_enrollments db p q [] = none
scan_enrollments db p q (e ∷ es) =
    let rest = scan_enrollments db p q es in
    if p e
    then elim (enrollment_node db e) [ none ↦ rest | some n ↦ if q n then some (e, n) else rest ]
    else rest

module _ (env : Env) (crypto : NodeCrypto) where
  unfoldable pub enrollment_challenge :
      String
      → String
      → String
      → String
      → Instant
      → Database
      → Result StoreError (NodeChallenge × Database)
  enrollment_challenge code key instance nonce now db = do
    fail_if
        (not (len code == 64)
          || not (len key == 32)
          || not (valid_node_instance instance)
          || env.cluster_id == "")
        invalid
    (e, n) ←
        or_fail
          (scan_enrollments db
            (λ e.
              e.code_hash == env.digest code && ltb (unix now) e.expires_at && e.consumed_at == 0)
            (λ n. n.state == pending && key_fits n.public_key key) db.enrollments)
          unauthorized
    new_node_challenge env crypto "enroll" n.id n.domain key instance nonce now db

  -- The receipt of an enrollment that was done: the session that it opened, if it still runs.
  unfoldable pub open_receipt :
      EnrollmentRequest → EnrollmentRow → Instant → Result StoreError NodeSession
  open_receipt req e now = do
    fail_if (not (e.request_hash == some (crypto.request_digest req))) unauthorized
    sealed ← or_fail e.response_encrypted unauthorized
    session ← or_fail (crypto.unseal sealed (join "enrollment:" req.challenge.node_id)) unauthorized
    fail_if (not (before now session.expires_at)) unauthorized
    ok session

  unfoldable pub enrollment_receipt :
      EnrollmentRequest → Instant → Database → Result StoreError (Option NodeSession)
  enrollment_receipt req now db = do
    (e, n) ←
        or_fail
          (scan_enrollments db
            (λ e.
              e.code_hash == env.digest req.code
              && e.node_id == req.challenge.node_id
              && ltb (unix now) e.expires_at)
            (λ n. true) db.enrollments)
          unauthorized
    if e.consumed_at == 0 then ok none else (do session ← open_receipt req e now; ok (some session))

  -- What each of the two transactions of `EnrollNode` looks at first.
  unfoldable pub enrollment_status :
      EnrollmentRequest → Instant → Database → Result StoreError (Option NodeSession)
  enrollment_status req now db = do
    receipt ← enrollment_receipt req now db
    elim receipt [
      | some session ↦ ok (some session)
      | none ↦ do
        check_node_challenge env crypto req.challenge req.signature "enroll" now db
        ok none
    ]

  abbrev pub new_policy_row : String → NodePolicy
  new_policy_row id = record {
    node_id = id;
    desired_revision = 0;
    received_revision = 0;
    applied_revision = 0;
    generated_at = 0;
    policy_json = none;
    budget_bps = 100_000_000;
    owner_weight = 8;
    shared_weight = 2;
    shared_max_bps = 0;
    derper_usable = false;
  }

  -- `INSERT INTO node_policies … ON CONFLICT(node_id) DO NOTHING`.
  unfoldable pub ensure_policy : String → List NodePolicy → List NodePolicy
  ensure_policy id rows =
      if any (λ r. r.node_id == id) rows then rows else rows ++ new_policy_row id ∷ []

  -- The writes of the second transaction.
  unfoldable pub store_enrollment :
      EnrollmentRequest
      → String
      → String
      → String
      → Instant
      → Database
      → Result StoreError (NodeSession × Database)
  store_enrollment req owner fresh salt now db = do
    let c = req.challenge
    (p, db₁) ← build_policy env c.node_id now (record db {
      nodes =
          update (λ n. n.id == c.node_id)
            (λ n. record n {
              public_key = some c.public_key;
              instance_id = c.instance_id;
              state = registered;
              lease_until = unix (now + 90 * second);
              domain_verified_at = unix now;
            })
            db.nodes;
      node_policies = ensure_policy c.node_id db.node_policies;
    })
    let db₂ : Database = record db₁ {
      node_challenges = use_challenge (env.digest c.nonce) (unix now) db₁.node_challenges;
    }
    (session, db₃) ← mint_node_session env c.node_id c.instance_id fresh now db₂
    ok (
      session,
      write_audit (join "node:" c.node_id) owner "node" c.node_id "node.enroll" (unix now)
          (record db₃ {
            enrollments =
                update (λ e. e.node_id == c.node_id)
                  (λ e. record e {
                    consumed_at = unix now;
                    request_hash = some (crypto.request_digest req);
                    response_encrypted =
                        some (crypto.seal salt session (join "enrollment:" c.node_id));
                  })
                  db₃.enrollments;
          }),
    )

  unfoldable pub enroll_commit :
      EnrollmentRequest
      → String
      → String
      → Instant
      → Database
      → Result StoreError (NodeSession × Database)
  enroll_commit req fresh salt now db = do
    status ← enrollment_status req now db
    elim status [
      | some session ↦ ok (session, db)
      | none ↦ do
        let c = req.challenge
        n ←
            or_fail
              (find
                (λ n.
                  n.id == c.node_id
                  && n.domain == c.domain
                  && n.state == pending
                  && key_fits n.public_key c.public_key)
                db.nodes)
              unauthorized
        store_enrollment req n.owner_id fresh salt now db
    ]

  -- `EnrollNode`: the tables and the clock of its first transaction, whether the domain answered
  -- (and a slot for asking it was free in time), and those of the second.
  unfoldable pub enroll_node :
      EnrollmentRequest
      → String
      → String
      → Instant
      → Database
      → Bool
      → Instant
      → Database
      → Result StoreError (NodeSession × Database)
  enroll_node req fresh salt seen_at seen verified now db = do
    fail_if (not (len req.code == 64)) invalid
    status ← enrollment_status req seen_at seen
    elim status [
      | some session ↦ ok (session, db)
      | none ↦ do fail_if (not verified) unauthorized; enroll_commit req fresh salt now db
    ]
