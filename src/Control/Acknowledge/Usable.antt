-- ===== src/Control/Acknowledge/Usable.antt =====
-- internal/control/control_stream.go, AcknowledgePolicy: when a node becomes ready.
use Prim.Native.String.{◌++◌ as join}
use multi_derp.Base.{
  >>=-eq-ok, Bool-cases, In, List, String, [], ap, arith, bool_eq, eq_iff, fail_if, find,
  if◌then◌else◌, inl, inr, list_eq, ltb, map_err, map_err-ok, nat_beq_iff, nat_eq, ok, option_eq,
  refl, some, string_eq, sym, true, update, ◌&&◌, ◌<◌, ◌==◌, ◌||◌, ◌∙◌, ◌∷◌, ◌≡◌, ◌⊎◌,
}
use multi_derp.Clock.{Instant, before}
use multi_derp.Cluster.Cache.{decode_policy}
use multi_derp.Cluster.Policy.{DeviceKey, GrantPolicy, Policy, effective_until}
use multi_derp.Control.Acknowledge.{
  PolicyAck, acknowledge_applied, acknowledge_nack, acknowledge_policy, acknowledge_received,
  body_text, live_grant, live_key,
}
use multi_derp.Control.Policy.{find_node, find_policy}
use multi_derp.Control.Schema.{
  Database, Env, Node, NodePolicy, conflict, grant_state_eq, node_state_eq, ready, registered,
  role_eq, storage,
}
use multi_derp.Control.Sessions.{NodeSession, node_session}

-- When a node becomes ready.

-- A key of a grant that is permitted at a time.
pub data IsLive (now : Instant) (grants : List GrantPolicy) : Type 0 where
  live :
      (g : GrantPolicy) (k : DeviceKey)
      → In g grants
      → In k g.keys
      → now < effective_until g k
      → IsLive now grants

live_key-In :
    (g : GrantPolicy) (now : Instant) (ks : List DeviceKey)
    → live_key g now ks ≡ true
    → (k : DeviceKey) × In k ks × (now < effective_until g k)
unfolding live_key
live_key-In g now [] h = absurd (ground arith)
live_key-In g now (k ∷ ks) h = elim (Bool-cases (before now (effective_until g k))) [
  | inl e ↦ (k, inl refl, ground arith)
  | inr e ↦ let (k', at, l) = live_key-In g now ks (ground arith) in (k', inr at, l)
]

IsLive-later :
    (now : Instant) (g : GrantPolicy) (gs : List GrantPolicy) → IsLive now gs → IsLive now (g ∷ gs)
IsLive-later now g gs (live g' k at_g at_k l) = live g' k (inr at_g) at_k l

pub live_grant-IsLive :
    (now : Instant) (gs : List GrantPolicy) → live_grant now gs ≡ true → IsLive now gs
unfolding live_grant
live_grant-IsLive now [] h = absurd (ground arith)
live_grant-IsLive now (g ∷ gs) h = elim (Bool-cases (live_key g now g.keys)) [
  | inl e ↦ let (k, at, l) = live_key-In g now g.keys e in live g k (inl refl) at l
  | inr e ↦ IsLive-later now g gs (live_grant-IsLive now gs (ground arith))
]

find_node-update :
    (id : String) (f : Node → Node) (rows : List Node) (n : Node)
    → ((r : Node) → (f r).id ≡ r.id)
    → find (λ r. r.id == id) rows ≡ some n
    → find (λ r. r.id == id) (update (λ r. r.id == id) f rows) ≡ some (f n)
find_node-update id f [] n keep h = cc
find_node-update id f (r ∷ rows) n keep h =
    ground (arith, keep r, find_node-update id f rows n keep, eq_iff r.id id)

module _ (env : Env) where
  -- What makes a node ready.
  pub record IsUsable (id : String) (a : PolicyAck) (row : NodePolicy) (now : Instant)
      : Type 0 where
    pub applied : a.state ≡ "applied"
    pub claimed : a.usable ≡ true
    pub newest : a.revision ≡ row.desired_revision
    pub policy : Policy
    pub decoded :
        decode_policy env.keys env.codec (body_text row.policy_json) env.cluster_id id ≡ ok policy
    pub live_now : IsLive now policy.grants

  applied-IsUsable :
      (id : String) (a : PolicyAck) (row : NodePolicy) (n n' : Node) (now : Instant)
      (db db' : Database)
      → a.state ≡ "applied"
      → find_node id db ≡ some n
      → acknowledge_applied env id a row now db ≡ ok db'
      → find_node id db' ≡ some n'
      → n'.state ≡ ready
      → IsUsable id a row now
  unfolding acknowledge_applied
  applied-IsUsable id a row n n' now db db' state found h found' is_ready =
      let (x, e₁, h₁) =
        >>=-eq-ok
          (fail_if (ltb row.received_revision a.revision || ltb a.revision row.applied_revision)
            conflict)
          _ h in
      let (p, e₂, h₂) =
        >>=-eq-ok
          (map_err (λ _. storage)
            (decode_policy env.keys env.codec (body_text row.policy_json) env.cluster_id id))
          _ h₁ in
      let usable = a.usable && a.revision == row.desired_revision && live_grant now p.grants in
      let f : Node → Node =
        λ n. record n { state = if usable then ready else registered; last_error = "" } in
      let nodes : db'.nodes ≡ update (λ r. r.id == id) f db.nodes = ground (arith, h₂) in
      let there : find_node id db' ≡ some (f n) =
        rw nodes (find_node-update id f db.nodes n (λ r. refl) found) in
      let same : n'.state ≡ (f n).state = ground (arith, found', there) in
      let on : usable ≡ true = ground (arith, same, is_ready) in
      record {
        applied = state;
        claimed = ground (arith, on);
        newest = ground (arith, on, nat_beq_iff a.revision row.desired_revision);
        policy = p;
        decoded = map_err-ok _ _ e₂;
        live_now = live_grant-IsLive now p.grants (ground (arith, on));
      }

  nack-state :
      (id : String) (a : PolicyAck) (row : NodePolicy) (owner : String) (n n' : Node)
      (now : Instant) (db db' : Database)
      → find_node id db ≡ some n
      → acknowledge_nack id a row owner now db ≡ ok db'
      → find_node id db' ≡ some n'
      → n'.state ≡ registered
  unfolding acknowledge_nack
  nack-state id a row owner n n' now db db' found h found' =
      let f : Node → Node = λ n. record n {
        state = registered;
        last_error = join "policy application failed: " a.error;
      } in
      let nodes : db'.nodes ≡ update (λ r. r.id == id) f db.nodes = ground (arith, h) in
      let there : find_node id db' ≡ some (f n) =
        rw nodes (find_node-update id f db.nodes n (λ r. refl) found) in
      ground (arith, found', there)

  received-nodes :
      (id : String) (a : PolicyAck) (row : NodePolicy) (db db' : Database)
      → acknowledge_received id a row db ≡ ok db'
      → db'.nodes ≡ db.nodes
  unfolding acknowledge_received
  received-nodes id a row db db' h = ground arith

  acknowledge_policy-done :
      (token : String) (a : PolicyAck) (now : Instant) (db db' : Database) (session : NodeSession)
      (row : NodePolicy) (n : Node)
      → acknowledge_policy env token a now db ≡ ok db'
      → node_session env token now db ≡ ok session
      → find_policy session.node_id db ≡ some row
      → find_node session.node_id db ≡ some n
      → (if a.state == "received"
          then acknowledge_received session.node_id a row db
          else (if a.state == "applied"
              then acknowledge_applied env session.node_id a row now db
              else acknowledge_nack session.node_id a row n.owner_id now db))
        ≡ ok db'
  unfolding acknowledge_policy
  acknowledge_policy-done token a now db db' session row n h opened row_found node_found =
      ground (arith, h, opened, row_found, node_found)

  -- If the node of a session is ready after its acknowledgement was accepted, then it was ready and only reported
  -- that it received a policy, or it reported that it applied the newest policy and can use it, and
  -- that policy, read back and valid, has a device key that is permitted at this time.
  pub acknowledge_policy-ready :
      (token : String) (a : PolicyAck) (now : Instant) (db db' : Database) (session : NodeSession)
      (row : NodePolicy) (n n' : Node)
      → acknowledge_policy env token a now db ≡ ok db'
      → node_session env token now db ≡ ok session
      → find_policy session.node_id db ≡ some row
      → find_node session.node_id db ≡ some n
      → find_node session.node_id db' ≡ some n'
      → n'.state ≡ ready
      → ((n.state ≡ ready) × (a.state ≡ "received")) ⊎ IsUsable session.node_id a row now
  acknowledge_policy-ready token a now db db' session row n n' h opened row_found node_found found
        is_ready =
      let id = session.node_id in
      let done =
        acknowledge_policy-done token a now db db' session row n h opened row_found node_found in
      elim (Bool-cases (a.state == "received")) [
        | inl e ↦
            let kept = received-nodes id a row db db' (ground (arith, e, done)) in
            let same : n' ≡ n = ground (arith, kept, found, node_found) in
            inl (
              ap (λ (n : Node). n.state) (sym same) ∙ is_ready,
              ground (arith, e, eq_iff a.state "received"),
            )
        | inr e ↦ elim (Bool-cases (a.state == "applied")) [
          | inl e' ↦ inr (
              applied-IsUsable id a row n n' now db db'
                (ground (arith, e', eq_iff a.state "applied")) node_found
                (ground (arith, e, e', done)) found is_ready)
          | inr e' ↦
              let off =
                nack-state id a row n.owner_id n n' now db db' node_found
                  (ground (arith, e, e', done)) found in
              absurd (ground (arith, off, is_ready))
        ]
      ]
