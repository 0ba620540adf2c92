-- ===== src/Control/Acknowledge/Order.antt =====
-- internal/control/control_stream.go and policy.go: the order of a node's three revisions: desired, received and applied.
use multi_derp.Base.{
  >>=-eq-ok, All, Bool-cases, Distinct, List, String, [], all, arith, bool_eq, contains, eq_iff,
  fail_if, false, find, if◌then◌else◌, inl, inr, ltb, map_err, nat_eq, ok, option_eq, or_fail,
  or_fail-some, refl, some, string_eq, update, ◌&&◌, ◌==◌, ◌||◌, ◌∷◌, ◌≡◌, ◌≤◌,
}
use multi_derp.Clock.{Instant}
use multi_derp.Cluster.Cache.{decode_policy}
use multi_derp.Cluster.Policy.{Policy}
use multi_derp.Control.Acknowledge.{
  PolicyAck, acknowledge_applied, acknowledge_nack, acknowledge_policy, acknowledge_received,
  bad_ack, body_text, live_grant,
}
use multi_derp.Control.Policy.{build_policy, find_node, find_policy}
use multi_derp.Control.Policy.Built.{Built, build_policy-Built, published, unchanged}
use multi_derp.Control.Schema.{
  Database, Env, Node, NodePolicy, conflict, grant_state_eq, invalid, no_rows, node_state_eq,
  role_eq, storage, unix,
}
use multi_derp.Control.Sessions.{NodeSession, node_session}

-- What is applied was received before, and what was received was published.
abbrev pub IsOrdered : NodePolicy → Type 0
IsOrdered r =
    (r.applied_revision ≤ r.received_revision) × (r.received_revision ≤ r.desired_revision)

abbrev pub policy_ids : List NodePolicy → List String
policy_ids [] = []
policy_ids (r ∷ rows) = r.node_id ∷ policy_ids rows

-- One row for each node, and the revisions of each in order.
abbrev pub IsKeyed : List NodePolicy → Type 0
IsKeyed rows = Distinct (policy_ids rows) × All IsOrdered rows

abbrev put : String → (NodePolicy → NodePolicy) → List NodePolicy → List NodePolicy
put id f rows = update (λ r. r.node_id == id) f rows

put-absent :
    (id : String) (f : NodePolicy → NodePolicy) (rows : List NodePolicy)
    → contains (policy_ids rows) id ≡ false
    → put id f rows ≡ rows
put-absent id f [] h = refl
put-absent id f (r ∷ rows) h = ground (arith, put-absent id f rows)

policy_ids-put :
    (id : String) (f : NodePolicy → NodePolicy) (rows : List NodePolicy)
    → ((r : NodePolicy) → (f r).node_id ≡ r.node_id)
    → policy_ids (put id f rows) ≡ policy_ids rows
policy_ids-put id f [] keep = refl
policy_ids-put id f (r ∷ rows) keep = ground (arith, keep r, policy_ids-put id f rows keep)

put-IsOrdered :
    (id : String) (f : NodePolicy → NodePolicy) (rows : List NodePolicy) (row : NodePolicy)
    → Distinct (policy_ids rows)
    → All IsOrdered rows
    → find (λ r. r.node_id == id) rows ≡ some row
    → IsOrdered (f row)
    → All IsOrdered (put id f rows)
put-IsOrdered id f [] row d all found o = tt
put-IsOrdered id f (r ∷ rows) row d all found o = elim (Bool-cases (r.node_id == id)) [
  | inl e ↦
      let same : r ≡ row = ground arith in
      let alone : put id f rows ≡ rows =
        put-absent id f rows (ground (arith, eq_iff r.node_id id)) in
      let kept : All IsOrdered (put id f rows) = rw alone all.1 in rw (e, same) (o, kept)
  | inr e ↦ rw e (all.0, put-IsOrdered id f rows row d.1 all.1 (ground arith) o)
]

put-IsKeyed :
    (id : String) (f : NodePolicy → NodePolicy) (rows : List NodePolicy) (row : NodePolicy)
    → ((r : NodePolicy) → (f r).node_id ≡ r.node_id)
    → IsKeyed rows
    → find (λ r. r.node_id == id) rows ≡ some row
    → IsOrdered (f row)
    → IsKeyed (put id f rows)
put-IsKeyed id f rows row keep (d, all) found o =
    (rw (policy_ids-put id f rows keep) d, put-IsOrdered id f rows row d all found o)

find-IsOrdered :
    (id : String) (rows : List NodePolicy) (row : NodePolicy)
    → All IsOrdered rows
    → find (λ r. r.node_id == id) rows ≡ some row
    → IsOrdered row
find-IsOrdered id [] row all found = absurd (ground arith)
find-IsOrdered id (r ∷ rows) row all found = ground (arith, find-IsOrdered id rows row all.1)

module _ (env : Env) where
  Built-IsKeyed :
      (id : String) (now : Instant) (db : Database) (row : NodePolicy) (p : Policy) (db' : Database)
      → find_policy id db ≡ some row
      → IsKeyed db.node_policies
      → Built env id now db row p db'
      → IsKeyed db'.node_policies
  Built-IsKeyed id now db row p db' found keyed (unchanged body stored reads current e) = rw e keyed
  Built-IsKeyed id now db row p db' found keyed (published next dated short e) =
      let (low, high) = find-IsOrdered id db.node_policies row keyed.1 found in
      rw e (
        put-IsKeyed id
          (λ r. record r {
            desired_revision = p.revision;
            generated_at = unix p.generated_at;
            policy_json = some (env.codec.encode p);
          })
          db.node_policies row (λ r. refl) keyed found (low, ground (arith, high, next)))

  build_policy-IsKeyed :
      (id : String) (now : Instant) (db db' : Database) (p : Policy)
      → build_policy env id now db ≡ ok (p, db')
      → IsKeyed db.node_policies
      → IsKeyed db'.node_policies
  build_policy-IsKeyed id now db db' p h keyed =
      let (row, found, room, valid, built) = build_policy-Built env id now db db' p h in
      Built-IsKeyed id now db row p db' found keyed built

  received-IsKeyed :
      (id : String) (a : PolicyAck) (row : NodePolicy) (db db' : Database)
      → find_policy id db ≡ some row
      → a.revision ≤ row.desired_revision
      → acknowledge_received id a row db ≡ ok db'
      → IsKeyed db.node_policies
      → IsKeyed db'.node_policies
  unfolding acknowledge_received
  received-IsKeyed id a row db db' found most h keyed =
      let f : NodePolicy → NodePolicy = λ r. record r { received_revision = a.revision } in
      let (low, high) = find-IsOrdered id db.node_policies row keyed.1 found in
      let least : row.received_revision ≤ a.revision = ground arith in
      let same : db'.node_policies ≡ put id f db.node_policies = ground arith in
      rw same (put-IsKeyed id f db.node_policies row (λ r. refl) keyed found (omega arith, most))

  applied-IsKeyed :
      (id : String) (a : PolicyAck) (row : NodePolicy) (now : Instant) (db db' : Database)
      → find_policy id db ≡ some row
      → acknowledge_applied env id a row now db ≡ ok db'
      → IsKeyed db.node_policies
      → IsKeyed db'.node_policies
  unfolding acknowledge_applied
  applied-IsKeyed id a row now db db' found h keyed =
      let (x, e₁, h₁) =
        >>=-eq-ok
          (fail_if (ltb row.received_revision a.revision || ltb a.revision row.applied_revision)
            conflict)
          _ h in
      let (p, e₂, h₂) =
        >>=-eq-ok
          (map_err (λ _. storage)
            (decode_policy env.keys env.codec (body_text row.policy_json) env.cluster_id id))
          _ h₁ in
      let usable = a.usable && a.revision == row.desired_revision && live_grant now p.grants in
      let f : NodePolicy → NodePolicy =
        λ r. record r { applied_revision = a.revision; derper_usable = usable } in
      let (low, high) = find-IsOrdered id db.node_policies row keyed.1 found in
      let most : a.revision ≤ row.received_revision = ground (arith, e₁) in
      let same : db'.node_policies ≡ put id f db.node_policies = ground (arith, h₂) in
      rw same (put-IsKeyed id f db.node_policies row (λ r. refl) keyed found (most, high))

  nack-IsKeyed :
      (id : String) (a : PolicyAck) (row : NodePolicy) (owner : String) (now : Instant)
      (db db' : Database)
      → acknowledge_nack id a row owner now db ≡ ok db'
      → db'.node_policies ≡ db.node_policies
  unfolding acknowledge_nack
  nack-IsKeyed id a row owner now db db' h = ground arith

  -- What an acknowledgement that is accepted has passed.
  pub record Passed (token : String) (a : PolicyAck) (now : Instant) (db db' : Database)
      : Type 0 where
    pub session : NodeSession
    pub row : NodePolicy
    pub n : Node
    pub good : bad_ack a ≡ false
    pub opened : node_session env token now db ≡ ok session
    pub row_found : find_policy session.node_id db ≡ some row
    pub node_found : find_node session.node_id db ≡ some n
    pub most : a.revision ≤ row.desired_revision
    pub done :
        (if a.state == "received"
          then acknowledge_received session.node_id a row db
          else (if a.state == "applied"
              then acknowledge_applied env session.node_id a row now db
              else acknowledge_nack session.node_id a row n.owner_id now db))
        ≡ ok db'

  pub acknowledge_policy-Passed :
      (token : String) (a : PolicyAck) (now : Instant) (db db' : Database)
      → acknowledge_policy env token a now db ≡ ok db'
      → Passed token a now db db'
  unfolding acknowledge_policy
  acknowledge_policy-Passed token a now db db' h =
      let (x, e₀, h₀) = >>=-eq-ok (fail_if (bad_ack a) invalid) _ h in
      let (session, e₁, h₁) = >>=-eq-ok (node_session env token now db) _ h₀ in
      let (row, e₂, h₂) = >>=-eq-ok (or_fail (find_policy session.node_id db) no_rows) _ h₁ in
      let (n, e₃, h₃) = >>=-eq-ok (or_fail (find_node session.node_id db) no_rows) _ h₂ in
      let (y, e₄, h₄) = >>=-eq-ok (fail_if (ltb row.desired_revision a.revision) conflict) _ h₃ in
      record {
        session = session;
        row = row;
        n = n;
        good = ground (arith, e₀);
        opened = e₁;
        row_found = or_fail-some _ _ e₂;
        node_found = or_fail-some _ _ e₃;
        most = ground (arith, e₄);
        done = h₄;
      }

  acknowledge_policy-IsKeyed :
      (token : String) (a : PolicyAck) (now : Instant) (db db' : Database)
      → acknowledge_policy env token a now db ≡ ok db'
      → IsKeyed db.node_policies
      → IsKeyed db'.node_policies
  acknowledge_policy-IsKeyed token a now db db' h keyed =
      let passed = acknowledge_policy-Passed token a now db db' h in
      let id = passed.session.node_id in
      elim (Bool-cases (a.state == "received")) [
        | inl e ↦
            received-IsKeyed id a passed.row db db' passed.row_found passed.most
              (ground (arith, e, passed.done)) keyed
        | inr e ↦ elim (Bool-cases (a.state == "applied")) [
          | inl e' ↦
              applied-IsKeyed id a passed.row now db db' passed.row_found
                (ground (arith, e, e', passed.done)) keyed
          | inr e' ↦
              rw
                (nack-IsKeyed id a passed.row passed.n.owner_id now db db'
                  (ground (arith, e, e', passed.done)))
                keyed
        ]
      ]

  -- What moves the policies of the nodes, in any order and at any times.
  pub data Works (db : Database) : Database → Type 0 where
    rests : Works db db
    builds :
        (d d' : Database) (id : String) (now : Instant) (p : Policy)
        → Works db d
        → build_policy env id now d ≡ ok (p, d')
        → Works db d'
    acknowledges :
        (d d' : Database) (token : String) (a : PolicyAck) (now : Instant)
        → Works db d
        → acknowledge_policy env token a now d ≡ ok d'
        → Works db d'

  -- However policies are built and acknowledged, by whatever nodes and in whatever order, no node
  -- gets a second row, and no row says that a revision was applied before it was received or
  -- received before it was published, if that holds at the start.
  pub Works-IsKeyed :
      (db db' : Database) → IsKeyed db.node_policies → Works db db' → IsKeyed db'.node_policies
  Works-IsKeyed db db' keyed rests = keyed
  Works-IsKeyed db db' keyed (builds d _ id now p w h) =
      build_policy-IsKeyed id now d db' p h (Works-IsKeyed db d keyed w)
  Works-IsKeyed db db' keyed (acknowledges d _ token a now w h) =
      acknowledge_policy-IsKeyed token a now d db' h (Works-IsKeyed db d keyed w)
