-- ===== src/Control/Policy/Built.antt =====
-- internal/control/policy.go, buildPolicy: the shapes of its result.
use multi_derp.Base.{
  >>=-eq-ok, List, Option, Result-cases, String, [], ap, arith, bool_eq, eq_iff, false, find, inl,
  inr, len, map, nat_eq, none, ok, option_eq, refl, some, sort_by, string_eq, update, ◌+◌, ◌<◌,
  ◌==◌, ◌∙◌, ◌∷◌, ◌≡◌, ◌≤◌,
}
use multi_derp.Clock.{Instant}
use multi_derp.Cluster.Cache.{decode_policy, max_policy_bytes}
use multi_derp.Cluster.Policy.{Policy}
use multi_derp.Cluster.Validate.{max_int64, validate_policy}
use multi_derp.Control.Policy.{
  build_each, build_policy, check_previous, compare_previous, draft_policy, find_policy,
  publish_policy, rebuild_policies,
}
use multi_derp.Control.Schema.{
  Database, Env, NodePolicy, grant_state_eq, node_state_eq, role_eq, unix,
}
use multi_derp.Text.{text_le}

pub find_policy-update :
    (id : String) (f : NodePolicy → NodePolicy) (rows : List NodePolicy) (row : NodePolicy)
    → ((r : NodePolicy) → (f r).node_id ≡ r.node_id)
    → find (λ r. r.node_id == id) rows ≡ some row
    → find (λ r. r.node_id == id) (update (λ r. r.node_id == id) f rows) ≡ some (f row)
find_policy-update id f [] row keep h = cc
find_policy-update id f (r ∷ rows) row keep h =
    ground (arith, keep r, find_policy-update id f rows row keep, eq_iff r.node_id id)

module _ (env : Env) where
  -- The policy is the stored one and nothing changed, or it is published under the next revision.
  pub data Built (id : String) (now : Instant) (db : Database) (row : NodePolicy) (p : Policy)
      (db' : Database) : Type 0 where
    unchanged :
        (body : String)
        → row.policy_json ≡ some body
        → env.codec.decode body ≡ some p
        → p.revision ≡ row.desired_revision
        → db' ≡ db
        → Built id now db row p db'
    published :
        p.revision ≡ row.desired_revision + 1
        → p.generated_at ≡ now
        → len (env.codec.encode p) ≤ max_policy_bytes
        → db' ≡ record db {
          node_policies =
              update
                (λ r. r.node_id == id)
                (λ r. record r {
                  desired_revision = p.revision;
                  generated_at = unix p.generated_at;
                  policy_json = some (env.codec.encode p);
                })
                db.node_policies;
        }
        → Built id now db row p db'

  pub draft_policy-row :
      (db : Database) (id : String) (draft : Policy) (row : NodePolicy)
      → draft_policy env db id ≡ ok (draft, row)
      → (draft.node_id ≡ id) × (draft.cluster_id ≡ env.cluster_id) × (find_policy id db ≡ some row)
  unfolding draft_policy
  draft_policy-row db id draft row h = ground arith

  decode_policy-valid :
      (body cluster_id node_id : String) (p : Policy)
      → decode_policy env.keys env.codec body cluster_id node_id ≡ ok p
      → (env.codec.decode body ≡ some p) × (validate_policy env.keys p cluster_id node_id ≡ ok tt)
  unfolding decode_policy
  decode_policy-valid body cluster_id node_id p h = ground arith

  -- The stored policy that is kept: it was valid, and what the tables give reads the same.
  pub record IsKept (draft : Policy) (row : NodePolicy) (old : Policy) (body : String)
      : Type 0 where
    pub stored : row.policy_json ≡ some body
    pub filled : (body == "") ≡ false
    pub read : decode_policy env.keys env.codec body env.cluster_id draft.node_id ≡ ok old
    pub current : old.revision ≡ row.desired_revision
    pub decoded : env.codec.decode body ≡ some old
    pub valid : validate_policy env.keys old env.cluster_id draft.node_id ≡ ok tt
    pub same :
        env.codec.encode (record draft { revision = old.revision; generated_at = old.generated_at })
        ≡ body

  check_previous-IsKept :
      (draft : Policy) (row : NodePolicy) (now : Instant) (previous : Option String) (old : Policy)
      → row.policy_json ≡ previous
      → check_previous env draft row now previous ≡ ok (some old)
      → (body : String) × IsKept draft row old body
  unfolding check_previous compare_previous
  check_previous-IsKept draft row now none old stored h = absurd (ground arith)
  check_previous-IsKept draft row now (some body) old stored h =
      elim (Result-cases (decode_policy env.keys env.codec body env.cluster_id draft.node_id)) [
        | inr (x, e) ↦ absurd (ground arith)
        | inl (q, e) ↦
            let candidate : Policy = record draft {
              revision = q.revision;
              generated_at = q.generated_at;
            } in
            let read = decode_policy-valid body env.cluster_id draft.node_id q e in
            (
              body,
              record {
                stored = stored;
                filled = ground arith;
                read = let same : q ≡ old = ground arith in e ∙ ap ok same;
                current = ground arith;
                decoded = ground arith;
                valid = ground arith;
                same = ground (arith, eq_iff (env.codec.encode candidate) body);
              },
            )
      ]

  -- The parts of a call of `build_policy` that succeeds.
  pub data Parts (id : String) (now : Instant) (db : Database) (draft : Policy) (row : NodePolicy)
      (p : Policy) (db' : Database) : Type 0 where
    keeps : (body : String) → IsKept draft row p body → db' ≡ db → Parts id now db draft row p db'
    publishes : publish_policy env draft row now db ≡ ok (p, db') → Parts id now db draft row p db'

  pub build_policy-Parts :
      (id : String) (now : Instant) (db db' : Database) (p : Policy)
      → build_policy env id now db ≡ ok (p, db')
      → (draft : Policy) × (row : NodePolicy) × (draft_policy env db id ≡ ok (draft, row))
        × (row.desired_revision < max_int64)
        × Parts id now db draft row p db'
  unfolding build_policy
  build_policy-Parts id now db db' p h = elim (Result-cases (draft_policy env db id)) [
    | inr (x, e) ↦ absurd (ground arith)
    | inl ((draft, row), e) ↦
        elim (Result-cases (check_previous env draft row now row.policy_json)) [
          | inr (x, e') ↦ absurd (ground arith)
          | inl (none, e') ↦ (draft, row, e, ground arith, publishes (ground arith))
          | inl (some old, e') ↦
              let (body, kept) = check_previous-IsKept draft row now row.policy_json old refl e' in
              let same : old ≡ p = ground arith in
              (draft, row, e, ground arith, rw (← same) (keeps body kept (ground arith)))
        ]
  ]

  publish_policy-Built :
      (id : String) (now : Instant) (db db' : Database) (draft : Policy) (row : NodePolicy)
      (p : Policy)
      → draft.node_id ≡ id
      → publish_policy env draft row now db ≡ ok (p, db')
      → (validate_policy env.keys p env.cluster_id id ≡ ok tt) × Built id now db row p db'
  unfolding publish_policy
  publish_policy-Built id now db db' draft row p named h =
      let q : Policy = record draft { revision = row.desired_revision + 1; generated_at = now } in
      let same : p ≡ q = ground arith in
      (
        rw (← named) (ground arith),
        published (ground arith) (ground arith) (ground arith) (rw (← named) (ground arith)),
      )

  Parts-Built :
      (id : String) (now : Instant) (db db' : Database) (draft : Policy) (row : NodePolicy)
      (p : Policy)
      → draft.node_id ≡ id
      → Parts id now db draft row p db'
      → (validate_policy env.keys p env.cluster_id id ≡ ok tt) × Built id now db row p db'
  Parts-Built id now db db' draft row p named (keeps body kept same) =
      (rw named at kept.valid, unchanged body kept.stored kept.decoded kept.current same)
  Parts-Built id now db db' draft row p named (publishes h) =
      publish_policy-Built id now db db' draft row p named h

  -- A policy that was built is valid for its node, and it is the stored one with nothing changed or
  -- the next revision of it, dated now; a revision that cannot grow any more is refused.
  pub build_policy-Built :
      (id : String) (now : Instant) (db db' : Database) (p : Policy)
      → build_policy env id now db ≡ ok (p, db')
      → (row : NodePolicy) × (find_policy id db ≡ some row)
        × (row.desired_revision < max_int64)
        × (validate_policy env.keys p env.cluster_id id ≡ ok tt)
        × Built id now db row p db'
  build_policy-Built id now db db' p h =
      let (draft, row, drafted, room, parts) = build_policy-Parts id now db db' p h in
      let (named, clustered, found) = draft_policy-row db id draft row drafted in
      let (valid, built) = Parts-Built id now db db' draft row p named parts in
      (row, found, room, valid, built)

  Built-only :
      (id : String) (now : Instant) (db : Database) (row : NodePolicy) (p : Policy) (db' : Database)
      → Built id now db row p db'
      → db' ≡ record db { node_policies = db'.node_policies }
  Built-only id now db row p db' (unchanged body stored reads current e) = rw e
  Built-only id now db row p db' (published next dated short e) = rw e

  pub build_policy-only :
      (id : String) (now : Instant) (db db' : Database) (p : Policy)
      → build_policy env id now db ≡ ok (p, db')
      → db' ≡ record db { node_policies = db'.node_policies }
  build_policy-only id now db db' p h =
      let (row, found, room, valid, built) = build_policy-Built id now db db' p h in
      Built-only id now db row p db' built

  build_each-only :
      (ids : List String) (now : Instant) (db db' : Database)
      → build_each env ids now db ≡ ok db'
      → db' ≡ record db { node_policies = db'.node_policies }
  unfolding build_each
  build_each-only [] now db db' h = ground (arith, h)
  build_each-only (id ∷ ids) now db db' h =
      let ((p, d), e, h') = >>=-eq-ok (build_policy env id now db) _ h in
      let one = build_policy-only id now db d p e in
      let rest = build_each-only ids now d db' h' in
      rest
      ∙ ap {B = Database} (λ (x : Database). record x { node_policies = db'.node_policies }) one

  pub rebuild_policies-only :
      (now : Instant) (db db' : Database)
      → rebuild_policies env now db ≡ ok db'
      → db' ≡ record db { node_policies = db'.node_policies }
  unfolding rebuild_policies
  rebuild_policies-only now db db' h =
      build_each-only (sort_by text_le (map (λ r. r.node_id) db.node_policies)) now db db' h
