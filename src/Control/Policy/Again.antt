-- ===== src/Control/Policy/Again.antt =====
-- internal/control/policy.go, buildPolicy: building twice.
use multi_derp.Base.{
  String, ap, arith, bool_eq, eq_iff, false, len, nat_beq_iff, nat_eq, ok, option_eq, refl, some,
  string_eq, ◌+◌, ◌<◌, ◌==◌, ◌∙◌, ◌≡◌, ◌≤◌,
}
use multi_derp.Clock.{Instant}
use multi_derp.Cluster.Cache.{decode_policy, max_policy_bytes}
use multi_derp.Cluster.Policy.{Policy}
use multi_derp.Cluster.Validate.{max_int64, validate_policy}
use multi_derp.Control.Policy.{
  build_policy, check_previous, compare_previous, draft_policy, publish_policy,
}
use multi_derp.Control.Policy.Built.{Parts, build_policy-Parts, draft_policy-row, keeps, publishes}
use multi_derp.Control.Policy.Drafts.{draft_policy-published, published_db, published_row}
use multi_derp.Control.Policy.Sound.{publish_policy-same}
use multi_derp.Control.Schema.{Database, Env, NodePolicy, grant_state_eq, node_state_eq, role_eq}

module _ (env : Env) where
  publish_policy-db :
      (id : String) (draft : Policy) (row : NodePolicy) (now : Instant) (db db' : Database)
      (p : Policy)
      → draft.node_id ≡ id
      → publish_policy env draft row now db ≡ ok (p, db')
      → (db' ≡ published_db env id p db)
        × (validate_policy env.keys p env.cluster_id id ≡ ok tt)
        × (len (env.codec.encode p) ≤ max_policy_bytes)
  unfolding publish_policy
  publish_policy-db id draft row now db db' p named h =
      (rw (← named) (ground arith), rw (← named) (ground arith), ground arith)

  decode_policy-ok :
      (body cluster_id node_id : String) (p : Policy)
      → len body ≤ max_policy_bytes
      → env.codec.decode body ≡ some p
      → validate_policy env.keys p cluster_id node_id ≡ ok tt
      → decode_policy env.keys env.codec body cluster_id node_id ≡ ok p
  unfolding decode_policy
  decode_policy-ok body cluster_id node_id p small reads valid = ground arith

  check_previous-keeps :
      (draft : Policy) (row : NodePolicy) (now : Instant) (body : String) (p : Policy)
      → (body == "") ≡ false
      → decode_policy env.keys env.codec body env.cluster_id draft.node_id ≡ ok p
      → p.revision ≡ row.desired_revision
      → env.codec.encode (record draft { revision = p.revision; generated_at = p.generated_at })
        ≡ body
      → check_previous env draft row now (some body) ≡ ok (some p)
  unfolding check_previous compare_previous
  check_previous-keeps draft row now body p filled read current same =
      let candidate : Policy = record draft {
        revision = p.revision;
        generated_at = p.generated_at;
      } in
      ground (
        arith,
        eq_iff (env.codec.encode candidate) body,
        nat_beq_iff p.revision row.desired_revision,
      )

  build_policy-keeps :
      (id : String) (now : Instant) (db : Database) (draft : Policy) (row : NodePolicy) (p : Policy)
      → draft_policy env db id ≡ ok (draft, row)
      → row.desired_revision < max_int64
      → check_previous env draft row now row.policy_json ≡ ok (some p)
      → build_policy env id now db ≡ ok (p, db)
  unfolding build_policy
  build_policy-keeps id now db draft row p e room e' = ground arith

  Parts-again :
      (id : String) (now later : Instant) (db : Database) (draft : Policy) (row : NodePolicy)
      (p : Policy) (db' : Database)
      → env.codec.decode (env.codec.encode p) ≡ some p
      → (env.codec.encode p == "") ≡ false
      → p.revision < max_int64
      → draft.node_id ≡ id
      → draft_policy env db id ≡ ok (draft, row)
      → Parts env id now db draft row p db'
      → build_policy env id later db' ≡ ok (p, db')
  Parts-again id now later db draft row p db' reads filled room named e (keeps body kept same) =
      let again =
        check_previous-keeps draft row later body p kept.filled kept.read kept.current kept.same in
      rw same (
        build_policy-keeps id later db draft row p e (ground (arith, kept.current, room))
          (ap (check_previous env draft row later) kept.stored ∙ again))
  Parts-again id now later db draft row p db' reads filled room named e (publishes h) =
      let (same, valid, small) = publish_policy-db id draft row now db db' p named h in
      let sent : p ≡ record draft { revision = row.desired_revision + 1; generated_at = now } =
        publish_policy-same env draft row p now db db' h in
      let text : record draft { revision = p.revision; generated_at = p.generated_at } ≡ p =
        ground (arith, sent) in
      let row' = published_row env row p in
      let again =
        check_previous-keeps draft row' later (env.codec.encode p) p filled
          (decode_policy-ok (env.codec.encode p) env.cluster_id draft.node_id p small reads
            (rw named valid))
          refl (ap env.codec.encode text) in
      rw same (
        build_policy-keeps id later (published_db env id p db) draft row' p
          (draft_policy-published env db id draft p row e) room again)

  -- Building a node's policy again, at whatever time, gives the same policy and leaves the tables
  -- as they are: no revision is spent while nothing changes, if the policy's JSON text is not empty
  -- and reads back as that policy, and the revision can still grow.
  pub build_policy-again :
      (id : String) (now later : Instant) (db db' : Database) (p : Policy)
      → env.codec.decode (env.codec.encode p) ≡ some p
      → (env.codec.encode p == "") ≡ false
      → p.revision < max_int64
      → build_policy env id now db ≡ ok (p, db')
      → build_policy env id later db' ≡ ok (p, db')
  build_policy-again id now later db db' p reads filled room h =
      let (draft, row, e, less, parts) = build_policy-Parts env id now db db' p h in
      let (named, clustered, found) = draft_policy-row env db id draft row e in
      Parts-again id now later db draft row p db' reads filled room named e parts
