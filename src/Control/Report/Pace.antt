-- ===== src/Control/Report/Pace.antt =====
-- internal/control/policy.go: how often a node is asked to report.
use multi_derp.Base.{
  >>=-eq-ok, Option, String, [], ap, arith, bool_eq, fail_if, find, find-update_made, length,
  list_eq, ltb, max, min, nat_eq, none, not, ok, option_eq, or_fail, or_fail-some, refl, some,
  string_eq, sym, update, ℕ, ◌&&◌, ◌*◌, ◌+◌, ◌/◌, ◌<◌, ◌==◌, ◌||◌, ◌∙◌, ◌≡◌, ◌≤◌,
}
use multi_derp.Clock.{Instant, before, is_zero, second}
use multi_derp.Cluster.Policy.{Policy}
use multi_derp.Control.Policy.{
  Retentions, build_policy, draft_policy, find_node, read_retentions, valid_retentions,
}
use multi_derp.Control.Policy.Built.{build_policy-only}
use multi_derp.Control.Report.{
  NodeHeartbeat, NodeReport, ReportCodec, good_traffic, is_stale, node_heartbeat, save_node_report,
  save_report,
}
use multi_derp.Control.Schema.{
  Database, Env, Node, active, grant_state_eq, invalid, no_rows, node_state_eq, role_eq, unix,
}
use multi_derp.Control.Sessions.{NodeSession, node_session}

read_retentions-valid :
    (db : Database) (r : Retentions) → read_retentions db ≡ ok r → 0 < r.control_seconds
unfolding read_retentions valid_retentions
read_retentions-valid db r h =
    let (identity, e₀, h₀) = >>=-eq-ok (or_fail db.identity_retention invalid) _ h in
    let (control, e₁, h₁) = >>=-eq-ok (or_fail db.control_retention invalid) _ h₀ in
    ground (arith, h₁)

build_policy-node :
    (env : Env) (id : String) (now : Instant) (db db' : Database) (p : Policy)
    → build_policy env id now db ≡ ok (p, db')
    → (n : Node) × (find_node id db ≡ some n)
unfolding build_policy draft_policy
build_policy-node env id now db db' p h =
    let ((draft, row), e, h') = >>=-eq-ok (draft_policy env db id) _ h in
    let (n, e', h'') = >>=-eq-ok (or_fail (find_node id db) no_rows) _ e in (n, or_fail-some _ _ e')

-- A report does not touch the nodes.
save_report-nodes :
    (codec : ReportCodec) (session : NodeSession) (report : Option NodeReport) (desired : ℕ)
    (now : Instant) (db db' : Database)
    → save_report codec session report desired now db ≡ ok db'
    → db'.nodes ≡ db.nodes
unfolding save_report save_node_report
save_report-nodes codec session none desired now db db' h = ground (arith, h)
save_report-nodes codec session (some report) desired now db db' h =
    let (x₀, e₀, h₀) =
      >>=-eq-ok
        (fail_if
          (ltb desired report.revision
            || is_zero report.observed_at
            || before (now + 5 * second) report.observed_at
            || ltb 4096 (length report.traffic))
          invalid)
        _ h in
    let (x₁, e₁, h₁) =
      >>=-eq-ok (fail_if (not (good_traffic db session.node_id [] report.traffic)) invalid) _ h₀ in
    let (late, e₂, h₂) =
      >>=-eq-ok
        (is_stale codec session.instance_id report
          (find (λ o. o.node_id == session.node_id) db.node_observations))
        _ h₁ in
    ground (arith, h₂)

-- The tables as the policy of a heartbeat is built.
abbrev seen_at : String → Instant → Database → Database
seen_at id now db = record db {
  nodes =
      update (λ n. n.id == id)
        (λ n. record n { lease_until = unix (now + 90 * second); last_heartbeat = unix now })
        db.nodes;
  grants =
      update (λ g. g.node_id == id && g.state == active)
        (λ g. record g { last_control_success = unix now }) db.grants;
}

-- A node is asked to report at least twice a minute and at most four times a second, often enough to
-- report three times before the permissions that rest on its last report end. The node of the session
-- is the one that is answered, and it is stored with a lease of ninety seconds, the one of the answer,
-- and with this heartbeat as its last; all else of the node is as before.
pub node_heartbeat-pace :
    (env : Env) (codec : ReportCodec) (token : String) (report : Option NodeReport) (now : Instant)
    (db db' : Database) (h : NodeHeartbeat)
    → node_heartbeat codec env token report now db ≡ ok (h, db')
    → (session : NodeSession) × (node_session env token now db ≡ ok session)
      × (h.node_id ≡ session.node_id)
      × (h.lease_until ≡ now + 90 * second)
      × ((old : Node) × (find_node session.node_id db ≡ some old)
          × (find_node session.node_id db'
              ≡ some (record old {
                lease_until = unix (now + 90 * second);
                last_heartbeat = unix now;
              })))
      × (retention : Retentions) × (read_retentions db' ≡ ok retention)
      × (250 ≤ h.heartbeat_interval_millis)
      × (h.heartbeat_interval_millis ≤ 30_000)
      × (3 * h.heartbeat_interval_millis ≤ retention.control_seconds * 1000)
unfolding node_heartbeat
node_heartbeat-pace env codec token report now db db' h done =
    let (session, e₀, h₀) = >>=-eq-ok (node_session env token now db) _ done in
    let ((p, d), e₁, h₁) =
      >>=-eq-ok (build_policy env session.node_id now (seen_at session.node_id now db)) _ h₀ in
    let (d', e₂, h₂) = >>=-eq-ok (save_report codec session report p.revision now d) _ h₁ in
    let (r, e₃, h₃) = >>=-eq-ok (read_retentions d') _ h₂ in
    let same : d' ≡ db' = ground (arith, h₃) in
    let pace : h.heartbeat_interval_millis ≡ max 250 (min 30_000 (r.control_seconds * 1000 / 3)) =
      ground (arith, h₃) in
    let some_time = read_retentions-valid d' r e₃ in
    let leased : h.lease_until ≡ now + 90 * second = ground (arith, h₃) in
    let only = build_policy-only env session.node_id now (seen_at session.node_id now db) d p e₁ in
    let nodes : db'.nodes ≡ (seen_at session.node_id now db).nodes =
      ap (λ (x : Database). x.nodes) (sym same)
      ∙ save_report-nodes codec session report p.revision now d d' e₂
      ∙ ap (λ (x : Database). x.nodes) only in
    let (n, at) =
      build_policy-node env session.node_id now (seen_at session.node_id now db) d p e₁ in
    let (old, before_it, made) =
      find-update_made (λ m. m.id == session.node_id) _ db.nodes n (λ m. refl) at in
    (
      session,
      e₀,
      ground (arith, h₃),
      leased,
      (old, before_it, ap (λ ns. find (λ m. m.id == session.node_id) ns) nodes ∙ at ∙ ap some made),
      r,
      rw same at e₃,
      omega (arith, pace),
      omega (arith, pace),
      omega (arith, pace, some_time),
    )
