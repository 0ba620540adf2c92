-- ===== src/Control/Report.antt =====
-- internal/control/policy.go and observability.go: the heartbeat of a node and the report in it.
pub mod Latest
pub mod Pace
use multi_derp.Base.{
  Bool, List, Option, Result, String, [], any, bool_eq, contains, fail_if, false, find,
  if◌then◌else◌, length, ltb, max, min, nat_eq, none, not, ok, option_eq, or_fail, some, string_eq,
  true, update, ℕ, ◌&&◌, ◌*◌, ◌++◌, ◌+◌, ◌/◌, ◌==◌, ◌>>=◌, ◌>>◌, ◌||◌, ◌∷◌,
}
use multi_derp.Clock.{Instant, before, is_zero, second}
use multi_derp.Control.Acknowledge.{body_text}
use multi_derp.Control.Policy.{build_policy, read_retentions}
use multi_derp.Control.Schema.{
  Database, Env, ObservationRow, StoreError, active, grant_state_eq, invalid, node_state_eq,
  role_eq, storage, unix,
}
use multi_derp.Control.Sessions.{NodeSession, node_session}

-- internal/cluster/control.go.
pub record TailnetTraffic : Type 0 where
  pub counter_id : ℕ
  pub tailnet_id : String
  pub rx_payload_bytes : ℕ
  pub tx_payload_bytes : ℕ
  pub relayed_payload_bytes : ℕ
  pub queued_payload_bytes : ℕ

pub record NodeReport : Type 0 where
  pub local_max_budget_bps : Option ℕ
  pub effective_budget_bps : Option ℕ
  pub revision : ℕ
  pub usable : Bool
  pub observed_at : Instant
  pub traffic : List TailnetTraffic
  pub active_connections : Option ℕ

pub record NodeHeartbeat : Type 0 where
  pub node_id : String
  pub lease_until : Instant
  pub desired_revision : ℕ
  pub heartbeat_interval_millis : ℕ

-- The JSON text of a report.
pub record ReportCodec : Type 0 where
  pub encode_report : NodeReport → String
  pub decode_report : String → Option NodeReport

unfoldable pub good_traffic : Database → String → List String → List TailnetTraffic → Bool
good_traffic db node seen [] = true
good_traffic db node seen (t ∷ ts) =
    not (t.tailnet_id == "" || contains seen t.tailnet_id)
    && any (λ g. g.node_id == node && g.tailnet_id == t.tailnet_id) db.grants
    && good_traffic db node (t.tailnet_id ∷ seen) ts

-- What `INSERT INTO node_observations … ON CONFLICT(node_id) DO UPDATE` makes of the row.
abbrev pub next_row : String → String → ℕ → ObservationRow → ObservationRow
next_row instance body now o = record o {
  previous_report_json = if o.report_instance == instance then o.report_json else none;
  report_instance = instance;
  report_json = some body;
  reported_at = now;
}

unfoldable pub put_report : String → String → String → ℕ → List ObservationRow → List ObservationRow
put_report node instance body now rows =
    if any (λ o. o.node_id == node) rows
    then update (λ o. o.node_id == node) (next_row instance body now) rows
    else rows
      ++ record {
        node_id = node;
        report_instance = instance;
        report_json = some body;
        reported_at = now;
        probes_json = none;
        previous_report_json = none;
      }
        ∷ []

abbrev pub reported_by : Option ObservationRow → String
reported_by none = ""
reported_by (some o) = o.report_instance

abbrev pub report_body : Option ObservationRow → String
report_body none = ""
report_body (some o) = body_text o.report_json

module _ (codec : ReportCodec) where
  -- Whether the stored report of the same instance makes this one stale.
  unfoldable pub is_stale : String → NodeReport → Option ObservationRow → Result StoreError Bool
  is_stale instance report row =
      if reported_by row == instance
      then (do
        old ← or_fail (codec.decode_report (report_body row)) storage
        ok (ltb report.revision old.revision || not (before old.observed_at report.observed_at)))
      else ok false

  unfoldable pub save_node_report :
      NodeSession → NodeReport → ℕ → Instant → Database → Result StoreError Database
  save_node_report session report desired now db = do
    fail_if
        (ltb desired report.revision
          || is_zero report.observed_at
          || before (now + 5 * second) report.observed_at
          || ltb 4096 (length report.traffic))
        invalid
    fail_if (not (good_traffic db session.node_id [] report.traffic)) invalid
    stale ←
        is_stale session.instance_id report
          (find (λ o. o.node_id == session.node_id) db.node_observations)
    if stale
        then ok db
        else ok (record db {
          node_observations =
              put_report session.node_id session.instance_id (codec.encode_report report) (unix now)
                db.node_observations;
        })

  unfoldable pub save_report :
      NodeSession → Option NodeReport → ℕ → Instant → Database → Result StoreError Database
  save_report session none desired now db = ok db
  save_report session (some report) desired now db = save_node_report session report desired now db

  unfoldable pub node_heartbeat :
      Env
      → String
      → Option NodeReport
      → Instant
      → Database
      → Result StoreError (NodeHeartbeat × Database)
  node_heartbeat env token report now db = do
    session ← node_session env token now db
    let lease = now + 90 * second
    (p, db₁) ← build_policy env session.node_id now (record db {
      nodes =
          update (λ n. n.id == session.node_id)
            (λ n. record n { lease_until = unix lease; last_heartbeat = unix now }) db.nodes;
      grants =
          update (λ g. g.node_id == session.node_id && g.state == active)
            (λ g. record g { last_control_success = unix now }) db.grants;
    })
    db₂ ← save_report session report p.revision now db₁
    retention ← read_retentions db₂
    ok (
      record {
        node_id = session.node_id;
        lease_until = lease;
        desired_revision = p.revision;
        heartbeat_interval_millis = max 250 (min 30_000 (retention.control_seconds * 1000 / 3));
      },
      db₂,
    )
