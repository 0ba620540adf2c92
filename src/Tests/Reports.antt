-- ===== src/Tests/Reports.antt =====
-- Runs of heartbeats, reports and refreshes.
use multi_derp.Base.{
  [], bool_eq, err, find, if◌then◌else◌, list_eq, nat_eq, none, ok, option_eq, refl, some, sort_by,
  string_eq, true, ℕ, ◌*◌, ◌+◌, ◌==◌, ◌∷◌, ◌≡◌, ◌≤◌,
}
use multi_derp.Clock.{second, unix_time}
use multi_derp.Cluster.Validate.{
  bad_grant_deadlines, bad_grant_identity, bad_policy_identity, bad_tailnet_rule, check_cover,
  check_grants, check_keys, check_rules, valid_ceiling, valid_id, valid_weight, validate_policy,
  validate_qos,
}
use multi_derp.Control.Identity.{conflicting_keys, owner_of, scan_keys, scan_snapshots}
use multi_derp.Control.Policy.{
  Retentions, active_grants, build_policy, check_previous, collect, draft_policy, find_node,
  free_keys, join_grant, join_grants, join_tailnet, node_serves, policy_grant, policy_rule,
  publish_policy, read_retentions, rule_group, valid_retentions,
}
use multi_derp.Control.Publish.{begin_refresh, finish_refresh}
use multi_derp.Control.Report.{
  NodeHeartbeat, NodeReport, ReportCodec, good_traffic, is_stale, node_heartbeat, put_report,
  save_node_report, save_report,
}
use multi_derp.Control.Report.Latest.{Reads, save_node_report-latest}
use multi_derp.Control.Report.Pace.{node_heartbeat-pace}
use multi_derp.Control.Schema.{Credential, Database, Node, conflict, unix}
use multi_derp.Control.Sessions.{NodeSession, node_session, scan_sessions, session_of}
use multi_derp.Control.Tailnets.Overtaken.{finish_refresh-overtaken, nothing, refreshed}
use multi_derp.Tests.Control.{home, tables, token}
use multi_derp.Tests.Nodes.{after_pair}
use multi_derp.Tests.Samples.{noon, sample_env}
use multi_derp.Tests.Users.{after}
use multi_derp.Text.{is_hex_token, trim_space}

abbrev old_report : NodeReport
old_report = record {
  local_max_budget_bps = none;
  effective_budget_bps = none;
  revision = 1;
  usable = true;
  observed_at = unix_time 990;
  traffic = [];
  active_connections = none;
}

abbrev new_report : NodeReport
new_report = record old_report { revision = 2; observed_at = noon }

-- The texts of these two reports.
abbrev codec : ReportCodec
codec = record {
  encode_report = λ r. if r.revision == 2 then "new" else "old";
  decode_report = λ s. if s == "new" then some new_report else some old_report;
}

abbrev session : NodeSession
session = record {
  cluster_id = "c1";
  node_id = "n1";
  instance_id = "i1";
  token = "";
  expires_at = unix_time 3000;
  lease_until = unix_time 2000;
}

abbrev reported : Database
reported = record tables {
  node_observations =
      record {
        node_id = "n1";
        report_instance = "i1";
        report_json = some "old";
        reported_at = 990;
        probes_json = none;
        previous_report_json = none;
      }
      ∷ [];
}

abbrev updated : Database
updated = after reported (save_node_report codec session new_report 2 noon reported)

first-updated : save_node_report codec session new_report 2 noon reported ≡ ok updated
unfolding save_node_report good_traffic is_stale put_report
first-updated = refl

save_node_report-latest_example :
    (kept : NodeReport) × Reads codec
      (find (λ o. o.node_id == "n1") updated.node_observations)
      "i1"
      kept
    × (old_report.revision ≤ kept.revision)
    × (old_report.observed_at ≤ kept.observed_at)
save_node_report-latest_example =
    save_node_report-latest codec session new_report old_report 2 noon reported updated refl
      (record { by = refl; read = refl }) refl first-updated

abbrev beat : NodeHeartbeat
beat = record {
  node_id = "n1";
  lease_until = unix_time 1090;
  desired_revision = 1;
  heartbeat_interval_millis = 30_000;
}

abbrev beaten : Database
beaten = after_pair tables (node_heartbeat codec sample_env token none noon tables)

first-beat : node_heartbeat codec sample_env token none noon tables ≡ ok (beat, beaten)
unfolding node_heartbeat save_report node_session scan_sessions session_of is_hex_token build_policy
    draft_policy read_retentions valid_retentions node_serves active_grants join_grants join_grant
    join_tailnet sort_by collect conflicting_keys scan_snapshots scan_keys owner_of policy_grant
    policy_rule rule_group free_keys check_previous publish_policy validate_policy
    bad_policy_identity valid_id validate_qos valid_weight valid_ceiling check_rules
    bad_tailnet_rule check_grants bad_grant_identity bad_grant_deadlines check_keys check_cover
    trim_space
first-beat = refl

node_heartbeat-pace_example :
    (session : NodeSession) × (node_session sample_env token noon tables ≡ ok session)
    × (beat.node_id ≡ session.node_id)
    × (beat.lease_until ≡ noon + 90 * second)
    × ((old : Node) × (find_node session.node_id tables ≡ some old)
        × (find_node session.node_id beaten
            ≡ some (record old {
              lease_until = unix (noon + 90 * second);
              last_heartbeat = unix noon;
            })))
    × (retention : Retentions) × (read_retentions beaten ≡ ok retention)
    × (250 ≤ beat.heartbeat_interval_millis)
    × (beat.heartbeat_interval_millis ≤ 30_000)
    × (3 * beat.heartbeat_interval_millis ≤ retention.control_seconds * 1000)
node_heartbeat-pace_example =
    node_heartbeat-pace sample_env codec token none noon tables beaten beat first-beat

-- Two refreshes of a tailnet at the same time.
abbrev credential : Credential
credential = record {
  tailnet_id = "t1";
  kind = "oauth";
  encrypted = "sealed";
  status = "valid";
  revision = 1;
  refresh_seq = 4;
  updated_at = 900;
  error = "";
}

abbrev at_seq : ℕ → Credential
at_seq n = record credential { refresh_seq = n }

abbrev linked : ℕ → Database
linked n = record tables {
  tailnets = record home { api_id = some "T12345" } ∷ [];
  credentials = at_seq n ∷ [];
}

first-begun : begin_refresh sample_env "t1" (linked 4) ≡ ok ("T12345", at_seq 5, linked 5)
unfolding begin_refresh
first-begun = refl

next-begun : begin_refresh sample_env "t1" (linked 5) ≡ ok ("T12345", at_seq 6, linked 6)
unfolding begin_refresh
next-begun = refl

finish_refresh-overtaken_example :
    finish_refresh sample_env "t1" (at_seq 5) (some []) noon (linked 6) ≡ err conflict
finish_refresh-overtaken_example =
    finish_refresh-overtaken sample_env "t1" (linked 4) (linked 5) (linked 5) (linked 6) (linked 6)
      "T12345" (at_seq 5) (some []) noon first-begun nothing
      (refreshed "T12345" (at_seq 6) next-begun) nothing
