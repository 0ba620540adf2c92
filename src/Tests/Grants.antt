-- ===== src/Tests/Grants.antt =====
-- Runs of what the owners and the nodes do with a grant and its policies.
use multi_derp.Base.{String, [], arith, false, ok, refl, some, sort_by, true, ◌∷◌, ◌≡◌, ◌≢◌, ◌⊎◌}
use multi_derp.Clock.{unix_time}
use multi_derp.Cluster.Cache.{decode_policy}
use multi_derp.Cluster.Policy.{Policy, effective_until}
use multi_derp.Cluster.Validate.{
  bad_grant_deadlines, bad_grant_identity, bad_policy_identity, bad_tailnet_rule, check_cover,
  check_grants, check_keys, check_rules, valid_ceiling, valid_id, valid_weight, validate_policy,
  validate_qos,
}
use multi_derp.Control.Access.{Actor, active_actor, active_role, require_owner, write_audit}
use multi_derp.Control.Acknowledge.{
  PolicyAck, acknowledge_applied, acknowledge_policy, acknowledge_received, bad_ack, live_grant,
  live_key,
}
use multi_derp.Control.Acknowledge.Order.{IsKeyed, Works-IsKeyed, acknowledges, builds, rests}
use multi_derp.Control.Acknowledge.Usable.{IsUsable, acknowledge_policy-ready}
use multi_derp.Control.Grants.{
  Grant, action_allowed, apply_grant_action, approve, check_resources, find_grant,
  grant_resources_enabled, put_grant, request_base, request_grant, scan_grant, shown_state,
  shown_until, store_action, store_request,
}
use multi_derp.Control.Grants.Acted.{Acted, ActsFor, apply_grant_action-Acted}
use multi_derp.Control.Grants.Request.{Requested, request_grant-Requested}
use multi_derp.Control.Grants.Retry.{apply_grant_action-retry}
use multi_derp.Control.Identity.{conflicting_keys, owner_of, scan_keys, scan_snapshots}
use multi_derp.Control.Policy.{
  active_grants, build_policy, check_previous, collect, compare_previous, draft_policy, find_node,
  find_tailnet, join_grant, join_grants, join_tailnet, node_serves, publish_policy, read_retentions,
  valid_retentions,
}
use multi_derp.Control.Resources.{set_node_enabled, switch_node}
use multi_derp.Control.Resources.Silence.{IsSent, set_node_enabled-IsSent}
use multi_derp.Control.Schema.{
  AuditRow, Database, GrantRow, Node, NodePolicy, Tailnet, admin, member, owner_approved, pending,
  provider, ready, registered, requested,
}
use multi_derp.Control.Sessions.{NodeSession, node_session, scan_sessions, session_of}
use multi_derp.Tests.Control.{built, first-built, first_row, new_row, relay, tables, token, tokyo}
use multi_derp.Tests.Samples.{first_policy, noon, sample_env, sample_env-Readable}
use multi_derp.Text.{is_hex_token, trim_space}

abbrev alice_acts : Actor
alice_acts = record { id = "u1"; username = "alice"; role = provider; enabled = true }

abbrev pub bob_acts : Actor
bob_acts = record { id = "u2"; username = "bob"; role = member; enabled = true }

-- The policy of the node as long as no grant is active.
abbrev silent_row : NodePolicy
silent_row = record new_row {
  desired_revision = 1;
  generated_at = 1000;
  policy_json = some "other";
}

abbrev audited : String → String → String → AuditRow
audited actor owner action = record {
  actor_id = actor;
  owner_id = owner;
  resource_type = "grant";
  resource_id = "g1";
  action = action;
  created_at = 1000;
}

abbrev blank : Database
blank = record tables { grants = [] }

abbrev wanted : GrantRow
wanted = record relay { state = requested; revision = 1; last_control_success = 0 }

abbrev wanted_grant : Grant
wanted_grant = record {
  id = "g1";
  node_id = "n1";
  tailnet_id = "t1";
  node_owner_id = "u1";
  tailnet_owner_id = "u2";
  state = requested;
  revision = 1;
  explicit_until = 0;
  node_name = "tokyo";
  tailnet_name = "home";
  applicant = "bob";
}

abbrev asked : Database
asked = record blank {
  grants = wanted ∷ [];
  node_policies = silent_row ∷ [];
  audit = audited "u2" "u2" "grant.request" ∷ [];
}

first-asked :
    request_grant sample_env bob_acts "n1" "t1" 0 0 "g1" noon blank ≡ ok (wanted_grant, asked)
unfolding request_grant active_actor active_role require_owner grant_resources_enabled request_base
    store_request put_grant write_audit build_policy draft_policy read_retentions valid_retentions
    node_serves active_grants join_grants join_grant join_tailnet sort_by collect conflicting_keys
    scan_snapshots scan_keys owner_of check_previous publish_policy validate_policy
    bad_policy_identity valid_id validate_qos valid_weight valid_ceiling check_rules check_grants
    check_cover trim_space
first-asked = refl

request_grant-Requested_example :
    Requested sample_env bob_acts "n1" "t1" 0 0 noon blank wanted_grant asked
request_grant-Requested_example =
    request_grant-Requested sample_env bob_acts "n1" "t1" 0 0 "g1" noon blank asked wanted_grant
      first-asked

-- The approval, asked for before a policy was built.
abbrev waiting : Database
waiting = record tables { grants = wanted ∷ [] }

abbrev approved_grant : Grant
approved_grant = record wanted_grant { state = owner_approved; revision = 2 }

abbrev approved : Database
approved = record waiting {
  grants = record wanted { state = owner_approved; revision = 2 } ∷ [];
  node_policies = silent_row ∷ [];
  audit = audited "u1" "u1" "grant.approve" ∷ [];
}

first-approved :
    apply_grant_action sample_env alice_acts "g1" 1 approve noon waiting
    ≡ ok (approved_grant, approved)
unfolding apply_grant_action scan_grant shown_state shown_until action_allowed check_resources
    store_action active_actor active_role require_owner grant_resources_enabled write_audit
    build_policy draft_policy read_retentions valid_retentions node_serves active_grants join_grants
    join_grant join_tailnet sort_by collect conflicting_keys scan_snapshots scan_keys owner_of
    check_previous publish_policy validate_policy bad_policy_identity valid_id validate_qos
    valid_weight valid_ceiling check_rules check_grants check_cover trim_space
first-approved = refl

apply_grant_action-Acted_example :
    (row : GrantRow) × (n : Node) × (t : Tailnet) × (find_grant "g1" waiting ≡ some row)
    × (find_node row.node_id waiting ≡ some n)
    × (find_tailnet row.tailnet_id waiting ≡ some t)
    × (alice_acts.enabled ≡ true)
    × ((alice_acts.role ≡ admin) ⊎ ActsFor n t alice_acts.id approve)
    × Acted "g1" 1 approve noon row n t waiting approved_grant approved
apply_grant_action-Acted_example =
    apply_grant_action-Acted sample_env alice_acts "g1" 1 approve noon waiting approved
      approved_grant first-approved

apply_grant_action-retry_example :
    apply_grant_action sample_env alice_acts "g1" 1 approve noon approved
    ≡ ok (approved_grant, approved)
apply_grant_action-retry_example =
    apply_grant_action-retry sample_env alice_acts "g1" 1 approve noon approved_grant waiting
      approved first-approved

abbrev got : PolicyAck
got = record { revision = 1; state = "received"; usable = false; error = "" }

abbrev done : PolicyAck
done = record { revision = 1; state = "applied"; usable = true; error = "" }

abbrev received : Database
received = record built { node_policies = record first_row { received_revision = 1 } ∷ [] }

abbrev ready_node : Node
ready_node = record tokyo { state = ready }

abbrev applied : Database
applied = record received {
  node_policies =
      record first_row { received_revision = 1; applied_revision = 1; derper_usable = true } ∷ [];
  nodes = ready_node ∷ [];
}

abbrev session : NodeSession
session = record {
  cluster_id = "c1";
  node_id = "n1";
  instance_id = "i1";
  token = "";
  expires_at = unix_time 3000;
  lease_until = unix_time 2000;
}

first-opened : node_session sample_env token noon received ≡ ok session
unfolding node_session is_hex_token scan_sessions session_of
first-opened = refl

first-received : acknowledge_policy sample_env token got noon built ≡ ok received
unfolding acknowledge_policy bad_ack node_session is_hex_token scan_sessions session_of
    acknowledge_received
first-received = refl

first-applied : acknowledge_policy sample_env token done noon received ≡ ok applied
unfolding acknowledge_policy bad_ack node_session is_hex_token scan_sessions session_of
    acknowledge_applied live_grant live_key effective_until decode_policy validate_policy
    bad_policy_identity valid_id validate_qos valid_weight valid_ceiling check_rules
    bad_tailnet_rule check_grants bad_grant_identity bad_grant_deadlines check_keys check_cover
    trim_space
first-applied = refl

acknowledge_policy-ready_example :
    ((tokyo.state ≡ ready) × (done.state ≡ "received"))
    ⊎ IsUsable sample_env "n1" done (record first_row { received_revision = 1 }) noon
acknowledge_policy-ready_example =
    acknowledge_policy-ready sample_env token done noon received applied session
      (record first_row { received_revision = 1 }) tokyo ready_node first-applied first-opened refl
      refl refl refl

tables-IsKeyed : IsKeyed tables.node_policies
tables-IsKeyed = ((refl, tt), ((omega arith, omega arith), tt))

Works-IsKeyed_example : IsKeyed applied.node_policies
Works-IsKeyed_example = Works-IsKeyed sample_env tables applied tables-IsKeyed (
    acknowledges received applied token done noon
      (acknowledges built received token got noon
        (builds tables built "n1" noon first_policy rests first-built) first-received)
      first-applied)

abbrev silenced : Database
silenced = record built {
  nodes = record tokyo { enabled = false } ∷ [];
  node_policies = record first_row { desired_revision = 2; policy_json = some "second" } ∷ [];
  audit =
      record {
        actor_id = "u1";
        owner_id = "u1";
        resource_type = "node";
        resource_id = "n1";
        action = "node.enabled";
        created_at = 1000;
      }
      ∷ [];
}

first-silenced : set_node_enabled sample_env alice_acts "n1" false noon built ≡ ok silenced
unfolding set_node_enabled switch_node active_actor active_role require_owner write_audit
    build_policy draft_policy read_retentions valid_retentions node_serves conflicting_keys
    scan_snapshots scan_keys owner_of check_previous compare_previous decode_policy publish_policy
    validate_policy bad_policy_identity valid_id validate_qos valid_weight valid_ceiling check_rules
    bad_tailnet_rule check_grants bad_grant_identity bad_grant_deadlines check_keys check_cover
    trim_space
first-silenced = refl

registered-pending : registered ≢ pending
registered-pending = λ e. cc

set_node_enabled-IsSent_example : (p : Policy) × IsSent sample_env silenced "n1" p × (p.grants ≡ [])
set_node_enabled-IsSent_example =
    set_node_enabled-IsSent sample_env alice_acts "n1" tokyo noon built silenced sample_env-Readable
      refl registered-pending first-silenced
