-- ===== src/Tests/Control.antt =====
-- Runs of the control plane.
use multi_derp.Base.{
  AtMostOne, List, String, [], arith, bool_eq, contains, false, list_eq, nat_eq, none, ok,
  option_eq, refl, some, sort_by, string_eq, true, ◌<◌, ◌∷◌, ◌≡◌,
}
use multi_derp.Clock.{Instant, unix_time}
use multi_derp.Cluster.Cache.{decode_policy}
use multi_derp.Cluster.Validate.{
  bad_grant_deadlines, bad_grant_identity, bad_policy_identity, bad_tailnet_rule, check_cover,
  check_grants, check_keys, check_rules, max_int64, valid_ceiling, valid_id, valid_weight,
  validate_policy, validate_qos,
}
use multi_derp.Control.Expiry.{
  grant_ended, is_expired, is_told, mark_grants, mark_policies, refresh_expiry_events,
  refresh_relation, refresh_relations, relation_ended, relations, tell,
}
use multi_derp.Control.Expiry.Unique.{refresh_expiry_events-AtMostOne}
use multi_derp.Control.Identity.{conflicting_keys, owner_of, scan_keys, scan_snapshots}
use multi_derp.Control.Identity.Conflicts.{conflicting_keys-claimed}
use multi_derp.Control.Policy.{
  active_grants, build_policy, check_previous, collect, draft_policy, find_policy, free_keys,
  join_grant, join_grants, join_tailnet, node_serves, policy_grant, policy_rule, publish_policy,
  read_retentions, rule_group, valid_retentions,
}
use multi_derp.Control.Policy.Again.{build_policy-again}
use multi_derp.Control.Policy.Built.{Built, build_policy-Built}
use multi_derp.Control.Policy.Sound.{IsAllowed, build_policy-IsAllowed}
use multi_derp.Control.Schema.{
  Database, Event, GrantRow, IdentitySnapshot, Node, NodePolicy, Tailnet, User, active, member,
  provider, registered,
}
use multi_derp.Tests.Samples.{first_policy, noon, sample_env, sample_env-Readable}
use multi_derp.Text.{trim_space}

abbrev alice : User
alice = record {
  id = "u1";
  username = "alice";
  role = provider;
  enabled = true;
  password_hash = "";
  session_version = 1;
}

abbrev bob : User
bob = record {
  id = "u2";
  username = "bob";
  role = member;
  enabled = true;
  password_hash = "";
  session_version = 1;
}

abbrev pub tokyo : Node
tokyo = record {
  id = "n1";
  owner_id = "u1";
  domain = "derp.example";
  display_name = "tokyo";
  region_id = 900;
  public_key = none;
  state = registered;
  instance_id = "i1";
  lease_until = 2000;
  last_heartbeat = 990;
  last_error = "";
  enabled = true;
  domain_verified_at = 10;
  derp_port = 443;
  stun_port = 3478;
}

abbrev pub home : Tailnet
home = record { id = "t1"; owner_id = "u2"; display_name = "home"; api_id = none; enabled = true }

abbrev home_snapshot : IdentitySnapshot
home_snapshot = record {
  tailnet_id = "t1";
  revision = 1;
  last_success = 900;
  keys = record { node_public = "key:a"; not_after = 0 } ∷ [];
}

abbrev pub relay : GrantRow
relay = record {
  id = "g1";
  node_id = "n1";
  tailnet_id = "t1";
  state = active;
  revision = 3;
  explicit_until = 0;
  last_control_success = 950;
}

abbrev pub new_row : NodePolicy
new_row = record {
  node_id = "n1";
  desired_revision = 0;
  received_revision = 0;
  applied_revision = 0;
  generated_at = 0;
  policy_json = none;
  budget_bps = 8000;
  owner_weight = 4;
  shared_weight = 1;
  shared_max_bps = 0;
  derper_usable = false;
}

abbrev pub token : String
token = "abababababababababababababababababababababababababababababababab"

abbrev pub tables : Database
tables = record {
  users = alice ∷ bob ∷ [];
  sessions = [];
  tailnets = home ∷ [];
  credentials = [];
  enrollments = [];
  node_challenges = [];
  node_observations = [];
  identity_snapshots = home_snapshot ∷ [];
  nodes = tokyo ∷ [];
  node_sessions =
      record { token_hash = token; node_id = "n1"; instance_id = "i1"; expires_at = 3000 } ∷ [];
  grants = relay ∷ [];
  node_policies = new_row ∷ [];
  tailnet_rules = [];
  audit = [];
  events = [];
  identity_retention = some 3600;
  control_retention = some 600;
}

abbrev pub first_row : NodePolicy
first_row = record new_row { desired_revision = 1; generated_at = 1000; policy_json = some "first" }

abbrev pub built : Database
built = record tables { node_policies = first_row ∷ [] }

abbrev snapshots : List IdentitySnapshot
snapshots = home_snapshot ∷ record home_snapshot { tailnet_id = "t2" } ∷ []

conflicting_keys-claimed_example : contains (conflicting_keys snapshots) "key:a" ≡ true
conflicting_keys-claimed_example = conflicting_keys-claimed "key:a" "t1" snapshots refl refl

pub first-built : build_policy sample_env "n1" noon tables ≡ ok (first_policy, built)
unfolding build_policy draft_policy read_retentions valid_retentions node_serves active_grants
    join_grants join_grant join_tailnet sort_by collect conflicting_keys scan_snapshots scan_keys
    owner_of policy_grant policy_rule rule_group free_keys check_previous publish_policy
    validate_policy bad_policy_identity valid_id validate_qos valid_weight valid_ceiling check_rules
    bad_tailnet_rule check_grants bad_grant_identity bad_grant_deadlines check_keys check_cover
    trim_space
first-built = refl

build_policy-Built_example :
    (row : NodePolicy) × (find_policy "n1" tables ≡ some row)
    × (row.desired_revision < max_int64)
    × (validate_policy sample_env.keys first_policy sample_env.cluster_id "n1" ≡ ok tt)
    × Built sample_env "n1" noon tables row first_policy built
build_policy-Built_example =
    build_policy-Built sample_env "n1" noon tables built first_policy first-built

build_policy-IsAllowed_example : IsAllowed sample_env tables "n1" first_policy
build_policy-IsAllowed_example =
    build_policy-IsAllowed sample_env "n1" noon tables built first_policy sample_env-Readable
      first-built

build_policy-again_example :
    build_policy sample_env "n1" (unix_time 2000) built ≡ ok (first_policy, built)
build_policy-again_example =
    build_policy-again sample_env "n1" noon (unix_time 2000) tables built first_policy refl refl
      (omega arith) first-built

-- The first policy's grant long after its deadlines: the owners of the node and of the tailnet.
abbrev late : Instant
late = unix_time 9000

abbrev notice : String → Event
notice owner = record {
  owner_id = owner;
  resource_type = "grant";
  resource_id = "g1";
  kind = "authorization_expired";
  message = "Authorization deadline reached; relay permission has expired.";
  created_at = 9000;
  resolved_at = 0;
}

abbrev noticed : Database
noticed = record built { events = notice "u2" ∷ notice "u1" ∷ [] }

first-noticed : refresh_expiry_events sample_env late built ≡ ok noticed
unfolding refresh_expiry_events mark_policies mark_grants grant_ended is_expired relations
    relation_ended refresh_relations refresh_relation tell decode_policy validate_policy
    bad_policy_identity valid_id validate_qos valid_weight valid_ceiling check_rules
    bad_tailnet_rule check_grants bad_grant_identity bad_grant_deadlines check_keys check_cover
    trim_space
first-noticed = refl

refresh_expiry_events-AtMostOne_example : AtMostOne (is_told "u1" "g1") noticed.events
refresh_expiry_events-AtMostOne_example =
    refresh_expiry_events-AtMostOne sample_env "u1" "g1" late built noticed first-noticed tt
