-- ===== src/Tests/Joining.antt =====
-- Runs of an enrollment.
use multi_derp.Base.{List, [], arith, false, none, ok, refl, some, sort_by, true, ◌∷◌, ◌≡◌}
use multi_derp.Clock.{unix_time}
use multi_derp.Cluster.Cache.{decode_policy}
use multi_derp.Cluster.Policy.{effective_until}
use multi_derp.Cluster.Validate.{
  bad_grant_deadlines, bad_grant_identity, bad_policy_identity, bad_tailnet_rule, check_cover,
  check_grants, check_keys, check_rules, valid_ceiling, valid_id, valid_weight, validate_policy,
  validate_qos,
}
use multi_derp.Control.Access.{active_actor, active_role, require_owner, write_audit}
use multi_derp.Control.Acknowledge.{live_grant, live_key}
use multi_derp.Control.Challenges.{
  EnrollmentRequest, NodeChallenge, NodeCrypto, bad_challenge, check_node_challenge,
  mint_node_session, use_challenge,
}
use multi_derp.Control.Challenges.Mint.{minted}
use multi_derp.Control.DerpMap.{DerpRegion, add_offers, build_derp_map, offer_of, offers}
use multi_derp.Control.DerpMap.Offers.{IsMap, build_derp_map-IsMap}
use multi_derp.Control.Enroll.{
  enroll_commit, enroll_node, enrollment_node, enrollment_receipt, enrollment_status, ensure_policy,
  scan_enrollments, store_enrollment,
}
use multi_derp.Control.Enroll.Again.{enroll_node-again}
use multi_derp.Control.Identity.{conflicting_keys, owner_of, scan_keys, scan_snapshots}
use multi_derp.Control.Policy.{
  active_grants, build_policy, check_previous, collect, draft_policy, free_keys, join_grant,
  join_grants, join_tailnet, node_serves, policy_grant, policy_rule, publish_policy,
  read_retentions, rule_group, valid_retentions,
}
use multi_derp.Control.Resources.{tailnet_owner}
use multi_derp.Control.Schema.{Database, pending}
use multi_derp.Control.Sessions.{NodeSession}
use multi_derp.Tests.Control.{built, tables, token, tokyo}
use multi_derp.Tests.Grants.{bob_acts}
use multi_derp.Tests.Nodes.{after_pair}
use multi_derp.Tests.Samples.{noon, sample_env}
use multi_derp.Text.{trim_space}

abbrev joined : NodeSession
joined = minted sample_env "n1" "i1" token noon

-- Signatures are not looked at, and one session is sealed.
abbrev sealing : NodeCrypto
sealing = record {
  signing_bytes = λ c. c.nonce;
  verify = λ key text signature. true;
  request_digest = λ r. r.code;
  seal = λ salt session name. "sealed";
  unseal = λ text name. some joined;
}

abbrev enrolling : NodeChallenge
enrolling = record {
  purpose = "enroll";
  cluster_id = "c1";
  node_id = "n1";
  domain = "derp.example";
  nonce = token;
  expires_at = unix_time 1120;
  public_key = "0123456789abcdef0123456789abcdef";
  instance_id = "i1";
}

abbrev request : EnrollmentRequest
request = record { code = token; challenge = enrolling; signature = token }

abbrev invited : Database
invited = record tables {
  nodes = record tokyo { state = pending } ∷ [];
  node_sessions = [];
  grants = [];
  enrollments =
      record {
        node_id = "n1";
        owner_id = some "u1";
        code_hash = token;
        expires_at = 2000;
        consumed_at = 0;
        request_hash = none;
        response_encrypted = none;
      }
      ∷ [];
  node_challenges =
      record { nonce_hash = token; node_id = "n1"; payload = token; expires_at = 1120; used_at = 0 }
      ∷ [];
}

abbrev enrolled : Database
enrolled = after_pair invited (enroll_commit sample_env sealing request token "" noon invited)

first-new : enrollment_status sample_env sealing request noon invited ≡ ok none
unfolding enrollment_status enrollment_receipt scan_enrollments enrollment_node check_node_challenge
    bad_challenge
first-new = refl

first-enrolled :
    enroll_commit sample_env sealing request token "" noon invited ≡ ok (joined, enrolled)
unfolding enroll_commit store_enrollment mint_node_session ensure_policy use_challenge write_audit
    enrollment_status enrollment_receipt scan_enrollments enrollment_node check_node_challenge
    bad_challenge build_policy draft_policy read_retentions valid_retentions node_serves
    active_grants join_grants join_grant join_tailnet sort_by collect conflicting_keys
    scan_snapshots scan_keys owner_of policy_grant policy_rule rule_group free_keys check_previous
    publish_policy validate_policy bad_policy_identity valid_id validate_qos valid_weight
    valid_ceiling check_rules bad_tailnet_rule check_grants bad_grant_identity bad_grant_deadlines
    check_keys check_cover trim_space
first-enrolled = refl

first-known_code : enrollment_receipt sample_env sealing request (unix_time 1500) invited ≡ ok none
unfolding enrollment_receipt scan_enrollments enrollment_node
first-known_code = refl

enroll_node-again_example :
    enroll_node sample_env sealing request "other" "other"
      (unix_time 1500)
      enrolled
      false
      (unix_time 1500)
      enrolled
    ≡ ok (joined, enrolled)
enroll_node-again_example =
    enroll_node-again sample_env sealing request token "" "other" "other" noon (unix_time 1500)
      (unix_time 1500) invited enrolled enrolled false joined refl (omega arith) refl first-new
      first-enrolled first-known_code refl

-- The map of the tailnet that may use the node.
abbrev regions : List DerpRegion
regions =
    record {
      region_id = 900;
      region_code = "uniderp-900";
      region_name = "tokyo";
      node_name = "uniderp-900a";
      host_name = "derp.example";
      derp_port = 443;
      stun_port = 3478;
    }
    ∷ []

first-regions : build_derp_map sample_env (λ n. "900") bob_acts "t1" noon built ≡ ok regions
unfolding build_derp_map add_offers offers offer_of tailnet_owner active_actor active_role
    require_owner sort_by live_grant live_key effective_until node_serves decode_policy
    validate_policy bad_policy_identity valid_id validate_qos valid_weight valid_ceiling check_rules
    bad_tailnet_rule check_grants bad_grant_identity bad_grant_deadlines check_keys check_cover
    trim_space
first-regions = refl

build_derp_map-IsMap_example : IsMap sample_env (λ n. "900") built "t1" noon regions
build_derp_map-IsMap_example =
    build_derp_map-IsMap sample_env (λ n. "900") bob_acts "t1" noon built regions first-regions
