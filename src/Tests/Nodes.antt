-- ===== src/Tests/Nodes.antt =====
-- Runs of what nodes and their owners do.
use multi_derp.Base.{
  AtMostOne, Result, String, [], any, arith, bool_eq, err, false, find, list_eq, nat_eq, none, ok,
  option_eq, refl, some, sort_by, string_eq, true, ℕ, ◌++◌, ◌+◌, ◌==◌, ◌∷◌, ◌≡◌, ◌≤◌,
}
use multi_derp.Clock.{unix_time}
use multi_derp.Cluster.Validate.{
  bad_grant_deadlines, bad_grant_identity, bad_policy_identity, bad_tailnet_rule, check_cover,
  check_grants, check_keys, check_rules, valid_ceiling, valid_id, valid_weight, validate_policy,
  validate_qos,
}
use multi_derp.Control.Access.{Actor, active_actor, active_role, require_owner, write_audit}
use multi_derp.Control.Challenges.{
  NodeChallenge, NodeCrypto, bad_challenge, check_node_challenge, mint_node_session, minutes,
  use_challenge,
}
use multi_derp.Control.Challenges.Mint.{minted, minted_row}
use multi_derp.Control.Domain.{DomainEnv, good_label, normalize_node_domain}
use multi_derp.Control.Grants.{whole_seconds}
use multi_derp.Control.Identity.{conflicting_keys, owner_of, scan_keys, scan_snapshots}
use multi_derp.Control.Nodes.{Enrollment, create_node, free_region, insert_node, new_node, put_code}
use multi_derp.Control.Nodes.Regions.{ArePlaced, create_node-ArePlaced, free_region-found}
use multi_derp.Control.Policy.{
  active_grants, build_policy, check_previous, collect, draft_policy, free_keys, join_grant,
  join_grants, join_tailnet, node_serves, policy_grant, policy_rule, publish_policy,
  read_retentions, rule_group, valid_retentions,
}
use multi_derp.Control.Release.{clear_node, drop_node_rows, release_node, release_rows}
use multi_derp.Control.Release.Revoked.{AreRevoked, release_node-AreRevoked}
use multi_derp.Control.Renew.{
  held_rows, hold_node, lock_node, locked, note_domain, renew_commit, renew_node_session, renewed,
}
use multi_derp.Control.Renew.Locked.{renew_node_session-locked}
use multi_derp.Control.Renew.Once.{renew_node_session-once}
use multi_derp.Control.Renew.Single.{renew_node_session-single}
use multi_derp.Control.Schema.{Database, Node, provider, unauthorized}
use multi_derp.Control.Sessions.{NodeSession, node_session, scan_sessions, session_of}
use multi_derp.Tests.Control.{tables, token, tokyo}
use multi_derp.Tests.Samples.{noon, sample_env}
use multi_derp.Tests.Users.{after}
use multi_derp.Text.{
  all_chars, ends_with, has_char, is_hex_token, is_space, split_on, trim_dot, trim_left, trim_right,
  trim_space,
}

abbrev pub after_pair : {E A : Type 0} → Database → Result E (A × Database) → Database
after_pair db (ok (a, d)) = d
after_pair db (err e) = db

-- Signatures are not looked at, and a challenge is signed by its nonce.
abbrev crypto : NodeCrypto
crypto = record {
  signing_bytes = λ c. c.nonce;
  verify = λ key text signature. true;
  request_digest = λ r. r.code;
  seal = λ salt session name. salt;
  unseal = λ text name. none;
}

abbrev key : String
key = "0123456789abcdef0123456789abcdef"

-- The node asks for a session from another machine while its lease runs.
abbrev challenge : NodeChallenge
challenge = record {
  purpose = "session";
  cluster_id = "c1";
  node_id = "n1";
  domain = "derp.example";
  nonce = token;
  expires_at = unix_time 1120;
  public_key = key;
  instance_id = "i2";
}

abbrev keyed : Database
keyed = record tables {
  nodes = record tokyo { public_key = some key } ∷ [];
  node_challenges =
      record { nonce_hash = token; node_id = "n1"; payload = token; expires_at = 1120; used_at = 0 }
      ∷ [];
  grants = [];
}

abbrev shut : Database
shut = after_pair keyed (renew_commit sample_env crypto challenge token "fresh" noon keyed)

first-shut :
    renew_node_session sample_env crypto challenge token "fresh" noon keyed true noon keyed
    ≡ ok (locked, shut)
unfolding renew_node_session renew_commit check_node_challenge bad_challenge lock_node use_challenge
    write_audit build_policy draft_policy read_retentions valid_retentions node_serves active_grants
    join_grants join_grant join_tailnet sort_by collect conflicting_keys scan_snapshots scan_keys
    owner_of policy_grant policy_rule rule_group free_keys check_previous publish_policy
    validate_policy bad_policy_identity valid_id validate_qos valid_weight valid_ceiling check_rules
    bad_tailnet_rule check_grants bad_grant_identity bad_grant_deadlines check_keys check_cover
    trim_space
first-shut = refl

renew_node_session-once_example :
    renew_node_session sample_env crypto challenge token "fresh" noon shut true noon shut
    ≡ err unauthorized
renew_node_session-once_example =
    renew_node_session-once sample_env crypto challenge token token "fresh" "fresh" noon noon noon
      noon keyed keyed shut true true locked (omega arith) first-shut

-- Another node's session goes on.
abbrev osaka : Node
osaka = record tokyo { id = "n2"; domain = "osaka.example"; region_id = 901 }

abbrev both : Database
both = record keyed {
  nodes = record tokyo { public_key = some key } ∷ osaka ∷ [];
  node_sessions =
      record { token_hash = token; node_id = "n2"; instance_id = "i1"; expires_at = 3000 } ∷ [];
}

abbrev one_shut : Database
one_shut = after_pair both (renew_commit sample_env crypto challenge token "fresh" noon both)

first-one_shut :
    renew_node_session sample_env crypto challenge token "fresh" noon both true noon both
    ≡ ok (locked, one_shut)
unfolding renew_node_session renew_commit check_node_challenge bad_challenge lock_node use_challenge
    write_audit build_policy draft_policy read_retentions valid_retentions node_serves active_grants
    join_grants join_grant join_tailnet sort_by collect conflicting_keys scan_snapshots scan_keys
    owner_of policy_grant policy_rule rule_group free_keys check_previous publish_policy
    validate_policy bad_policy_identity valid_id validate_qos valid_weight valid_ceiling check_rules
    bad_tailnet_rule check_grants bad_grant_identity bad_grant_deadlines check_keys check_cover
    trim_space
first-one_shut = refl

abbrev osaka_session : NodeSession
osaka_session = record {
  cluster_id = "c1";
  node_id = "n2";
  instance_id = "i1";
  token = "";
  expires_at = unix_time 3000;
  lease_until = unix_time 2000;
}

first-osaka : node_session sample_env token noon one_shut ≡ ok osaka_session
unfolding node_session scan_sessions session_of is_hex_token renew_node_session renew_commit
    check_node_challenge bad_challenge lock_node use_challenge write_audit build_policy draft_policy
    read_retentions valid_retentions node_serves active_grants join_grants join_grant join_tailnet
    sort_by collect conflicting_keys scan_snapshots scan_keys owner_of policy_grant policy_rule
    rule_group free_keys check_previous publish_policy validate_policy bad_policy_identity valid_id
    validate_qos valid_weight valid_ceiling check_rules bad_tailnet_rule check_grants
    bad_grant_identity bad_grant_deadlines check_keys check_cover trim_space
first-osaka = refl

renew_node_session-locked_example : (osaka_session.node_id == challenge.node_id) ≡ false
renew_node_session-locked_example =
    renew_node_session-locked sample_env crypto challenge token "fresh" token noon noon noon both
      both one_shut true osaka_session first-one_shut first-osaka

-- A node leaves.
abbrev left : Database
left = after tables (release_node sample_env token noon tables)

abbrev tokyo_session : NodeSession
tokyo_session = record {
  cluster_id = "c1";
  node_id = "n1";
  instance_id = "i1";
  token = "";
  expires_at = unix_time 3000;
  lease_until = unix_time 2000;
}

first-session : node_session sample_env token noon tables ≡ ok tokyo_session
unfolding node_session scan_sessions session_of is_hex_token
first-session = refl

first-left : release_node sample_env token noon tables ≡ ok left
unfolding release_node release_rows clear_node drop_node_rows node_session scan_sessions session_of
    is_hex_token build_policy draft_policy read_retentions valid_retentions node_serves
    active_grants join_grants join_grant join_tailnet sort_by collect conflicting_keys
    scan_snapshots scan_keys owner_of policy_grant policy_rule rule_group free_keys check_previous
    publish_policy validate_policy bad_policy_identity valid_id validate_qos valid_weight
    valid_ceiling check_rules bad_tailnet_rule check_grants bad_grant_identity bad_grant_deadlines
    check_keys check_cover trim_space
first-left = refl

release_node-AreRevoked_example :
    AreRevoked "n1" tables.grants left.grants
    × (any (λ r. r.node_id == "n1") left.node_sessions ≡ false)
    × (any (λ e. e.node_id == "n1") left.enrollments ≡ false)
release_node-AreRevoked_example =
    release_node-AreRevoked sample_env token noon tables left tokyo_session first-session first-left

-- An owner adds a node.
abbrev text : DomainEnv
text = record { to_lower = λ s. s; is_addr = λ s. false }

abbrev alice_adds : Actor
alice_adds = record { id = "u1"; username = "alice"; role = provider; enabled = true }

abbrev kyoto : Node
kyoto = new_node sample_env alice_adds "kyoto" "kyoto.example" 901 443 3478 "n3"

abbrev code : Enrollment
code = record {
  node_id = "n3";
  cluster_id = "c1";
  domain = "kyoto.example";
  code = token;
  expires_at = unix_time 2800;
}

abbrev grown : Database
grown =
    after_pair tables
      (put_code sample_env kyoto token noon (record tables { nodes = tokyo ∷ kyoto ∷ [] }))

abbrev grown_too : Database
grown_too = write_audit "u1" "u1" "node" "n3" "node.create" 1000 grown

first-grown :
    create_node sample_env text alice_adds "kyoto" "kyoto.example" 443 3478 "n3" token noon tables
    ≡ ok (kyoto, code, grown_too)
unfolding create_node put_code insert_node free_region normalize_node_domain good_label split_on
    trim_dot trim_space trim_left trim_right is_space has_char ends_with all_chars active_actor
    active_role require_owner write_audit
first-grown = refl

create_node-ArePlaced_example :
    (grown_too.nodes ≡ tables.nodes ++ kyoto ∷ [])
    × (900 ≤ kyoto.region_id)
    × (kyoto.region_id ≤ 999)
    × (any (λ m. m.region_id == kyoto.region_id) tables.nodes ≡ false)
    × ArePlaced grown_too.nodes
create_node-ArePlaced_example =
    create_node-ArePlaced sample_env text alice_adds "kyoto" "kyoto.example" 443 3478 "n3" token
      noon tables grown_too kyoto code first-grown
      (record { distinct = (refl, tt); inside = ((omega arith, omega arith), tt) })

free_region-found_example :
    (r : ℕ) × (free_region 900 100 tables.nodes ≡ some r)
    × (900 ≤ r)
    × (r ≤ 999)
    × (any (λ n. n.region_id == r) tables.nodes ≡ false)
free_region-found_example = free_region-found tables.nodes (omega arith)

-- The same machine renews its session.
abbrev renewing : NodeChallenge
renewing = record challenge { instance_id = "i1" }

abbrev renewed_tables : Database
renewed_tables = after_pair keyed (renew_commit sample_env crypto renewing token "fresh" noon keyed)

first-renewed :
    renew_node_session sample_env crypto renewing token "fresh" noon keyed true noon keyed
    ≡ ok (renewed (minted sample_env "n1" "i1" "fresh" noon), renewed_tables)
unfolding renew_node_session renew_commit check_node_challenge bad_challenge hold_node held_rows
    note_domain mint_node_session use_challenge
first-renewed = refl

renew_node_session-single_example :
    ((minted sample_env "n1" "i1" "fresh" noon).token ≡ "fresh")
    × ((minted sample_env "n1" "i1" "fresh" noon).node_id ≡ "n1")
    × ((minted sample_env "n1" "i1" "fresh" noon).expires_at ≡ whole_seconds (noon + minutes 60))
    × (find (λ r. r.node_id == "n1") renewed_tables.node_sessions
        ≡ some (minted_row sample_env "n1" "i1" "fresh" noon))
    × AtMostOne (λ r. r.node_id == "n1") renewed_tables.node_sessions
renew_node_session-single_example =
    renew_node_session-single sample_env crypto renewing token "fresh" noon noon keyed keyed
      renewed_tables true (minted sample_env "n1" "i1" "fresh" noon) first-renewed
