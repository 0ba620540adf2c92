-- ===== src/Tests/Cluster.antt =====
-- Runs of the node's policy and cache.
use multi_derp.Base.{
  List, [], arith, eq_iff, false, none, ok, refl, some, true, ◌∷◌, ◌≡◌, ◌≢◌, ◌≤◌, ◌⊎◌,
}
use multi_derp.Clock.{unix_time}
use multi_derp.Cluster.Cache.{
  CacheDir, Watermark, Write, absent, bad_watermark, decode_policy, holds, load_cache,
  load_conflict, next_mark, put_mark, put_snapshot, read_cache_watermark, run_writes, save_conflict,
  save_writes, start_mark, touch, write,
}
use multi_derp.Cluster.Cache.Rollback.{
  CacheEvent, after_load, after_save, cache_run, cache_step, load_cache-lost_write,
  load_cache-no_rollback, loads, saves,
}
use multi_derp.Cluster.Cache.RoundTrip.{load_cache-save}
use multi_derp.Cluster.Deadlines.{EndsAt, Respects, effective_until-earliest}
use multi_derp.Cluster.Policy.{DeviceKey, GrantPolicy, effective_until}
use multi_derp.Cluster.Validate.{
  bad_grant_deadlines, bad_grant_identity, bad_policy_identity, bad_tailnet_rule, check_cover,
  check_grants, check_keys, check_rules, valid_ceiling, valid_id, valid_weight, validate_policy,
  validate_qos,
}
use multi_derp.Cluster.Validate.Sound.{
  IsSoundPolicy, validate_policy-IsSoundPolicy, validate_qos-IsSoundQos, validate_qos-accepts,
}
use multi_derp.Tests.Samples.{first_policy, noon, sample_codec, sample_keys, second_policy}
use multi_derp.Text.{is_hex_token, trim_space}

abbrev first_key : DeviceKey
first_key = record { node_public = "key:a"; not_after = 0 }

abbrev first_grant : GrantPolicy
first_grant = record {
  grant_id = "g1";
  grant_revision = 3;
  tailnet_id = "t1";
  last_identity_success = unix_time 900;
  identity_until = unix_time 4500;
  control_until = unix_time 1550;
  explicit_until = 0;
  keys = first_key ∷ [];
}

effective_until-earliest_example :
    (effective_until first_grant first_key ≤ first_grant.identity_until)
    × Respects (effective_until first_grant first_key) first_grant.control_until
    × Respects (effective_until first_grant first_key) first_grant.explicit_until
    × Respects (effective_until first_grant first_key) first_key.not_after
    × ((effective_until first_grant first_key ≡ first_grant.identity_until)
        ⊎ (EndsAt (effective_until first_grant first_key) first_grant.control_until
            ⊎ (EndsAt (effective_until first_grant first_key) first_grant.explicit_until
                ⊎ EndsAt (effective_until first_grant first_key) first_key.not_after)))
effective_until-earliest_example = effective_until-earliest first_grant first_key

first_policy-valid : validate_policy sample_keys first_policy "c1" "n1" ≡ ok tt
unfolding validate_policy bad_policy_identity valid_id validate_qos valid_weight valid_ceiling
    check_rules bad_tailnet_rule check_grants bad_grant_identity bad_grant_deadlines check_keys
    check_cover trim_space
first_policy-valid = refl

validate_policy-IsSoundPolicy_example : IsSoundPolicy sample_keys first_policy "c1" "n1"
validate_policy-IsSoundPolicy_example =
    validate_policy-IsSoundPolicy sample_keys first_policy "c1" "n1" first_policy-valid

first_qos-valid : validate_qos first_policy.qos ≡ ok tt
unfolding validate_qos valid_weight valid_ceiling check_rules bad_tailnet_rule trim_space
first_qos-valid = refl

validate_qos-accepts_example : validate_qos first_policy.qos ≡ ok tt
validate_qos-accepts_example =
    validate_qos-accepts first_policy.qos (validate_qos-IsSoundQos first_policy.qos first_qos-valid)

abbrev empty_dir : CacheDir
empty_dir = record { mark = absent; snapshot = none }

abbrev first_mark : Watermark
first_mark = record {
  cluster_id = "c1";
  node_id = "n1";
  revision = 1;
  digest = "1111111111111111111111111111111111111111111111111111111111111111";
  observed_at = noon;
}

abbrev second_mark : Watermark
second_mark = record first_mark {
  revision = 2;
  digest = "2222222222222222222222222222222222222222222222222222222222222222";
}

abbrev first_dir : CacheDir
first_dir = record { mark = holds first_mark; snapshot = some "first" }

abbrev first_writes : List Write
first_writes = put_mark first_mark ∷ put_snapshot "first" ∷ []

first-saved :
    save_writes sample_keys sample_codec "policy" empty_dir first_policy noon ≡ ok first_writes
unfolding save_writes validate_policy bad_policy_identity valid_id validate_qos valid_weight
    valid_ceiling check_rules bad_tailnet_rule check_grants bad_grant_identity bad_grant_deadlines
    check_keys check_cover trim_space start_mark read_cache_watermark save_conflict next_mark
    bad_watermark
first-saved = refl

first-IsHex : is_hex_token (sample_codec.digest (sample_codec.encode first_policy)) ≡ true
unfolding is_hex_token
first-IsHex = refl

load_cache-save_example :
    (dir' : CacheDir) × (load_cache sample_keys sample_codec
        (run_writes 2 first_writes empty_dir)
        "c1"
        "n1"
        noon
      ≡ ok (first_policy, dir'))
    × (dir'.snapshot ≡ some (sample_codec.encode first_policy))
load_cache-save_example =
    load_cache-save sample_keys sample_codec "policy" empty_dir first_policy noon noon first_writes
      refl first-IsHex first-saved (omega arith)

second_writes :
    save_writes sample_keys sample_codec "policy" first_dir second_policy noon
    ≡ ok (put_mark second_mark ∷ put_snapshot "second" ∷ [])
unfolding save_writes validate_policy bad_policy_identity valid_id validate_qos valid_weight
    valid_ceiling check_rules bad_tailnet_rule check_grants bad_grant_identity bad_grant_deadlines
    check_keys check_cover trim_space start_mark read_cache_watermark save_conflict next_mark
    bad_watermark is_hex_token
second_writes = refl

digests-differ :
    sample_codec.digest "first" ≢ sample_codec.digest (sample_codec.encode second_policy)
digests-differ = λ e.
    let k : false ≡ true =
      (eq_iff (sample_codec.digest "first") (sample_codec.digest "second")).1 e in
    cc

load_cache-lost_write_example :
    load_cache sample_keys sample_codec
      (run_writes 1 (put_mark second_mark ∷ put_snapshot "second" ∷ []) first_dir)
      "c1"
      "n1"
      noon
    ≢ ok (first_policy, first_dir)
load_cache-lost_write_example =
    load_cache-lost_write sample_keys sample_codec "policy" first_dir second_policy noon
      (put_mark second_mark ∷ put_snapshot "second" ∷ []) "first" "c1" "n1" noon first_policy
      first_dir second_writes refl digests-differ

-- A complete save of the second policy, a refused save of the first and a load.
abbrev events : List (CacheEvent sample_keys sample_codec)
events =
    saves "policy" second_policy noon 2
    ∷ saves "policy" first_policy noon 2
    ∷ loads "c1" "n1" noon
    ∷ []

abbrev second_dir : CacheDir
second_dir = record { mark = holds second_mark; snapshot = some "second" }

second-loaded :
    load_cache sample_keys sample_codec
      (cache_run sample_keys sample_codec events first_dir)
      "c1"
      "n1"
      noon
    ≡ ok (second_policy, second_dir)
unfolding load_cache cache_run cache_step after_save after_load run_writes write touch load_conflict
    decode_policy save_writes validate_policy bad_policy_identity valid_id validate_qos valid_weight
    valid_ceiling check_rules bad_tailnet_rule check_grants bad_grant_identity bad_grant_deadlines
    check_keys check_cover trim_space start_mark read_cache_watermark save_conflict next_mark
    bad_watermark is_hex_token
second-loaded = refl

load_cache-no_rollback_example : first_mark.revision ≤ second_policy.revision
load_cache-no_rollback_example =
    load_cache-no_rollback sample_keys sample_codec events first_dir first_mark "c1" "n1" noon
      second_policy second_dir refl second-loaded
