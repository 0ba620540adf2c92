-- ===== src/Cluster/Validate.antt =====
-- internal/cluster/protocol.go, `ValidatePolicy` and `ValidateQoS`.
pub mod Sound
use multi_derp.Base.{
  Bool, List, Result, String, [], bool_eq, contains, fail_if, leb, len, length, ltb, nat_eq, not,
  ok, option_eq, or_fail, string_eq, ℕ, ◌&&◌, ◌-◌, ◌==◌, ◌>>=◌, ◌>>◌, ◌^◌, ◌||◌, ◌∷◌,
}
use multi_derp.Clock.{before, is_zero}
use multi_derp.Cluster.Policy.{DeviceKey, GrantPolicy, Policy, PublicKeys, QosPolicy, TailnetQos}
use multi_derp.Text.{trim_space}

-- One constructor for each message.
pub data PolicyError : Type 0 where
  bad_identity bad_budget too_many_rules bad_rule too_many_tailnets bad_grant bad_deadlines bad_key
        too_many_keys missing_rule :
      PolicyError

abbrev pub max_int64 : ℕ
max_int64 = 2 ^ 63 - 1

unfoldable pub valid_id : String → Bool
valid_id id = not (id == "") && leb (len id) 128 && trim_space id == id

unfoldable pub valid_weight : ℕ → Bool
valid_weight w = ltb 0 w && leb w 1024

unfoldable pub valid_ceiling : ℕ → Bool
valid_ceiling bps = bps == 0 || leb 8 bps && leb bps max_int64

unfoldable pub bad_tailnet_rule : List String → TailnetQos → Bool
unfolding valid_weight valid_ceiling
bad_tailnet_rule seen t =
    t.tailnet_id == ""
    || ltb 128 (len t.tailnet_id)
    || not (trim_space t.tailnet_id == t.tailnet_id)
    || contains seen t.tailnet_id
    || not (t.group == "owner") && not (t.group == "shared")
    || not (valid_weight t.weight)
    || not (valid_ceiling t.max_bps)

-- The loop of `ValidateQoS`.
unfoldable pub check_rules : List String → List TailnetQos → Result PolicyError (Unit {0})
unfolding bad_tailnet_rule
check_rules seen [] = ok tt
check_rules seen (t ∷ ts) = do
  fail_if (bad_tailnet_rule seen t) bad_rule
  check_rules (t.tailnet_id ∷ seen) ts

unfoldable pub validate_qos : QosPolicy → Result PolicyError (Unit {0})
unfolding valid_weight valid_ceiling check_rules
validate_qos q = do
  fail_if
      (ltb q.budget_bps 8
        || ltb max_int64 q.budget_bps
        || not (valid_ceiling q.shared_max_bps)
        || not (valid_weight q.owner_weight)
        || not (valid_weight q.shared_weight))
      bad_budget
  fail_if (ltb 4096 (length q.tailnets)) too_many_rules
  check_rules [] q.tailnets

unfoldable pub bad_grant_identity : List String → List String → GrantPolicy → Bool
unfolding valid_id
bad_grant_identity tailnets grants g =
    not (valid_id g.grant_id)
    || not (valid_id g.tailnet_id)
    || g.grant_revision == 0
    || contains tailnets g.tailnet_id
    || contains grants g.grant_id

unfoldable pub bad_grant_deadlines : GrantPolicy → Bool
bad_grant_deadlines g =
    is_zero g.last_identity_success
    || is_zero g.identity_until
    || is_zero g.control_until
    || before g.identity_until g.last_identity_success

-- The loop over `q.Tailnets`: the set of those seen comes back.
unfoldable pub check_cover :
    List String → List String → List TailnetQos → Result PolicyError (List String)
check_cover tailnets seen [] = ok seen
check_cover tailnets seen (t ∷ ts) = do
  fail_if (not (contains tailnets t.tailnet_id) || contains seen t.tailnet_id) bad_rule
  check_cover tailnets (t.tailnet_id ∷ seen) ts

unfoldable pub bad_policy_identity : Policy → String → String → Bool
unfolding valid_id
bad_policy_identity p cluster_id node_id =
    not (valid_id p.cluster_id)
    || not (valid_id p.node_id)
    || not (p.cluster_id == cluster_id)
    || not (p.node_id == node_id)
    || p.revision == 0
    || is_zero p.generated_at

module _ (lib : PublicKeys) where
  -- The loop over `g.Keys`: the keys seen so far come back.
  unfoldable pub check_keys : List ℕ → List DeviceKey → Result PolicyError (List ℕ)
  check_keys keys [] = ok keys
  check_keys keys (k ∷ ks) = do
    public ← or_fail (lib.unmarshal k.node_public) bad_key
    fail_if (public == 0 || contains keys public) bad_key
    fail_if (ltb 65536 (length (public ∷ keys))) too_many_keys
    check_keys (public ∷ keys) ks

  -- The loop over `p.Grants`, over the sets of tailnets, grants and keys: the tailnets come back.
  unfoldable pub check_grants :
      List String → List String → List ℕ → List GrantPolicy → Result PolicyError (List String)
  unfolding bad_grant_identity bad_grant_deadlines check_keys
  check_grants tailnets grants keys [] = ok tailnets
  check_grants tailnets grants keys (g ∷ gs) = do
    fail_if (bad_grant_identity tailnets grants g) bad_grant
    fail_if (bad_grant_deadlines g) bad_deadlines
    keys' ← check_keys keys g.keys
    check_grants (g.tailnet_id ∷ tailnets) (g.grant_id ∷ grants) keys' gs

  unfoldable pub validate_policy : Policy → String → String → Result PolicyError (Unit {0})
  unfolding bad_policy_identity check_grants check_cover
  validate_policy p cluster_id node_id = do
    fail_if (bad_policy_identity p cluster_id node_id) bad_identity
    validate_qos p.qos
    fail_if (ltb 4096 (length p.grants) || ltb 4096 (length p.qos.tailnets)) too_many_tailnets
    tailnets ← check_grants [] [] [] p.grants
    seen ← check_cover tailnets [] p.qos.tailnets
    fail_if (not (length seen == length tailnets)) missing_rule
