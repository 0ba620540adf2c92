-- ===== src/Cluster/Validate/Sound.antt =====
-- internal/cluster/protocol.go: what a policy that `validate_policy` accepts is known to be.
use multi_derp.Base.{
  All, Apart, Apart-append, Apart-cons, Apart-contains, Apart-nil, Apart-or, Apart-tail, Distinct,
  Distinct-append, List, Result-cases, String, Within, Within-exhausts, [], arith, bool_eq,
  contains, eq_iff, false, inl, inr, len, length, list_eq, nat_eq, none, ok, option_eq, refl, some,
  string_eq, ℕ, ◌++◌, ◌+◌, ◌<◌, ◌^◌, ◌||◌, ◌∷◌, ◌≡◌, ◌≢◌, ◌≤◌, ◌⊎◌,
}
use multi_derp.Cluster.Policy.{DeviceKey, GrantPolicy, Policy, PublicKeys, QosPolicy, TailnetQos}
use multi_derp.Cluster.Validate.{
  bad_grant_deadlines, bad_grant_identity, bad_policy_identity, check_cover, check_grants,
  check_keys, check_rules, validate_policy, validate_qos,
}
use multi_derp.Text.{trim_space}

abbrev pub public_of : PublicKeys → DeviceKey → ℕ
public_of lib k = elim (lib.unmarshal k.node_public) [ none ↦ 0 | some n ↦ n ]

abbrev pub publics : PublicKeys → List DeviceKey → List ℕ
publics lib [] = []
publics lib (k ∷ ks) = public_of lib k ∷ publics lib ks

-- The keys of all grants, in order.
abbrev pub grant_publics : PublicKeys → List GrantPolicy → List ℕ
grant_publics lib [] = []
grant_publics lib (g ∷ gs) = publics lib g.keys ++ grant_publics lib gs

abbrev pub tailnet_ids : List GrantPolicy → List String
tailnet_ids [] = []
tailnet_ids (g ∷ gs) = g.tailnet_id ∷ tailnet_ids gs

abbrev pub grant_ids : List GrantPolicy → List String
grant_ids [] = []
grant_ids (g ∷ gs) = g.grant_id ∷ grant_ids gs

abbrev pub rule_ids : List TailnetQos → List String
rule_ids [] = []
rule_ids (t ∷ ts) = t.tailnet_id ∷ rule_ids ts

-- A grant with a revision and deadlines that are set, whose keys all decode to one that is not zero.
pub record IsSoundGrant (lib : PublicKeys) (g : GrantPolicy) : Type 0 where
  pub revised : 0 < g.grant_revision
  pub identified : 0 < g.last_identity_success
  pub identity_bounded : g.last_identity_success ≤ g.identity_until
  pub control_bounded : 0 < g.control_until
  pub keyed : All (λ n. 0 < n) (publics lib g.keys)

pub record IsSoundRule (t : TailnetQos) : Type 0 where
  pub named : t.tailnet_id ≢ ""
  pub short : len t.tailnet_id ≤ 128
  pub trimmed : trim_space t.tailnet_id ≡ t.tailnet_id
  pub grouped : (t.group ≡ "owner") ⊎ (t.group ≡ "shared")
  pub weight_positive : 0 < t.weight
  pub weight_bounded : t.weight ≤ 1024
  pub ceiling : (t.max_bps ≡ 0) ⊎ ((8 ≤ t.max_bps) × (t.max_bps < 2 ^ 63))

pub record IsSoundQos (q : QosPolicy) : Type 0 where
  pub budget_least : 8 ≤ q.budget_bps
  pub budget_most : q.budget_bps < 2 ^ 63
  pub shared_ceiling :
      (q.shared_max_bps ≡ 0) ⊎ ((8 ≤ q.shared_max_bps) × (q.shared_max_bps < 2 ^ 63))
  pub owner_weight : (0 < q.owner_weight) × (q.owner_weight ≤ 1024)
  pub shared_weight : (0 < q.shared_weight) × (q.shared_weight ≤ 1024)
  pub few_rules : length q.tailnets ≤ 4096
  pub rules : All IsSoundRule q.tailnets
  pub rules_distinct : Distinct (rule_ids q.tailnets)

check_rules_sound :
    (seen : List String) (ts : List TailnetQos)
    → check_rules seen ts ≡ ok tt
    → All IsSoundRule ts × Distinct (rule_ids ts) × Apart seen (rule_ids ts)
unfolding check_rules
check_rules_sound seen [] h = (tt, tt, tt)
check_rules_sound seen (t ∷ ts) h = ground (
  arith,
  eq_iff t.tailnet_id "",
  eq_iff (trim_space t.tailnet_id) t.tailnet_id,
  check_rules_sound (t.tailnet_id ∷ seen) ts,
  eq_iff t.group "owner",
  eq_iff t.group "shared",
  Apart-contains t.tailnet_id seen (rule_ids ts),
  Apart-tail t.tailnet_id seen (rule_ids ts),
)

check_rules-accepts :
    (seen : List String) (ts : List TailnetQos)
    → All IsSoundRule ts
    → Distinct (rule_ids ts)
    → Apart seen (rule_ids ts)
    → check_rules seen ts ≡ ok tt
unfolding check_rules
check_rules-accepts seen [] sound distinct apart = refl
check_rules-accepts seen (t ∷ ts) sound distinct apart = ground (
  arith,
  sound.0,
  eq_iff t.tailnet_id "",
  eq_iff (trim_space t.tailnet_id) t.tailnet_id,
  eq_iff t.group "owner",
  eq_iff t.group "shared",
  check_rules-accepts (t.tailnet_id ∷ seen) ts sound.1 distinct.1
      (Apart-cons t.tailnet_id seen (rule_ids ts) distinct.0 apart.1),
)

-- Bandwidth rules with a budget and ceilings in range, weights from 1 to 1024, at most 4096 tailnets
-- with a trimmed name of 1 to 128 bytes each, a known group and no tailnet twice are accepted: the
-- checks refuse no more than that.
pub validate_qos-accepts : (q : QosPolicy) → IsSoundQos q → validate_qos q ≡ ok tt
unfolding validate_qos
validate_qos-accepts q sound = ground (
  arith,
  sound,
  check_rules-accepts [] q.tailnets sound.rules sound.rules_distinct
      (Apart-nil (rule_ids q.tailnets)),
)

pub validate_qos-IsSoundQos : (q : QosPolicy) → validate_qos q ≡ ok tt → IsSoundQos q
unfolding validate_qos
validate_qos-IsSoundQos q h = ground (arith, check_rules_sound [] q.tailnets)

module _ (lib : PublicKeys) where
  check_keys_sound :
      (keys : List ℕ) (ks : List DeviceKey) (after : List ℕ)
      → check_keys lib keys ks ≡ ok after
      → All (λ n. 0 < n) (publics lib ks)
        × Distinct (publics lib ks)
        × Apart keys (publics lib ks)
        × ((x : ℕ) → contains after x ≡ (contains keys x || contains (publics lib ks) x))
  unfolding check_keys
  check_keys_sound keys [] after h = (tt, tt, tt, λ x. ground arith)
  check_keys_sound keys (k ∷ ks) after h = ground (
    arith,
    check_keys_sound (public_of lib k ∷ keys) ks after,
    Apart-contains (public_of lib k) keys (publics lib ks),
    Apart-tail (public_of lib k) keys (publics lib ks),
  )

  check_cover_sound :
      (tailnets seen : List String) (ts : List TailnetQos) (after : List String)
      → check_cover tailnets seen ts ≡ ok after
      → Within tailnets (rule_ids ts)
        × Distinct (rule_ids ts)
        × Apart seen (rule_ids ts)
        × (length after ≡ length seen + length (rule_ids ts))
  unfolding check_cover
  check_cover_sound tailnets seen [] after h = ground arith
  check_cover_sound tailnets seen (t ∷ ts) after h = ground (
    arith,
    check_cover_sound tailnets (t.tailnet_id ∷ seen) ts after,
    Apart-contains t.tailnet_id seen (rule_ids ts),
    Apart-tail t.tailnet_id seen (rule_ids ts),
  )

  abbrev IsSoundGrants :
      List String → List String → List ℕ → List GrantPolicy → List String → Type 0
  IsSoundGrants tailnets grants keys gs after =
      All (IsSoundGrant lib) gs
      × Distinct (tailnet_ids gs)
      × Apart tailnets (tailnet_ids gs)
      × Distinct (grant_ids gs)
      × Apart grants (grant_ids gs)
      × Distinct (grant_publics lib gs)
      × Apart keys (grant_publics lib gs)
      × ((x : String) → contains after x ≡ (contains tailnets x || contains (tailnet_ids gs) x))
      × (length after ≡ length tailnets + length (tailnet_ids gs))

  sound_grant :
      (tailnets grants : List String) (g : GrantPolicy)
      → bad_grant_identity tailnets grants g ≡ false
      → bad_grant_deadlines g ≡ false
      → All (λ n. 0 < n) (publics lib g.keys)
      → IsSoundGrant lib g
  unfolding bad_grant_identity bad_grant_deadlines
  sound_grant tailnets grants g a b c = ground arith

  fresh_grant :
      (tailnets grants : List String) (g : GrantPolicy)
      → bad_grant_identity tailnets grants g ≡ false
      → (contains tailnets g.tailnet_id ≡ false) × (contains grants g.grant_id ≡ false)
  unfolding bad_grant_identity
  fresh_grant tailnets grants g a = ground arith

  check_grants-cons :
      (tailnets grants : List String) (keys : List ℕ) (g : GrantPolicy) (gs : List GrantPolicy)
      (after : List String)
      → check_grants lib tailnets grants keys (g ∷ gs) ≡ ok after
      → (keys' : List ℕ) × (bad_grant_identity tailnets grants g ≡ false)
        × (bad_grant_deadlines g ≡ false)
        × (check_keys lib keys g.keys ≡ ok keys')
        × (check_grants lib (g.tailnet_id ∷ tailnets) (g.grant_id ∷ grants) keys' gs ≡ ok after)
  unfolding check_grants
  check_grants-cons tailnets grants keys g gs after h = ground arith

  check_grants_sound :
      (tailnets grants : List String) (keys : List ℕ) (gs : List GrantPolicy) (after : List String)
      → check_grants lib tailnets grants keys gs ≡ ok after
      → IsSoundGrants tailnets grants keys gs after
  unfolding check_grants
  check_grants_sound tailnets grants keys [] after h = ground arith
  check_grants_sound tailnets grants keys (g ∷ gs) after h =
      let (keys', named, dated, checked, h₃) =
        check_grants-cons tailnets grants keys g gs after h in
      let (positive, distinct, apart, union) = check_keys_sound keys g.keys keys' checked in
      let rest =
        check_grants_sound (g.tailnet_id ∷ tailnets) (g.grant_id ∷ grants) keys' gs after h₃ in
      let (old, mine) =
        Apart-or keys' keys (publics lib g.keys) (grant_publics lib gs) union rest.6 in
      let (new_tailnet, new_grant) = fresh_grant tailnets grants g named in
      (
        (sound_grant tailnets grants g named dated positive, rest.0),
        (Apart-contains g.tailnet_id tailnets (tailnet_ids gs) rest.2, rest.1),
        (new_tailnet, Apart-tail g.tailnet_id tailnets (tailnet_ids gs) rest.2),
        (Apart-contains g.grant_id grants (grant_ids gs) rest.4, rest.3),
        (new_grant, Apart-tail g.grant_id grants (grant_ids gs) rest.4),
        Distinct-append (publics lib g.keys) (grant_publics lib gs) distinct rest.5 mine,
        Apart-append keys (publics lib g.keys) (grant_publics lib gs) apart old,
        (λ x. ground (arith, rest.7 x)),
        omega (arith, rest.8),
      )

  -- What `validate_policy` promises of a policy for one node of one cluster.
  pub record IsSoundPolicy (p : Policy) (cluster_id node_id : String) : Type 0 where
    pub cluster : p.cluster_id ≡ cluster_id
    pub node : p.node_id ≡ node_id
    pub revised : 0 < p.revision
    pub generated : 0 < p.generated_at
    pub few_grants : length p.grants ≤ 4096
    pub qos : IsSoundQos p.qos
    pub grants : All (IsSoundGrant lib) p.grants
    pub tailnets_distinct : Distinct (tailnet_ids p.grants)
    pub grants_distinct : Distinct (grant_ids p.grants)
    pub keys_distinct : Distinct (grant_publics lib p.grants)
    pub ruled : Within (tailnet_ids p.grants) (rule_ids p.qos.tailnets)
    pub covered : Within (rule_ids p.qos.tailnets) (tailnet_ids p.grants)

  Within-same :
      (xs ys zs : List String)
      → ((x : String) → contains xs x ≡ (false || contains ys x))
      → Within xs zs
      → Within ys zs
  Within-same xs ys [] same w = tt
  Within-same xs ys (z ∷ zs) same w = ground (arith, same z, Within-same xs ys zs same w.1)

  validate_policy-steps :
      (p : Policy) (cluster_id node_id : String)
      → validate_policy lib p cluster_id node_id ≡ ok tt
      → (tailnets : List String) × (seen : List String) × (bad_policy_identity p cluster_id node_id
          ≡ false)
        × (validate_qos p.qos ≡ ok tt)
        × (length p.grants ≤ 4096)
        × (check_grants lib [] [] [] p.grants ≡ ok tailnets)
        × (check_cover tailnets [] p.qos.tailnets ≡ ok seen)
        × (length seen ≡ length tailnets)
  unfolding validate_policy
  validate_policy-steps p cluster_id node_id h =
      elim (Result-cases (check_grants lib [] [] [] p.grants)) [
        | inr (x, e) ↦ absurd (ground arith)
        | inl (tailnets, e) ↦ elim (Result-cases (check_cover tailnets [] p.qos.tailnets)) [
          | inr (x, e') ↦ absurd (ground arith)
          | inl (seen, e') ↦
              (tailnets, seen, ground arith, ground arith, ground arith, e, e', ground arith)
        ]
      ]

  -- A policy that `validate_policy` accepts is bound to the node and the cluster that were asked
  -- for, has a revision, a date and at most 4096 grants; each grant is sound and no two share a
  -- tailnet, an id or a device key; the bandwidth rules are sound, and their tailnets are exactly
  -- the granted ones.
  pub validate_policy-IsSoundPolicy :
      (p : Policy) (cluster_id node_id : String)
      → validate_policy lib p cluster_id node_id ≡ ok tt
      → IsSoundPolicy p cluster_id node_id
  unfolding bad_policy_identity
  validate_policy-IsSoundPolicy p cluster_id node_id h =
      let (tailnets, seen, identity, qos_ok, few, granted, ruled, same) =
        validate_policy-steps p cluster_id node_id h in
      let g = check_grants_sound [] [] [] p.grants tailnets granted in
      let c = check_cover_sound tailnets [] p.qos.tailnets seen ruled in
      let within = Within-same tailnets (tailnet_ids p.grants) (rule_ids p.qos.tailnets) g.7 c.0 in
      record {
        cluster = ground (arith, eq_iff p.cluster_id cluster_id);
        node = ground (arith, eq_iff p.node_id node_id);
        revised = ground arith;
        generated = ground arith;
        few_grants = few;
        qos = validate_qos-IsSoundQos p.qos qos_ok;
        grants = g.0;
        tailnets_distinct = g.1;
        grants_distinct = g.3;
        keys_distinct = g.5;
        ruled = within;
        covered =
            Within-exhausts (rule_ids p.qos.tailnets) (tailnet_ids p.grants) c.1 within
              (omega (arith, g.8, c.3, same));
      }
