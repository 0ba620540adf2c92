-- ===== src/Tests/Samples.antt =====
-- A cluster with one node and one tailnet: keys, JSON texts and digests as tables, and the rows.
use multi_derp.Base.{
  Bool, Bool-cases, List, [], arith, bool_eq, eq_iff, false, if◌then◌else◌, inl, inr, list_eq,
  nat_beq_iff, nat_eq, none, option_eq, refl, some, string_eq, true, ◌&&◌, ◌==◌, ◌∷◌, ◌≡◌,
}
use multi_derp.Clock.{Instant, unix_time}
use multi_derp.Cluster.Cache.{Codec}
use multi_derp.Cluster.Policy.{DeviceKey, GrantPolicy, Policy, PublicKeys, QosPolicy, TailnetQos}
use multi_derp.Control.Policy.Sound.{Readable}
use multi_derp.Control.Schema.{Env}

same_some : {A : Type 0} {x y z : A} → some x ≡ some y → z ≡ x → y ≡ z
same_some k e = cc

no_some : {A : Type 0} {x : A} → none ≡ some x → ⊥
no_some k = cc

abbrev list_beq : {A : Type 0} → (A → A → Bool) → List A → List A → Bool
list_beq f [] [] = true
list_beq f (x ∷ xs) (y ∷ ys) = f x y && list_beq f xs ys
list_beq f _ _ = false

list_beq-eq :
    {A : Type 0} (f : A → A → Bool) (xs ys : List A)
    → ((x y : A) → f x y ≡ true → x ≡ y)
    → list_beq f xs ys ≡ true
    → xs ≡ ys
list_beq-eq f [] [] sound h = refl
list_beq-eq f [] (y ∷ ys) sound h = cc
list_beq-eq f (x ∷ xs) [] sound h = cc
list_beq-eq f (x ∷ xs) (y ∷ ys) sound h = ground (arith, h, sound x y, list_beq-eq f xs ys sound)

abbrev key_beq : DeviceKey → DeviceKey → Bool
key_beq a b = a.node_public == b.node_public && a.not_after == b.not_after

key_beq-eq : (a b : DeviceKey) → key_beq a b ≡ true → a ≡ b
key_beq-eq a b h =
    ground (arith, eq_iff a.node_public b.node_public, nat_beq_iff a.not_after b.not_after)

abbrev grant_beq : GrantPolicy → GrantPolicy → Bool
grant_beq a b =
    a.grant_id == b.grant_id
    && a.grant_revision == b.grant_revision
    && a.tailnet_id == b.tailnet_id
    && a.last_identity_success == b.last_identity_success
    && a.identity_until == b.identity_until
    && a.control_until == b.control_until
    && a.explicit_until == b.explicit_until
    && list_beq key_beq a.keys b.keys

grant_beq-eq : (a b : GrantPolicy) → grant_beq a b ≡ true → a ≡ b
grant_beq-eq a b h = ground (
  arith,
  eq_iff a.grant_id b.grant_id,
  nat_beq_iff a.grant_revision b.grant_revision,
  eq_iff a.tailnet_id b.tailnet_id,
  nat_beq_iff a.last_identity_success b.last_identity_success,
  nat_beq_iff a.identity_until b.identity_until,
  nat_beq_iff a.control_until b.control_until,
  nat_beq_iff a.explicit_until b.explicit_until,
  list_beq-eq key_beq a.keys b.keys key_beq-eq,
)

abbrev rule_beq : TailnetQos → TailnetQos → Bool
rule_beq a b =
    a.tailnet_id == b.tailnet_id
    && a.group == b.group
    && a.weight == b.weight
    && a.max_bps == b.max_bps

rule_beq-eq : (a b : TailnetQos) → rule_beq a b ≡ true → a ≡ b
rule_beq-eq a b h = ground (
  arith,
  eq_iff a.tailnet_id b.tailnet_id,
  eq_iff a.group b.group,
  nat_beq_iff a.weight b.weight,
  nat_beq_iff a.max_bps b.max_bps,
)

abbrev qos_beq : QosPolicy → QosPolicy → Bool
qos_beq a b =
    a.budget_bps == b.budget_bps
    && a.owner_weight == b.owner_weight
    && a.shared_weight == b.shared_weight
    && a.shared_max_bps == b.shared_max_bps
    && list_beq rule_beq a.tailnets b.tailnets

qos_beq-eq : (a b : QosPolicy) → qos_beq a b ≡ true → a ≡ b
qos_beq-eq a b h = ground (
  arith,
  nat_beq_iff a.budget_bps b.budget_bps,
  nat_beq_iff a.owner_weight b.owner_weight,
  nat_beq_iff a.shared_weight b.shared_weight,
  nat_beq_iff a.shared_max_bps b.shared_max_bps,
  list_beq-eq rule_beq a.tailnets b.tailnets rule_beq-eq,
)

abbrev policy_beq : Policy → Policy → Bool
policy_beq a b =
    a.cluster_id == b.cluster_id
    && a.node_id == b.node_id
    && a.revision == b.revision
    && a.generated_at == b.generated_at
    && list_beq grant_beq a.grants b.grants
    && qos_beq a.qos b.qos

policy_beq-eq : (a b : Policy) → policy_beq a b ≡ true → a ≡ b
policy_beq-eq a b h = ground (
  arith,
  eq_iff a.cluster_id b.cluster_id,
  eq_iff a.node_id b.node_id,
  nat_beq_iff a.revision b.revision,
  nat_beq_iff a.generated_at b.generated_at,
  list_beq-eq grant_beq a.grants b.grants grant_beq-eq,
  qos_beq-eq a.qos b.qos,
)

abbrev pub sample_keys : PublicKeys
sample_keys = record {
  unmarshal = λ s. if s == "key:a" then some 1 else (if s == "key:b" then some 2 else none);
  print = λ n. if n == 1 then "key:a" else "key:b";
}

-- Seconds of the runs.
abbrev pub noon : Instant
noon = unix_time 1000

-- The policy that the tables below give at `noon`.
abbrev pub first_policy : Policy
first_policy = record {
  cluster_id = "c1";
  node_id = "n1";
  revision = 1;
  generated_at = noon;
  grants =
      record {
        grant_id = "g1";
        grant_revision = 3;
        tailnet_id = "t1";
        last_identity_success = unix_time 900;
        identity_until = unix_time 4500;
        control_until = unix_time 1550;
        explicit_until = 0;
        keys = record { node_public = "key:a"; not_after = 0 } ∷ [];
      }
      ∷ [];
  qos = record {
    budget_bps = 8000;
    owner_weight = 4;
    shared_weight = 1;
    shared_max_bps = 0;
    tailnets = record { tailnet_id = "t1"; group = "shared"; weight = 1; max_bps = 0 } ∷ [];
  };
}

-- A later one, after the grant was revoked.
abbrev pub second_policy : Policy
second_policy = record {
  cluster_id = "c1";
  node_id = "n1";
  revision = 2;
  generated_at = noon;
  grants = [];
  qos = record {
    budget_bps = 8000;
    owner_weight = 4;
    shared_weight = 1;
    shared_max_bps = 0;
    tailnets = [];
  };
}

abbrev pub sample_codec : Codec
sample_codec = record {
  encode = λ p.
      if policy_beq p first_policy
      then "first"
      else (if policy_beq p second_policy then "second" else "other");
  decode = λ s.
      if s == "first"
      then some first_policy
      else (if s == "second" then some second_policy else none);
  digest = λ s.
      if s == "first"
      then "1111111111111111111111111111111111111111111111111111111111111111"
      else "2222222222222222222222222222222222222222222222222222222222222222";
}

abbrev pub sample_env : Env
sample_env = record { keys = sample_keys; codec = sample_codec; digest = λ s. s; cluster_id = "c1" }

pub sample_env-Readable : Readable sample_env
sample_env-Readable p q h = elim (Bool-cases (policy_beq p first_policy)) [
  | inl e ↦
      let same : p ≡ first_policy = policy_beq-eq p first_policy e in
      let k : some first_policy ≡ some q = rw e at h in same_some k same
  | inr e ↦ elim (Bool-cases (policy_beq p second_policy)) [
    | inl e' ↦
        let same : p ≡ second_policy = policy_beq-eq p second_policy e' in
        let k : some second_policy ≡ some q = rw (e, e') at h in same_some k same
    | inr e' ↦ absurd (no_some (rw (e, e') at h))
  ]
]
