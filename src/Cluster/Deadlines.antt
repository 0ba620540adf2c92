-- ===== src/Cluster/Deadlines.antt =====
-- internal/cluster/protocol.go, EffectiveUntil: the deadline up to which a device key may use a grant.
use multi_derp.Base.{List, [], arith, ◌<◌, ◌∷◌, ◌≡◌, ◌≤◌, ◌⊎◌}
use multi_derp.Clock.{Instant}
use multi_derp.Cluster.Policy.{DeviceKey, GrantPolicy, effective_until}

-- The deadlines of a grant and a key that are optional: zero means none.
abbrev pub limits : GrantPolicy → DeviceKey → List Instant
limits g k = g.control_until ∷ g.explicit_until ∷ k.not_after ∷ []

abbrev pub Respects : Instant → Instant → Type 0
Respects until limit = (limit ≡ 0) ⊎ (until ≤ limit)

abbrev pub EndsAt : Instant → Instant → Type 0
EndsAt until limit = (0 < limit) × (until ≡ limit)

-- A key's permission ends no later than its grant's identity deadline and than each of the control,
-- explicit and key deadlines that is set, and it ends exactly at the identity deadline or at one of
-- the other three that is set: an optional deadline that is not set ends nothing.
pub effective_until-earliest :
    (g : GrantPolicy) (k : DeviceKey)
    → (effective_until g k ≤ g.identity_until)
      × Respects (effective_until g k) g.control_until
      × Respects (effective_until g k) g.explicit_until
      × Respects (effective_until g k) k.not_after
      × ((effective_until g k ≡ g.identity_until)
          ⊎ (EndsAt (effective_until g k) g.control_until
              ⊎ (EndsAt (effective_until g k) g.explicit_until
                  ⊎ EndsAt (effective_until g k) k.not_after)))
unfolding effective_until
effective_until-earliest g k = ground arith
