-- ===== src/Cluster/Policy.antt =====
-- internal/cluster/protocol.go, the data: a policy document and its deadlines. Instants are those
-- of Clock; uint64 and uint32 fields are numbers, whose ranges the decoder enforces.
use multi_derp.Base.{List, Option, String, [], if◌then◌else◌, not, ℕ, ◌&&◌, ◌∷◌}
use multi_derp.Clock.{Instant, before, is_zero}

pub record DeviceKey : Type 0 where
  pub node_public : String
  pub not_after : Instant

pub record TailnetQos : Type 0 where
  pub tailnet_id : String
  pub group : String
  pub weight : ℕ
  pub max_bps : ℕ

pub record QosPolicy : Type 0 where
  pub budget_bps : ℕ
  pub owner_weight : ℕ
  pub shared_weight : ℕ
  pub shared_max_bps : ℕ
  pub tailnets : List TailnetQos

pub record GrantPolicy : Type 0 where
  pub grant_id : String
  pub grant_revision : ℕ
  pub tailnet_id : String
  pub last_identity_success : Instant
  pub identity_until : Instant
  pub control_until : Instant
  pub explicit_until : Instant
  pub keys : List DeviceKey

pub record Policy : Type 0 where
  pub cluster_id : String
  pub node_id : String
  pub revision : ℕ
  pub generated_at : Instant
  pub grants : List GrantPolicy
  pub qos : QosPolicy

-- The loop of `EffectiveUntil`: a deadline that is set and earlier replaces the one so far.
unfoldable pub earliest : Instant → List Instant → Instant
earliest until [] = until
earliest until (d ∷ ds) = earliest (if not (is_zero d) && before d until then d else until) ds

unfoldable pub effective_until : GrantPolicy → DeviceKey → Instant
unfolding earliest
effective_until g k =
    earliest g.identity_until (g.control_until ∷ g.explicit_until ∷ k.not_after ∷ [])

-- What key.NodePublic of tailscale.com/types/key does, which is not part of the repository:
-- `UnmarshalText` gives the 32 bytes of a key as a number, 0 for the zero key, and `String` is the
-- text of one.
pub record PublicKeys : Type 0 where
  pub unmarshal : String → Option ℕ
  pub print : ℕ → String
