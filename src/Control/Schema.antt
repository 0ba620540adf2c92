-- ===== src/Control/Schema.antt =====
-- internal/control/migrations.go: the tables at version 7, one record type for the rows of each.
-- Times are Unix seconds. A text column that holds one of a fixed set of words is a data type, and
-- a nullable column is an option.
use multi_derp.Base.{Bool, Eq, List, Option, String, arith, false, true, ℕ, ◌-◌, ◌/◌, ◌↔◌, ◌≡◌}
use multi_derp.Clock.{Instant, second}
use multi_derp.Cluster.Cache.{Codec}
use multi_derp.Cluster.Policy.{PublicKeys}
use multi_derp.Cluster.Validate.{PolicyError}

pub data Role : Type 0 where
  admin provider member : Role

pub data NodeState : Type 0 where
  pending registered ready offline domain_pending identity_conflict : NodeState

-- `expired` is no stored state: a reader of a grant shows it.
pub data GrantState : Type 0 where
  requested owner_approved active cancelled rejected revoked expired : GrantState

abbrev pub role_beq : Role → Role → Bool
role_beq admin admin = true
role_beq provider provider = true
role_beq member member = true
role_beq _ _ = false

pub role_beq_iff : (a b : Role) → (role_beq a b ≡ true) ↔ (a ≡ b)
role_beq_iff a b = ground arith

instance abbrev pub role_eq : Eq Role
role_eq = record { beq = role_beq; beq_iff = role_beq_iff }

abbrev pub node_state_beq : NodeState → NodeState → Bool
node_state_beq pending pending = true
node_state_beq registered registered = true
node_state_beq ready ready = true
node_state_beq offline offline = true
node_state_beq domain_pending domain_pending = true
node_state_beq identity_conflict identity_conflict = true
node_state_beq _ _ = false

pub node_state_beq_iff : (a b : NodeState) → (node_state_beq a b ≡ true) ↔ (a ≡ b)
node_state_beq_iff a b = ground arith

instance abbrev pub node_state_eq : Eq NodeState
node_state_eq = record { beq = node_state_beq; beq_iff = node_state_beq_iff }

abbrev pub grant_state_beq : GrantState → GrantState → Bool
grant_state_beq requested requested = true
grant_state_beq owner_approved owner_approved = true
grant_state_beq active active = true
grant_state_beq cancelled cancelled = true
grant_state_beq rejected rejected = true
grant_state_beq revoked revoked = true
grant_state_beq expired expired = true
grant_state_beq _ _ = false

pub grant_state_beq_iff : (a b : GrantState) → (grant_state_beq a b ≡ true) ↔ (a ≡ b)
grant_state_beq_iff a b = ground arith

instance abbrev pub grant_state_eq : Eq GrantState
grant_state_eq = record { beq = grant_state_beq; beq_iff = grant_state_beq_iff }

pub record User : Type 0 where
  pub id : String
  pub username : String
  pub role : Role
  pub enabled : Bool
  pub password_hash : String
  pub session_version : ℕ

pub record UserSession : Type 0 where
  pub token_hash : String
  pub user_id : String
  pub session_version : ℕ
  pub csrf_hash : String
  pub expires_at : ℕ

pub record Tailnet : Type 0 where
  pub id : String
  pub owner_id : String
  pub display_name : String
  pub api_id : Option String
  pub enabled : Bool

pub record IdentityKey : Type 0 where
  pub node_public : String
  pub not_after : Instant

pub record IdentitySnapshot : Type 0 where
  pub tailnet_id : String
  pub revision : ℕ
  pub last_success : ℕ
  pub keys : List IdentityKey

pub record Node : Type 0 where
  pub id : String
  pub owner_id : String
  pub domain : String
  pub display_name : String
  pub region_id : ℕ
  pub public_key : Option String
  pub state : NodeState
  pub instance_id : String
  pub lease_until : ℕ
  pub last_heartbeat : ℕ
  pub last_error : String
  pub enabled : Bool
  pub domain_verified_at : ℕ
  pub derp_port : ℕ
  pub stun_port : ℕ

pub record NodeSessionRow : Type 0 where
  pub token_hash : String
  pub node_id : String
  pub instance_id : String
  pub expires_at : ℕ

pub record GrantRow : Type 0 where
  pub id : String
  pub node_id : String
  pub tailnet_id : String
  pub state : GrantState
  pub revision : ℕ
  pub explicit_until : ℕ
  pub last_control_success : ℕ

pub record NodePolicy : Type 0 where
  pub node_id : String
  pub desired_revision : ℕ
  pub received_revision : ℕ
  pub applied_revision : ℕ
  pub generated_at : ℕ
  pub policy_json : Option String
  pub budget_bps : ℕ
  pub owner_weight : ℕ
  pub shared_weight : ℕ
  pub shared_max_bps : ℕ
  pub derper_usable : Bool

pub record TailnetRule : Type 0 where
  pub node_id : String
  pub tailnet_id : String
  pub group_name : String
  pub weight : ℕ
  pub max_bps : ℕ

pub record Credential : Type 0 where
  pub tailnet_id : String
  pub kind : String
  pub encrypted : String
  pub status : String
  pub revision : ℕ
  pub refresh_seq : ℕ
  pub updated_at : ℕ
  pub error : String

pub record EnrollmentRow : Type 0 where
  pub node_id : String
  pub owner_id : Option String
  pub code_hash : String
  pub expires_at : ℕ
  pub consumed_at : ℕ
  pub request_hash : Option String
  pub response_encrypted : Option String

pub record ChallengeRow : Type 0 where
  pub nonce_hash : String
  pub node_id : String
  pub payload : String
  pub expires_at : ℕ
  pub used_at : ℕ

pub record ObservationRow : Type 0 where
  pub node_id : String
  pub report_instance : String
  pub report_json : Option String
  pub reported_at : ℕ
  pub probes_json : Option String
  pub previous_report_json : Option String

pub record AuditRow : Type 0 where
  pub actor_id : String
  pub owner_id : String
  pub resource_type : String
  pub resource_id : String
  pub action : String
  pub created_at : ℕ

pub record Event : Type 0 where
  pub owner_id : String
  pub resource_type : String
  pub resource_id : String
  pub kind : String
  pub message : String
  pub created_at : ℕ
  pub resolved_at : ℕ

-- The two retention settings are numbers here, and `none` where the text is no number; their rows
-- stand from the first start on (internal/control/nodes.go, ConfigureNodes).
pub record Database : Type 0 where
  pub users : List User
  pub sessions : List UserSession
  pub tailnets : List Tailnet
  pub credentials : List Credential
  pub identity_snapshots : List IdentitySnapshot
  pub nodes : List Node
  pub enrollments : List EnrollmentRow
  pub node_challenges : List ChallengeRow
  pub node_observations : List ObservationRow
  pub node_sessions : List NodeSessionRow
  pub grants : List GrantRow
  pub node_policies : List NodePolicy
  pub tailnet_rules : List TailnetRule
  pub audit : List AuditRow
  pub events : List Event
  pub identity_retention : Option ℕ
  pub control_retention : Option ℕ

-- The errors of auth.go, a query that found no row, and any other failure of the database.
pub data StoreError : Type 0 where
  unauthorized rate_limited forbidden invalid conflict no_rows storage : StoreError
  refused : PolicyError → StoreError

-- What the store calls and does not implement: keys of Tailscale, JSON texts and digests. The
-- cluster's id comes from its settings.
pub record Env : Type 0 where
  pub keys : PublicKeys
  pub codec : Codec
  pub digest : String → String
  pub cluster_id : String

-- `t.Unix()`, for times from 1970 on.
abbrev pub unix : Instant → ℕ
unix t = t / second - 62_135_596_800
