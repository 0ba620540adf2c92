-- ===== src/Control/Access.antt =====
-- internal/control/auth.go: who may act, and the audit trail.
pub mod Rights
use multi_derp.Base.{
  Bool, List, Option, Result, String, bool_eq, err, fail_if, find, if◌then◌else◌, nat_eq, none, not,
  ok, option_eq, some, string_eq, ℕ, ◌&&◌, ◌==◌, ◌||◌, ◌∷◌,
}
use multi_derp.Control.Schema.{
  Database, Role, StoreError, User, admin, forbidden, grant_state_eq, node_state_eq, role_eq,
}

pub record Actor : Type 0 where
  pub id : String
  pub username : String
  pub role : Role
  pub enabled : Bool

unfoldable pub require_owner : Actor → String → Result StoreError (Unit {0})
require_owner actor owner_id =
    fail_if
      (not actor.enabled
        || actor.id == ""
        || not (actor.role == admin) && not (actor.id == owner_id))
      forbidden

-- The actor's role in the users table, if it is enabled there.
unfoldable pub active_role : String → List User → Option Role
active_role id users = elim (find (λ u. u.id == id && u.enabled) users) [
  | none ↦ none
  | some u ↦ some u.role
]

unfoldable pub active_actor : Database → Actor → Result StoreError (Unit {0})
active_actor db actor =
    if actor.id == "local" then ok tt else elim (active_role actor.id db.users) [
      | none ↦ err forbidden
      | some role ↦ fail_if (not (role == actor.role)) forbidden
    ]

unfoldable pub write_audit : String → String → String → String → String → ℕ → Database → Database
write_audit actor_id owner_id kind id action now db = record db {
  audit =
      record {
        actor_id = actor_id;
        owner_id = owner_id;
        resource_type = kind;
        resource_id = id;
        action = action;
        created_at = now;
      }
      ∷ db.audit;
}
