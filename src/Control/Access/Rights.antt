-- ===== src/Control/Access/Rights.antt =====
-- internal/control/auth.go, RequireOwner: what an actor that was let through is known to be.
use multi_derp.Base.{String, arith, eq_iff, ok, true, ◌≡◌, ◌≢◌, ◌⊎◌}
use multi_derp.Control.Access.{Actor, require_owner}
use multi_derp.Control.Schema.{admin, role_beq_iff}

pub require_owner-ok :
    (actor : Actor) (owner_id : String)
    → require_owner actor owner_id ≡ ok tt
    → (actor.enabled ≡ true) × (actor.id ≢ "") × ((actor.role ≡ admin) ⊎ (actor.id ≡ owner_id))
unfolding require_owner
require_owner-ok actor owner_id h =
    ground (arith, eq_iff actor.id "", eq_iff actor.id owner_id, role_beq_iff actor.role admin)
