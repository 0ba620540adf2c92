-- ===== src/Control/Identity.antt =====
-- internal/control/identity_store.go: the keys that more than one tailnet claims.
pub mod Conflicts
use multi_derp.Base.{
  List, Option, String, [], bool_eq, if◌then◌else◌, nat_eq, none, option_eq, some, string_eq, ◌==◌,
  ◌∷◌,
}
use multi_derp.Control.Schema.{
  IdentityKey, IdentitySnapshot, grant_state_eq, node_state_eq, role_eq,
}

-- `owners` of `conflictingKeys`: which tailnet a key was first seen in.
abbrev pub Owners : Type 0
Owners = List (String × String)

unfoldable pub owner_of : String → Owners → Option String
owner_of k [] = none
owner_of k ((j, id) ∷ rest) = if j == k then some id else owner_of k rest

-- The inner loop: the keys of one snapshot.
unfoldable pub scan_keys : String → List IdentityKey → Owners → List String → Owners × List String
scan_keys id [] owners conflicts = (owners, conflicts)
scan_keys id (k ∷ ks) owners conflicts = elim (owner_of k.node_public owners) [
  | none ↦ scan_keys id ks ((k.node_public, id) ∷ owners) conflicts
  | some owner ↦
      let clash = scan_keys id ks owners (k.node_public ∷ conflicts) in
      let same = scan_keys id ks ((k.node_public, id) ∷ owners) conflicts in
      if owner == id then same else clash
]

-- The outer loop. Go visits a map in any order; here it is the order of the table.
unfoldable pub scan_snapshots : List IdentitySnapshot → Owners → List String → List String
scan_snapshots [] owners conflicts = conflicts
scan_snapshots (s ∷ ss) owners conflicts =
    let (owners', conflicts') = scan_keys s.tailnet_id s.keys owners conflicts in
    scan_snapshots ss owners' conflicts'

unfoldable pub conflicting_keys : List IdentitySnapshot → List String
conflicting_keys all_of = scan_snapshots all_of [] []
