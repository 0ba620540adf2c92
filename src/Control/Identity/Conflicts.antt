-- ===== src/Control/Identity/Conflicts.antt =====
-- internal/control/identity_store.go, conflictingKeys: which keys it finds.
use multi_derp.Base.{
  Bool, Bool-cases, In, List, String, [], any, ap, arith, bool_eq, contains, eq_iff, false, find,
  inl, inr, list_eq, nat_eq, not, option_eq, some, string_eq, true, ◌&&◌, ◌==◌, ◌∷◌, ◌≡◌, ◌⊎◌,
}
use multi_derp.Control.Identity.{Owners, conflicting_keys, owner_of, scan_keys, scan_snapshots}
use multi_derp.Control.Schema.{
  IdentityKey, IdentitySnapshot, grant_state_eq, node_state_eq, role_eq,
}

abbrev pub holds_key : String → List IdentityKey → Bool
holds_key k ks = any (λ j. j.node_public == k) ks

-- The snapshot of tailnet `a` lists the key.
abbrev pub claimed_by : String → String → List IdentitySnapshot → Bool
claimed_by k a all_of = any (λ s. s.tailnet_id == a && holds_key k s.keys) all_of

-- The snapshot of some other tailnet lists the key.
abbrev pub claimed_beside : String → String → List IdentitySnapshot → Bool
claimed_beside k a all_of = any (λ s. not (s.tailnet_id == a) && holds_key k s.keys) all_of

-- What a scan has come to know of the key, over the tailnet that it was first seen in.
abbrev Knows : String → String → Owners × List String → Type 0
Knows k a (owners, conflicts) = (owner_of k owners ≡ some a) ⊎ (contains conflicts k ≡ true)

scan_keys-conflicts :
    (k id : String) (ks : List IdentityKey) (owners : Owners) (conflicts : List String)
    → contains conflicts k ≡ true
    → contains (scan_keys id ks owners conflicts).1 k ≡ true
unfolding scan_keys
scan_keys-conflicts k id [] owners conflicts h = h
scan_keys-conflicts k id (j ∷ ks) owners conflicts h = ground (
  arith,
  scan_keys-conflicts k id ks ((j.node_public, id) ∷ owners) conflicts h,
  scan_keys-conflicts k id ks owners (j.node_public ∷ conflicts),
)

scan_keys-owner :
    (k id o : String) (ks : List IdentityKey) (owners : Owners) (conflicts : List String)
    → owner_of k owners ≡ some o
    → owner_of k (scan_keys id ks owners conflicts).0 ≡ some o
unfolding scan_keys owner_of
scan_keys-owner k id o [] owners conflicts h = h
scan_keys-owner k id o (j ∷ ks) owners conflicts h = ground (
  arith,
  scan_keys-owner k id o ks ((j.node_public, id) ∷ owners) conflicts,
  scan_keys-owner k id o ks owners (j.node_public ∷ conflicts),
  eq_iff j.node_public k,
  eq_iff o id,
)

scan_keys-clash :
    (k id o : String) (ks : List IdentityKey) (owners : Owners) (conflicts : List String)
    → owner_of k owners ≡ some o
    → (o == id) ≡ false
    → holds_key k ks ≡ true
    → contains (scan_keys id ks owners conflicts).1 k ≡ true
unfolding scan_keys owner_of
scan_keys-clash k id o [] owners conflicts h d has_it = cc
scan_keys-clash k id o (j ∷ ks) owners conflicts h d has_it = ground (
  arith,
  scan_keys-clash k id o ks ((j.node_public, id) ∷ owners) conflicts,
  scan_keys-clash k id o ks owners (j.node_public ∷ conflicts),
  scan_keys-conflicts k id ks owners (j.node_public ∷ conflicts),
  eq_iff j.node_public k,
)

scan_keys-Knows :
    (k id : String) (ks : List IdentityKey) (owners : Owners) (conflicts : List String)
    → holds_key k ks ≡ true
    → Knows k id (scan_keys id ks owners conflicts)
unfolding scan_keys owner_of
scan_keys-Knows k id [] owners conflicts has_it = cc
scan_keys-Knows k id (j ∷ ks) owners conflicts has_it = ground (
  arith,
  scan_keys-owner k id id ks ((j.node_public, id) ∷ owners) conflicts,
  scan_keys-conflicts k id ks owners (j.node_public ∷ conflicts),
  scan_keys-Knows k id ks ((j.node_public, id) ∷ owners) conflicts,
  scan_keys-Knows k id ks owners (j.node_public ∷ conflicts),
)

scan_snapshots-conflicts :
    (k : String) (ss : List IdentitySnapshot) (owners : Owners) (conflicts : List String)
    → contains conflicts k ≡ true
    → contains (scan_snapshots ss owners conflicts) k ≡ true
unfolding scan_snapshots
scan_snapshots-conflicts k [] owners conflicts h = h
scan_snapshots-conflicts k (s ∷ ss) owners conflicts h =
    let (owners', conflicts') = scan_keys s.tailnet_id s.keys owners conflicts in
    scan_snapshots-conflicts k ss owners' conflicts'
      (scan_keys-conflicts k s.tailnet_id s.keys owners conflicts h)

-- A key with a known owner that another tailnet claims ends up in conflict.
scan_snapshots-clash :
    (k a : String) (ss : List IdentitySnapshot) (owners : Owners) (conflicts : List String)
    → owner_of k owners ≡ some a
    → claimed_beside k a ss ≡ true
    → contains (scan_snapshots ss owners conflicts) k ≡ true
unfolding scan_snapshots
scan_snapshots-clash k a [] owners conflicts h c = cc
scan_snapshots-clash k a (s ∷ ss) owners conflicts h c =
    let (owners', conflicts') = scan_keys s.tailnet_id s.keys owners conflicts in
    let kept = scan_keys-owner k s.tailnet_id a s.keys owners conflicts h in
    elim (Bool-cases (not (s.tailnet_id == a) && holds_key k s.keys)) [
      | inl here ↦ scan_snapshots-conflicts k ss owners' conflicts' (
          scan_keys-clash k s.tailnet_id a s.keys owners conflicts h
            (ground (arith, eq_iff a s.tailnet_id, eq_iff s.tailnet_id a)) (ground arith))
      | inr later ↦ scan_snapshots-clash k a ss owners' conflicts' kept (ground arith)
    ]

claimed_by-beside :
    (k a b : String) (ss : List IdentitySnapshot)
    → (b == a) ≡ false
    → claimed_by k a ss ≡ true
    → claimed_beside k b ss ≡ true
claimed_by-beside k a b [] d h = cc
claimed_by-beside k a b (s ∷ ss) d h =
    ground (
      arith,
      claimed_by-beside k a b ss d,
      eq_iff s.tailnet_id a,
      eq_iff s.tailnet_id b,
      eq_iff b a,
    )

scan_snapshots-Knows :
    (k a : String) (ss : List IdentitySnapshot) (owners : Owners) (conflicts : List String)
    → Knows k a (owners, conflicts)
    → claimed_beside k a ss ≡ true
    → contains (scan_snapshots ss owners conflicts) k ≡ true
scan_snapshots-Knows k a ss owners conflicts (inl o) c =
    scan_snapshots-clash k a ss owners conflicts o c
scan_snapshots-Knows k a ss owners conflicts (inr h) c =
    scan_snapshots-conflicts k ss owners conflicts h

scan_snapshots-claimed :
    (k a : String) (ss : List IdentitySnapshot) (owners : Owners) (conflicts : List String)
    → claimed_by k a ss ≡ true
    → claimed_beside k a ss ≡ true
    → contains (scan_snapshots ss owners conflicts) k ≡ true
unfolding scan_snapshots
scan_snapshots-claimed k a [] owners conflicts own other = cc
scan_snapshots-claimed k a (s ∷ ss) owners conflicts own other =
    let (owners', conflicts') = scan_keys s.tailnet_id s.keys owners conflicts in
    elim (Bool-cases (holds_key k s.keys)) [
      | inr unheld ↦ scan_snapshots-claimed k a ss owners' conflicts' (ground arith) (ground arith)
      | inl has_it ↦
          let known = scan_keys-Knows k s.tailnet_id s.keys owners conflicts has_it in
          scan_snapshots-Knows k s.tailnet_id ss owners' conflicts' known
            (ground (arith, eq_iff s.tailnet_id a, claimed_by-beside k a s.tailnet_id ss))
    ]

-- A key that the snapshots of two tailnets list is in conflict, wherever they stand in the table.
pub conflicting_keys-claimed :
    (k a : String) (all_of : List IdentitySnapshot)
    → claimed_by k a all_of ≡ true
    → claimed_beside k a all_of ≡ true
    → contains (conflicting_keys all_of) k ≡ true
unfolding conflicting_keys
conflicting_keys-claimed k a all_of own other = scan_snapshots-claimed k a all_of [] [] own other

pub holds_key-In :
    (i : IdentityKey) (ks : List IdentityKey) → In i ks → holds_key i.node_public ks ≡ true
holds_key-In i [] at = elim at [ ]
holds_key-In i (j ∷ ks) (inl e) =
    ground (arith, ap (λ (x : IdentityKey). x.node_public) e, eq_iff j.node_public i.node_public)
holds_key-In i (j ∷ ks) (inr later) = ground (arith, holds_key-In i ks later)

pub claimed_by-find :
    (k a : String) (ss : List IdentitySnapshot) (snap : IdentitySnapshot)
    → find (λ s. s.tailnet_id == a) ss ≡ some snap
    → holds_key k snap.keys ≡ true
    → claimed_by k a ss ≡ true
claimed_by-find k a [] snap found has_it = absurd (ground (arith, found))
claimed_by-find k a (s ∷ ss) snap found has_it = elim (Bool-cases (s.tailnet_id == a)) [
  | inl here ↦
      let same : s ≡ snap = ground (arith, found, here) in
      ground (arith, here, has_it, ap (λ (x : IdentitySnapshot). holds_key k x.keys) same)
  | inr later ↦
      ground (arith, later, claimed_by-find k a ss snap (ground (arith, found, later)) has_it)
]

-- A key that a tailnet lists and that is not in conflict is listed by no other tailnet.
pub conflicting_keys-unclaimed :
    (k a : String) (all_of : List IdentitySnapshot)
    → claimed_by k a all_of ≡ true
    → contains (conflicting_keys all_of) k ≡ false
    → claimed_beside k a all_of ≡ false
conflicting_keys-unclaimed k a all_of own free = elim (Bool-cases (claimed_beside k a all_of)) [
  | inr e ↦ e
  | inl e ↦ absurd (ground (arith, free, conflicting_keys-claimed k a all_of own e))
]
