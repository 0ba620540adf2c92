-- ===== src/Control/Policy/Grants.antt =====
-- internal/control/policy.go, buildPolicy: which grants, keys and deadlines a policy carries.

-- A key that the snapshot of the tailnet lists, with the end it has there, and that the snapshot of
-- no other tailnet lists.
use multi_derp.Base.{
  All, All-append, Bool-cases, In, List, Option, Option-cases, Result, Result-cases, String, [],
  arith, bool_eq, contains, eq_iff, false, find, if◌then◌else◌, inl, inr, list_eq, nat_eq, none, ok,
  option_eq, refl, select-All, some, sort_by-All, string_eq, true, ◌&&◌, ◌*◌, ◌+◌, ◌<◌, ◌==◌, ◌∷◌,
  ◌≡◌,
}
use multi_derp.Clock.{second, unix_time}
use multi_derp.Cluster.Policy.{DeviceKey, GrantPolicy}
use multi_derp.Control.Identity.{conflicting_keys}
use multi_derp.Control.Identity.Conflicts.{
  claimed_beside, claimed_by-find, conflicting_keys-unclaimed, holds_key-In,
}
use multi_derp.Control.Policy.{
  GrantJoin, Items, Retentions, active_grants, add_item, collect, find_tailnet, find_user,
  free_keys, join_grant, join_grants, join_tailnet, policy_grant, policy_rule,
}
use multi_derp.Control.Schema.{
  Database, GrantRow, IdentityKey, IdentitySnapshot, StoreError, Tailnet, User, active,
  grant_state_beq_iff, grant_state_eq, node_state_eq, role_eq,
}

pub record IsOwnKey (db : Database) (tailnet : String) (snapshot : IdentitySnapshot) (k : DeviceKey)
    : Type 0 where
  pub listed : IdentityKey
  pub in_snapshot : In listed snapshot.keys
  pub same_key : k.node_public ≡ listed.node_public
  pub same_end : k.not_after ≡ listed.not_after
  pub unclaimed : claimed_beside k.node_public tailnet db.identity_snapshots ≡ false

module _ (db : Database) (id : String) (retention : Retentions) where
  -- What stands behind a grant of a policy: an active grant of the node in the tables, whose tailnet
  -- and its owner are enabled and whose control plane was reached; deadlines that follow from the
  -- last successes; and keys of the tailnet's own snapshot that no other tailnet claims.
  pub record IsGranted (g : GrantPolicy) : Type 0 where
    pub row : GrantRow
    pub tailnet : Tailnet
    pub owner : User
    pub snapshot : IdentitySnapshot
    pub stored : In row db.grants
    pub of_node : row.node_id ≡ id
    pub is_active : row.state ≡ active
    pub named : g.grant_id ≡ row.id
    pub revised : g.grant_revision ≡ row.revision
    pub of_tailnet : g.tailnet_id ≡ row.tailnet_id
    pub tailnet_found : find_tailnet row.tailnet_id db ≡ some tailnet
    pub tailnet_enabled : tailnet.enabled ≡ true
    pub owner_found : find_user tailnet.owner_id db ≡ some owner
    pub owner_enabled : owner.enabled ≡ true
    pub snapshot_found :
        find (λ s. s.tailnet_id == row.tailnet_id) db.identity_snapshots ≡ some snapshot
    pub succeeded : g.last_identity_success ≡ unix_time snapshot.last_success
    pub contacted : 0 < row.last_control_success
    pub identity :
        g.identity_until ≡ unix_time snapshot.last_success + retention.identity_seconds * second
    pub control :
        g.control_until ≡ unix_time row.last_control_success + retention.control_seconds * second
    pub explicit :
        g.explicit_until ≡ (if row.explicit_until == 0 then 0 else unix_time row.explicit_until)
    pub keys_own : All (IsOwnKey db row.tailnet_id snapshot) g.keys

module _ (db : Database) (id : String) where
  pub record IsJoin (j : GrantJoin) : Type 0 where
    owner : User
    stored : In j.grant db.grants
    of_node : j.grant.node_id ≡ id
    is_active : j.grant.state ≡ active
    tailnet_found : find_tailnet j.grant.tailnet_id db ≡ some j.tailnet
    tailnet_enabled : j.tailnet.enabled ≡ true
    owner_found : find_user j.tailnet.owner_id db ≡ some owner
    owner_enabled : owner.enabled ≡ true

free_keys-own :
    (db : Database) (a : String) (snap : IdentitySnapshot) (ks : List IdentityKey)
    → find (λ s. s.tailnet_id == a) db.identity_snapshots ≡ some snap
    → ((i : IdentityKey) → In i ks → In i snap.keys)
    → All (IsOwnKey db a snap) (free_keys (conflicting_keys db.identity_snapshots) ks)
unfolding free_keys
free_keys-own db a snap [] found within = tt
free_keys-own db a snap (k ∷ ks) found within =
    let rest = free_keys-own db a snap ks found (λ i at. within i (inr at)) in
    elim (Bool-cases (contains (conflicting_keys db.identity_snapshots) k.node_public)) [
      | inl clash ↦ rw clash rest
      | inr free ↦
          let at = within k (inl refl) in
          let own =
            claimed_by-find k.node_public a db.identity_snapshots snap found
              (holds_key-In k snap.keys at) in
          rw free (
            record {
              listed = k;
              in_snapshot = at;
              same_key = refl;
              same_end = refl;
              unclaimed = conflicting_keys-unclaimed k.node_public a db.identity_snapshots own free;
            },
            rest,
          )
    ]

module _ (db : Database) (id : String) where
  abbrev IsActiveOf : GrantRow → Type 0
  IsActiveOf g = ((g.node_id == id && g.state == active) ≡ true) × In g db.grants

  join_tailnet-IsJoin :
      (g : GrantRow) (u : Option User) (t : Tailnet)
      → IsActiveOf g
      → find_tailnet g.tailnet_id db ≡ some t
      → find_user t.owner_id db ≡ u
      → All (IsJoin db id) (join_tailnet db g u t)
  unfolding join_tailnet
  join_tailnet-IsJoin g none t a found owner = tt
  join_tailnet-IsJoin g (some u) t a found owner = elim (Bool-cases (t.enabled && u.enabled)) [
    | inr off ↦ rw off tt
    | inl on ↦ rw on (
      record {
        owner = u;
        stored = a.1;
        of_node = ground (arith, eq_iff g.node_id id);
        is_active = ground (arith, grant_state_beq_iff g.state active);
        tailnet_found = found;
        tailnet_enabled = ground arith;
        owner_found = owner;
        owner_enabled = ground arith;
      },
      tt,
    )
  ]

  join_grant-IsJoin : (g : GrantRow) → IsActiveOf g → All (IsJoin db id) (join_grant db g)
  unfolding join_grant
  join_grant-IsJoin g a = elim (Option-cases (find_tailnet g.tailnet_id db)) [
    | inl e ↦ rw (e, join_grant) tt
    | inr (t, e) ↦ rw (e, join_grant) (join_tailnet-IsJoin g (find_user t.owner_id db) t a e refl)
  ]

  join_grants-IsJoin :
      (gs : List GrantRow) → All IsActiveOf gs → All (IsJoin db id) (join_grants db gs)
  unfolding join_grants
  join_grants-IsJoin [] h = tt
  join_grants-IsJoin (g ∷ gs) h =
      All-append (IsJoin db id) (join_grant db g) (join_grants db gs) (join_grant-IsJoin g h.0)
        (join_grants-IsJoin gs h.1)

  pub active_grants-IsJoin : All (IsJoin db id) (active_grants db id)
  unfolding active_grants
  active_grants-IsJoin =
      sort_by-All (IsJoin db id) _ _
        (join_grants-IsJoin _ (select-All (λ g. g.node_id == id && g.state == active) db.grants))

module _ (db : Database) (id owner : String) (retention : Retentions) where
  abbrev conflicts_of : List String
  conflicts_of = conflicting_keys db.identity_snapshots

  IsGranted-intro :
      (j : GrantJoin) (snap : IdentitySnapshot)
      → IsJoin db id j
      → find (λ s. s.tailnet_id == j.grant.tailnet_id) db.identity_snapshots ≡ some snap
      → 0 < j.grant.last_control_success
      → IsGranted db id retention (policy_grant retention conflicts_of j.grant snap)
  unfolding policy_grant
  IsGranted-intro j snap join found contacted = record {
    row = j.grant;
    tailnet = j.tailnet;
    owner = join.owner;
    snapshot = snap;
    stored = join.stored;
    of_node = join.of_node;
    is_active = join.is_active;
    named = refl;
    revised = refl;
    of_tailnet = refl;
    tailnet_found = join.tailnet_found;
    tailnet_enabled = join.tailnet_enabled;
    owner_found = join.owner_found;
    owner_enabled = join.owner_enabled;
    snapshot_found = found;
    succeeded = refl;
    contacted = contacted;
    identity = refl;
    control = refl;
    explicit = refl;
    keys_own = free_keys-own db j.grant.tailnet_id snap snap.keys found (λ i at. at);
  }

  abbrev collect_all : List GrantJoin → Result StoreError Items
  collect_all = collect db owner retention conflicts_of

  -- What the loop does with one row.
  data Collected (j : GrantJoin) (js : List GrantJoin) (items : Items) : Type 0 where
    skips : collect_all js ≡ ok items → Collected j js items
    takes :
        (snap : IdentitySnapshot) (rest : Items)
        → find (λ s. s.tailnet_id == j.grant.tailnet_id) db.identity_snapshots ≡ some snap
        → 0 < j.grant.last_control_success
        → collect_all js ≡ ok rest
        → items
          ≡ add_item (policy_grant retention conflicts_of j.grant snap) (policy_rule owner j) rest
        → Collected j js items

  collect-Collected :
      (j : GrantJoin) (js : List GrantJoin) (items : Items)
      → collect_all (j ∷ js) ≡ ok items
      → Collected j js items
  unfolding collect
  collect-Collected j js items h =
      elim (Option-cases (find (λ s. s.tailnet_id == j.grant.tailnet_id) db.identity_snapshots)) [
        | inl e ↦ skips (ground arith)
        | inr (snap, e) ↦ elim (Bool-cases (j.grant.last_control_success == 0)) [
          | inl idle ↦ skips (ground arith)
          | inr reached ↦ elim (Result-cases (collect_all js)) [
            | inr (x, e') ↦ absurd (ground arith)
            | inl (rest, e') ↦ takes snap rest e (ground arith) e' (ground arith)
          ]
        ]
      ]

  Collected-IsGranted :
      (j : GrantJoin) (js : List GrantJoin) (items : Items)
      → IsJoin db id j
      → ((rest : Items) → collect_all js ≡ ok rest → All (IsGranted db id retention) rest.0)
      → Collected j js items
      → All (IsGranted db id retention) items.0
  Collected-IsGranted j js items join later (skips e) = later items e
  Collected-IsGranted j js items join later (takes snap rest found contacted e same) =
      rw same (IsGranted-intro j snap join found contacted, later rest e)

  pub collect-IsGranted :
      (js : List GrantJoin) (items : Items)
      → All (IsJoin db id) js
      → collect_all js ≡ ok items
      → All (IsGranted db id retention) items.0
  unfolding collect
  collect-IsGranted [] items joins h = let e : items ≡ ([], []) = ground arith in rw e tt
  collect-IsGranted (j ∷ js) items joins h =
      Collected-IsGranted j js items joins.0 (λ rest e. collect-IsGranted js rest joins.1 e)
        (collect-Collected j js items h)
