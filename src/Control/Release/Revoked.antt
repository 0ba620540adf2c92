-- ===== src/Control/Release/Revoked.antt =====
-- internal/control/node_self.go: what is left of a node that was released.
use multi_derp.Base.{
  >>=-eq-ok, Bool, Bool-cases, List, String, [], any, any-delete, ap, arith, bool_eq, false, inl,
  inr, list_eq, nat_eq, not, ok, option_eq, refl, string_eq, true, update, ◌&&◌, ◌+◌, ◌==◌, ◌||◌,
  ◌∷◌, ◌≡◌, ◌⊎◌,
}
use multi_derp.Clock.{Instant}
use multi_derp.Control.Policy.{build_policy}
use multi_derp.Control.Policy.Built.{build_policy-only}
use multi_derp.Control.Release.{
  clear_node, drop_node_rows, release_node, release_rows, revoke_grant,
}
use multi_derp.Control.Schema.{
  Database, Env, GrantRow, grant_state_eq, node_state_eq, revoked, role_eq,
}
use multi_derp.Control.Sessions.{NodeSession, node_session}

module _ (env : Env) where
  release_rows-only :
      (id : String) (now : Instant) (db db' : Database)
      → release_rows env id now db ≡ ok db'
      → db' ≡ record (clear_node id db) { node_policies = db'.node_policies }
  unfolding release_rows
  release_rows-only id now db db' h =
      elim (Bool-cases (any (λ r. r.node_id == id) (clear_node id db).node_policies)) [
        | inl listed ↦
            let ((p, d), e, h') =
              >>=-eq-ok (build_policy env id now (clear_node id db)) _ (rw listed at h) in
            let same : d ≡ db' = ground (arith, h') in
            rw (← same) (build_policy-only env id now (clear_node id db) d p e)
        | inr unlisted ↦
            let same : clear_node id db ≡ db' = ground (arith, rw unlisted at h) in rw (← same) refl
      ]

-- A grant of a node that is over.
abbrev pub is_over : String → GrantRow → Bool
is_over id g = not (g.node_id == id) || g.state == revoked

-- A grant of a node, before and after: the pairing, no revision fell, and a grant that changed has a
-- new one.
pub data AreRevoked (id : String) : List GrantRow → List GrantRow → Type 0 where
  none_left : AreRevoked id [] []
  one_more :
      (g g' : GrantRow) (gs gs' : List GrantRow)
      → g'.id ≡ g.id
      → is_over id g' ≡ true
      → (g' ≡ g) ⊎ (g'.revision ≡ g.revision + 1)
      → AreRevoked id gs gs'
      → AreRevoked id (g ∷ gs) (g' ∷ gs')

revoke-AreRevoked :
    (id : String) (gs : List GrantRow)
    → AreRevoked id gs (update (λ g. g.node_id == id && not (g.state == revoked)) revoke_grant gs)
revoke-AreRevoked id [] = none_left
revoke-AreRevoked id (g ∷ gs) = elim (Bool-cases (g.node_id == id && not (g.state == revoked))) [
  | inl open_g ↦
      rw open_g
        (one_more g (revoke_grant g) gs _ refl (ground arith) (inr refl) (revoke-AreRevoked id gs))
  | inr over ↦
      rw over (one_more g g gs _ refl (ground (arith, over)) (inl refl) (revoke-AreRevoked id gs))
]

module _ (env : Env) where
  -- When a node releases itself, all its grants are revoked, each that was not yet under a new
  -- revision, and no session and no enrollment code of the node is left.
  pub release_node-AreRevoked :
      (token : String) (now : Instant) (db db' : Database) (session : NodeSession)
      → node_session env token now db ≡ ok session
      → release_node env token now db ≡ ok db'
      → AreRevoked session.node_id db.grants db'.grants
        × (any (λ r. r.node_id == session.node_id) db'.node_sessions ≡ false)
        × (any (λ e. e.node_id == session.node_id) db'.enrollments ≡ false)
  unfolding release_node clear_node drop_node_rows
  release_node-AreRevoked token now db db' session opened h =
      let (s, e, h') = >>=-eq-ok (node_session env token now db) _ h in
      let same : s ≡ session = ground (arith, e, opened) in
      let only = release_rows-only env s.node_id now db db' h' in
      let grants = ap (λ (x : Database). x.grants) only in
      let sessions = ap (λ (x : Database). x.node_sessions) only in
      let codes = ap (λ (x : Database). x.enrollments) only in
      rw (← same) (
        rw grants (revoke-AreRevoked s.node_id db.grants),
        rw sessions (any-delete (λ r. r.node_id == s.node_id) db.node_sessions),
        rw codes (any-delete (λ r. r.node_id == s.node_id) db.enrollments),
      )
