-- ===== src/Control/Renew/Single.antt =====
-- internal/control/nodes.go: how many sessions a node has after a renewal.
use multi_derp.Base.{
  >>=-eq-ok, AtMostOne, Bool, List, String, [], any, any-delete, ap, arith, beq_refl, bool_eq,
  delete, false, find, list_eq, nat_eq, ok, option_eq, some, string_eq, true, ◌++◌, ◌+◌, ◌==◌, ◌∙◌,
  ◌∷◌, ◌≡◌,
}
use multi_derp.Clock.{Instant}
use multi_derp.Control.Challenges.{NodeChallenge, NodeCrypto, mint_node_session, minutes}
use multi_derp.Control.Challenges.Mint.{mint_node_session-Minted, minted_row}
use multi_derp.Control.Grants.{whole_seconds}
use multi_derp.Control.Policy.{build_policy}
use multi_derp.Control.Renew.{
  Renewal, held_rows, hold_node, lock_node, locked, note_domain, renew_node_session, renewed,
}
use multi_derp.Control.Renew.Once.{
  held, hold_node-tables, lost, note_domain-only, renew_node_session-Done,
}
use multi_derp.Control.Schema.{
  Database, Env, Node, NodeSessionRow, grant_state_eq, node_state_eq, role_eq,
}
use multi_derp.Control.Sessions.{NodeSession}

AtMostOne-last :
    {A : Type 0} (p : A → Bool) (xs : List A) (y : A)
    → any p xs ≡ false
    → AtMostOne p (xs ++ y ∷ [])
AtMostOne-last p [] y h = (ground arith, tt)
AtMostOne-last p (x ∷ xs) y h = (ground (arith, h), AtMostOne-last p xs y (ground (arith, h)))

find-last :
    {A : Type 0} (p : A → Bool) (xs : List A) (y : A)
    → any p xs ≡ false
    → p y ≡ true
    → find p (xs ++ y ∷ []) ≡ some y
find-last p [] y h k = ground (arith, k)
find-last p (x ∷ xs) y h k = ground (arith, h, find-last p xs y (ground (arith, h)) k)

module _ (env : Env) (crypto : NodeCrypto) where
  hold_node-sessions :
      (c : NodeChallenge) (n : Node) (fresh : String) (now : Instant) (db db' : Database)
      (r : Renewal)
      → hold_node env crypto c n fresh now db ≡ ok (r, db')
      → db'.node_sessions
        ≡ delete (λ s. s.node_id == c.node_id) db.node_sessions
          ++ minted_row env c.node_id c.instance_id fresh now ∷ []
  unfolding hold_node held_rows
  hold_node-sessions c n fresh now db db' r h =
      let rows = note_domain env crypto c n now (held_rows env crypto c now db) in
      let ((s, d), e, h') =
        >>=-eq-ok (mint_node_session env c.node_id c.instance_id fresh now rows) _ h in
      let (unused, named, only) =
        mint_node_session-Minted env c.node_id c.instance_id fresh now rows d s e in
      let noted = note_domain-only env crypto c n now (held_rows env crypto c now db) in
      let kept : rows.node_sessions ≡ db.node_sessions =
        ap (λ (x : Database). x.node_sessions) noted in
      let stored : db'.node_sessions ≡ d.node_sessions = ground (arith, h') in
      stored
      ∙ ap (λ (x : Database). x.node_sessions) only
      ∙ ap
          (λ ss.
            delete (λ s. s.node_id == c.node_id) ss
            ++ minted_row env c.node_id c.instance_id fresh now ∷ [])
          kept

  lock_node-locked :
      (c : NodeChallenge) (n : Node) (now : Instant) (db db' : Database) (r : Renewal)
      → lock_node env crypto c n now db ≡ ok (r, db')
      → r ≡ locked
  unfolding lock_node
  lock_node-locked c n now db db' r h =
      let ((p, d), e, h') = >>=-eq-ok (build_policy env c.node_id now _) _ h in ground (arith, h')

  -- A session that a renewal gives takes the place of all others of its node, and runs for an hour.
  pub renew_node_session-single :
      (c : NodeChallenge) (sig fresh : String) (seen_at now : Instant) (seen db db' : Database)
      (verified : Bool) (s : NodeSession)
      → renew_node_session env crypto c sig fresh seen_at seen verified now db ≡ ok (renewed s, db')
      → (s.token ≡ fresh)
        × (s.node_id ≡ c.node_id)
        × (s.expires_at ≡ whole_seconds (now + minutes 60))
        × (find (λ r. r.node_id == c.node_id) db'.node_sessions
            ≡ some (minted_row env c.node_id c.instance_id fresh now))
        × AtMostOne (λ r. r.node_id == c.node_id) db'.node_sessions
  renew_node_session-single c sig fresh seen_at now seen db db' verified s h =
      elim (renew_node_session-Done env crypto c sig fresh seen_at now seen db db' verified
        (renewed s) h) [
          | lost n done ↦ absurd (ground (arith, lock_node-locked c n now db db' (renewed s) done))
          | held n done ↦
              let named = (hold_node-tables env crypto c n fresh now db db' (renewed s) done).0 in
              let table = hold_node-sessions c n fresh now db db' (renewed s) done in
              let none_left = any-delete (λ r. r.node_id == c.node_id) db.node_sessions in
              let p : NodeSessionRow → Bool = λ r. r.node_id == c.node_id in
              (
                ground (arith, named),
                ground (arith, named),
                ground (arith, named),
                rw table (
                    find-last p (delete p db.node_sessions)
                      (minted_row env c.node_id c.instance_id fresh now) none_left
                      (beq_refl c.node_id)),
                rw table (
                    AtMostOne-last p (delete p db.node_sessions)
                      (minted_row env c.node_id c.instance_id fresh now) none_left),
              )
        ]
