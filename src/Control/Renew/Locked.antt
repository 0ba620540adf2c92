-- ===== src/Control/Renew/Locked.antt =====
-- internal/control/nodes.go: the sessions of a node that was locked.
use multi_derp.Base.{
  >>=-eq-ok, Bool, Bool-cases, List, Option-cases, String, [], any, any-delete, arith, bool_eq,
  eq_iff, fail_if, false, find-In, inl, inr, list_eq, nat_eq, not, ok, option_eq, or_fail,
  or_fail-some, some, string_eq, true, ◌==◌, ◌∷◌, ◌≡◌,
}
use multi_derp.Clock.{Instant}
use multi_derp.Control.Challenges.{NodeChallenge, NodeCrypto}
use multi_derp.Control.Policy.{find_node}
use multi_derp.Control.Renew.{locked, renew_node_session}
use multi_derp.Control.Renew.Once.{
  held, hold_node-tables, lock_node-tables, lost, renew_node_session-Done,
}
use multi_derp.Control.Schema.{
  Database, Env, Node, NodeSessionRow, grant_state_eq, node_state_eq, role_eq, unauthorized,
}
use multi_derp.Control.Sessions.{NodeSession, node_session, scan_sessions, session_of}
use multi_derp.Text.{is_hex_token}

session_of-named :
    (db : Database) (hash : String) (s : NodeSessionRow) (now : Instant) (m : Node)
    → session_of db hash s now ≡ some m
    → (s.node_id == m.id) ≡ true
unfolding session_of
session_of-named db hash s now m h = elim (Option-cases (find_node s.node_id db)) [
  | inl none_n ↦ absurd (ground (arith, h, none_n))
  | inr (k, e) ↦
      let here = (find-In (λ n. n.id == s.node_id) db.nodes k e).0 in
      let same : k ≡ m = ground (arith, h, e) in
      ground (arith, here, same, eq_iff k.id s.node_id, eq_iff s.node_id m.id)
]

scan_sessions-listed :
    (db : Database) (hash : String) (now : Instant) (ss : List NodeSessionRow) (r : NodeSessionRow)
    (n : Node)
    → scan_sessions db hash now ss ≡ some (r, n)
    → any (λ s. s.node_id == n.id) ss ≡ true
unfolding scan_sessions session_of
scan_sessions-listed db hash now [] r n h = absurd (ground arith)
scan_sessions-listed db hash now (s ∷ ss) r n h = elim (Option-cases (session_of db hash s now)) [
  | inl no_s ↦ ground (arith, h, no_s, scan_sessions-listed db hash now ss r n)
  | inr (m, yes_s) ↦
      let same : m ≡ n = ground (arith, h, yes_s) in
      let named = session_of-named db hash s now m yes_s in ground (arith, same, named)
]

module _ (env : Env) where
  -- No session row of a node, no session.
  pub node_session-gone :
      (id token : String) (now : Instant) (db : Database) (s : NodeSession)
      → any (λ r. r.node_id == id) db.node_sessions ≡ false
      → node_session env token now db ≡ ok s
      → (s.node_id == id) ≡ false
  unfolding node_session
  node_session-gone id token now db s gone h =
      let (x, e₀, h₀) = >>=-eq-ok (fail_if (not (is_hex_token token)) unauthorized) _ h in
      let ((r, n), e₁, h₁) =
        >>=-eq-ok (or_fail (scan_sessions db (env.digest token) now db.node_sessions) unauthorized)
          _ h₀ in
      let listed =
        scan_sessions-listed db (env.digest token) now db.node_sessions r n (or_fail-some _ _ e₁) in
      let named : s.node_id ≡ n.id = ground (arith, h₁) in
      elim (Bool-cases (s.node_id == id)) [
        | inr other ↦ other
        | inl same ↦
            let is_id : n.id ≡ id = ground (arith, same, named, eq_iff s.node_id id) in
            absurd (ground (arith, rw is_id at listed, gone))
      ]

module _ (env : Env) (crypto : NodeCrypto) where
  -- After a renewal found that another instance holds a node, no token opens a session of the node.
  pub renew_node_session-locked :
      (c : NodeChallenge) (sig fresh token : String) (seen_at now later : Instant)
      (seen db db' : Database) (verified : Bool) (s : NodeSession)
      → renew_node_session env crypto c sig fresh seen_at seen verified now db ≡ ok (locked, db')
      → node_session env token later db' ≡ ok s
      → (s.node_id == c.node_id) ≡ false
  renew_node_session-locked c sig fresh token seen_at now later seen db db' verified s h opened =
      let gone : any (λ r. r.node_id == c.node_id) db'.node_sessions ≡ false =
        elim (renew_node_session-Done env crypto c sig fresh seen_at now seen db db' verified locked
          h) [
            | held n done ↦
                absurd
                  (ground (arith, (hold_node-tables env crypto c n fresh now db db' locked done).0))
            | lost n done ↦
                rw ((lock_node-tables env crypto c n now db db' locked done).1)
                  (any-delete (λ r. r.node_id == c.node_id) db.node_sessions)
          ] in
      node_session-gone env c.node_id token later db' s gone opened
