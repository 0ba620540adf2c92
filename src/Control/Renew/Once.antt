-- ===== src/Control/Renew/Once.antt =====
-- internal/control/nodes.go: which challenges and sessions of a node a renewal leaves.
use multi_derp.Base.{
  >>=-eq-ok, Bool, Bool-cases, String, ap, arith, bool_eq, delete, err, fail_if, find, inl, inr,
  list_eq, ltb, nat_eq, not, ok, option_eq, or_fail, refl, some, string_eq, ◌&&◌, ◌<◌, ◌==◌, ◌≡◌,
}
use multi_derp.Clock.{Instant}
use multi_derp.Control.Access.{write_audit}
use multi_derp.Control.Challenges.{
  NodeChallenge, NodeCrypto, check_node_challenge, mint_node_session, use_challenge,
}
use multi_derp.Control.Challenges.Mint.{mint_node_session-Minted, minted}
use multi_derp.Control.Challenges.Once.{check_node_challenge-used}
use multi_derp.Control.Policy.{build_policy}
use multi_derp.Control.Policy.Built.{build_policy-only}
use multi_derp.Control.Renew.{
  Renewal, check_domain_change, held_rows, hold_node, is_renewable, lock_node, note_domain,
  owner_acts, renew_commit, renew_node_session, renewed,
}
use multi_derp.Control.Schema.{
  Database, Env, Node, grant_state_eq, node_state_eq, role_eq, unauthorized, unix,
}

module _ (env : Env) (crypto : NodeCrypto) where
  pub lock_node-tables :
      (c : NodeChallenge) (n : Node) (now : Instant) (db db' : Database) (r : Renewal)
      → lock_node env crypto c n now db ≡ ok (r, db')
      → (db'.node_challenges ≡ use_challenge (env.digest c.nonce) (unix now) db.node_challenges)
        × (db'.node_sessions ≡ delete (λ s. s.node_id == c.node_id) db.node_sessions)
  unfolding lock_node write_audit
  lock_node-tables c n now db db' r h =
      let ((p, d), e, h') = >>=-eq-ok (build_policy env c.node_id now _) _ h in
      let only = build_policy-only env c.node_id now _ d p e in
      (
        ground (arith, h', ap (λ (x : Database). x.node_challenges) only),
        ground (arith, h', ap (λ (x : Database). x.node_sessions) only),
      )

  pub note_domain-only :
      (c : NodeChallenge) (n : Node) (now : Instant) (db : Database)
      → note_domain env crypto c n now db
        ≡ record db { audit = (note_domain env crypto c n now db).audit }
  unfolding note_domain write_audit
  note_domain-only c n now db = elim (Bool-cases (c.purpose == "domain_change")) [
    | inl yes_d ↦ rw yes_d refl
    | inr no_d ↦ rw no_d refl
  ]

  pub hold_node-tables :
      (c : NodeChallenge) (n : Node) (fresh : String) (now : Instant) (db db' : Database)
      (r : Renewal)
      → hold_node env crypto c n fresh now db ≡ ok (r, db')
      → (r ≡ renewed (minted env c.node_id c.instance_id fresh now))
        × (db'.node_challenges ≡ use_challenge (env.digest c.nonce) (unix now) db.node_challenges)
  unfolding hold_node held_rows
  hold_node-tables c n fresh now db db' r h =
      let rows = note_domain env crypto c n now (held_rows env crypto c now db) in
      let ((s, d), e, h') =
        >>=-eq-ok (mint_node_session env c.node_id c.instance_id fresh now rows) _ h in
      let (unused, named, only) =
        mint_node_session-Minted env c.node_id c.instance_id fresh now rows d s e in
      let noted = note_domain-only c n now (held_rows env crypto c now db) in
      (
        ground (arith, h', named),
        ground (
          arith,
          h',
          ap (λ (x : Database). x.node_challenges) only,
          ap (λ (x : Database). x.node_challenges) noted,
        ),
      )

  -- A renewal that was done, in one of its two ways.
  pub data Done (c : NodeChallenge) (fresh : String) (now : Instant) (db db' : Database)
      (r : Renewal) : Type 0 where
    held :
        (n : Node) → hold_node env crypto c n fresh now db ≡ ok (r, db') → Done c fresh now db db' r
    lost : (n : Node) → lock_node env crypto c n now db ≡ ok (r, db') → Done c fresh now db db' r

  renew_commit-Done :
      (c : NodeChallenge) (sig fresh : String) (now : Instant) (db db' : Database) (r : Renewal)
      → renew_commit env crypto c sig fresh now db ≡ ok (r, db')
      → Done c fresh now db db' r
  unfolding renew_commit
  renew_commit-Done c sig fresh now db db' r h =
      let (x, e₀, h₀) = >>=-eq-ok (check_node_challenge env crypto c sig c.purpose now db) _ h in
      let (n, e₁, h₁) =
        >>=-eq-ok
          (or_fail
            (find
              (λ n.
                n.id == c.node_id
                && n.domain == c.domain
                && is_renewable c.purpose n.state
                && owner_acts db n)
              db.nodes)
            unauthorized)
          _ h₀ in
      let (y, e₂, h₂) =
        >>=-eq-ok (fail_if (not (n.public_key == some c.public_key)) unauthorized) _ h₁ in
      elim (Bool-cases (not (n.instance_id == c.instance_id) && ltb (unix now) n.lease_until)) [
        | inl other ↦ lost n (rw other at h₂)
        | inr same ↦ held n (rw same at h₂)
      ]

  pub renew_node_session-Done :
      (c : NodeChallenge) (sig fresh : String) (seen_at now : Instant) (seen db db' : Database)
      (verified : Bool) (r : Renewal)
      → renew_node_session env crypto c sig fresh seen_at seen verified now db ≡ ok (r, db')
      → Done c fresh now db db' r
  unfolding renew_node_session
  renew_node_session-Done c sig fresh seen_at now seen db db' verified r h =
      let (x, e₀, h₀) =
        >>=-eq-ok
          (fail_if (not (c.purpose == "session") && not (c.purpose == "domain_change"))
            unauthorized)
          _ h in
      elim (Bool-cases (c.purpose == "domain_change")) [
        | inl yes_d ↦
            let (y, e₁, h₁) =
              >>=-eq-ok (check_domain_change env crypto c sig seen_at seen) _ (rw yes_d at h₀) in
            let (z, e₂, h₂) = >>=-eq-ok (fail_if (not verified) unauthorized) _ h₁ in
            renew_commit-Done c sig fresh now db db' r h₂
        | inr no_d ↦ renew_commit-Done c sig fresh now db db' r (rw no_d at h₀)
      ]

  Done-used :
      (c : NodeChallenge) (fresh : String) (now : Instant) (db db' : Database) (r : Renewal)
      → Done c fresh now db db' r
      → db'.node_challenges ≡ use_challenge (env.digest c.nonce) (unix now) db.node_challenges
  Done-used c fresh now db db' r (held n h) = (hold_node-tables c n fresh now db db' r h).1
  Done-used c fresh now db db' r (lost n h) = (lock_node-tables c n now db db' r h).0

  renew_node_session-refused :
      (c : NodeChallenge) (sig fresh : String) (seen_at now : Instant) (db : Database)
      (verified : Bool)
      → ((purpose : String) (later : Instant)
          → check_node_challenge env crypto c sig purpose later db ≡ err unauthorized)
      → renew_node_session env crypto c sig fresh seen_at db verified now db ≡ err unauthorized
  unfolding renew_node_session renew_commit check_domain_change
  renew_node_session-refused c sig fresh seen_at now db verified no_more =
      elim (Bool-cases (not (c.purpose == "session") && not (c.purpose == "domain_change"))) [
        | inl bad ↦ rw bad refl
        | inr fine ↦ elim (Bool-cases (c.purpose == "domain_change")) [
          | inl yes_d ↦ rw (fine, yes_d, no_more "domain_change" seen_at) refl
          | inr no_d ↦ rw (fine, no_d, no_more c.purpose now) refl
        ]
      ]

  -- A challenge that renewed a session, or locked the node, is refused whenever it is shown again,
  -- whatever its signature, if the renewal was after the first second of 1970.
  pub renew_node_session-once :
      (c : NodeChallenge) (sig sig' fresh fresh' : String) (seen_at now seen_again later : Instant)
      (seen db db' : Database) (verified verified' : Bool) (r : Renewal)
      → 0 < unix now
      → renew_node_session env crypto c sig fresh seen_at seen verified now db ≡ ok (r, db')
      → renew_node_session env crypto c sig' fresh' seen_again db' verified' later db'
        ≡ err unauthorized
  renew_node_session-once c sig sig' fresh fresh' seen_at now seen_again later seen db db' verified
        verified' r some_time h =
      let used =
        Done-used c fresh now db db' r
          (renew_node_session-Done c sig fresh seen_at now seen db db' verified r h) in
      renew_node_session-refused c sig' fresh' seen_again later db' verified' (λ purpose t.
        check_node_challenge-used env crypto c sig' purpose (unix now) t db.node_challenges db'
          some_time used)
