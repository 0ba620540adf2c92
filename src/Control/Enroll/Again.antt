-- ===== src/Control/Enroll/Again.antt =====
-- internal/control/nodes.go, EnrollNode: the receipt of an enrollment.
use Prim.Native.String.{◌++◌ as join}
use multi_derp.Base.{
  >>=-eq-ok, Bool, Bool-cases, List, String, ap, arith, bool_eq, eq_iff, find, inl, inr, len,
  list_eq, ltb, nat_beq_iff, nat_eq, none, ok, option_eq, or_fail, or_fail-some, refl, some,
  string_eq, true, update, ◌&&◌, ◌*◌, ◌+◌, ◌<◌, ◌==◌, ◌∙◌, ◌≡◌,
}
use multi_derp.Clock.{Instant, before, second}
use multi_derp.Control.Access.{write_audit}
use multi_derp.Control.Challenges.{EnrollmentRequest, NodeCrypto, mint_node_session, use_challenge}
use multi_derp.Control.Challenges.Mint.{mint_node_session-Minted}
use multi_derp.Control.Enroll.{
  enroll_commit, enroll_node, enrollment_receipt, enrollment_status, key_fits, open_receipt,
  scan_enrollments, store_enrollment,
}
use multi_derp.Control.Enroll.Receipt.{KeepsOwners, scan_enrollments-update}
use multi_derp.Control.Policy.{build_policy}
use multi_derp.Control.Policy.Built.{build_policy-only}
use multi_derp.Control.Schema.{
  Database, EnrollmentRow, Env, Node, grant_state_eq, node_state_eq, pending, registered, role_eq,
  unauthorized, unix,
}
use multi_derp.Control.Sessions.{NodeSession}

module _ (env : Env) (crypto : NodeCrypto) where
  abbrev is_for : EnrollmentRequest → Instant → EnrollmentRow → Bool
  is_for req now e =
      e.code_hash == env.digest req.code
      && e.node_id == req.challenge.node_id
      && ltb (unix now) e.expires_at

  -- The row of an enrollment after its answer was sealed.
  abbrev answered :
      EnrollmentRequest → String → Instant → NodeSession → EnrollmentRow → EnrollmentRow
  answered req salt now s e = record e {
    consumed_at = unix now;
    request_hash = some (crypto.request_digest req);
    response_encrypted = some (crypto.seal salt s (join "enrollment:" req.challenge.node_id));
  }

  store_enrollment-tables :
      (req : EnrollmentRequest) (owner fresh salt : String) (now : Instant) (db db' : Database)
      (s : NodeSession)
      → store_enrollment env crypto req owner fresh salt now db ≡ ok (s, db')
      → KeepsOwners db db'
        × (db'.enrollments
            ≡ update
                (λ e. e.node_id == req.challenge.node_id)
                (answered req salt now s)
                db.enrollments)
  unfolding store_enrollment write_audit
  store_enrollment-tables req owner fresh salt now db db' s h =
      let c = req.challenge in
      let ((p, d), e₀, h₀) = >>=-eq-ok (build_policy env c.node_id now _) _ h in
      let only = build_policy-only env c.node_id now _ d p e₀ in
      let used : Database = record d {
        node_challenges = use_challenge (env.digest c.nonce) (unix now) d.node_challenges;
      } in
      let ((t, d'), e₁, h₁) =
        >>=-eq-ok (mint_node_session env c.node_id c.instance_id fresh now used) _ h₀ in
      let (unused, named, shaped) =
        mint_node_session-Minted env c.node_id c.instance_id fresh now used d' t e₁ in
      let same : t ≡ s = ground (arith, h₁) in
      let mark : NodeSession → Database → List EnrollmentRow =
        λ x y. update (λ e. e.node_id == c.node_id) (answered req salt now x) y.enrollments in
      let nodes : db'.nodes ≡ d'.nodes = ground (arith, h₁) in
      let users : db'.users ≡ d'.users = ground (arith, h₁) in
      let rows : db'.enrollments ≡ mark t d' = ground (arith, h₁) in
      (
        record {
          test = λ n. n.id == c.node_id;
          change = λ n. record n {
            public_key = some c.public_key;
            instance_id = c.instance_id;
            state = registered;
            lease_until = unix (now + 90 * second);
            domain_verified_at = unix now;
          };
          same_id = λ n. refl;
          same_owner = λ n. refl;
          users =
              users ∙ ap (λ (x : Database). x.users) shaped ∙ ap (λ (x : Database). x.users) only;
          nodes =
              nodes ∙ ap (λ (x : Database). x.nodes) shaped ∙ ap (λ (x : Database). x.nodes) only;
        },
        rows ∙ ap (λ x. mark x d') same ∙ ap (mark s) shaped ∙ ap (mark s) only,
      )

  enroll_commit-stored :
      (req : EnrollmentRequest) (fresh salt : String) (now : Instant) (db db' : Database)
      (s : NodeSession)
      → enrollment_status env crypto req now db ≡ ok none
      → enroll_commit env crypto req fresh salt now db ≡ ok (s, db')
      → (owner : String) × (store_enrollment env crypto req owner fresh salt now db ≡ ok (s, db'))
  unfolding enroll_commit
  enroll_commit-stored req fresh salt now db db' s new h =
      let (status, e₀, h₀) = >>=-eq-ok (enrollment_status env crypto req now db) _ h in
      let first : status ≡ none = ground (arith, e₀, new) in
      let c = req.challenge in
      let (n, e₁, h₁) =
        >>=-eq-ok
          (or_fail
            (find
              (λ n.
                n.id == c.node_id
                && n.domain == c.domain
                && n.state == pending
                && key_fits n.public_key c.public_key)
              db.nodes)
            unauthorized)
          _ (rw first at h₀) in
      (n.owner_id, h₁)

  enrollment_receipt-new :
      (req : EnrollmentRequest) (now : Instant) (db : Database)
      → enrollment_receipt env crypto req now db ≡ ok none
      → (e : EnrollmentRow) × (n : Node) × (scan_enrollments db
            (is_for req now)
            (λ n. true)
            db.enrollments
          ≡ some (e, n))
        × (e.consumed_at ≡ 0)
  unfolding enrollment_receipt
  enrollment_receipt-new req now db h =
      let ((e, n), e₀, h₀) =
        >>=-eq-ok
          (or_fail (scan_enrollments db (is_for req now) (λ n. true) db.enrollments) unauthorized) _
          h in
      elim (Bool-cases (e.consumed_at == 0)) [
        | inl free ↦ (e, n, or_fail-some _ _ e₀, ground (arith, free, nat_beq_iff e.consumed_at 0))
        | inr used ↦
            let (s, e₁, h₁) = >>=-eq-ok (open_receipt env crypto req e now) _ (rw used at h₀) in
            absurd (ground (arith, h₁))
      ]

  answered-receipt :
      (req : EnrollmentRequest) (salt : String) (now later : Instant) (db : Database)
      (s : NodeSession) (e : EnrollmentRow) (m : Node)
      → 0 < unix now
      → crypto.unseal
          (crypto.seal salt s (join "enrollment:" req.challenge.node_id))
          (join "enrollment:" req.challenge.node_id)
        ≡ some s
      → before later s.expires_at ≡ true
      → scan_enrollments db (is_for req later) (λ n. true) db.enrollments
        ≡ some (answered req salt now s e, m)
      → enrollment_receipt env crypto req later db ≡ ok (some s)
  unfolding enrollment_receipt open_receipt
  answered-receipt req salt now later db s e m some_time opens soon there = rw there (
      ground (
        arith,
        opens,
        soon,
        some_time,
        nat_beq_iff (unix now) 0,
        eq_iff (crypto.request_digest req) (crypto.request_digest req),
      ))

  -- A node that sends its enrollment again, because the answer was lost, gets the same session while
  -- the code and the session last, without another proof of its domain and with nothing changed.
  pub enroll_node-again :
      (req : EnrollmentRequest) (fresh salt fresh' salt' : String) (now later last : Instant)
      (db db' other : Database) (verified : Bool) (s : NodeSession)
      → len req.code ≡ 64
      → 0 < unix now
      → crypto.unseal
          (crypto.seal salt s (join "enrollment:" req.challenge.node_id))
          (join "enrollment:" req.challenge.node_id)
        ≡ some s
      → enrollment_status env crypto req now db ≡ ok none
      → enroll_commit env crypto req fresh salt now db ≡ ok (s, db')
      → enrollment_receipt env crypto req later db ≡ ok none
      → before later s.expires_at ≡ true
      → enroll_node env crypto req fresh' salt' later db' verified last other ≡ ok (s, other)
  unfolding enroll_node enrollment_status
  enroll_node-again req fresh salt fresh' salt' now later last db db' other verified s long
        some_time opens new done known soon =
      let name = join "enrollment:" req.challenge.node_id in
      let (owner, stored) = enroll_commit-stored req fresh salt now db db' s new done in
      let (kept, rows) = store_enrollment-tables req owner fresh salt now db db' s stored in
      let (e, n, scanned, unused) = enrollment_receipt-new req later db known in
      let (fits, (m, found)) =
        scan_enrollments-update db db' (is_for req later) (λ x. x.node_id == req.challenge.node_id)
          (answered req salt now s) db.enrollments e n kept (λ x. refl) (λ x. (refl, refl))
          scanned in
      let name = join "enrollment:" req.challenge.node_id in
      let (owner, stored) = enroll_commit-stored req fresh salt now db db' s new done in
      let (kept, rows) = store_enrollment-tables req owner fresh salt now db db' s stored in
      let (e, n, scanned, unused) = enrollment_receipt-new req later db known in
      let (fits, (m, found)) =
        scan_enrollments-update db db' (is_for req later) (λ x. x.node_id == req.challenge.node_id)
          (answered req salt now s) db.enrollments e n kept (λ x. refl) (λ x. (refl, refl))
          scanned in
      let at : (e.node_id == req.challenge.node_id) ≡ true = ground (arith, fits) in
      let there : scan_enrollments db' (is_for req later) (λ n. true) db'.enrollments
          ≡ some (answered req salt now s e, m) =
        ap (scan_enrollments db' (is_for req later) (λ n. true)) rows ∙ found ∙ rw at refl in
      let receipt = answered-receipt req salt now later db' s e m some_time opens soon there in
      rw receipt (ground (arith, long))
