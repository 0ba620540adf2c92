-- ===== src/Control/Users/Login.antt =====
-- internal/control/auth.go: what a login opens.
use multi_derp.Base.{
  >>=-eq-ok, Bool, Bool-cases, Distinct, List, String, [], any, ap, arith, bool_eq, contains,
  eq_iff, err, fail_if, false, find, inl, inr, len, nat_beq_iff, nat_eq, not, ok, option_eq,
  or_fail, or_fail-some, refl, some, string_eq, true, update, ℕ, ◌&&◌, ◌++◌, ◌+◌, ◌<◌, ◌==◌, ◌∙◌,
  ◌∷◌, ◌≡◌,
}
use multi_derp.Clock.{Instant}
use multi_derp.Control.Policy.{find_user}
use multi_derp.Control.Schema.{
  Database, Env, User, UserSession, grant_state_eq, node_state_eq, role_eq, storage, unauthorized,
  unix,
}
use multi_derp.Control.Users.{
  Secrets, authenticate, check_csrf, csrf_of, login, login_user, open_session, scan_user_sessions,
  session_user,
}
use multi_derp.Control.Users.Reset.{Resets, Resets-IsReset, user_ids}
use multi_derp.Text.{same_nocase}

pub user_ids-update :
    (id : String) (f : User → User) (us : List User)
    → ((u : User) → (f u).id ≡ u.id)
    → user_ids (update (λ u. u.id == id) f us) ≡ user_ids us
user_ids-update id f [] keep = refl
user_ids-update id f (u ∷ us) keep = ground (arith, keep u, user_ids-update id f us keep)

find-listed :
    (p : User → Bool) (us : List User) (u : User)
    → find p us ≡ some u
    → contains (user_ids us) u.id ≡ true
find-listed p [] u h = absurd (ground arith)
find-listed p (v ∷ us) u h = ground (arith, h, find-listed p us u, eq_iff u.id u.id)

-- An account at the version that was read, after its version was raised.
abbrev is_at : String → ℕ → User → Bool
is_at id version v = v.id == id && v.enabled && v.session_version == version

is_at-absent :
    (id : String) (version : ℕ) (us : List User)
    → contains (user_ids us) id ≡ false
    → any (is_at id version) us ≡ false
is_at-absent id version [] h = refl
is_at-absent id version (u ∷ us) h = ground (arith, h, is_at-absent id version us)

raised-stale :
    (p : User → Bool) (f : User → User) (us : List User) (u : User)
    → ((v : User) → (f v).id ≡ v.id)
    → ((v : User) → (f v).session_version ≡ v.session_version + 1)
    → Distinct (user_ids us)
    → find p us ≡ some u
    → any (is_at u.id u.session_version) (update (λ v. v.id == u.id) f us) ≡ false
raised-stale p f [] u keep raise d h = refl
raised-stale p f (v ∷ us) u keep raise d h = elim (Bool-cases (p v)) [
  | inl e ↦
      let same : v ≡ u = ground (arith, h, e) in
      let alone =
        is_at-absent u.id u.session_version (update (λ w. w.id == u.id) f us)
          (rw (user_ids-update u.id f us keep) (ground (arith, d.0, same))) in
      ground (
        arith,
        alone,
        same,
        keep v,
        raise v,
        eq_iff u.id u.id,
        nat_beq_iff (f u).session_version u.session_version,
        nat_beq_iff (f v).session_version u.session_version,
        keep u,
        raise u,
      )
  | inr e ↦
      let rest = raised-stale p f us u keep raise d.1 (ground (arith, h, e)) in
      let listed = find-listed p us u (ground (arith, h, e)) in
      let other : (v.id == u.id) ≡ false = ground (arith, listed, d.0, eq_iff v.id u.id) in
      ground (arith, rest, other)
]

module _ (env : Env) (secrets : Secrets) where
  open_session-stale :
      (u : User) (fresh : String) (now : Instant) (db : Database)
      → any (is_at u.id u.session_version) db.users ≡ false
      → open_session env secrets u fresh now db ≡ err unauthorized
  unfolding open_session
  open_session-stale u fresh now db h = rw h refl

  login-err :
      (username password fresh : String) (now : Instant) (seen db : Database) (u : User)
      → login_user env secrets username password seen ≡ ok u
      → open_session env secrets u fresh now db ≡ err unauthorized
      → login env secrets username password fresh now seen db ≡ err unauthorized
  unfolding login
  login-err username password fresh now seen db u e₀ e₁ = rw (e₀, e₁) refl

  -- If an account is reset between the two statements of a login, by a new password, another role or
  -- its switch, then the login opens no session, if no two accounts have the same id.
  pub login-overtaken :
      (username password fresh : String) (now : Instant) (seen db : Database) (u : User)
      → Distinct (user_ids seen.users)
      → login_user env secrets username password seen ≡ ok u
      → Resets u.id seen db
      → login env secrets username password fresh now seen db ≡ err unauthorized
  unfolding login_user
  login-overtaken username password fresh now seen db u d h reset =
      let r = Resets-IsReset u.id seen db reset in
      let (v, e₀, h₀) =
        >>=-eq-ok (or_fail (find (λ v. same_nocase v.username username) seen.users) unauthorized) _
          h in
      let same : v ≡ u = ground (arith, h₀) in
      let found : find (λ v. same_nocase v.username username) seen.users ≡ some u =
        or_fail-some _ _ e₀ ∙ ap some same in
      let stale : any (is_at u.id u.session_version) db.users ≡ false = rw r.users (
        raised-stale (λ v. same_nocase v.username username) r.change seen.users u r.same_id
          r.next_version d found) in
      login-err username password fresh now seen db u h (open_session-stale u fresh now db stale)

  scan_user_sessions-new :
      (hash : String) (later : Instant) (db : Database) (ss : List UserSession) (s : UserSession)
      → any (λ r. r.token_hash == hash) ss ≡ false
      → scan_user_sessions env hash later db (ss ++ s ∷ [])
        ≡ scan_user_sessions env hash later db (s ∷ [])
  unfolding scan_user_sessions session_user
  scan_user_sessions-new hash later db [] s h = refl
  scan_user_sessions-new hash later db (r ∷ ss) s h =
      ground (arith, h, scan_user_sessions-new hash later db ss s)

  find-new :
      (hash : String) (ss : List UserSession) (s : UserSession)
      → any (λ r. r.token_hash == hash) ss ≡ false
      → s.token_hash ≡ hash
      → find (λ r. r.token_hash == hash) (ss ++ s ∷ []) ≡ some s
  find-new hash [] s h e = ground (arith, e, eq_iff s.token_hash hash)
  find-new hash (r ∷ ss) s h e = ground (arith, h, find-new hash ss s)

  is_at-found :
      (us : List User) (u v : User)
      → Distinct (user_ids us)
      → find (λ w. w.id == u.id) us ≡ some v
      → any (is_at u.id u.session_version) us ≡ true
      → (v.enabled ≡ true) × (v.session_version ≡ u.session_version)
  is_at-found [] u v d found h = absurd (ground arith)
  is_at-found (w ∷ us) u v d found h = elim (Bool-cases (w.id == u.id)) [
    | inr e ↦ is_at-found us u v d.1 (ground (arith, found, e)) (ground (arith, h, e))
    | inl e ↦
        let same : w ≡ v = ground (arith, found, e) in
        let named : w.id ≡ u.id = ground (arith, e, eq_iff w.id u.id) in
        let alone = is_at-absent u.id u.session_version us (rw named at d.0) in
        ground (
          arith,
          alone,
          h,
          same,
          nat_beq_iff w.session_version u.session_version,
          nat_beq_iff v.session_version u.session_version,
        )
  ]

  -- What a login that succeeded gives.
  pub record Opened (username password fresh : String) (now : Instant) (seen db db' : Database)
      : Type 0 where
    pub u : User
    pub known : login_user env secrets username password seen ≡ ok u
    pub current : any (is_at u.id u.session_version) db.users ≡ true
    pub unused : any (λ s. s.token_hash == env.digest fresh) db.sessions ≡ false
    pub opened : db' ≡ record db {
      sessions =
          db.sessions
          ++ record {
            token_hash = env.digest fresh;
            user_id = u.id;
            session_version = u.session_version;
            csrf_hash = env.digest (csrf_of env secrets fresh);
            expires_at = unix now + 43200;
          }
            ∷ [];
    }

  login-Opened :
      (username password fresh token csrf : String) (now : Instant) (seen db db' : Database)
      → login env secrets username password fresh now seen db ≡ ok (token, csrf, db')
      → (token ≡ fresh)
        × (csrf ≡ csrf_of env secrets fresh)
        × Opened username password fresh now seen db db'
  unfolding login open_session
  login-Opened username password fresh token csrf now seen db db' h =
      let (u, e₀, h₀) = >>=-eq-ok (login_user env secrets username password seen) _ h in
      let (d, e₁, h₁) = >>=-eq-ok (open_session env secrets u fresh now db) _ h₀ in
      let (x, e₂, h₂) =
        >>=-eq-ok (fail_if (not (any (is_at u.id u.session_version) db.users)) unauthorized) _ e₁ in
      let (y, e₃, h₃) =
        >>=-eq-ok (fail_if (any (λ s. s.token_hash == env.digest fresh) db.sessions) storage) _
          h₂ in
      (
        ground (arith, h₁),
        ground (arith, h₁),
        record {
          u = u;
          known = e₀;
          current = ground (arith, e₂);
          unused = ground (arith, e₃);
          opened = ground (arith, h₁, h₃);
        },
      )

  opened_user :
      (later : Instant) (db db' : Database) (s : UserSession) (v : User)
      → db'.users ≡ db.users
      → find_user s.user_id db ≡ some v
      → v.enabled ≡ true
      → v.session_version ≡ s.session_version
      → unix later < s.expires_at
      → scan_user_sessions env s.token_hash later db' (s ∷ []) ≡ some v
  unfolding scan_user_sessions session_user
  opened_user later db db' s v same found on current soon = rw same (
      ground (
        arith,
        found,
        on,
        current,
        soon,
        eq_iff s.token_hash s.token_hash,
        nat_beq_iff s.session_version v.session_version,
      ))

  -- The token of a login stands for the account, and its companion passes the check on forms, at
  -- every time up to twelve hours later, if tokens have 64 characters, digests are not empty in
  -- hexadecimal and no two accounts have the same id.
  pub login-authenticate :
      (username password fresh token csrf : String) (now later : Instant) (seen db db' : Database)
      (u v : User)
      → login env secrets username password fresh now seen db ≡ ok (token, csrf, db')
      → login_user env secrets username password seen ≡ ok u
      → find_user u.id db ≡ some v
      → Distinct (user_ids db.users)
      → len fresh ≡ 64
      → (csrf_of env secrets fresh == "") ≡ false
      → unix later < unix now + 43200
      → (authenticate env token later db'
          ≡ ok (record { id = v.id; username = v.username; role = v.role; enabled = v.enabled }))
        × (check_csrf env token csrf db' ≡ ok tt)
  unfolding authenticate check_csrf
  login-authenticate username password fresh token csrf now later seen db db' u v h known found d l
        filled soon =
      let (same_token, same_csrf, o) =
        login-Opened username password fresh token csrf now seen db db' h in
      let same_u : o.u ≡ u = ground (arith, o.known, known) in
      let s : UserSession = record {
        token_hash = env.digest fresh;
        user_id = o.u.id;
        session_version = o.u.session_version;
        csrf_hash = env.digest (csrf_of env secrets fresh);
        expires_at = unix now + 43200;
      } in
      let there : find_user o.u.id db ≡ some v = rw same_u found in
      let (on, current) = is_at-found db.users o.u v d there o.current in
      let users : db'.users ≡ db.users = ap (λ (x : Database). x.users) o.opened in
      let sessions : db'.sessions ≡ db.sessions ++ s ∷ [] =
        ap (λ (x : Database). x.sessions) o.opened in
      let scanned : scan_user_sessions env (env.digest fresh) later db' db'.sessions ≡ some v =
        ap (scan_user_sessions env (env.digest fresh) later db') sessions
        ∙ scan_user_sessions-new (env.digest fresh) later db' db.sessions s o.unused
        ∙ opened_user later db db' s v users there on current soon in
      let held : find (λ r. r.token_hash == env.digest fresh) db'.sessions ≡ some s =
        ap (find (λ r. r.token_hash == env.digest fresh)) sessions
        ∙ find-new (env.digest fresh) db.sessions s o.unused refl in
      (
        rw (same_token, scanned) (ground (arith, l, on)),
        rw (same_token, same_csrf, held)
            (ground (
              arith,
              filled,
              eq_iff (env.digest (csrf_of env secrets fresh))
                  (env.digest (csrf_of env secrets fresh)),
            )),
      )
