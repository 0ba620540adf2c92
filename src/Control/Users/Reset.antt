-- ===== src/Control/Users/Reset.antt =====
-- internal/control/auth.go: sessions after an account was changed.
use multi_derp.Base.{
  >>=-eq-ok, Bool, List, Option-cases, String, [], any, any-delete, ap, arith, bool_eq, eq_iff,
  fail_if, false, find-In, inl, inr, len, nat_eq, not, ok, option_eq, or_fail, or_fail-some, refl,
  some, string_eq, true, update, ◌+◌, ◌==◌, ◌||◌, ◌∷◌, ◌≡◌, ◌≢◌,
}
use multi_derp.Clock.{Instant}
use multi_derp.Control.Access.{Actor, active_actor, require_owner, write_audit}
use multi_derp.Control.Policy.{find_user}
use multi_derp.Control.Policy.Built.{rebuild_policies-only}
use multi_derp.Control.Schema.{
  Database, Env, Role, User, UserSession, admin, forbidden, grant_state_eq, invalid, no_rows,
  node_state_eq, role_eq, unauthorized,
}
use multi_derp.Control.Users.{
  Secrets, authenticate, change_password, drop_sessions, is_admin, new_password_hash,
  scan_user_sessions, session_user, set_user_enabled, set_user_role,
}

abbrev pub user_ids : List User → List String
user_ids [] = []
user_ids (u ∷ us) = u.id ∷ user_ids us

-- An account whose password, role or switch was set.
pub data Resets (id : String) (db db' : Database) : Type 0 where
  by_password :
      (secrets : Secrets) (actor : Actor) (password salt : String) (now : Instant)
      → change_password secrets actor id password salt now db ≡ ok db'
      → Resets id db db'
  by_role :
      (actor : Actor) (role : Role) (u : User) (now : Instant)
      → find_user id db ≡ some u
      → (u.role == role) ≡ false
      → set_user_role actor id role now db ≡ ok db'
      → Resets id db db'
  by_switch :
      (env : Env) (actor : Actor) (on : Bool) (now : Instant)
      → set_user_enabled env actor id on now db ≡ ok db'
      → Resets id db db'

-- What they all do.
pub record IsReset (id : String) (db db' : Database) : Type 0 where
  pub change : User → User
  pub same_id : (u : User) → (change u).id ≡ u.id
  pub next_version : (u : User) → (change u).session_version ≡ u.session_version + 1
  pub admins : (u : User) → find_user id db ≡ some u → is_admin (change u) ≡ is_admin u
  pub users : db'.users ≡ update (λ u. u.id == id) change db.users
  pub sessions : db'.sessions ≡ drop_sessions id db.sessions

change_password-IsReset :
    (secrets : Secrets) (actor : Actor) (id password salt : String) (now : Instant)
    (db db' : Database)
    → change_password secrets actor id password salt now db ≡ ok db'
    → IsReset id db db'
unfolding change_password write_audit
change_password-IsReset secrets actor id password salt now db db' h =
    let (x, e₀, h₀) = >>=-eq-ok (require_owner actor id) _ h in
    let (hash, e₁, h₁) = >>=-eq-ok (new_password_hash secrets salt password) _ h₀ in
    let (y, e₂, h₂) = >>=-eq-ok (active_actor db actor) _ h₁ in
    record {
      change = λ u. record u { password_hash = hash; session_version = u.session_version + 1 };
      same_id = λ u. refl;
      next_version = λ u. refl;
      admins = λ u found. refl;
      users = ground (arith, h₂);
      sessions = ground (arith, h₂);
    }

set_user_role-IsReset :
    (actor : Actor) (id : String) (role : Role) (u : User) (now : Instant) (db db' : Database)
    → find_user id db ≡ some u
    → (u.role == role) ≡ false
    → set_user_role actor id role now db ≡ ok db'
    → IsReset id db db'
unfolding set_user_role write_audit
set_user_role-IsReset actor id role u now db db' found other h =
    let (x, e₀, h₀) =
      >>=-eq-ok (fail_if (not actor.enabled || not (actor.role == admin)) forbidden) _ h in
    let (y, e₁, h₁) = >>=-eq-ok (fail_if (role == admin) invalid) _ h₀ in
    let (z, e₂, h₂) = >>=-eq-ok (active_actor db actor) _ h₁ in
    let (v, e₃, h₃) = >>=-eq-ok (or_fail (find_user id db) no_rows) _ h₂ in
    let same : v ≡ u = ground (arith, found, or_fail-some _ _ e₃) in
    record {
      change = λ w. record w { role = role; session_version = w.session_version + 1 };
      same_id = λ w. refl;
      next_version = λ w. refl;
      admins = λ w there. ground (arith, found, there, e₁, or_fail-some _ _ e₃, same, h₃);
      users = ground (arith, h₃, same, other);
      sessions = ground (arith, h₃, same, other);
    }

set_user_enabled-IsReset :
    (env : Env) (actor : Actor) (id : String) (on : Bool) (now : Instant) (db db' : Database)
    → set_user_enabled env actor id on now db ≡ ok db'
    → IsReset id db db'
unfolding set_user_enabled write_audit
set_user_enabled-IsReset env actor id on now db db' h =
    let (x, e₀, h₀) =
      >>=-eq-ok (fail_if (not actor.enabled || not (actor.role == admin)) forbidden) _ h in
    let (y, e₁, h₁) = >>=-eq-ok (active_actor db actor) _ h₀ in
    let (z, e₂, h₂) = >>=-eq-ok (fail_if (not (any (λ u. u.id == id) db.users)) invalid) _ h₁ in
    let only = rebuild_policies-only env now _ db' h₂ in
    record {
      change = λ w. record w { enabled = on; session_version = w.session_version + 1 };
      same_id = λ w. refl;
      next_version = λ w. refl;
      admins = λ u found. refl;
      users = ap (λ (d : Database). d.users) only;
      sessions = ap (λ (d : Database). d.sessions) only;
    }

pub Resets-IsReset : (id : String) (db db' : Database) → Resets id db db' → IsReset id db db'
Resets-IsReset id db db' (by_password secrets actor password salt now h) =
    change_password-IsReset secrets actor id password salt now db db' h
Resets-IsReset id db db' (by_role actor role u now found other h) =
    set_user_role-IsReset actor id role u now db db' found other h
Resets-IsReset id db db' (by_switch env actor on now h) =
    set_user_enabled-IsReset env actor id on now db db' h

module _ (env : Env) where
  scan_user_sessions-user :
      (hash : String) (now : Instant) (db : Database) (ss : List UserSession) (u : User)
      → scan_user_sessions env hash now db ss ≡ some u
      → any (λ s. s.user_id == u.id) ss ≡ true
  unfolding scan_user_sessions session_user
  scan_user_sessions-user hash now db [] u h = absurd (ground arith)
  scan_user_sessions-user hash now db (s ∷ ss) u h = elim (Option-cases (find_user s.user_id db)) [
    | inl e ↦ ground (arith, h, e, scan_user_sessions-user hash now db ss u)
    | inr (v, e) ↦
        let named = find-In (λ w. w.id == s.user_id) db.users v e in
        ground (
          arith,
          h,
          e,
          named.0,
          eq_iff v.id s.user_id,
          eq_iff s.user_id v.id,
          scan_user_sessions-user hash now db ss u,
        )
  ]

  -- Setting an account's password, another role or its switch ends its sessions: no token, whatever
  -- it was issued for, then stands for that account.
  pub Resets-logged_out :
      (id token : String) (now : Instant) (db db' : Database) (a : Actor)
      → Resets id db db'
      → authenticate env token now db' ≡ ok a
      → a.id ≢ id
  unfolding authenticate drop_sessions
  Resets-logged_out id token now db db' a reset h = λ e.
      let r = Resets-IsReset id db db' reset in
      let (x, e₀, h₀) = >>=-eq-ok (fail_if (not (len token == 64)) unauthorized) _ h in
      let (u, e₁, h₁) =
        >>=-eq-ok
          (or_fail (scan_user_sessions env (env.digest token) now db' db'.sessions) unauthorized) _
          h₀ in
      let held =
        scan_user_sessions-user (env.digest token) now db' db'.sessions u (or_fail-some _ _ e₁) in
      let same : u.id ≡ id = ground (arith, h₁, e) in
      let gone = any-delete (λ s. s.user_id == id) db.sessions in
      ground (arith, rw (same, r.sessions) at held, gone)
