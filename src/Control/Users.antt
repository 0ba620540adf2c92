-- ===== src/Control/Users.antt =====
-- internal/control/auth.go: accounts, their passwords and their sessions.
pub mod Reset
pub mod Login
pub mod Admins
use Prim.Native.String.{◌++◌ as join}
use multi_derp.Base.{
  Bool, List, Option, Result, String, [], any, bool_eq, delete, err, fail_if, false, find,
  if◌then◌else◌, len, ltb, nat_eq, none, not, ok, option_eq, or_fail, some, string_eq, true, update,
  ◌&&◌, ◌++◌, ◌+◌, ◌==◌, ◌>>=◌, ◌>>◌, ◌||◌, ◌∷◌,
}
use multi_derp.Clock.{Instant}
use multi_derp.Control.Access.{Actor, active_actor, require_owner, write_audit}
use multi_derp.Control.Policy.{find_user, rebuild_policies}
use multi_derp.Control.Schema.{
  Database, Env, Role, StoreError, User, UserSession, admin, conflict, forbidden, grant_state_eq,
  invalid, member, no_rows, node_state_eq, role_eq, storage, unauthorized, unix,
}
use multi_derp.Text.{same_nocase, trim_space}

-- What the sources call for passwords and cookies: bcrypt (with the salt it draws) and hexadecimal
-- text of bytes.
pub record Secrets : Type 0 where
  pub hash_password : String → String → String
  pub check_password : String → String → Bool
  pub hex : String → String

unfoldable pub new_password_hash : Secrets → String → String → Result StoreError String
new_password_hash secrets salt password = do
  fail_if (ltb (len password) 12 || ltb 72 (len password)) invalid
  ok (secrets.hash_password salt password)

abbrev pub local_admin : Actor
local_admin = record { id = "local"; username = ""; role = admin; enabled = true }

abbrev pub is_admin : User → Bool
is_admin u = u.role == admin

-- Deleting the sessions of a user.
unfoldable pub drop_sessions : String → List UserSession → List UserSession
drop_sessions id rows = delete (λ s. s.user_id == id) rows

-- `INSERT INTO users`: ids and names are unique, names whatever their case.
unfoldable pub insert_user : User → List User → Result StoreError (List User)
insert_user u rows = do
  fail_if (any (λ v. v.id == u.id || same_nocase v.username u.username) rows) storage
  ok (rows ++ u ∷ [])

module _ (secrets : Secrets) where
  -- `createUser`; `fresh` is what `randomToken` gives.
  unfoldable pub create_user_as :
      Actor
      → String
      → String
      → Role
      → Bool
      → String
      → String
      → Instant
      → Database
      → Result StoreError (Actor × Database)
  create_user_as actor username password role initial salt fresh now db = do
    fail_if (username == "" || ltb 80 (len username) || not (trim_space username == username))
        invalid
    hash ← new_password_hash secrets salt password
    active_actor db actor
    fail_if (initial && any is_admin db.users) conflict
    users ←
        insert_user
          (record {
            id = fresh;
            username = username;
            role = role;
            enabled = true;
            password_hash = hash;
            session_version = 1;
          })
          db.users
    ok (
      record { id = fresh; username = username; role = role; enabled = true },
      write_audit actor.id fresh "user" fresh "user.create" (unix now)
          (record db { users = users }),
    )

  unfoldable pub initialize_admin :
      String → String → String → String → Instant → Database → Result StoreError (Actor × Database)
  initialize_admin username password salt fresh now db =
      create_user_as local_admin username password admin true salt fresh now db

  unfoldable pub create_user :
      Actor
      → String
      → String
      → Role
      → String
      → String
      → Instant
      → Database
      → Result StoreError (Actor × Database)
  create_user actor username password role salt fresh now db = do
    fail_if (not actor.enabled || not (actor.role == admin)) forbidden
    fail_if (role == admin) invalid
    create_user_as actor username password role false salt fresh now db

  unfoldable pub change_password :
      Actor → String → String → String → Instant → Database → Result StoreError Database
  change_password actor id password salt now db = do
    require_owner actor id
    hash ← new_password_hash secrets salt password
    active_actor db actor
    fail_if (not (any (λ u. u.id == id) db.users)) invalid
    ok (
        write_audit actor.id id "user" id "user.password" (unix now) (record db {
          users =
              update (λ u. u.id == id)
                (λ u. record u { password_hash = hash; session_version = u.session_version + 1 })
                db.users;
          sessions = drop_sessions id db.sessions;
        }))

unfoldable pub set_user_role :
    Actor → String → Role → Instant → Database → Result StoreError Database
set_user_role actor id role now db = do
  fail_if (not actor.enabled || not (actor.role == admin)) forbidden
  fail_if (role == admin) invalid
  active_actor db actor
  u ← or_fail (find_user id db) no_rows
  fail_if (u.role == admin) forbidden
  if u.role == role then ok db else (do
    fail_if (role == member && any (λ n. n.owner_id == id) db.nodes) conflict
    ok (
        write_audit actor.id id "user" id "user.role" (unix now) (record db {
          users =
              update (λ v. v.id == id)
                (λ v. record v { role = role; session_version = v.session_version + 1 }) db.users;
          sessions = drop_sessions id db.sessions;
        })))

module _ (env : Env) where
  unfoldable pub set_user_enabled :
      Actor → String → Bool → Instant → Database → Result StoreError Database
  set_user_enabled actor id on now db = do
    fail_if (not actor.enabled || not (actor.role == admin)) forbidden
    active_actor db actor
    fail_if (not (any (λ u. u.id == id) db.users)) invalid
    rebuild_policies env now (
        write_audit actor.id id "user" id "user.enabled" (unix now) (record db {
          users =
              update (λ u. u.id == id)
                (λ u. record u { enabled = on; session_version = u.session_version + 1 }) db.users;
          sessions = drop_sessions id db.sessions;
        }))

  -- The second transaction of `RecoverAdmin`: the first stays done when it fails.
  unfoldable pub enable_recovered :
      String
      → Instant
      → Database
      → Result StoreError Database
      → Result StoreError (Unit {0}) × Database
  enable_recovered id now db (err e) = (err e, db)
  enable_recovered id now db (ok db₁) = elim (set_user_enabled local_admin id true now db₁) [
    | err e ↦ (err e, db₁)
    | ok db₂ ↦ (ok tt, db₂)
  ]

  unfoldable pub recover_admin :
      Secrets
      → String
      → String
      → String
      → Instant
      → Database
      → Result StoreError (Unit {0}) × Database
  recover_admin secrets id password salt now db = elim (find_user id db) [
    | none ↦ (err no_rows, db)
    | some u ↦
        if u.role == admin
        then enable_recovered id now db
            (change_password secrets local_admin id password salt now db)
        else (err forbidden, db)
  ]

  unfoldable pub session_user : String → Instant → Database → UserSession → Option User
  session_user hash now db s = elim (find_user s.user_id db) [
    | none ↦ none
    | some u ↦
        if s.token_hash == hash
          && ltb (unix now) s.expires_at
          && s.session_version == u.session_version
          && u.enabled
        then some u
        else none
  ]

  unfoldable pub scan_user_sessions : String → Instant → Database → List UserSession → Option User
  scan_user_sessions hash now db [] = none
  scan_user_sessions hash now db (s ∷ ss) =
      let rest = scan_user_sessions hash now db ss in
      elim (session_user hash now db s) [ some u ↦ some u | none ↦ rest ]

  unfoldable pub authenticate : String → Instant → Database → Result StoreError Actor
  authenticate token now db = do
    fail_if (not (len token == 64)) unauthorized
    u ← or_fail (scan_user_sessions (env.digest token) now db db.sessions) unauthorized
    ok (record { id = u.id; username = u.username; role = u.role; enabled = u.enabled })

  module _ (secrets : Secrets) where
    abbrev pub csrf_of : String → String
    csrf_of token = secrets.hex (env.digest (join "uniderp-csrf:" token))

    -- The first statement of `login`: the account, and that the password fits.
    unfoldable pub login_user : String → String → Database → Result StoreError User
    login_user username password db = do
      u ← or_fail (find (λ u. same_nocase u.username username) db.users) unauthorized
      fail_if (not (secrets.check_password u.password_hash password) || not u.enabled) unauthorized
      ok u

    -- The second, on the tables as they are then: others may have come between.
    unfoldable pub open_session : User → String → Instant → Database → Result StoreError Database
    open_session u fresh now db = do
      fail_if
          (not (
            any (λ v. v.id == u.id && v.enabled && v.session_version == u.session_version)
              db.users))
          unauthorized
      fail_if (any (λ s. s.token_hash == env.digest fresh) db.sessions) storage
      ok (record db {
        sessions =
            db.sessions
            ++ record {
              token_hash = env.digest fresh;
              user_id = u.id;
              session_version = u.session_version;
              csrf_hash = env.digest (csrf_of fresh);
              expires_at = unix now + 43200;
            }
              ∷ [];
      })

    -- `login` over the tables that each of its statements sees: the token, its companion for forms,
    -- and the tables after it.
    unfoldable pub login :
        String
        → String
        → String
        → Instant
        → Database
        → Database
        → Result StoreError (String × String × Database)
    login username password fresh now seen db = do
      u ← login_user username password seen
      db' ← open_session u fresh now db
      ok (fresh, csrf_of fresh, db')

  unfoldable pub check_csrf : String → String → Database → Result StoreError (Unit {0})
  check_csrf token csrf db = do
    fail_if (csrf == "") forbidden
    s ← or_fail (find (λ s. s.token_hash == env.digest token) db.sessions) forbidden
    fail_if (not (s.csrf_hash == env.digest csrf)) forbidden
