-- ===== src/Tests/Users.antt =====
-- Runs of accounts and their sessions.
use multi_derp.Base.{
  Result, [], arith, bool_eq, err, list_eq, nat_eq, ok, option_eq, refl, string_eq, true, ◌==◌, ◌∷◌,
  ◌≡◌, ◌≢◌,
}
use multi_derp.Clock.{unix_time}
use multi_derp.Control.Access.{Actor, active_actor, active_role, require_owner, write_audit}
use multi_derp.Control.Schema.{Database, StoreError, User, admin, member, provider, unauthorized}
use multi_derp.Control.Users.{
  Secrets, authenticate, change_password, check_csrf, csrf_of, drop_sessions, login, login_user,
  new_password_hash, open_session, scan_user_sessions, session_user, set_user_role,
}
use multi_derp.Control.Users.Admins.{IsRuled, UserSteps-IsRuled, resets, stays, steps}
use multi_derp.Control.Users.Login.{login-authenticate, login-overtaken}
use multi_derp.Control.Users.Reset.{Resets-logged_out, by_password, by_role}
use multi_derp.Tests.Control.{tables, token}
use multi_derp.Tests.Samples.{noon, sample_env}
use multi_derp.Text.{same_nocase}

abbrev secrets : Secrets
secrets = record {
  hash_password = λ salt password. password;
  check_password = λ hash password. hash == password;
  hex = λ s. s;
}

abbrev carol : User
carol = record {
  id = "u1";
  username = "carol";
  role = admin;
  enabled = true;
  password_hash = "correct-horse";
  session_version = 1;
}

abbrev carol_acts : Actor
carol_acts = record { id = "u1"; username = "carol"; role = admin; enabled = true }

abbrev office : Database
office = record tables { users = carol ∷ [] }

-- The database after an operation that succeeds.
abbrev pub after : Database → Result StoreError Database → Database
after db (ok d) = d
after db (err e) = db

abbrev rekeyed : Database
rekeyed = after office (change_password secrets carol_acts "u1" "another-secret" "" noon office)

first-rekeyed : change_password secrets carol_acts "u1" "another-secret" "" noon office ≡ ok rekeyed
unfolding change_password require_owner new_password_hash active_actor active_role drop_sessions
    write_audit
first-rekeyed = refl

first-known : login_user sample_env secrets "carol" "correct-horse" office ≡ ok carol
unfolding login_user same_nocase
first-known = refl

login-overtaken_example :
    login sample_env secrets "carol" "correct-horse" token noon office rekeyed ≡ err unauthorized
login-overtaken_example =
    login-overtaken sample_env secrets "carol" "correct-horse" token noon office rekeyed carol
      (refl, tt) first-known (by_password secrets carol_acts "another-secret" "" noon first-rekeyed)

abbrev opened : Database
opened = after office (open_session sample_env secrets carol token noon office)

first-opened :
    login sample_env secrets "carol" "correct-horse" token noon office office
    ≡ ok (token, csrf_of sample_env secrets token, opened)
unfolding login login_user same_nocase open_session
first-opened = refl

login-authenticate_example :
    (authenticate sample_env token (unix_time 1001) opened ≡ ok carol_acts)
    × (check_csrf sample_env token (csrf_of sample_env secrets token) opened ≡ ok tt)
login-authenticate_example =
    login-authenticate sample_env secrets "carol" "correct-horse" token token
      (csrf_of sample_env secrets token) noon (unix_time 1001) office office opened carol carol
      first-opened first-known refl (refl, tt) refl refl (omega arith)

-- A second account, signed in, is switched off.
abbrev dave : User
dave = record {
  id = "u2";
  username = "dave";
  role = member;
  enabled = true;
  password_hash = "";
  session_version = 1;
}

abbrev signed_in : Database
signed_in = record opened { users = carol ∷ dave ∷ []; node_policies = []; nodes = []; grants = [] }

abbrev demoted : Database
demoted = after signed_in (set_user_role carol_acts "u2" provider noon signed_in)

first-demoted : set_user_role carol_acts "u2" provider noon signed_in ≡ ok demoted
unfolding set_user_role active_actor active_role drop_sessions write_audit
first-demoted = refl

first-carol : authenticate sample_env token (unix_time 1001) demoted ≡ ok carol_acts
unfolding authenticate scan_user_sessions session_user set_user_role active_actor active_role
    drop_sessions write_audit open_session
first-carol = refl

Resets-logged_out_example : carol.id ≢ dave.id
Resets-logged_out_example =
    Resets-logged_out sample_env "u2" token (unix_time 1001) signed_in demoted carol_acts
      (by_role carol_acts provider dave noon refl refl first-demoted) first-carol

UserSteps-IsRuled_example : IsRuled "u1" demoted.users
UserSteps-IsRuled_example =
    UserSteps-IsRuled "u1" signed_in demoted ((refl, (refl, tt)), refl)
      (steps signed_in demoted stays
        (resets "u2" (by_role carol_acts provider dave noon refl refl first-demoted)))
