-- ===== src/Control/Users/Admins.antt =====
-- internal/control/auth.go: administrators.

use mathlib.Core.Path.{subst}
use multi_derp.Base.{
  >>=-eq-ok, Bool, Bool-cases, Distinct, List, String, [], any, ap, arith, bool_eq, contains,
  eq_iff, fail_if, false, find, if◌then◌else◌, inl, inr, len, ltb, nat_eq, not, ok, option_eq, refl,
  some, string_eq, sym, true, update, ◌&&◌, ◌++◌, ◌==◌, ◌||◌, ◌∙◌, ◌∷◌, ◌≡◌,
}
use multi_derp.Clock.{Instant, before}
use multi_derp.Control.Access.{Actor, active_actor, write_audit}
use multi_derp.Control.Schema.{
  Database, Role, User, admin, conflict, forbidden, grant_state_eq, invalid, node_state_eq, role_eq,
  storage,
}
use multi_derp.Control.Users.{
  Secrets, create_user, create_user_as, initialize_admin, insert_user, is_admin, local_admin,
  new_password_hash,
}
use multi_derp.Control.Users.Login.{user_ids-update}
use multi_derp.Control.Users.Reset.{Resets, Resets-IsReset, user_ids}
use multi_derp.Text.{same_nocase, trim_space}

abbrev pub admin_ids : List User → List String
admin_ids [] = []
admin_ids (u ∷ us) = if u.role == admin then u.id ∷ admin_ids us else admin_ids us

-- No two accounts share an id.
abbrev pub AreUsers : List User → Type 0
AreUsers us = Distinct (user_ids us)

-- What changes accounts.
pub data UserStep (db db' : Database) : Type 0 where
  begins :
      (secrets : Secrets) (username password salt fresh : String) (now : Instant) (a : Actor)
      → initialize_admin secrets username password salt fresh now db ≡ ok (a, db')
      → UserStep db db'
  creates :
      (secrets : Secrets) (actor : Actor) (username password : String) (role : Role)
      (salt fresh : String) (now : Instant) (a : Actor)
      → create_user secrets actor username password role salt fresh now db ≡ ok (a, db')
      → UserStep db db'
  resets : (id : String) → Resets id db db' → UserStep db db'

pub data UserSteps (db : Database) : Database → Type 0 where
  stays : UserSteps db db
  steps : (d d' : Database) → UserSteps db d → UserStep d d' → UserSteps db d'

admin_ids-append :
    (us : List User) (u : User)
    → admin_ids (us ++ u ∷ [])
      ≡ (if u.role == admin then admin_ids us ++ u.id ∷ [] else admin_ids us)
admin_ids-append [] u = refl
admin_ids-append (v ∷ us) u = ground (arith, admin_ids-append us u)

user_ids-append :
    (us : List User) (u : User) (k : String)
    → contains (user_ids (us ++ u ∷ [])) k ≡ (contains (user_ids us) k || u.id == k)
user_ids-append [] u k = ground arith
user_ids-append (v ∷ us) u k = ground (arith, user_ids-append us u k)

AreUsers-append :
    (us : List User) (u : User)
    → any (λ v. v.id == u.id || same_nocase v.username u.username) us ≡ false
    → AreUsers us
    → AreUsers (us ++ u ∷ [])
AreUsers-append [] u h d = (refl, tt)
AreUsers-append (v ∷ us) u h d = (
  ground (arith, h, d.0, user_ids-append us u v.id, eq_iff v.id u.id, eq_iff u.id v.id),
  AreUsers-append us u (ground (arith, h)) d.1,
)

insert_user-ids :
    (u : User) (us us' : List User)
    → insert_user u us ≡ ok us'
    → AreUsers us
    → (us' ≡ us ++ u ∷ []) × AreUsers us'
unfolding insert_user
insert_user-ids u us us' h d =
    let (x, e, h') =
      >>=-eq-ok (fail_if (any (λ v. v.id == u.id || same_nocase v.username u.username) us) storage)
        _ h in
    let same : us ++ u ∷ [] ≡ us' = ground (arith, h') in
    (sym same, subst AreUsers same (AreUsers-append us u (ground (arith, e)) d))

create_user_as-users :
    (secrets : Secrets) (actor : Actor) (username password : String) (role : Role) (initial : Bool)
    (salt fresh : String) (now : Instant) (db db' : Database) (a : Actor)
    → create_user_as secrets actor username password role initial salt fresh now db ≡ ok (a, db')
    → AreUsers db.users
    → AreUsers db'.users
      × ((initial && any is_admin db.users) ≡ false)
      × (admin_ids db'.users
          ≡ (if role == admin then admin_ids db.users ++ fresh ∷ [] else admin_ids db.users))
unfolding create_user_as write_audit
create_user_as-users secrets actor username password role initial salt fresh now db db' a h d =
    let (x, e₀, h₀) =
      >>=-eq-ok
        (fail_if (username == "" || ltb 80 (len username) || not (trim_space username == username))
          invalid)
        _ h in
    let (hash, e₁, h₁) = >>=-eq-ok (new_password_hash secrets salt password) _ h₀ in
    let (y, e₂, h₂) = >>=-eq-ok (active_actor db actor) _ h₁ in
    let (z, e₃, h₃) = >>=-eq-ok (fail_if (initial && any is_admin db.users) conflict) _ h₂ in
    let u : User = record {
      id = fresh;
      username = username;
      role = role;
      enabled = true;
      password_hash = hash;
      session_version = 1;
    } in
    let (us, e₄, h₄) = >>=-eq-ok (insert_user u db.users) _ h₃ in
    let (made, distinct) = insert_user-ids u db.users us e₄ d in
    let same : us ≡ db'.users = ground (arith, h₄) in
    (
      subst AreUsers same distinct,
      ground (arith, e₃),
      ap admin_ids (sym same ∙ made) ∙ admin_ids-append db.users u,
    )

update-absent :
    (id : String) (f : User → User) (us : List User)
    → contains (user_ids us) id ≡ false
    → update (λ u. u.id == id) f us ≡ us
update-absent id f [] h = refl
update-absent id f (u ∷ us) h = ground (arith, h, update-absent id f us)

update-admins :
    (id : String) (f : User → User) (us : List User)
    → ((u : User) → (f u).id ≡ u.id)
    → ((u : User) → find (λ v. v.id == id) us ≡ some u → is_admin (f u) ≡ is_admin u)
    → AreUsers us
    → admin_ids (update (λ u. u.id == id) f us) ≡ admin_ids us
update-admins id f [] keep same d = refl
update-admins id f (u ∷ us) keep same d = elim (Bool-cases (u.id == id)) [
  | inl e ↦
      let rest = update-absent id f us (ground (arith, d.0, e, eq_iff u.id id)) in
      ground (arith, e, rest, keep u, same u)
  | inr e ↦
      ground
        (arith, e, update-admins id f us keep (λ v found. same v (ground (arith, e, found))) d.1)
]

Resets-admins :
    (id : String) (db db' : Database)
    → Resets id db db'
    → AreUsers db.users
    → AreUsers db'.users × (admin_ids db'.users ≡ admin_ids db.users)
Resets-admins id db db' reset d =
    let r = Resets-IsReset id db db' reset in
    (
      rw (r.users, user_ids-update id r.change db.users r.same_id) d,
      rw r.users (update-admins id r.change db.users r.same_id r.admins d),
    )

no_admins : (us : List User) → any is_admin us ≡ false → admin_ids us ≡ []
no_admins [] h = refl
no_admins (u ∷ us) h = ground (arith, h, no_admins us)

some_admin : (us : List User) (k : String) → admin_ids us ≡ k ∷ [] → any is_admin us ≡ true
some_admin [] k h = absurd (ground arith)
some_admin (u ∷ us) k h = ground (arith, h, some_admin us k)

-- No two accounts share an id, and there is exactly one administrator, the one with this id.
abbrev pub IsRuled : String → List User → Type 0
IsRuled k us = AreUsers us × (admin_ids us ≡ k ∷ [])

UserStep-IsRuled :
    (k : String) (db db' : Database) → UserStep db db' → IsRuled k db.users → IsRuled k db'.users
unfolding initialize_admin create_user
UserStep-IsRuled k db db' (begins secrets username password salt fresh now a h) (d, one) =
    let (d', none_yet, ids) =
      create_user_as-users secrets local_admin username password admin true salt fresh now db db' a
        h d in
    absurd (ground (arith, none_yet, some_admin db.users k one))
UserStep-IsRuled k db db' (creates secrets actor username password role salt fresh now a h)
      (d, one) =
    let (x, e₀, h₀) =
      >>=-eq-ok (fail_if (not actor.enabled || not (actor.role == admin)) forbidden) _ h in
    let (y, e₁, h₁) = >>=-eq-ok (fail_if (role == admin) invalid) _ h₀ in
    let (d', less, ids) =
      create_user_as-users secrets actor username password role false salt fresh now db db' a h₁
        d in
    (d', ground (arith, ids, e₁, one))
UserStep-IsRuled k db db' (resets id reset) (d, one) =
    let (d', same) = Resets-admins id db db' reset d in (d', same ∙ one)

-- Once there is one administrator, it stays the only one whatever is done with accounts: no other is
-- made or promoted, and it is neither demoted nor deleted.
pub UserSteps-IsRuled :
    (k : String) (db db' : Database) → IsRuled k db.users → UserSteps db db' → IsRuled k db'.users
UserSteps-IsRuled k db db' ruled stays = ruled
UserSteps-IsRuled k db db' ruled (steps d _ before s) =
    UserStep-IsRuled k d db' s (UserSteps-IsRuled k db d ruled before)
