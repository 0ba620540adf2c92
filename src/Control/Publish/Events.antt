-- ===== src/Control/Publish/Events.antt =====
-- internal/control/identity_store.go: which tables the publication of keys writes.
use multi_derp.Base.{
  >>=-eq-ok, Bool-cases, List, Option-cases, String, [], any, ap, bool_eq, contains, fail_if, find,
  inl, inr, list_eq, ltb, nat_eq, ok, option_eq, refl, string_eq, ℕ, ◌==◌, ◌∙◌, ◌∷◌, ◌≡◌,
}
use multi_derp.Clock.{Instant}
use multi_derp.Control.Identity.{conflicting_keys}
use multi_derp.Control.Policy.{find_tailnet}
use multi_derp.Control.Policy.Built.{rebuild_policies-only}
use multi_derp.Control.Publish.{
  identity_event, is_event_of, last_success_of, publish_identity, resolve_events, store_snapshot,
  update_conflict, update_conflicts, update_identity_conflicts,
}
use multi_derp.Control.Schema.{
  Database, Env, IdentityKey, IdentitySnapshot, conflict, grant_state_eq, node_state_eq, role_eq,
  unix,
}

resolve_events-only :
    (id kind : String) (now : ℕ) (db : Database)
    → resolve_events id kind now db ≡ record db { events = (resolve_events id kind now db).events }
unfolding resolve_events
resolve_events-only id kind now db = refl

identity_event-only :
    (id kind message : String) (now : ℕ) (db : Database)
    → identity_event id kind message now db
      ≡ record db { events = (identity_event id kind message now db).events }
unfolding identity_event
identity_event-only id kind message now db = elim (Option-cases (find_tailnet id db)) [
  | inl none_t ↦ rw (none_t, identity_event) refl
  | inr (t, e) ↦ elim (Bool-cases (any (is_event_of id kind) db.events)) [
    | inl told ↦ rw (e, told, identity_event) refl
    | inr new ↦ rw (e, new, identity_event) refl
  ]
]

update_conflict-only :
    (conflicts : List String) (now : ℕ) (s : IdentitySnapshot) (db : Database)
    → update_conflict conflicts now s db
      ≡ record db { events = (update_conflict conflicts now s db).events }
unfolding update_conflict
update_conflict-only conflicts now s db =
    elim (Bool-cases (any (λ k. contains conflicts k.node_public) s.keys)) [
      | inl clash ↦ rw clash (
          identity_event-only s.tailnet_id "identity_conflict"
            "conflicting identity keys are blocked" now db)
      | inr fine ↦ rw fine (resolve_events-only s.tailnet_id "identity_conflict" now db)
    ]

update_conflicts-only :
    (conflicts : List String) (now : ℕ) (ss : List IdentitySnapshot) (db : Database)
    → update_conflicts conflicts now ss db
      ≡ record db { events = (update_conflicts conflicts now ss db).events }
unfolding update_conflicts
update_conflicts-only conflicts now [] db = refl
update_conflicts-only conflicts now (s ∷ ss) db =
    let rest = update_conflicts-only conflicts now ss (update_conflict conflicts now s db) in
    rest
    ∙ ap {B = Database}
        (λ (x : Database). record x {
          events = (update_conflicts conflicts now (s ∷ ss) db).events;
        })
        (update_conflict-only conflicts now s db)

pub update_identity_conflicts-only :
    (now : ℕ) (db : Database)
    → update_identity_conflicts now db
      ≡ record db { events = (update_identity_conflicts now db).events }
unfolding update_identity_conflicts
update_identity_conflicts-only now db =
    update_conflicts-only (conflicting_keys db.identity_snapshots) now db.identity_snapshots db

pub publish_identity-credentials :
    (env : Env) (id : String) (keys : List IdentityKey) (now : Instant) (db db' : Database)
    → publish_identity env id keys now db ≡ ok db'
    → db'.credentials ≡ db.credentials
unfolding publish_identity resolve_events
publish_identity-credentials env id keys now db db' h =
    let (x, e, h') =
      >>=-eq-ok
        (fail_if
          (ltb (unix now) (last_success_of (find (λ s. s.tailnet_id == id) db.identity_snapshots)))
          conflict)
        _ h in
    let d = resolve_events id "identity_unavailable" (unix now) (record db {
      identity_snapshots = store_snapshot id keys (unix now) db.identity_snapshots;
    }) in
    ap (λ (x : Database). x.credentials)
      (rebuild_policies-only env now (update_identity_conflicts (unix now) d) db' h')
    ∙ ap (λ (x : Database). x.credentials) (update_identity_conflicts-only (unix now) d)
