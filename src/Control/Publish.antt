-- ===== src/Control/Publish.antt =====
-- internal/control/identity_store.go: the keys of a tailnet are published, and fetched again.
pub mod Events
use multi_derp.Base.{
  Bool, List, Option, Result, String, [], any, bool_eq, contains, err, fail_if, find, if◌then◌else◌,
  list_eq, ltb, nat_eq, none, not, ok, option_eq, or_fail, select, some, string_eq, update, ℕ, ◌&&◌,
  ◌++◌, ◌+◌, ◌==◌, ◌>>=◌, ◌>>◌, ◌||◌, ◌∷◌,
}
use multi_derp.Clock.{Instant}
use multi_derp.Control.Identity.{conflicting_keys}
use multi_derp.Control.Policy.{find_tailnet, find_user, rebuild_policies}
use multi_derp.Control.Schema.{
  Credential, Database, Env, Event, IdentityKey, IdentitySnapshot, StoreError, conflict,
  grant_state_eq, no_rows, node_state_eq, role_eq, storage, unix,
}

-- An open event of a tailnet.
abbrev pub is_event_of : String → String → Event → Bool
is_event_of id kind e = e.resource_id == id && e.kind == kind && e.resolved_at == 0

unfoldable pub resolve_events : String → String → ℕ → Database → Database
resolve_events id kind now db = record db {
  events = update (is_event_of id kind) (λ e. record e { resolved_at = now }) db.events;
}

unfoldable pub identity_event : String → String → String → ℕ → Database → Database
identity_event id kind message now db = elim (find_tailnet id db) [
  | none ↦ db
  | some t ↦ if any (is_event_of id kind) db.events then db else record db {
    events =
        record {
          owner_id = t.owner_id;
          resource_type = "tailnet";
          resource_id = id;
          kind = kind;
          message = message;
          created_at = now;
          resolved_at = 0;
        }
        ∷ db.events;
  }
]

-- One pass of the loop over the snapshots.
unfoldable pub update_conflict : List String → ℕ → IdentitySnapshot → Database → Database
update_conflict conflicts now s db =
    if any (λ k. contains conflicts k.node_public) s.keys
    then identity_event s.tailnet_id "identity_conflict" "conflicting identity keys are blocked" now
        db
    else resolve_events s.tailnet_id "identity_conflict" now db

unfoldable pub update_conflicts : List String → ℕ → List IdentitySnapshot → Database → Database
update_conflicts conflicts now [] db = db
update_conflicts conflicts now (s ∷ ss) db =
    update_conflicts conflicts now ss (update_conflict conflicts now s db)

unfoldable pub update_identity_conflicts : ℕ → Database → Database
update_identity_conflicts now db =
    update_conflicts (conflicting_keys db.identity_snapshots) now db.identity_snapshots db

-- `Store.IdentitySnapshot`: the keys of a tailnet that no other claims.
unfoldable pub snapshot_of : String → Database → Result StoreError IdentitySnapshot
snapshot_of id db = do
  s ← or_fail (find (λ s. s.tailnet_id == id) db.identity_snapshots) no_rows
  let conflicts = conflicting_keys db.identity_snapshots
  ok (record s { keys = select (λ k. not (contains conflicts k.node_public)) s.keys })

abbrev pub last_success_of : Option IdentitySnapshot → ℕ
last_success_of none = 0
last_success_of (some s) = s.last_success

unfoldable pub store_snapshot :
    String → List IdentityKey → ℕ → List IdentitySnapshot → List IdentitySnapshot
store_snapshot id keys now rows =
    if any (λ s. s.tailnet_id == id) rows
    then update (λ s. s.tailnet_id == id)
        (λ s. record s { revision = s.revision + 1; last_success = now; keys = keys }) rows
    else rows ++ record { tailnet_id = id; revision = 1; last_success = now; keys = keys } ∷ []

-- Whether a refresh published the keys or found its source silent; both are committed.
pub data Refresh : Type 0 where
  published unavailable : Refresh

module _ (env : Env) where
  unfoldable pub publish_identity :
      String → List IdentityKey → Instant → Database → Result StoreError Database
  publish_identity id keys now db = do
    fail_if
        (ltb (unix now) (last_success_of (find (λ s. s.tailnet_id == id) db.identity_snapshots)))
        conflict
    rebuild_policies env now (
        update_identity_conflicts (unix now) (
          resolve_events id "identity_unavailable" (unix now) (record db {
            identity_snapshots = store_snapshot id keys (unix now) db.identity_snapshots;
          })))

  -- The first transaction of `RefreshIdentity`: the tailnet's id at Tailscale, its credential, and
  -- the number that this refresh gets.
  unfoldable pub begin_refresh :
      String → Database → Result StoreError (String × Credential × Database)
  begin_refresh id db = do
    t ← or_fail (find_tailnet id db) no_rows
    u ← or_fail (find_user t.owner_id db) no_rows
    c ← or_fail (find (λ c. c.tailnet_id == id) db.credentials) no_rows
    fail_if (not t.enabled || not u.enabled || c.status == "missing") no_rows
    api_id ← or_fail t.api_id storage
    ok (
      api_id,
      record c { refresh_seq = c.refresh_seq + 1 },
      record db {
        credentials =
            update (λ r. r.tailnet_id == id) (λ r. record r { refresh_seq = c.refresh_seq + 1 })
              db.credentials;
      },
    )

  abbrev pub mark_credential : String → String → String → Database → Database
  mark_credential id status error db = record db {
    credentials =
        update (λ r. r.tailnet_id == id) (λ r. record r { status = status; error = error })
          db.credentials;
  }

  unfoldable pub store_fetched :
      String
      → Option (List IdentityKey)
      → Instant
      → Database
      → Result StoreError (Refresh × Database)
  store_fetched id none now db = ok (
    unavailable,
    identity_event id "identity_unavailable"
        "identity source unavailable; cached identity retains its original deadline" (unix now)
        (mark_credential id "unavailable" "identity source unavailable" db),
  )
  store_fetched id (some keys) now db = do
    db₁ ← publish_identity id keys now (mark_credential id "valid" "" db)
    ok (published, db₁)

  -- The second transaction.
  unfoldable pub finish_refresh :
      String
      → Credential
      → Option (List IdentityKey)
      → Instant
      → Database
      → Result StoreError (Refresh × Database)
  finish_refresh id mine fetched now db = do
    c ← or_fail (find (λ c. c.tailnet_id == id) db.credentials) no_rows
    fail_if (not (c.revision == mine.revision) || not (c.refresh_seq == mine.refresh_seq)) conflict
    store_fetched id fetched now db

  -- `RefreshIdentity`: `fetch` asks Tailscale, `meanwhile` is what other transactions do before the
  -- answer is stored. The first transaction stays done whatever the second does.
  unfoldable pub refresh_identity :
      String
      → (String → Credential → Option (List IdentityKey))
      → (Database → Database)
      → Instant
      → Database
      → Result StoreError Refresh × Database
  refresh_identity id fetch meanwhile now db = elim (begin_refresh id db) [
    | err e ↦ (err e, db)
    | ok (api_id, mine, db₁) ↦
        elim (finish_refresh id mine (fetch api_id mine) now (meanwhile db₁)) [
          | err e ↦ (err e, meanwhile db₁)
          | ok (r, db₂) ↦ (ok r, db₂)
        ]
  ]
