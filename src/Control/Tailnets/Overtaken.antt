-- ===== src/Control/Tailnets/Overtaken.antt =====
-- internal/control/identity_store.go and credentials.go: a refresh of a tailnet's keys, and what may
-- happen to its credential before the answer is stored.
use multi_derp.Base.{
  >>=-eq-ok, List, Option, Result, String, any, ap, arith, bool_eq, err, fail_if, find, find-any,
  find-update, inl, inr, list_eq, nat_beq_iff, nat_eq, not, ok, option_eq, or_fail, or_fail-some,
  refl, some, string_eq, true, update, ℕ, ◌+◌, ◌<◌, ◌==◌, ◌||◌, ◌∙◌, ◌≡◌, ◌≤◌, ◌⊎◌,
}
use multi_derp.Clock.{Instant}
use multi_derp.Control.Access.{Actor, write_audit}
use multi_derp.Control.Policy.{find_tailnet, find_user, rebuild_policies}
use multi_derp.Control.Policy.Built.{rebuild_policies-only}
use multi_derp.Control.Publish.{begin_refresh, finish_refresh, publish_identity}
use multi_derp.Control.Publish.Events.{publish_identity-credentials, update_identity_conflicts-only}
use multi_derp.Control.Resources.{tailnet_owner}
use multi_derp.Control.Schema.{
  Credential, Database, Env, IdentityKey, StoreError, conflict, grant_state_eq, no_rows,
  node_state_eq, role_eq, storage, unix,
}
use multi_derp.Control.Tailnets.{
  credential_revision, delete_credential, find_credential, put_credential, read_revision,
  replace_credential,
}

module _ (env : Env) (id : String) where
  -- What makes the answer of a refresh stale.
  pub data Supersedes (db db' : Database) : Type 0 where
    refreshed :
        (api : String) (c : Credential)
        → begin_refresh env id db ≡ ok (api, c, db')
        → Supersedes db db'
    replaced :
        (actor : Actor) (seen : Database) (fetched : Result StoreError (List IdentityKey))
        (sealed : String) (now : Instant)
        → replace_credential env actor id seen fetched sealed now db ≡ ok db'
        → Supersedes db db'
    deleted :
        (actor : Actor) (now : Instant)
        → delete_credential env actor id now db ≡ ok db'
        → Supersedes db db'

  -- Transactions one after the other: those, and others that leave the credential of the tailnet alone.
  pub data Meanwhile (db : Database) : Database → Type 0 where
    nothing : Meanwhile db db
    stale : (d db' : Database) → Meanwhile db d → Supersedes d db' → Meanwhile db db'
    elsewhere :
        (d db' : Database)
        → Meanwhile db d
        → find_credential id db' ≡ find_credential id d
        → Meanwhile db db'

  abbrev pub IsAfter : Credential → Credential → Type 0
  IsAfter a b =
      (a.revision < b.revision) ⊎ (a.revision ≡ b.revision) × (a.refresh_seq < b.refresh_seq)

  abbrev pub IsNotBefore : Credential → Credential → Type 0
  IsNotBefore a b =
      (a.revision < b.revision) ⊎ (a.revision ≡ b.revision) × (a.refresh_seq ≤ b.refresh_seq)

  updated :
      (db db' : Database) (c : Credential) (f : Credential → Credential)
      → db'.credentials ≡ update (λ r. r.tailnet_id == id) f db.credentials
      → ((r : Credential) → (f r).tailnet_id ≡ r.tailnet_id)
      → find_credential id db ≡ some c
      → find_credential id db' ≡ some (f c)
  updated db db' c f table keep found =
      ap (find (λ r. r.tailnet_id == id)) table
      ∙ find-update (λ r. r.tailnet_id == id) f db.credentials c (λ r. ap (λ t. t == id) (keep r))
          found

  put_credential-found :
      (sealed : String) (revision now : ℕ) (rows : List Credential)
      → any (λ c. c.tailnet_id == id) rows ≡ true
      → put_credential id sealed revision now rows
        ≡ update
            (λ c. c.tailnet_id == id)
            (λ c. record c {
              encrypted = sealed;
              status = "valid";
              error = "";
              updated_at = now;
              revision = revision;
              refresh_seq = 0;
            })
            rows
  unfolding put_credential
  put_credential-found sealed revision now rows h = rw h refl

  begin_refresh-found :
      (db db' : Database) (api : String) (mine : Credential)
      → begin_refresh env id db ≡ ok (api, mine, db')
      → (c : Credential) × (find_credential id db ≡ some c)
        × (mine ≡ record c { refresh_seq = c.refresh_seq + 1 })
        × (db'.credentials
            ≡ update
                (λ r. r.tailnet_id == id)
                (λ r. record r { refresh_seq = c.refresh_seq + 1 })
                db.credentials)
  unfolding begin_refresh
  begin_refresh-found db db' api mine h =
      let (t, e₀, h₀) = >>=-eq-ok (or_fail (find_tailnet id db) no_rows) _ h in
      let (u, e₁, h₁) = >>=-eq-ok (or_fail (find_user t.owner_id db) no_rows) _ h₀ in
      let (c, e₂, h₂) =
        >>=-eq-ok (or_fail (find (λ c. c.tailnet_id == id) db.credentials) no_rows) _ h₁ in
      let (x, e₃, h₃) =
        >>=-eq-ok (fail_if (not t.enabled || not u.enabled || c.status == "missing") no_rows) _
          h₂ in
      let (a, e₄, h₄) = >>=-eq-ok (or_fail t.api_id storage) _ h₃ in
      (c, or_fail-some _ _ e₂, ground (arith, h₄), ground (arith, h₄))

  replace_credential-revision :
      (db db' : Database) (c : Credential) (actor : Actor) (seen : Database)
      (fetched : Result StoreError (List IdentityKey)) (sealed : String) (now : Instant)
      → replace_credential env actor id seen fetched sealed now db ≡ ok db'
      → find_credential id db ≡ some c
      → db'.credentials ≡ put_credential id sealed (c.revision + 1) (unix now) db.credentials
  unfolding replace_credential write_audit
  replace_credential-revision db db' c actor seen fetched sealed now h found =
      let (revision, e₀, h₀) = >>=-eq-ok (read_revision env actor id seen) _ h in
      let (keys, e₁, h₁) = >>=-eq-ok fetched _ h₀ in
      let (owner, e₂, h₂) = >>=-eq-ok (tailnet_owner db actor id) _ h₁ in
      let (x, e₃, h₃) =
        >>=-eq-ok (fail_if (not (credential_revision (find_credential id db) == revision)) conflict)
          _ h₂ in
      let (d, e₄, h₄) = >>=-eq-ok (publish_identity env id keys now _) _ h₃ in
      let kept = publish_identity-credentials env id keys now _ d e₄ in
      let same : revision ≡ c.revision =
        ground
          (arith, e₃, found, nat_beq_iff (credential_revision (find_credential id db)) revision) in
      let stored : db'.credentials ≡ d.credentials = ground (arith, h₄) in
      stored ∙ kept ∙ ap (λ n. put_credential id sealed (n + 1) (unix now) db.credentials) same

  delete_credential-table :
      (db db' : Database) (actor : Actor) (now : Instant)
      → delete_credential env actor id now db ≡ ok db'
      → db'.credentials
        ≡ update
            (λ c. c.tailnet_id == id)
            (λ c. record c {
              encrypted = "";
              status = "missing";
              error = "";
              revision = c.revision + 1;
              refresh_seq = 0;
              updated_at = unix now;
            })
            db.credentials
  unfolding delete_credential write_audit
  delete_credential-table db db' actor now h =
      let (owner, e₀, h₀) = >>=-eq-ok (tailnet_owner db actor id) _ h in
      let (d, e₁, h₁) = >>=-eq-ok (rebuild_policies env now _) _ h₀ in
      let stored : db'.credentials ≡ d.credentials = ground (arith, h₁) in
      stored
      ∙ ap (λ (x : Database). x.credentials) (rebuild_policies-only env now _ d e₁)
      ∙ ap (λ (x : Database). x.credentials) (update_identity_conflicts-only (unix now) _)

  Supersedes-IsAfter :
      (db db' : Database) (c : Credential)
      → Supersedes db db'
      → find_credential id db ≡ some c
      → (d : Credential) × (find_credential id db' ≡ some d) × IsAfter c d
  Supersedes-IsAfter db db' c (refreshed api mine h) found =
      let (b, there, named, table) = begin_refresh-found db db' api mine h in
      let same : b ≡ c = ground (arith, there, found) in
      (
        record c { refresh_seq = b.refresh_seq + 1 },
        rw table (
            find-update (λ r. r.tailnet_id == id)
              (λ (r : Credential). record r { refresh_seq = b.refresh_seq + 1 }) db.credentials c
              (λ r. refl) found),
        inr (refl, ground (arith, same)),
      )
  Supersedes-IsAfter db db' c (replaced actor seen fetched sealed now h) found =
      let f : Credential → Credential = λ r. record r {
        encrypted = sealed;
        status = "valid";
        error = "";
        updated_at = unix now;
        revision = c.revision + 1;
        refresh_seq = 0;
      } in
      let table : db'.credentials ≡ update (λ r. r.tailnet_id == id) f db.credentials =
        replace_credential-revision db db' c actor seen fetched sealed now h found
        ∙ put_credential-found sealed (c.revision + 1) (unix now) db.credentials
            (find-any (λ r. r.tailnet_id == id) db.credentials c found) in
      (f c, updated db db' c f table (λ r. refl) found, inl (omega arith))
  Supersedes-IsAfter db db' c (deleted actor now h) found =
      let f : Credential → Credential = λ r. record r {
        encrypted = "";
        status = "missing";
        error = "";
        revision = r.revision + 1;
        refresh_seq = 0;
        updated_at = unix now;
      } in
      (
        f c,
        updated db db' c f (delete_credential-table db db' actor now h) (λ r. refl) found,
        inl (omega arith),
      )

  Meanwhile-IsNotBefore :
      (db db' : Database) (c : Credential)
      → Meanwhile db db'
      → find_credential id db ≡ some c
      → (d : Credential) × (find_credential id db' ≡ some d) × IsNotBefore c d
  Meanwhile-IsNotBefore db db' c nothing found = (c, found, inr (refl, omega arith))
  Meanwhile-IsNotBefore db db' c (stale d _ earlier step) found =
      let (e, there, later) = Meanwhile-IsNotBefore db d c earlier found in
      let (f, now_there, after) = Supersedes-IsAfter d db' e step there in
      (f, now_there, ground (arith, later, after))
  Meanwhile-IsNotBefore db db' c (elsewhere d _ earlier same) found =
      let (e, there, later) = Meanwhile-IsNotBefore db d c earlier found in (e, same ∙ there, later)

  -- If the credential of a tailnet is replaced or deleted, or another refresh begins, while a refresh
  -- waits for Tailscale, then the refresh stores nothing and fails, whatever it was answered, as long
  -- as the other transactions meanwhile leave that credential alone.
  pub finish_refresh-overtaken :
      (db db₁ db₂ db₃ db₄ : Database) (api : String) (mine : Credential)
      (fetched : Option (List IdentityKey)) (now : Instant)
      → begin_refresh env id db ≡ ok (api, mine, db₁)
      → Meanwhile db₁ db₂
      → Supersedes db₂ db₃
      → Meanwhile db₃ db₄
      → finish_refresh env id mine fetched now db₄ ≡ err conflict
  unfolding finish_refresh
  finish_refresh-overtaken db db₁ db₂ db₃ db₄ api mine fetched now begun before_it step after_it =
      let (c, found, named, table) = begin_refresh-found db db₁ api mine begun in
      let first =
        updated db db₁ c (λ r. record r { refresh_seq = c.refresh_seq + 1 }) table (λ r. refl)
          found in
      let (d, e₂, l₂) =
        Meanwhile-IsNotBefore db₁ db₂ (record c { refresh_seq = c.refresh_seq + 1 }) before_it
          first in
      let (e, e₃, l₃) = Supersedes-IsAfter db₂ db₃ d step e₂ in
      let (f, e₄, l₄) = Meanwhile-IsNotBefore db₃ db₄ e after_it e₃ in
      let apart : (not (f.revision == mine.revision) || not (f.refresh_seq == mine.refresh_seq))
          ≡ true =
        ground (
          arith,
          named,
          l₂,
          l₃,
          l₄,
          nat_beq_iff f.revision mine.revision,
          nat_beq_iff f.refresh_seq mine.refresh_seq,
        ) in
      rw (e₄, apart) refl
