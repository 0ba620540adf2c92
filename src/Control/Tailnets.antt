-- ===== src/Control/Tailnets.antt =====
-- internal/control/credentials.go and resources.go: tailnets and their credentials come, change
-- hands and go. Sealing and fetching are calls, so their results are arguments.
pub mod Overtaken
use Prim.Native.Char.{code}
use multi_derp.Base.{
  Bool, List, Option, Result, String, [], any, bool_eq, delete, fail_if, false, find, if◌then◌else◌,
  len, list_eq, ltb, nat_eq, none, not, ok, option_eq, or_fail, some, string_eq, true, update, ℕ,
  ◌&&◌, ◌++◌, ◌+◌, ◌==◌, ◌>>=◌, ◌>>◌, ◌||◌, ◌∷◌,
}
use multi_derp.Clock.{Instant}
use multi_derp.Control.Access.{Actor, active_actor, require_owner, write_audit}
use multi_derp.Control.Policy.{find_tailnet, find_user, rebuild_policies}
use multi_derp.Control.Publish.{publish_identity, update_identity_conflicts}
use multi_derp.Control.Resources.{tailnet_owner}
use multi_derp.Control.Schema.{
  Credential, Database, Env, IdentityKey, Node, StoreError, Tailnet, TailnetRule, admin, conflict,
  forbidden, grant_state_eq, invalid, no_rows, node_state_eq, role_eq, storage, unix,
}
use multi_derp.Text.{all_chars, is_alnum, trim_space}

-- `value[0] == 'T'`, and the characters after it.
abbrev pub is_tailnet_text : String → Bool
is_tailnet_text String.[] = false
is_tailnet_text (String.◌∷◌ c s) = code c == b'T' && all_chars is_alnum s

unfoldable pub canonical_tailnet_id : String → Result StoreError String
canonical_tailnet_id raw = do
  let value = trim_space raw
  fail_if (ltb (len value) 3 || ltb 64 (len value) || not (is_tailnet_text value)) invalid
  ok value

abbrev pub credential_revision : Option Credential → ℕ
credential_revision none = 0
credential_revision (some c) = c.revision

abbrev pub find_credential : String → Database → Option Credential
find_credential id db = find (λ c. c.tailnet_id == id) db.credentials

-- `INSERT INTO tailnets`: ids are unique, also those at Tailscale.
unfoldable pub insert_tailnet : Tailnet → Database → Result StoreError (List Tailnet)
insert_tailnet t db = do
  fail_if (any (λ s. s.id == t.id || s.api_id == t.api_id) db.tailnets) conflict
  fail_if (not (any (λ u. u.id == t.owner_id) db.users)) conflict
  ok (db.tailnets ++ t ∷ [])

-- `INSERT INTO credentials … ON CONFLICT(tailnet_id) DO UPDATE`.
unfoldable pub put_credential : String → String → ℕ → ℕ → List Credential → List Credential
put_credential id encrypted revision now rows =
    if any (λ c. c.tailnet_id == id) rows
    then update (λ c. c.tailnet_id == id)
        (λ c. record c {
          encrypted = encrypted;
          status = "valid";
          error = "";
          updated_at = now;
          revision = revision;
          refresh_seq = 0;
        })
        rows
    else rows
      ++ record {
        tailnet_id = id;
        kind = "oauth";
        encrypted = encrypted;
        status = "valid";
        revision = revision;
        refresh_seq = 0;
        updated_at = now;
        error = "";
      }
        ∷ []

-- A rule that says "owner" of a tailnet whose owner does not own the node any more.
abbrev pub is_lost_rule : List Node → String → String → TailnetRule → Bool
is_lost_rule nodes id owner r =
    r.tailnet_id == id
    && r.group_name == "owner"
    && any (λ n. n.id == r.node_id && not (n.owner_id == owner)) nodes

module _ (env : Env) where
  unfoldable pub add_tailnet :
      Actor
      → String
      → String
      → Result StoreError (List IdentityKey)
      → String
      → String
      → Instant
      → Database
      → Result StoreError (Tailnet × Database)
  add_tailnet actor name raw fetched sealed fresh now db = do
    require_owner actor actor.id
    api_id ← canonical_tailnet_id raw
    fail_if (trim_space name == "" || ltb 160 (len name)) invalid
    keys ← fetched
    let t : Tailnet = record {
      id = fresh;
      owner_id = actor.id;
      display_name = name;
      api_id = some api_id;
      enabled = true;
    }
    active_actor db actor
    tailnets ← insert_tailnet t db
    fail_if (any (λ c. c.tailnet_id == fresh) db.credentials) storage
    db₁ ← publish_identity env fresh keys now (record db {
      tailnets = tailnets;
      credentials = put_credential fresh sealed 1 (unix now) db.credentials;
    })
    ok (t, write_audit actor.id actor.id "tailnet" fresh "tailnet.create" (unix now) db₁)

  -- What `ReplaceCredential` reads before it asks Tailscale: the revision that it will replace.
  unfoldable pub read_revision : Actor → String → Database → Result StoreError ℕ
  read_revision actor id db = do
    t ← or_fail (find_tailnet id db) no_rows
    require_owner actor t.owner_id
    ok (credential_revision (find_credential id db))

  unfoldable pub replace_credential :
      Actor
      → String
      → Database
      → Result StoreError (List IdentityKey)
      → String
      → Instant
      → Database
      → Result StoreError Database
  replace_credential actor id seen fetched sealed now db = do
    revision ← read_revision actor id seen
    keys ← fetched
    owner ← tailnet_owner db actor id
    fail_if (not (credential_revision (find_credential id db) == revision)) conflict
    db₁ ← publish_identity env id keys now (record db {
      credentials = put_credential id sealed (revision + 1) (unix now) db.credentials;
    })
    ok (write_audit actor.id owner "tailnet" id "credential.replace" (unix now) db₁)

  unfoldable pub transfer_tailnet :
      Actor → String → String → Instant → Database → Result StoreError Database
  transfer_tailnet actor id owner now db = do
    fail_if (not (actor.role == admin) || not actor.enabled) forbidden
    old ← tailnet_owner db actor id
    u ← or_fail (find_user owner db) invalid
    fail_if (not u.enabled) invalid
    db₁ ← rebuild_policies env now (record db {
      tailnets = update (λ t. t.id == id) (λ t. record t { owner_id = owner }) db.tailnets;
      tailnet_rules =
          update (is_lost_rule db.nodes id owner) (λ r. record r { group_name = "shared" })
            db.tailnet_rules;
    })
    ok (write_audit actor.id owner "tailnet" id "tailnet.transfer" (unix now) db₁)

  unfoldable pub delete_credential :
      Actor → String → Instant → Database → Result StoreError Database
  delete_credential actor id now db = do
    owner ← tailnet_owner db actor id
    db₁ ← rebuild_policies env now (
        update_identity_conflicts (unix now) (record db {
          credentials =
              update (λ c. c.tailnet_id == id)
                (λ c. record c {
                  encrypted = "";
                  status = "missing";
                  error = "";
                  revision = c.revision + 1;
                  refresh_seq = 0;
                  updated_at = unix now;
                })
                db.credentials;
          identity_snapshots =
              update (λ s. s.tailnet_id == id)
                (λ s. record s { keys = []; revision = s.revision + 1 }) db.identity_snapshots;
        }))
    ok (write_audit actor.id owner "tailnet" id "credential.delete" (unix now) db₁)

  -- `DeleteTailnet`, with the rows that refer to the tailnet.
  unfoldable pub delete_tailnet : Actor → String → Instant → Database → Result StoreError Database
  delete_tailnet actor id now db = do
    owner ← tailnet_owner db actor id
    db₁ ← rebuild_policies env now (record db {
      tailnets = delete (λ t. t.id == id) db.tailnets;
      credentials = delete (λ c. c.tailnet_id == id) db.credentials;
      identity_snapshots = delete (λ s. s.tailnet_id == id) db.identity_snapshots;
      grants = delete (λ g. g.tailnet_id == id) db.grants;
      tailnet_rules = delete (λ r. r.tailnet_id == id) db.tailnet_rules;
    })
    ok (write_audit actor.id owner "tailnet" id "tailnet.delete" (unix now) db₁)
