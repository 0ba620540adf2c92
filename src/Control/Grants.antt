-- ===== src/Control/Grants.antt =====
-- internal/control/grants.go: what the owners of a node and of a tailnet do with a grant.
pub mod Enabled
pub mod Moves
pub mod Lasting
pub mod Acted
pub mod Retry
pub mod Written
pub mod Found
pub mod Request
use multi_derp.Base.{
  Bool, List, Option, Result, String, [], any, bool_eq, err, fail_if, false, find, if◌then◌else◌,
  leb, nat_eq, none, not, ok, option_eq, or_fail, some, string_eq, true, update, ℕ, ◌&&◌, ◌*◌, ◌++◌,
  ◌+◌, ◌/◌, ◌==◌, ◌>>=◌, ◌>>◌, ◌||◌, ◌∷◌,
}
use multi_derp.Clock.{Instant, before, is_zero, second, unix_time}
use multi_derp.Cluster.Validate.{max_int64}
use multi_derp.Control.Access.{Actor, active_actor, require_owner, write_audit}
use multi_derp.Control.Policy.{build_policy, find_node, find_tailnet, find_user, is_serving}
use multi_derp.Control.Schema.{
  Database, Env, GrantRow, GrantState, StoreError, active, cancelled, conflict, expired, forbidden,
  grant_state_eq, invalid, no_rows, node_state_eq, owner_approved, rejected, requested, revoked,
  role_eq, storage, unix,
}

-- One reading of the clock stands for all that an operation makes.
pub data GrantAction : Type 0 where
  approve confirm cancel reject revoke leave : GrantAction

abbrev pub action_name : GrantAction → String
action_name approve = "grant.approve"
action_name confirm = "grant.confirm"
action_name cancel = "grant.cancel"
action_name reject = "grant.reject"
action_name revoke = "grant.revoke"
action_name leave = "grant.leave"

-- A grant as the callers see it.
pub record Grant : Type 0 where
  pub id : String
  pub node_id : String
  pub tailnet_id : String
  pub node_owner_id : String
  pub tailnet_owner_id : String
  pub state : GrantState
  pub revision : ℕ
  pub explicit_until : Instant
  pub node_name : String
  pub tailnet_name : String
  pub applicant : String

abbrev pub is_open : GrantState → Bool
is_open requested = true
is_open owner_approved = true
is_open active = true
is_open _ = false

abbrev pub is_closed : GrantState → Bool
is_closed cancelled = true
is_closed rejected = true
is_closed revoked = true
is_closed expired = true
is_closed _ = false

-- The state that a reader is shown: an open grant past its end is `expired`.
unfoldable pub shown_state : GrantRow → Instant → GrantState
shown_state g now =
    if not (g.explicit_until == 0)
      && not (before now (unix_time g.explicit_until))
      && is_open g.state
    then expired
    else g.state

unfoldable pub shown_until : ℕ → Instant
shown_until until = if until == 0 then 0 else unix_time until

unfoldable pub scan_grant : Database → Instant → GrantRow → Result StoreError Grant
scan_grant db now g = do
  n ← or_fail (find_node g.node_id db) no_rows
  t ← or_fail (find_tailnet g.tailnet_id db) no_rows
  u ← or_fail (find_user t.owner_id db) storage
  ok (record {
    id = g.id;
    node_id = g.node_id;
    tailnet_id = g.tailnet_id;
    node_owner_id = n.owner_id;
    tailnet_owner_id = t.owner_id;
    state = shown_state g now;
    revision = g.revision;
    explicit_until = shown_until g.explicit_until;
    node_name = n.display_name;
    tailnet_name = t.display_name;
    applicant = u.username;
  })

abbrev pub find_grant : String → Database → Option GrantRow
find_grant id db = find (λ g. g.id == id) db.grants

abbrev pub may_own : Actor → String → Bool
may_own actor id = elim (require_owner actor id) [ ok x ↦ true | err e ↦ false ]

-- `Store.Grant`.
unfoldable pub read_grant : Actor → String → Instant → Database → Result StoreError Grant
read_grant actor id now db = do
  row ← or_fail (find_grant id db) no_rows
  g ← scan_grant db now row
  fail_if (not (may_own actor g.node_owner_id) && not (may_own actor g.tailnet_owner_id)) forbidden
  ok g

unfoldable pub grant_resources_enabled : Database → String → String → Result StoreError Bool
grant_resources_enabled db node tailnet = do
  n ← or_fail (find_node node db) no_rows
  nu ← or_fail (find_user n.owner_id db) no_rows
  t ← or_fail (find_tailnet tailnet db) no_rows
  tu ← or_fail (find_user t.owner_id db) no_rows
  ok (n.enabled && is_serving n.state && nu.enabled && t.enabled && tu.enabled)

-- `until.Truncate(time.Second)`.
abbrev pub whole_seconds : Instant → Instant
whole_seconds t = t / second * second

abbrev pub same_pair : String → String → GrantRow → Bool
same_pair node tailnet g = g.node_id == node && g.tailnet_id == tailnet

-- `INSERT INTO grants … ON CONFLICT(node_id,tailnet_id) DO UPDATE`.
unfoldable pub put_grant : GrantRow → List GrantRow → Result StoreError (List GrantRow)
put_grant g rows =
    if any (same_pair g.node_id g.tailnet_id) rows
    then ok (
        update (same_pair g.node_id g.tailnet_id)
          (λ r. record r {
            state = g.state;
            revision = g.revision;
            explicit_until = g.explicit_until;
            last_control_success = g.last_control_success;
          })
          rows)
    else (if any (λ r. r.id == g.id) rows then err storage else ok (rows ++ g ∷ []))

abbrev pub control_success : GrantState → Instant → ℕ
control_success active now = unix now
control_success _ now = 0

-- The state that a request gives a grant.
abbrev pub requested_state : String → String → GrantState
requested_state node_owner tailnet_owner = if node_owner == tailnet_owner then active else requested

-- What the request finds: a grant to start from, or one that is as requested.
unfoldable pub request_base :
    Database
    → Instant
    → ℕ
    → Instant
    → GrantState
    → Grant
    → Option GrantRow
    → Result StoreError (Grant × Bool)
request_base db now expected until state blank none = do
  fail_if (not (expected == 0)) conflict
  ok (blank, false)
request_base db now expected until state blank (some row) = do
  g ← scan_grant db now row
  let fits = expected == g.revision || expected + 1 == g.revision
  if g.state == state && g.explicit_until == until && fits then ok (g, true) else (do
    fail_if (not (expected == g.revision) || not (is_closed g.state)) conflict
    ok (g, false))

module _ (env : Env) where
  -- The writes at the end of `RequestGrant`.
  unfoldable pub store_request :
      Actor
      → Grant
      → GrantState
      → Instant
      → Instant
      → Database
      → Result StoreError (Grant × Database)
  store_request actor g state until now db = do
    let g' : Grant = record g { state = state; revision = g.revision + 1; explicit_until = until }
    rows ←
        put_grant
          (record {
            id = g.id;
            node_id = g.node_id;
            tailnet_id = g.tailnet_id;
            state = state;
            revision = g.revision + 1;
            explicit_until = if is_zero until then 0 else unix until;
            last_control_success = control_success state now;
          })
          db.grants
    (p, db') ← build_policy env g.node_id now (record db { grants = rows })
    ok (g', write_audit actor.id g.tailnet_owner_id "grant" g.id "grant.request" (unix now) db')

  -- `fresh` is what `randomToken` gives.
  unfoldable pub request_grant :
      Actor
      → String
      → String
      → ℕ
      → Instant
      → String
      → Instant
      → Database
      → Result StoreError (Grant × Database)
  request_grant actor node tailnet expected until fresh now db = do
    fail_if
        (leb max_int64 expected || not (is_zero until) && not (before now (whole_seconds until)))
        invalid
    active_actor db actor
    n ← or_fail (find_node node db) no_rows
    t ← or_fail (find_tailnet tailnet db) no_rows
    u ← or_fail (find_user t.owner_id db) storage
    require_owner actor t.owner_id
    enabled ← grant_resources_enabled db node tailnet
    fail_if (not enabled) conflict
    let state = requested_state n.owner_id t.owner_id
    (g, same) ←
        request_base db now expected (whole_seconds until) state
          (record {
            id = fresh;
            node_id = node;
            tailnet_id = tailnet;
            node_owner_id = n.owner_id;
            tailnet_owner_id = t.owner_id;
            state = state;
            revision = 0;
            explicit_until = 0;
            node_name = n.display_name;
            tailnet_name = t.display_name;
            applicant = u.username;
          })
          (find (same_pair node tailnet) db.grants)
    if same then ok (g, db) else store_request actor g state (whole_seconds until) now db

-- The table of `ApplyGrantAction`: whose right an action is, what it leads to, and from where.
abbrev pub action_owner : GrantAction → Grant → String
action_owner approve g = g.node_owner_id
action_owner confirm g = g.tailnet_owner_id
action_owner cancel g = g.tailnet_owner_id
action_owner reject g = g.node_owner_id
action_owner revoke g = g.node_owner_id
action_owner leave g = g.tailnet_owner_id

abbrev pub action_next : GrantAction → GrantState
action_next approve = owner_approved
action_next confirm = active
action_next cancel = cancelled
action_next reject = rejected
action_next revoke = revoked
action_next leave = revoked

unfoldable pub action_allowed : GrantAction → GrantState → Bool
action_allowed approve s = s == requested
action_allowed confirm s = s == owner_approved
action_allowed cancel s = s == requested || s == owner_approved
action_allowed reject s = s == requested
action_allowed revoke s = s == owner_approved || s == active
action_allowed leave s = s == owner_approved || s == active

-- Approving and confirming need resources that are enabled.
unfoldable pub check_resources : GrantAction → Grant → Database → Result StoreError (Unit {0})
check_resources approve g db = do
  enabled ← grant_resources_enabled db g.node_id g.tailnet_id
  fail_if (not enabled) conflict
check_resources confirm g db = do
  enabled ← grant_resources_enabled db g.node_id g.tailnet_id
  fail_if (not enabled) conflict
check_resources _ g db = ok tt

module _ (env : Env) where
  unfoldable pub store_action :
      Actor
      → String
      → GrantAction
      → Grant
      → Instant
      → Database
      → Result StoreError (Grant × Database)
  store_action actor id action g now db = do
    let next = action_next action
    (p, db') ← build_policy env g.node_id now (record db {
      grants =
          update (λ r. r.id == id)
            (λ r. record r {
              state = next;
              revision = g.revision + 1;
              last_control_success = control_success next now;
            })
            db.grants;
    })
    ok (
      record g { state = next; revision = g.revision + 1 },
      write_audit actor.id (action_owner action g) "grant" id (action_name action) (unix now) db',
    )

  unfoldable pub apply_grant_action :
      Actor → String → ℕ → GrantAction → Instant → Database → Result StoreError (Grant × Database)
  apply_grant_action actor id expected action now db = do
    fail_if (expected == 0 || leb max_int64 expected) invalid
    active_actor db actor
    row ← or_fail (find_grant id db) no_rows
    g ← scan_grant db now row
    require_owner actor (action_owner action g)
    let done =
        g.state == action_next action && (g.revision == expected || g.revision == expected + 1)
    if done then ok (g, db) else (do
      fail_if (not (g.revision == expected) || not (action_allowed action g.state)) conflict
      check_resources action g db
      store_action actor id action g now db)
