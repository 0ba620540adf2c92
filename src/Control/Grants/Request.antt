-- ===== src/Control/Grants/Request.antt =====
-- internal/control/grants.go, RequestGrant: what a request for a grant gives.
use mathlib.Core.Path.{subst}
use multi_derp.Base.{
  >>=-eq-ok, Bool, Bool-cases, Option, String, ap, arith, bool_eq, eq_iff, fail_if, find, find-In,
  if◌then◌else◌, inl, inr, leb, list_eq, nat_beq_iff, nat_eq, none, not, ok, option_eq, or_fail,
  or_fail-some, refl, some, string_eq, sym, true, ℕ, ◌&&◌, ◌+◌, ◌<◌, ◌==◌, ◌||◌, ◌∙◌, ◌≡◌, ◌≢◌, ◌⊎◌,
}
use multi_derp.Clock.{Instant, before, is_zero}
use multi_derp.Cluster.Validate.{max_int64}
use multi_derp.Control.Access.{Actor, active_actor, require_owner}
use multi_derp.Control.Access.Rights.{require_owner-ok}
use multi_derp.Control.Grants.{
  Grant, grant_resources_enabled, request_base, request_grant, requested_state, same_pair,
  scan_grant, store_request, whole_seconds,
}
use multi_derp.Control.Grants.Enabled.{AreEnabled, grant_resources_enabled-AreEnabled}
use multi_derp.Control.Grants.Found.{IsShut, closed, equal, request_base-Found, request_base-new}
use multi_derp.Control.Grants.Moves.{scan_grant-row}
use multi_derp.Control.Grants.Written.{IsWritten, next_of, store_request-IsWritten}
use multi_derp.Control.Policy.{find_node, find_tailnet, find_user}
use multi_derp.Control.Schema.{
  Database, Env, GrantRow, GrantState, Node, Tailnet, active, admin, conflict, grant_state_eq,
  invalid, no_rows, node_state_eq, requested, role_eq, storage,
}

module _ (env : Env) where
  -- Where a request leads: at once to an active grant if one owner holds both sides.
  pub data Wanted (n : Node) (t : Tailnet) (s : GrantState) : Type 0 where
    own : n.owner_id ≡ t.owner_id → s ≡ active → Wanted n t s
    foreign : n.owner_id ≢ t.owner_id → s ≡ requested → Wanted n t s

  requested_state-Wanted :
      (n : Node) (t : Tailnet) → Wanted n t (requested_state n.owner_id t.owner_id)
  requested_state-Wanted n t = elim (Bool-cases (n.owner_id == t.owner_id)) [
    | inl e ↦ own (ground (arith, e, eq_iff n.owner_id t.owner_id)) (ground (arith, e))
    | inr e ↦
        foreign (λ h. absurd (ground (arith, e, h, eq_iff n.owner_id t.owner_id)))
          (ground (arith, e))
  ]

  -- The grant stands as it was asked for, or it is the next revision of one that is closed or new.
  pub data Settled (node tailnet : String) (expected : ℕ) (now : Instant) (db : Database)
      (g' : Grant) (db' : Database) : Type 0 where
    as_asked :
        (row : GrantRow)
        → find (same_pair node tailnet) db.grants ≡ some row
        → scan_grant db now row ≡ ok g'
        → (g'.revision ≡ expected) ⊎ (g'.revision ≡ expected + 1)
        → db' ≡ db
        → Settled node tailnet expected now db g' db'
    first :
        find (same_pair node tailnet) db.grants ≡ none
        → expected ≡ 0
        → g'.revision ≡ 1
        → IsWritten node tailnet g' now db'.grants
        → Settled node tailnet expected now db g' db'
    reopened :
        (row : GrantRow) (old : Grant)
        → find (same_pair node tailnet) db.grants ≡ some row
        → scan_grant db now row ≡ ok old
        → IsShut old.state
        → row.revision ≡ expected
        → g'.revision ≡ expected + 1
        → IsWritten node tailnet g' now db'.grants
        → Settled node tailnet expected now db g' db'

  -- What a request is, if it is let through.
  pub record Requested (actor : Actor) (node tailnet : String) (expected : ℕ) (until now : Instant)
      (db : Database) (g' : Grant) (db' : Database) : Type 0 where
    pub n : Node
    pub t : Tailnet
    pub node_found : find_node node db ≡ some n
    pub tailnet_found : find_tailnet tailnet db ≡ some t
    pub entitled : (actor.role ≡ admin) ⊎ (actor.id ≡ t.owner_id)
    pub enabled : AreEnabled db n t
    pub named : (g'.node_id ≡ node) × (g'.tailnet_id ≡ tailnet)
    pub state : Wanted n t g'.state
    pub until_set : g'.explicit_until ≡ whole_seconds until
    pub ends_later : (until ≡ 0) ⊎ (now < whole_seconds until)
    pub settled : Settled node tailnet expected now db g' db'

  -- What a request that is let through gives, for each grant that it may find.
  request_end :
      (actor : Actor) (node tailnet : String) (g g' : Grant) (same : Bool) (state : GrantState)
      (expected : ℕ) (until now : Instant) (blank : Grant) (o : Option GrantRow) (db db' : Database)
      → blank.revision ≡ 0
      → blank.node_id ≡ node
      → blank.tailnet_id ≡ tailnet
      → find (same_pair node tailnet) db.grants ≡ o
      → request_base db now expected until state blank o ≡ ok (g, same)
      → (if same then ok (g, db) else store_request env actor g state until now db) ≡ ok (g', db')
      → ((g'.node_id ≡ node) × (g'.tailnet_id ≡ tailnet))
        × (g'.state ≡ state)
        × (g'.explicit_until ≡ until)
        × Settled node tailnet expected now db g' db'
  request_end actor node tailnet g g' same state expected until now blank none db db' zero_at
        at_node at_tailnet missing based h =
      let (is_blank, not_same, unexpected) =
        request_base-new db now expected until state blank g same based in
      let (made, w) =
        store_request-IsWritten env actor g g' node tailnet state until now db db'
          (ap (λ (x : Grant). x.node_id) is_blank ∙ at_node)
          (ap (λ (x : Grant). x.tailnet_id) is_blank ∙ at_tailnet) (rw not_same at h) in
      (
        (
          ap (λ (x : Grant). x.node_id) (made ∙ ap (next_of state until) is_blank) ∙ at_node,
          ap (λ (x : Grant). x.tailnet_id) (made ∙ ap (next_of state until) is_blank) ∙ at_tailnet,
        ),
        ap (λ (x : Grant). x.state) made,
        ap (λ (x : Grant). x.explicit_until) made,
        first missing unexpected
            (ap (λ (x : Grant). x.revision) (made ∙ ap (next_of state until) is_blank)
              ∙ ap (λ x. x + 1) zero_at)
            w,
      )
  request_end actor node tailnet g g' same state expected until now blank (some row) db db' zero_at
        at_node at_tailnet present based h =
      let (scanned, f) = request_base-Found db now expected until state blank g same row based in
      let (shown, numbered, node_of, tailnet_of) = scan_grant-row env db now row g scanned in
      let pair = (find-In (same_pair node tailnet) db.grants row present).0 in
      let on_node : g.node_id ≡ node = node_of ∙ ground (arith, pair, eq_iff row.node_id node) in
      let on_tailnet : g.tailnet_id ≡ tailnet =
        tailnet_of ∙ ground (arith, pair, eq_iff row.tailnet_id tailnet) in
      elim f [
        | equal is_same state_is until_is revision_is ↦
            let rest : (g ≡ g') × (db ≡ db') = ground (arith, h, is_same) in
            subst
              (λ (x : Grant).
                ((x.node_id ≡ node) × (x.tailnet_id ≡ tailnet))
                × (x.state ≡ state)
                × (x.explicit_until ≡ until)
                × Settled node tailnet expected now db x db')
              rest.0
              (
                (on_node, on_tailnet),
                state_is,
                until_is,
                as_asked row present scanned revision_is (sym rest.1),
              )
        | closed not_same revision_is shut ↦
            let (made, w) =
              store_request-IsWritten env actor g g' node tailnet state until now db db' on_node
                on_tailnet (rw not_same at h) in
            (
              (
                ap (λ (x : Grant). x.node_id) made ∙ on_node,
                ap (λ (x : Grant). x.tailnet_id) made ∙ on_tailnet,
              ),
              ap (λ (x : Grant). x.state) made,
              ap (λ (x : Grant). x.explicit_until) made,
              reopened row g present scanned shut (sym numbered ∙ revision_is)
                  (ap (λ (x : Grant). x.revision) made ∙ ap (λ x. x + 1) revision_is) w,
            )
      ]

  -- A request for a grant that succeeds comes from the tailnet's owner or an administrator, for a node
  -- that serves and a tailnet that is enabled as its owner is, and asks for an end that lies ahead or
  -- for none. The grant that it gives is that of the node and the tailnet, with this end; it is
  -- active if one owner holds both sides, and else waits for the node's owner. Either such a grant
  -- stands already, at the expected revision or the next, and nothing is stored; or there was none
  -- and none was expected, or one that is closed and of the expected revision, and then the grant is
  -- stored under the next revision, with the time of the contact if it is active.
  pub request_grant-Requested :
      (actor : Actor) (node tailnet : String) (expected : ℕ) (until : Instant) (fresh : String)
      (now : Instant) (db db' : Database) (g' : Grant)
      → request_grant env actor node tailnet expected until fresh now db ≡ ok (g', db')
      → Requested actor node tailnet expected until now db g' db'
  unfolding request_grant
  request_grant-Requested actor node tailnet expected until fresh now db db' g' h =
      let (x, e₀, h₀) =
        >>=-eq-ok
          (fail_if
            (leb max_int64 expected
              || not (is_zero until) && not (before now (whole_seconds until)))
            invalid)
          _ h in
      let (y, e₁, h₁) = >>=-eq-ok (active_actor db actor) _ h₀ in
      let (n, e₂, h₂) = >>=-eq-ok (or_fail (find_node node db) no_rows) _ h₁ in
      let (t, e₃, h₃) = >>=-eq-ok (or_fail (find_tailnet tailnet db) no_rows) _ h₂ in
      let (u, e₄, h₄) = >>=-eq-ok (or_fail (find_user t.owner_id db) storage) _ h₃ in
      let (z, e₅, h₅) = >>=-eq-ok (require_owner actor t.owner_id) _ h₄ in
      let (able, e₆, h₆) = >>=-eq-ok (grant_resources_enabled db node tailnet) _ h₅ in
      let (w, e₇, h₇) = >>=-eq-ok (fail_if (not able) conflict) _ h₆ in
      let state = requested_state n.owner_id t.owner_id in
      let blank : Grant = record {
        id = fresh;
        node_id = node;
        tailnet_id = tailnet;
        node_owner_id = n.owner_id;
        tailnet_owner_id = t.owner_id;
        state = state;
        revision = 0;
        explicit_until = 0;
        node_name = n.display_name;
        tailnet_name = t.display_name;
        applicant = u.username;
      } in
      let ((g, same), e₈, h₈) =
        >>=-eq-ok
          (request_base db now expected (whole_seconds until) state blank
            (find (same_pair node tailnet) db.grants))
          _ h₇ in
      let (enabled, as_named, entitled) = require_owner-ok actor t.owner_id e₅ in
      let on : able ≡ true = ground arith in
      let (named, s, u', settled) =
        request_end actor node tailnet g g' same state expected (whole_seconds until) now blank
          (find (same_pair node tailnet) db.grants) db db' refl refl refl refl e₈ h₈ in
      record {
        n = n;
        t = t;
        node_found = or_fail-some _ _ e₂;
        tailnet_found = or_fail-some _ _ e₃;
        entitled = entitled;
        enabled =
            grant_resources_enabled-AreEnabled db n t node tailnet (or_fail-some _ _ e₂)
              (or_fail-some _ _ e₃) (rw on at e₆);
        named = named;
        state = subst (Wanted n t) (sym s) (requested_state-Wanted n t);
        until_set = u';
        ends_later = ground (arith, nat_beq_iff until 0);
        settled = settled;
      }
