-- ===== src/Control/Expiry.antt =====
-- internal/control/expiry_events.go: the events that tell owners of grants that have expired.
pub mod Unique
use multi_derp.Base.{
  Bool, List, Result, String, [], any, bool_eq, false, if◌then◌else◌, length, map_err, nat_eq, none,
  not, ok, option_eq, some, string_eq, update, ℕ, ◌&&◌, ◌==◌, ◌>>=◌, ◌>>◌, ◌||◌, ◌∷◌,
}
use multi_derp.Clock.{Instant, before, is_zero, unix_time}
use multi_derp.Cluster.Cache.{decode_policy}
use multi_derp.Cluster.Policy.{GrantPolicy}
use multi_derp.Control.Acknowledge.{live_key}
use multi_derp.Control.Grants.{is_open}
use multi_derp.Control.Policy.{find_node, find_tailnet}
use multi_derp.Control.Resources.{tailnet_owner}
use multi_derp.Control.Schema.{
  Database, Env, Event, GrantRow, NodePolicy, StoreError, active, grant_state_eq, node_state_eq,
  role_eq, storage, unix,
}

-- Whether the deadlines of a grant, or those of all its keys, are over.
unfoldable pub grant_ended : Instant → GrantPolicy → Bool
grant_ended now g =
    let ended =
      not (before now g.identity_until)
      || not (before now g.control_until)
      || not (is_zero g.explicit_until) && not (before now g.explicit_until) in
    if not ended && not (length g.keys == 0) then not (live_key g now g.keys) else ended

-- The map `expired`: a later entry stands before an earlier one.
unfoldable pub mark_grants :
    Instant → List GrantPolicy → List (String × Bool) → List (String × Bool)
mark_grants now [] marks = marks
mark_grants now (g ∷ gs) marks = mark_grants now gs ((g.grant_id, grant_ended now g) ∷ marks)

unfoldable pub is_expired : String → List (String × Bool) → Bool
is_expired id [] = false
is_expired id ((k, b) ∷ rest) = if k == id then b else is_expired id rest

module _ (env : Env) where
  unfoldable pub mark_policies :
      Instant → List NodePolicy → List (String × Bool) → Result StoreError (List (String × Bool))
  mark_policies now [] marks = ok marks
  mark_policies now (r ∷ rows) marks = elim r.policy_json [
    | none ↦ mark_policies now rows marks
    | some body ↦ do
      p ← map_err (λ _. storage) (decode_policy env.keys env.codec body env.cluster_id r.node_id)
      mark_policies now rows (mark_grants now p.grants marks)
  ]

-- A row of the second query.
pub record Relation : Type 0 where
  pub grant : GrantRow
  pub node_owner : String
  pub tailnet_owner : String

unfoldable pub relations : Database → List GrantRow → List Relation
relations db [] = []
relations db (g ∷ gs) =
    let rest = relations db gs in
    elim (find_node g.node_id db) [
      | none ↦ rest
      | some n ↦ elim (find_tailnet g.tailnet_id db) [
        | none ↦ rest
        | some t ↦ record { grant = g; node_owner = n.owner_id; tailnet_owner = t.owner_id } ∷ rest
      ]
    ]

unfoldable pub relation_ended : Instant → List (String × Bool) → GrantRow → Bool
relation_ended now marks g =
    is_open g.state
    && (not (g.explicit_until == 0) && not (before now (unix_time g.explicit_until))
        || g.state == active && is_expired g.id marks)

-- An event of a grant that is not resolved.
abbrev pub is_expiry : String → Event → Bool
is_expiry id e =
    e.resource_type == "grant"
    && e.resource_id == id
    && e.kind == "authorization_expired"
    && e.resolved_at == 0

abbrev pub is_told : String → String → Event → Bool
is_told owner id e = e.owner_id == owner && is_expiry id e

unfoldable pub tell : String → String → ℕ → List Event → List Event
tell owner id now events =
    if any (is_told owner id) events
    then events
    else record {
      owner_id = owner;
      resource_type = "grant";
      resource_id = id;
      kind = "authorization_expired";
      message = "Authorization deadline reached; relay permission has expired.";
      created_at = now;
      resolved_at = 0;
    }
      ∷ events

unfoldable pub refresh_relation :
    Instant → List (String × Bool) → Relation → List Event → List Event
refresh_relation now marks r events =
    if relation_ended now marks r.grant
    then (let told = tell r.node_owner r.grant.id (unix now) events in
        if r.tailnet_owner == r.node_owner
        then told
        else tell r.tailnet_owner r.grant.id (unix now) told)
    else update (is_expiry r.grant.id) (λ e. record e { resolved_at = unix now }) events

unfoldable pub refresh_relations :
    Instant → List (String × Bool) → List Relation → List Event → List Event
refresh_relations now marks [] events = events
refresh_relations now marks (r ∷ rs) events =
    refresh_relations now marks rs (refresh_relation now marks r events)

module _ (env : Env) where
  unfoldable pub refresh_expiry_events : Instant → Database → Result StoreError Database
  refresh_expiry_events now db = do
    marks ← mark_policies env now db.node_policies []
    ok (record db { events = refresh_relations now marks (relations db db.grants) db.events })
