-- ===== src/Control/Expiry/Unique.antt =====
-- internal/control/expiry_events.go: events that are not told twice.
use mathlib.Core.Path.{subst}
use multi_derp.Base.{
  >>=-eq-ok, AtMostOne, Bool, Bool-cases, List, String, [], any, arith, bool_eq, eq_iff, false, inl,
  inr, nat_beq_iff, nat_eq, ok, option_eq, refl, string_eq, true, update, ℕ, ◌&&◌, ◌==◌, ◌∷◌, ◌≡◌,
}
use multi_derp.Clock.{Instant}
use multi_derp.Control.Expiry.{
  Relation, is_expiry, is_told, mark_policies, refresh_expiry_events, refresh_relation,
  refresh_relations, relation_ended, relations, tell,
}
use multi_derp.Control.Schema.{Database, Env, Event, grant_state_eq, node_state_eq, role_eq, unix}

any-update :
    {A : Type 0} (p q : A → Bool) (f : A → A) (xs : List A)
    → ((x : A) → q x ≡ true → p x ≡ false → p (f x) ≡ false)
    → any p xs ≡ false
    → any p (update q f xs) ≡ false
any-update p q f [] less h = refl
any-update p q f (x ∷ xs) less h = ground (arith, less x, any-update p q f xs less)

AtMostOne-update :
    {A : Type 0} (p q : A → Bool) (f : A → A) (xs : List A)
    → ((x : A) → q x ≡ true → p x ≡ false → p (f x) ≡ false)
    → AtMostOne p xs
    → AtMostOne p (update q f xs)
AtMostOne-update p q f [] less h = tt
AtMostOne-update p q f (x ∷ xs) less (h, k) =
    (ground (arith, h, less x, any-update p q f xs less), AtMostOne-update p q f xs less k)

told_once :
    (owner id owner' id' : String) (events : List Event)
    → any (is_told owner' id') events ≡ false
    → ((owner' == owner && (id' == id)) && any (is_told owner id) events) ≡ false
told_once owner id owner' id' events e = elim (Bool-cases (owner' == owner && (id' == id))) [
  | inr d ↦ rw d refl
  | inl d ↦
      let o : owner ≡ owner' = ground (arith, d, eq_iff owner' owner) in
      let i : id ≡ id' = ground (arith, d, eq_iff id' id) in
      let none_told : any (is_told owner id) events ≡ false = rw (o, i) e in
      ground (arith, none_told)
]

-- The test is for an owner and a grant; what is told is for another pair or the same.
tell-AtMostOne :
    (owner id owner' id' : String) (now : ℕ) (events : List Event)
    → AtMostOne (is_told owner id) events
    → AtMostOne (is_told owner id) (tell owner' id' now events)
unfolding tell
tell-AtMostOne owner id owner' id' now events h =
    elim (Bool-cases (any (is_told owner' id') events)) [
      | inl e ↦ rw e h
      | inr e ↦ rw e (ground (arith, told_once owner id owner' id' events e), h)
    ]

refresh_relation-AtMostOne :
    (owner id : String) (now : Instant) (marks : List (String × Bool)) (r : Relation)
    (events : List Event)
    → AtMostOne (is_told owner id) events
    → AtMostOne (is_told owner id) (refresh_relation now marks r events)
unfolding refresh_relation
refresh_relation-AtMostOne owner id now marks r events h =
    let told = tell-AtMostOne owner id r.node_owner r.grant.id (unix now) events h in
    elim (Bool-cases (relation_ended now marks r.grant)) [
      | inr e ↦ rw e (
          AtMostOne-update (is_told owner id) (is_expiry r.grant.id)
            (λ e. record e { resolved_at = unix now }) events
            (λ x q f. ground (arith, q, f, nat_beq_iff x.resolved_at 0)) h)
      | inl e ↦ elim (Bool-cases (r.tailnet_owner == r.node_owner)) [
        | inl e' ↦ rw (e, e') told
        | inr e' ↦
            rw (e, e')
              (tell-AtMostOne owner id r.tailnet_owner r.grant.id (unix now)
                (tell r.node_owner r.grant.id (unix now) events) told)
      ]
    ]

refresh_relations-AtMostOne :
    (owner id : String) (now : Instant) (marks : List (String × Bool)) (rs : List Relation)
    (events : List Event)
    → AtMostOne (is_told owner id) events
    → AtMostOne (is_told owner id) (refresh_relations now marks rs events)
unfolding refresh_relations
refresh_relations-AtMostOne owner id now marks [] events h = h
refresh_relations-AtMostOne owner id now marks (r ∷ rs) events h =
    refresh_relations-AtMostOne owner id now marks rs (refresh_relation now marks r events)
      (refresh_relation-AtMostOne owner id now marks r events h)

-- Refreshing the events of expired grants leaves at most one open event for an owner and a grant, if
-- there was at most one before.
pub refresh_expiry_events-AtMostOne :
    (env : Env) (owner id : String) (now : Instant) (db db' : Database)
    → refresh_expiry_events env now db ≡ ok db'
    → AtMostOne (is_told owner id) db.events
    → AtMostOne (is_told owner id) db'.events
unfolding refresh_expiry_events
refresh_expiry_events-AtMostOne env owner id now db db' h once =
    let (marks, e, h') = >>=-eq-ok (mark_policies env now db.node_policies []) _ h in
    let same : refresh_relations now marks (relations db db.grants) db.events ≡ db'.events =
      ground (arith, h') in
    subst (AtMostOne (is_told owner id)) same
      (refresh_relations-AtMostOne owner id now marks (relations db db.grants) db.events once)
