-- ===== src/Control/DerpMap/Offers.antt =====
-- internal/control/derpmap.go: what the map of a tailnet offers.
use mathlib.Core.Path.{subst}
-- A row of the query: an active grant of the tailnet, which is enabled as is its owner, for a node
-- that serves; the text is that of the node's own row in `node_policies`.
use multi_derp.Base.{
  >>=-eq-ok, All, Bool-cases, Distinct, In, List, Option-cases, String, [], ap, arith, bool_eq,
  contains, eq_iff, fail_if, false, inl, inr, list_eq, ltb, map_err, map_err-ok, nat_eq, ok,
  option_eq, refl, select, some, sort_by, sort_by-All, string_eq, sym, true, ℕ, ◌&&◌, ◌==◌, ◌||◌,
  ◌∙◌, ◌∷◌, ◌≡◌, ◌≤◌,
}
use multi_derp.Clock.{Instant}
use multi_derp.Cluster.Cache.{decode_policy}
use multi_derp.Cluster.Policy.{Policy}
use multi_derp.Control.Access.{Actor}
use multi_derp.Control.Acknowledge.{body_text}
use multi_derp.Control.Acknowledge.Usable.{IsLive, live_grant-IsLive}
use multi_derp.Control.DerpMap.{
  DerpRegion, Offer, add_offers, build_derp_map, by_region, has_region, offer_of, offers, permits,
  region_of, tailnet_acts,
}
use multi_derp.Control.Policy.{find_node, find_policy, find_tailnet, find_user, node_serves}
use multi_derp.Control.Policy.Serving.{IsServing, node_serves-IsServing}
use multi_derp.Control.Resources.{tailnet_owner}
use multi_derp.Control.Schema.{
  Database, Env, GrantRow, Node, NodePolicy, Tailnet, User, active, conflict, grant_state_beq_iff,
  grant_state_eq, node_state_eq, role_eq, storage,
}

pub data Lends (db : Database) (tailnet : String) (o : Offer) : Type 0 where
  lends :
      (g : GrantRow) (u v : User) (t : Tailnet) (row : NodePolicy)
      → In g db.grants
      → g.state ≡ active
      → g.tailnet_id ≡ tailnet
      → find_node g.node_id db ≡ some o.node
      → find_user o.node.owner_id db ≡ some u
      → IsServing o.node u
      → find_policy o.node.id db ≡ some row
      → o.stored ≡ row.policy_json
      → find_tailnet tailnet db ≡ some t
      → find_user t.owner_id db ≡ some v
      → t.enabled ≡ true
      → v.enabled ≡ true
      → Lends db tailnet o

offer_of-node :
    (db : Database) (g : GrantRow) (o : Offer)
    → offer_of db g ≡ some o
    → (find_node g.node_id db ≡ some o.node)
      × ((u : User) × (find_user o.node.owner_id db ≡ some u) × IsServing o.node u)
      × ((row : NodePolicy) × (find_policy o.node.id db ≡ some row) × (o.stored ≡ row.policy_json))
unfolding offer_of
offer_of-node db g o h = elim (Option-cases (find_node g.node_id db)) [
  | inl none_n ↦ absurd (ground (arith, h, none_n))
  | inr (n, some_n) ↦ elim (Option-cases (find_user n.owner_id db)) [
    | inl none_u ↦ absurd (ground (arith, h, some_n, none_u))
    | inr (u, some_u) ↦ elim (Option-cases (find_policy n.id db)) [
      | inl none_p ↦ absurd (ground (arith, h, some_n, some_u, none_p))
      | inr (row, some_p) ↦ elim (Bool-cases (node_serves n u)) [
        | inr idle ↦ absurd (ground (arith, h, some_n, some_u, some_p, idle))
        | inl serves ↦
            let made : record { node = n; stored = row.policy_json } ≡ o =
              ground (arith, h, some_n, some_u, some_p, serves) in
            let same : n ≡ o.node = ap (λ (x : Offer). x.node) made in
            (
              some_n ∙ ap some same,
              (
                u,
                rw same at some_u,
                subst (λ x. IsServing x u) same (node_serves-IsServing n u serves),
              ),
              (row, rw same at some_p, sym (ap (λ (x : Offer). x.stored) made)),
            )
      ]
    ]
  ]
]

tailnet_acts-enabled :
    (db : Database) (tailnet : String)
    → tailnet_acts db tailnet ≡ true
    → (t : Tailnet) × (v : User) × (find_tailnet tailnet db ≡ some t)
      × (find_user t.owner_id db ≡ some v)
      × (t.enabled ≡ true)
      × (v.enabled ≡ true)
tailnet_acts-enabled db tailnet h = elim (Option-cases (find_tailnet tailnet db)) [
  | inl none_t ↦ absurd (ground (arith, h, none_t))
  | inr (t, some_t) ↦ elim (Option-cases (find_user t.owner_id db)) [
    | inl none_v ↦ absurd (ground (arith, h, some_t, none_v))
    | inr (v, some_v) ↦
        let on : (t.enabled && v.enabled) ≡ true = ground (arith, h, some_t, some_v) in
        (t, v, some_t, some_v, ground (arith, on), ground (arith, on))
  ]
]

offers-Lends :
    (db : Database) (tailnet : String) (gs : List GrantRow)
    → ((g : GrantRow) → In g gs → In g db.grants)
    → All (Lends db tailnet) (offers db tailnet gs)
unfolding offers
offers-Lends db tailnet [] within = tt
offers-Lends db tailnet (g ∷ gs) within =
    let rest = offers-Lends db tailnet gs (λ x at. within x (inr at)) in
    elim (Bool-cases (g.tailnet_id == tailnet && g.state == active && tailnet_acts db tailnet)) [
      | inr out ↦ rw out rest
      | inl chosen ↦ elim (Option-cases (offer_of db g)) [
        | inl none_o ↦ rw (chosen, none_o) rest
        | inr (o, some_o) ↦
            let (at_node, (u, at_user, serves), (row, at_row, stored)) =
              offer_of-node db g o some_o in
            let (t, v, at_tailnet, at_owner, t_on, v_on) =
              tailnet_acts-enabled db tailnet (ground (arith, chosen)) in
            rw (chosen, some_o)
              (
                lends g u v t row (within g (inl refl))
                    (ground (arith, chosen, grant_state_beq_iff g.state active))
                    (ground (arith, chosen, eq_iff g.tailnet_id tailnet)) at_node at_user serves
                    at_row stored at_tailnet at_owner t_on v_on,
                rest,
              )
      ]
    ]

module _ (env : Env) (itoa : ℕ → String) where
  -- The relay is the one that the node runs, at its domain and its ports.
  pub record IsRelayOf (n : Node) (d : DerpRegion) : Type 0 where
    pub region : d.region_id ≡ n.region_id
    pub host : d.host_name ≡ n.domain
    pub derp : d.derp_port ≡ n.derp_port
    pub stun : d.stun_port ≡ n.stun_port
    pub named : d.region_name ≡ n.display_name

  -- A region of the map: the node of such a row, whose stored policy permits a key of the tailnet now.
  pub data IsOffered (db : Database) (tailnet : String) (now : Instant) (d : DerpRegion)
      : Type 0 where
    offered :
        (o : Offer) (p : Policy)
        → Lends db tailnet o
        → IsRelayOf o.node d
        → decode_policy env.keys env.codec (body_text o.stored) env.cluster_id o.node.id ≡ ok p
        → IsLive now (select (λ g. g.tailnet_id == tailnet) p.grants)
        → IsOffered db tailnet now d

  abbrev pub region_ids : List DerpRegion → List ℕ
  region_ids [] = []
  region_ids (d ∷ ds) = d.region_id ∷ region_ids ds

  -- Regions of a map that stand in the cluster's range, each once.
  pub record IsMap (db : Database) (tailnet : String) (now : Instant) (ds : List DerpRegion)
      : Type 0 where
    pub distinct : Distinct (region_ids ds)
    pub inside : All (λ d. (900 ≤ d.region_id) × (d.region_id ≤ 999)) ds
    pub served : All (IsOffered db tailnet now) ds

  region_ids-contains :
      (r : ℕ) (ds : List DerpRegion) → contains (region_ids ds) r ≡ has_region r ds
  region_ids-contains r [] = refl
  region_ids-contains r (d ∷ ds) = ground (arith, region_ids-contains r ds)

  add_offers-IsMap :
      (db : Database) (tailnet : String) (now : Instant) (os : List Offer)
      (ds ds' : List DerpRegion)
      → All (Lends db tailnet) os
      → IsMap db tailnet now ds
      → add_offers env itoa tailnet now os ds ≡ ok ds'
      → IsMap db tailnet now ds'
  unfolding add_offers
  add_offers-IsMap db tailnet now [] ds ds' l m h =
      let same : ds ≡ ds' = ground (arith, h) in subst (IsMap db tailnet now) same m
  add_offers-IsMap db tailnet now (o ∷ os) ds ds' l m h =
      let (p, e₀, h₀) =
        >>=-eq-ok
          (map_err (λ _. storage)
            (decode_policy env.keys env.codec (body_text o.stored) env.cluster_id o.node.id))
          _ h in
      elim (Bool-cases (permits tailnet now p)) [
        | inr silent ↦ add_offers-IsMap db tailnet now os ds ds' l.1 m (rw silent at h₀)
        | inl live_p ↦
            let (x, e₁, h₁) =
              >>=-eq-ok
                (fail_if
                  (ltb o.node.region_id 900
                    || ltb 999 o.node.region_id
                    || has_region o.node.region_id ds)
                  conflict)
                _ (rw live_p at h₀) in
            let new : has_region o.node.region_id ds ≡ false = ground (arith, e₁) in
            let d = region_of env itoa o.node in
            add_offers-IsMap db tailnet now os (d ∷ ds) ds' l.1
              (record {
                distinct = (region_ids-contains o.node.region_id ds ∙ new, m.distinct);
                inside = ((ground (arith, e₁), ground (arith, e₁)), m.inside);
                served = (
                  offered o p l.0
                      (record {
                        region = refl;
                        host = refl;
                        derp = refl;
                        stun = refl;
                        named = refl;
                      })
                      (map_err-ok (λ _. storage)
                        (decode_policy env.keys env.codec (body_text o.stored) env.cluster_id
                          o.node.id)
                        e₀)
                      (live_grant-IsLive now (select (λ g. g.tailnet_id == tailnet) p.grants)
                        live_p),
                  m.served,
                );
              })
              h₁
      ]

  -- The map of a tailnet offers a relay only if the tailnet and its owner are enabled, through an
  -- active grant for a node that is enabled, as is its owner, and has joined, and whose policy, as the
  -- node's own row stores it, permits a key of the tailnet at that time. The relay is at the node's
  -- domain and ports, and the regions are distinct and between 900 and 999.
  pub build_derp_map-IsMap :
      (actor : Actor) (tailnet : String) (now : Instant) (db : Database) (ds : List DerpRegion)
      → build_derp_map env itoa actor tailnet now db ≡ ok ds
      → IsMap db tailnet now ds
  unfolding build_derp_map
  build_derp_map-IsMap actor tailnet now db ds h =
      let (owner, e, h') = >>=-eq-ok (tailnet_owner db actor tailnet) _ h in
      add_offers-IsMap db tailnet now (sort_by by_region (offers db tailnet db.grants)) [] ds
        (sort_by-All (Lends db tailnet) by_region (offers db tailnet db.grants)
          (offers-Lends db tailnet db.grants (λ g at. at)))
        (record { distinct = tt; inside = tt; served = tt }) h'
