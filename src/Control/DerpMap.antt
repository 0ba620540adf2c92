-- ===== src/Control/DerpMap.antt =====
-- internal/control/derpmap.go: the relays that a tailnet may use now.
pub mod Offers
use Prim.Native.String.{◌++◌ as join}
use multi_derp.Base.{
  Bool, List, Option, Result, String, [], any, bool_eq, fail_if, false, if◌then◌else◌, leb, list_eq,
  ltb, map_err, nat_eq, none, ok, option_eq, select, some, sort_by, string_eq, ℕ, ◌&&◌, ◌==◌, ◌>>=◌,
  ◌>>◌, ◌||◌, ◌∷◌,
}
use multi_derp.Clock.{Instant}
use multi_derp.Cluster.Cache.{decode_policy}
use multi_derp.Cluster.Policy.{Policy}
use multi_derp.Control.Access.{Actor}
use multi_derp.Control.Acknowledge.{body_text, live_grant}
use multi_derp.Control.Nodes.Regions.{regions}
use multi_derp.Control.Policy.{find_node, find_policy, find_tailnet, find_user, node_serves}
use multi_derp.Control.Resources.{tailnet_owner}
use multi_derp.Control.Schema.{
  Database, Env, GrantRow, Node, StoreError, active, conflict, grant_state_eq, node_state_eq,
  role_eq, storage,
}

-- tailcfg.DERPRegion with its one node.
pub record DerpRegion : Type 0 where
  pub region_id : ℕ
  pub region_code : String
  pub region_name : String
  pub node_name : String
  pub host_name : String
  pub derp_port : ℕ
  pub stun_port : ℕ

-- A row of the query: the node and its stored policy.
pub record Offer : Type 0 where
  pub node : Node
  pub stored : Option String

-- Whether a tailnet and its owner are enabled.
abbrev pub tailnet_acts : Database → String → Bool
tailnet_acts db id = elim (find_tailnet id db) [
  | none ↦ false
  | some t ↦ elim (find_user t.owner_id db) [ none ↦ false | some u ↦ t.enabled && u.enabled ]
]

-- The row of a grant, if its node serves.
unfoldable pub offer_of : Database → GrantRow → Option Offer
offer_of db g = elim (find_node g.node_id db) [
  | none ↦ none
  | some n ↦ elim (find_user n.owner_id db) [
    | none ↦ none
    | some u ↦ elim (find_policy n.id db) [
      | none ↦ none
      | some row ↦
          if node_serves n u then some (record { node = n; stored = row.policy_json }) else none
    ]
  ]
]

unfoldable pub offers : Database → String → List GrantRow → List Offer
offers db tailnet [] = []
offers db tailnet (g ∷ gs) =
    let rest = offers db tailnet gs in
    if g.tailnet_id == tailnet && g.state == active && tailnet_acts db tailnet
    then elim (offer_of db g) [ none ↦ rest | some o ↦ o ∷ rest ]
    else rest

abbrev pub by_region : Offer → Offer → Bool
by_region a b = leb a.node.region_id b.node.region_id

-- Whether a policy permits a key of the tailnet now.
abbrev pub permits : String → Instant → Policy → Bool
permits tailnet now p = live_grant now (select (λ g. g.tailnet_id == tailnet) p.grants)

abbrev pub has_region : ℕ → List DerpRegion → Bool
has_region r regions = any (λ d. d.region_id == r) regions

module _ (env : Env) (itoa : ℕ → String) where
  abbrev pub region_of : Node → DerpRegion
  region_of n =
      let code = join "uniderp-" (itoa n.region_id) in
      record {
        region_id = n.region_id;
        region_code = code;
        region_name = n.display_name;
        node_name = join code "a";
        host_name = n.domain;
        derp_port = n.derp_port;
        stun_port = n.stun_port;
      }

  -- The loop over the rows; the map so far is a list.
  unfoldable pub add_offers :
      String → Instant → List Offer → List DerpRegion → Result StoreError (List DerpRegion)
  add_offers tailnet now [] regions = ok regions
  add_offers tailnet now (o ∷ os) regions =
      map_err (λ _. storage)
        (decode_policy env.keys env.codec (body_text o.stored) env.cluster_id o.node.id)
      >>= λ p.
          if permits tailnet now p
          then (fail_if
                (ltb o.node.region_id 900
                  || ltb 999 o.node.region_id
                  || has_region o.node.region_id regions)
                conflict
              >> add_offers tailnet now os (region_of o.node ∷ regions))
          else add_offers tailnet now os regions

  unfoldable pub build_derp_map :
      Actor → String → Instant → Database → Result StoreError (List DerpRegion)
  build_derp_map actor tailnet now db = do
    owner ← tailnet_owner db actor tailnet
    add_offers tailnet now (sort_by by_region (offers db tailnet db.grants)) []
