-- ===== src/Control/Nodes/Regions.antt =====
-- internal/control/nodes.go: the region that a new node gets.
use multi_derp.Base.{
  >>=-eq-ok, All, All-append, Bool, Bool-cases, Distinct, Distinct-append, List, Option-cases,
  String, [], any, ap, arith, bool_eq, contains, fail_if, false, inl, inr, leb, len, length,
  list_eq, ltb, nat_eq, none, not, ok, option_eq, or_fail, or_fail-some, refl, select, some,
  string_eq, suc, true, zero, ℕ, ◌&&◌, ◌++◌, ◌+◌, ◌<◌, ◌==◌, ◌||◌, ◌∙◌, ◌∷◌, ◌≡◌, ◌≤◌,
}
use multi_derp.Clock.{Instant}
use multi_derp.Control.Access.{Actor, active_actor, require_owner, write_audit}
use multi_derp.Control.Domain.{DomainEnv, normalize_node_domain}
use multi_derp.Control.Nodes.{Enrollment, create_node, free_region, insert_node, new_node, put_code}
use multi_derp.Control.Release.{bad_port}
use multi_derp.Control.Schema.{
  Database, Env, Node, admin, conflict, forbidden, grant_state_eq, invalid, node_state_eq, provider,
  role_eq, storage,
}
use multi_derp.Text.{trim_space}

abbrev pub regions : List Node → List ℕ
regions [] = []
regions (n ∷ ns) = n.region_id ∷ regions ns

-- Regions are those of the cluster, and no two nodes share one.
pub record ArePlaced (nodes : List Node) : Type 0 where
  pub distinct : Distinct (regions nodes)
  pub inside : All (λ n. (900 ≤ n.region_id) × (n.region_id ≤ 999)) nodes

regions-contains :
    (r : ℕ) (ns : List Node) → contains (regions ns) r ≡ any (λ n. n.region_id == r) ns
regions-contains r [] = refl
regions-contains r (n ∷ ns) = ground (arith, regions-contains r ns)

regions-append : (ns ms : List Node) → regions (ns ++ ms) ≡ regions ns ++ regions ms
regions-append [] ms = refl
regions-append (n ∷ ns) ms = ap (λ rest. n.region_id ∷ rest) (regions-append ns ms)

free_region-free :
    (first count : ℕ) (ns : List Node) (r : ℕ)
    → free_region first count ns ≡ some r
    → (first ≤ r) × (r < first + count) × (any (λ n. n.region_id == r) ns ≡ false)
unfolding free_region
free_region-free first zero ns r h = absurd (ground arith)
free_region-free first (suc count) ns r h = elim (Bool-cases (any (λ n. n.region_id == first) ns)) [
  | inl used ↦
      let (low, high, free) = free_region-free (first + 1) count ns r (ground (arith, h, used)) in
      (omega arith, omega arith, free)
  | inr free ↦
      let same : first ≡ r = ground (arith, h, free) in (omega arith, omega arith, rw same at free)
]

Distinct-new : (rs : List ℕ) (r : ℕ) → Distinct rs → contains rs r ≡ false → Distinct (rs ++ r ∷ [])
Distinct-new rs r d new = Distinct-append rs (r ∷ []) d (refl, tt) (new, tt)

-- Creating a node adds the node that is returned to the table, at the end and with nothing else
-- changed in it; its region is between 900 and 999 and no other node has it, so that regions stay
-- distinct and in these bounds.
pub create_node-ArePlaced :
    (env : Env) (text : DomainEnv) (actor : Actor) (name raw : String) (derp stun : ℕ)
    (id fresh : String) (now : Instant) (db db' : Database) (n : Node) (e : Enrollment)
    → create_node env text actor name raw derp stun id fresh now db ≡ ok (n, e, db')
    → ArePlaced db.nodes
    → (db'.nodes ≡ db.nodes ++ n ∷ [])
      × (900 ≤ n.region_id)
      × (n.region_id ≤ 999)
      × (any (λ m. m.region_id == n.region_id) db.nodes ≡ false)
      × ArePlaced db'.nodes
unfolding create_node insert_node put_code write_audit
create_node-ArePlaced env text actor name raw derp stun id fresh now db db' n e h placed =
    let (x₀, e₀, h₀) =
      >>=-eq-ok (fail_if (not (actor.role == admin) && not (actor.role == provider)) forbidden) _
        h in
    let (x₁, e₁, h₁) =
      >>=-eq-ok
        (fail_if
          (env.cluster_id == ""
            || trim_space name == ""
            || ltb 160 (len name)
            || bad_port derp
            || bad_port stun)
          invalid)
        _ h₀ in
    let (domain, e₂, h₂) = >>=-eq-ok (normalize_node_domain text raw) _ h₁ in
    let (x₃, e₃, h₃) = >>=-eq-ok (active_actor db actor) _ h₂ in
    let (x₄, e₄, h₄) = >>=-eq-ok (require_owner actor actor.id) _ h₃ in
    let (region, e₅, h₅) = >>=-eq-ok (or_fail (free_region 900 100 db.nodes) conflict) _ h₄ in
    let (low, high, free) = free_region-free 900 100 db.nodes region (or_fail-some _ _ e₅) in
    let m = new_node env actor name domain region derp stun id in
    let (nodes, e₆, h₆) = >>=-eq-ok (insert_node m db) _ h₅ in
    let ((o, d), e₇, h₇) =
      >>=-eq-ok (put_code env m fresh now (record db { nodes = nodes })) _ h₆ in
    let (x₈, e₈, h₈) =
      >>=-eq-ok
        (fail_if
          (any (λ r. r.code_hash == env.digest fresh && not (r.node_id == m.id)) db.enrollments)
          storage)
        _ e₇ in
    let (x₉, e₉, h₉) =
      >>=-eq-ok
        (fail_if
          (any (λ k. k.id == m.id || k.domain == m.domain || k.region_id == m.region_id) db.nodes)
          conflict)
        _ e₆ in
    let (y₉, f₉, g₉) =
      >>=-eq-ok (fail_if (not (any (λ u. u.id == m.owner_id) db.users)) conflict) _ h₉ in
    let table : db'.nodes ≡ db.nodes ++ m ∷ [] = ground (arith, h₇, h₈, g₉) in
    let same : m ≡ n = ground (arith, h₇) in
    let placed' : ArePlaced db'.nodes = rw table (record {
      distinct = rw (regions-append db.nodes (m ∷ [])) (
          Distinct-new (regions db.nodes) region placed.distinct
            (regions-contains region db.nodes ∙ free));
      inside =
          All-append (λ n. (900 ≤ n.region_id) × (n.region_id ≤ 999)) db.nodes (m ∷ [])
            placed.inside ((low, omega arith), tt);
    }) in
    let at_region : region ≡ n.region_id = ap (λ (k : Node). k.region_id) same in
    (
      rw same at table,
      rw at_region at low,
      omega (arith, at_region, high),
      rw at_region at free,
      placed',
    )

-- The nodes from a region on.
abbrev from_region : ℕ → Node → Bool
from_region first n = leb first n.region_id

from_region-count :
    (first : ℕ) (ns : List Node)
    → length (select (from_region (first + 1)) ns) ≤ length (select (from_region first) ns)
from_region-count first [] = omega arith
from_region-count first (n ∷ ns) = ground (arith, from_region-count first ns)

from_region-used :
    (first : ℕ) (ns : List Node)
    → any (λ n. n.region_id == first) ns ≡ true
    → length (select (from_region (first + 1)) ns) < length (select (from_region first) ns)
from_region-used first [] h = absurd (ground arith)
from_region-used first (n ∷ ns) h = elim (Bool-cases (n.region_id == first)) [
  | inl here ↦ ground (arith, here, from_region-count first ns)
  | inr later ↦ ground (arith, later, h, from_region-used first ns)
]

free_region-none :
    (first count : ℕ) (ns : List Node)
    → free_region first count ns ≡ none
    → count ≤ length (select (from_region first) ns)
unfolding free_region
free_region-none first zero ns h = omega arith
free_region-none first (suc count) ns h = elim (Bool-cases (any (λ n. n.region_id == first) ns)) [
  | inr free ↦ absurd (ground (arith, h, free))
  | inl used ↦
      let rest = free_region-none (first + 1) count ns (ground (arith, h, used)) in
      omega (arith, rest, from_region-used first ns used)
]

length-select : (p : Node → Bool) (ns : List Node) → length (select p ns) ≤ length ns
length-select p [] = omega arith
length-select p (n ∷ ns) = ground (arith, length-select p ns)

-- As long as there are fewer than a hundred nodes, a new one finds a region.
pub free_region-found :
    (nodes : List Node)
    → length nodes < 100
    → (r : ℕ) × (free_region 900 100 nodes ≡ some r)
      × (900 ≤ r)
      × (r ≤ 999)
      × (any (λ n. n.region_id == r) nodes ≡ false)
free_region-found nodes few = elim (Option-cases (free_region 900 100 nodes)) [
  | inl full ↦
      let many = free_region-none 900 100 nodes full in
      absurd (omega (arith, many, few, length-select (from_region 900) nodes))
  | inr (r, e) ↦
      let (low, high, free) = free_region-free 900 100 nodes r e in (r, e, low, omega arith, free)
]
