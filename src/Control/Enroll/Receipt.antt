-- ===== src/Control/Enroll/Receipt.antt =====
-- internal/control/nodes.go, EnrollNode: an enrollment that is sent again.
use multi_derp.Base.{
  Bool, Bool-cases, List, Option, Option-cases, String, [], ap, arith, bool_eq, false, find,
  find-update_other, if◌then◌else◌, inl, inr, list_eq, nat_eq, none, option_eq, refl, some,
  string_eq, sym, true, update, ◌&&◌, ◌==◌, ◌∙◌, ◌∷◌, ◌≡◌,
}
use multi_derp.Control.Enroll.{enrollment_node, owned_by, scan_enrollments, with_node, with_owner}
use multi_derp.Control.Policy.{find_node, find_user}
use multi_derp.Control.Schema.{
  Database, EnrollmentRow, Node, User, grant_state_eq, node_state_eq, role_eq,
}

abbrev is_some : {A : Type 0} → Option A → Bool
is_some none = false
is_some (some a) = true

-- Tables in which nodes changed, and kept their ids and owners.
pub record KeepsOwners (db db' : Database) : Type 0 where
  pub test : Node → Bool
  pub change : Node → Node
  pub same_id : (n : Node) → (change n).id ≡ n.id
  pub same_owner : (n : Node) → (change n).owner_id ≡ n.owner_id
  pub users : db'.users ≡ db.users
  pub nodes : db'.nodes ≡ update test change db.nodes

with_owner-kept :
    (owner : Option String) (u : Option User) (n m : Node)
    → m.owner_id ≡ n.owner_id
    → is_some (with_owner owner u m) ≡ is_some (with_owner owner u n)
with_owner-kept owner none n m e = refl
with_owner-kept owner (some u) n m e =
    rw e (elim (Bool-cases (owned_by owner n.owner_id && u.enabled)) [
      | inl acts ↦ rw acts refl
      | inr idle ↦ rw idle refl
    ])

enrollment_node-kept :
    (db db' : Database) (e e' : EnrollmentRow)
    → KeepsOwners db db'
    → e'.node_id ≡ e.node_id
    → e'.owner_id ≡ e.owner_id
    → is_some (enrollment_node db' e') ≡ is_some (enrollment_node db e)
unfolding enrollment_node
enrollment_node-kept db db' e e' k at owned =
    let search : Database → Option Node = find_node e.node_id in
    let moved : find_node e'.node_id db'
        ≡ find (λ n. n.id == e.node_id) (update k.test k.change db.nodes) =
      ap (λ t. find_node t db') at ∙ ap (find (λ n. n.id == e.node_id)) k.nodes in
    let start = ap (λ t. is_some (with_node db' t (find_node e'.node_id db'))) owned in
    elim (find-update_other (λ n. n.id == e.node_id) k.test k.change db.nodes
      (λ n. ap (λ t. t == e.node_id) (k.same_id n))) [
        | inl (before_it, after_it) ↦
            start
            ∙ ap (λ t. is_some (with_node db' e.owner_id t)) (moved ∙ after_it)
            ∙ sym (ap (λ t. is_some (with_node db e.owner_id t)) before_it)
        | inr (n, before_it, after_it) ↦
            let m : Node = if k.test n then k.change n else n in
            let owner : m.owner_id ≡ n.owner_id = elim (Bool-cases (k.test n)) [
              | inl yes_t ↦ rw yes_t (k.same_owner n)
              | inr no_t ↦ rw no_t refl
            ] in
            let user : find_user m.owner_id db' ≡ find_user n.owner_id db =
              ap (find (λ u. u.id == m.owner_id)) k.users ∙ ap (λ t. find_user t db) owner in
            start
            ∙ ap (λ t. is_some (with_node db' e.owner_id t)) (moved ∙ after_it)
            ∙ ap (λ u. is_some (with_owner e.owner_id u m)) user
            ∙ with_owner-kept e.owner_id (find_user n.owner_id db) n m owner
            ∙ sym (ap (λ t. is_some (with_node db e.owner_id t)) before_it)
      ]

-- The first enrollment that passes, before and after all rows of a node are set.
pub scan_enrollments-update :
    (db db' : Database) (p q : EnrollmentRow → Bool) (f : EnrollmentRow → EnrollmentRow)
    (es : List EnrollmentRow) (e : EnrollmentRow) (n : Node)
    → KeepsOwners db db'
    → ((x : EnrollmentRow) → p (f x) ≡ p x)
    → ((x : EnrollmentRow) → ((f x).node_id ≡ x.node_id) × ((f x).owner_id ≡ x.owner_id))
    → scan_enrollments db p (λ n. true) es ≡ some (e, n)
    → (p e ≡ true)
      × ((m : Node) × (scan_enrollments db' p (λ n. true) (update q f es)
            ≡ some ((if q e then f e else e), m)))
unfolding scan_enrollments
scan_enrollments-update db db' p q f [] e n k keep same h = absurd (ground arith)
scan_enrollments-update db db' p q f (x ∷ es) e n k keep same h =
    let y : EnrollmentRow = if q x then f x else x in
    let passes_y : p y ≡ p x = elim (Bool-cases (q x)) [
      | inl yes_q ↦ rw yes_q (keep x)
      | inr no_q ↦ rw no_q refl
    ] in
    let there : is_some (enrollment_node db' y) ≡ is_some (enrollment_node db x) =
      elim (Bool-cases (q x)) [
        | inl yes_q ↦ rw yes_q (enrollment_node-kept db db' x (f x) k (same x).0 (same x).1)
        | inr no_q ↦ rw no_q (enrollment_node-kept db db' x x k refl refl)
      ] in
    elim (Bool-cases (p x)) [
      | inr no_p ↦
          let (passes_e, (m, rest)) =
            scan_enrollments-update db db' p q f es e n k keep same (ground (arith, h, no_p)) in
          (passes_e, (m, rw (passes_y, no_p) rest))
      | inl yes_p ↦ elim (Option-cases (enrollment_node db x)) [
        | inl none_n ↦ elim (Option-cases (enrollment_node db' y)) [
          | inr (m, some_m) ↦ absurd (ground (arith, there, none_n, some_m))
          | inl none_m ↦
              let (passes_e, (m, rest)) =
                scan_enrollments-update db db' p q f es e n k keep same
                  (ground (arith, h, yes_p, none_n)) in
              (passes_e, (m, rw (passes_y, yes_p, none_m) rest))
        ]
        | inr (w, some_n) ↦
            let is_e : x ≡ e = ground (arith, h, yes_p, some_n) in
            elim (Option-cases (enrollment_node db' y)) [
              | inl none_m ↦ absurd (ground (arith, there, some_n, none_m))
              | inr (m, some_m) ↦
                  (rw is_e at yes_p, (m, rw (← is_e) (rw (passes_y, yes_p, some_m) refl)))
            ]
      ]
    ]
