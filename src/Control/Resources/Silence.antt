-- ===== src/Control/Resources/Silence.antt =====
-- internal/control/resources.go, SetNodeEnabled: a node that is switched off.
use mathlib.Core.Path.{subst}
use multi_derp.Base.{
  Bool-cases, List, Result-cases, String, [], arith, bool_eq, false, find, inl, inr, list_eq,
  nat_eq, ok, option_eq, refl, some, string_eq, sym, update, ℕ, ◌==◌, ◌∷◌, ◌≡◌, ◌≢◌, ◌⊎◌,
}
use multi_derp.Clock.{Instant}
use multi_derp.Cluster.Policy.{Policy}
use multi_derp.Control.Access.{Actor, write_audit}
use multi_derp.Control.Policy.{build_policy, find_node, find_policy}
use multi_derp.Control.Policy.Built.{
  Built, build_policy-Built, find_policy-update, published, unchanged,
}
use multi_derp.Control.Policy.Sound.{IsAllowed, Readable, build_policy-IsAllowed}
use multi_derp.Control.Resources.{set_node_enabled, switch_node}
use multi_derp.Control.Schema.{
  Database, Env, Node, NodePolicy, grant_state_eq, node_state_beq_iff, node_state_eq, pending,
  role_eq, unix,
}

switched_off :
    (id : String) (nodes : List Node) (n : Node)
    → find (λ m. m.id == id) (update (λ m. m.id == id) (λ m. record m { enabled = false }) nodes)
      ≡ some n
    → n.enabled ≡ false
switched_off id [] n h = cc
switched_off id (m ∷ nodes) n h = elim (Bool-cases (m.id == id)) [
  | inl e ↦ ground (arith, e, h)
  | inr e ↦ switched_off id nodes n (ground (arith, e, h))
]

module _ (env : Env) where
  -- The policy that a node is to be sent: its text stands in the node's row under its revision.
  pub record IsSent (db : Database) (id : String) (p : Policy) : Type 0 where
    pub row : NodePolicy
    pub found : find_policy id db ≡ some row
    pub current : row.desired_revision ≡ p.revision
    pub body : String
    pub stored : row.policy_json ≡ some body
    pub reads : (body ≡ env.codec.encode p) ⊎ (env.codec.decode body ≡ some p)

  Built-IsSent :
      (id : String) (now : Instant) (db : Database) (row : NodePolicy) (p : Policy) (db' : Database)
      → find_policy id db ≡ some row
      → Built env id now db row p db'
      → IsSent db' id p
  Built-IsSent id now db row p db' found (unchanged body stored reads current e) = record {
    row = row;
    found = rw e found;
    current = sym current;
    body = body;
    stored = stored;
    reads = inr reads;
  }
  Built-IsSent id now db row p db' found (published next dated short e) = record {
    row = record row {
      desired_revision = p.revision;
      generated_at = unix p.generated_at;
      policy_json = some (env.codec.encode p);
    };
    found = rw e (
        find_policy-update id
          (λ r. record r {
            desired_revision = p.revision;
            generated_at = unix p.generated_at;
            policy_json = some (env.codec.encode p);
          })
          db.node_policies row (λ r. refl) found);
    current = refl;
    body = env.codec.encode p;
    stored = refl;
    reads = inl refl;
  }

  IsSent-audit :
      (db : Database) (id : String) (p : Policy) (actor owner kind what action : String) (now : ℕ)
      → IsSent db id p
      → IsSent (write_audit actor owner kind what action now db) id p
  unfolding write_audit
  IsSent-audit db id p actor owner kind what action now s = record {
    row = s.row;
    found = s.found;
    current = s.current;
    body = s.body;
    stored = s.stored;
    reads = s.reads;
  }

  abbrev off : Node → Database → Database
  off n db = record db {
    nodes = update (λ m. m.id == n.id) (λ m. record m { enabled = false }) db.nodes;
  }

  IsAllowed-off :
      (n : Node) (db : Database) (p : Policy) → IsAllowed env (off n db) n.id p → p.grants ≡ []
  IsAllowed-off n db p a =
      let quiet = switched_off n.id db.nodes a.node a.node_found in
      elim a.silent [ inl serves ↦ absurd (ground (arith, quiet, serves.node_enabled)) | inr e ↦ e ]

  switch_node-builds :
      (actor : Actor) (n : Node) (now : Instant) (db db' : Database)
      → n.state ≢ pending
      → switch_node env actor n false now db ≡ ok db'
      → (p : Policy) × (d : Database) × (build_policy env n.id now (off n db) ≡ ok (p, d))
        × (db' ≡ write_audit actor.id n.owner_id "node" n.id "node.enabled" (unix now) d)
  unfolding switch_node
  switch_node-builds actor n now db db' taken h = elim (Bool-cases (n.state == pending)) [
    | inl e ↦ absurd (ground (arith, e, node_state_beq_iff n.state pending))
    | inr e ↦ elim (Result-cases (build_policy env n.id now (off n db))) [
      | inr (x, e') ↦ absurd (ground (arith, h, e, e'))
      | inl (r, e') ↦ (r.0, r.1, e', ground (arith, h, e, e'))
    ]
  ]

  set_node_enabled-switch :
      (actor : Actor) (id : String) (n : Node) (now : Instant) (db db' : Database)
      → find_node id db ≡ some n
      → set_node_enabled env actor id false now db ≡ ok db'
      → switch_node env actor n false now db ≡ ok db'
  unfolding set_node_enabled
  set_node_enabled-switch actor id n now db db' found h = ground (arith, found, h)

  -- Switching off a node that has a policy leaves it a policy that grants nothing, and that policy
  -- is the one that stands in the node's row under the revision it is to reach, if the JSON text of
  -- a policy reads back as nothing else.
  pub set_node_enabled-IsSent :
      (actor : Actor) (id : String) (n : Node) (now : Instant) (db db' : Database)
      → Readable env
      → find_node id db ≡ some n
      → n.state ≢ pending
      → set_node_enabled env actor id false now db ≡ ok db'
      → (p : Policy) × IsSent db' n.id p × (p.grants ≡ [])
  set_node_enabled-IsSent actor id n now db db' readable found taken h =
      let (p, d, built, same) =
        switch_node-builds actor n now db db' taken
          (set_node_enabled-switch actor id n now db db' found h) in
      let (row, there, room, valid, done) = build_policy-Built env n.id now (off n db) d p built in
      let sent =
        IsSent-audit d n.id p actor.id n.owner_id "node" n.id "node.enabled" (unix now)
          (Built-IsSent n.id now (off n db) row p d there done) in
      (
        p,
        subst (λ x. IsSent x n.id p) (sym same) sent,
        IsAllowed-off n db p (build_policy-IsAllowed env n.id now (off n db) d p readable built),
      )
