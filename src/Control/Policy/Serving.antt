-- ===== src/Control/Policy/Serving.antt =====
-- internal/control/policy.go, buildPolicy: when a node serves.
use multi_derp.Base.{arith, inl, inr, refl, true, ◌≡◌, ◌⊎◌}
use multi_derp.Control.Policy.{is_serving, node_serves}
use multi_derp.Control.Schema.{
  Node, NodeState, User, domain_pending, identity_conflict, offline, pending, ready, registered,
}

-- What `node_serves` tests: the node and its owner are enabled, and the node has joined, be it
-- connected or not, and is neither being moved to another domain nor in conflict over its identity.
pub record IsServing (n : Node) (u : User) : Type 0 where
  pub node_enabled : n.enabled ≡ true
  pub owner_enabled : u.enabled ≡ true
  pub joined : (n.state ≡ registered) ⊎ ((n.state ≡ ready) ⊎ (n.state ≡ offline))

is_serving-joined :
    (s : NodeState) → is_serving s ≡ true → (s ≡ registered) ⊎ ((s ≡ ready) ⊎ (s ≡ offline))
is_serving-joined registered h = inl refl
is_serving-joined ready h = inr (inl refl)
is_serving-joined offline h = inr (inr refl)
is_serving-joined pending h = absurd (ground (arith, h))
is_serving-joined domain_pending h = absurd (ground (arith, h))
is_serving-joined identity_conflict h = absurd (ground (arith, h))

pub IsServing-intro :
    (n : Node) (u : User)
    → n.enabled ≡ true
    → u.enabled ≡ true
    → is_serving n.state ≡ true
    → IsServing n u
IsServing-intro n u a b c = record {
  node_enabled = a;
  owner_enabled = b;
  joined = is_serving-joined n.state c;
}

pub node_serves-IsServing : (n : Node) (u : User) → node_serves n u ≡ true → IsServing n u
unfolding node_serves
node_serves-IsServing n u h = IsServing-intro n u (ground arith) (ground arith) (ground arith)
