-- ===== src/Control/Grants/Enabled.antt =====
-- internal/control/grants.go, grantResourcesEnabled: both sides of a grant are in use.
use mathlib.Core.Path.{subst}
use multi_derp.Base.{>>=-eq-ok, String, arith, ok, or_fail, or_fail-some, some, true, ◌≡◌}
use multi_derp.Control.Grants.{grant_resources_enabled}
use multi_derp.Control.Policy.{find_node, find_tailnet, find_user}
use multi_derp.Control.Policy.Serving.{IsServing, IsServing-intro}
use multi_derp.Control.Schema.{Database, Node, Tailnet, User, no_rows}

module _ (db : Database) (n : Node) (t : Tailnet) where
  -- The node serves, and the tailnet and its owner are enabled.
  pub record AreEnabled : Type 0 where
    pub node_owner : User
    pub tailnet_owner : User
    pub node_owner_found : find_user n.owner_id db ≡ some node_owner
    pub tailnet_owner_found : find_user t.owner_id db ≡ some tailnet_owner
    pub serving : IsServing n node_owner
    pub tailnet_enabled : t.enabled ≡ true
    pub tailnet_owner_enabled : tailnet_owner.enabled ≡ true

  pub grant_resources_enabled-AreEnabled :
      (node tailnet : String)
      → find_node node db ≡ some n
      → find_tailnet tailnet db ≡ some t
      → grant_resources_enabled db node tailnet ≡ ok true
      → AreEnabled
  unfolding grant_resources_enabled
  grant_resources_enabled-AreEnabled node tailnet at_node at_tailnet h =
      let (m, e₀, h₀) = >>=-eq-ok (or_fail (find_node node db) no_rows) _ h in
      let (nu, e₁, h₁) = >>=-eq-ok (or_fail (find_user m.owner_id db) no_rows) _ h₀ in
      let (s, e₂, h₂) = >>=-eq-ok (or_fail (find_tailnet tailnet db) no_rows) _ h₁ in
      let (tu, e₃, h₃) = >>=-eq-ok (or_fail (find_user s.owner_id db) no_rows) _ h₂ in
      let same : m ≡ n = ground (arith, or_fail-some _ _ e₀, at_node) in
      let also : s ≡ t = ground (arith, or_fail-some _ _ e₂, at_tailnet) in
      let serves : IsServing m nu =
        IsServing-intro m nu (ground (arith, h₃)) (ground (arith, h₃)) (ground (arith, h₃)) in
      record {
        node_owner = nu;
        tailnet_owner = tu;
        node_owner_found =
            subst (λ (x : Node). find_user x.owner_id db ≡ some nu) same (or_fail-some _ _ e₁);
        tailnet_owner_found =
            subst (λ (x : Tailnet). find_user x.owner_id db ≡ some tu) also (or_fail-some _ _ e₃);
        serving = subst (λ x. IsServing x nu) same serves;
        tailnet_enabled = subst (λ (x : Tailnet). x.enabled ≡ true) also (ground (arith, h₃));
        tailnet_owner_enabled = ground (arith, h₃);
      }
