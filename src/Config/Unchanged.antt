-- ===== src/Config/Unchanged.antt =====
-- internal/config/config.go: which changes need no restart.
use multi_derp.Base.{
  Option, ap, arith, bool_beq_iff, bool_eq, eq_iff, false, list_eq, nat_beq_iff, nat_eq, none,
  option_beq_iff, option_eq, refl, some, string_eq, true, ◌≡◌,
}
use multi_derp.Config.{Config, ControllerConfig, DerpConfig, NetEnv, NodeConfig, normalize}
use multi_derp.Config.Restart.{
  needs_restart, restart_only_changed, same_controller, same_derp, same_node,
}

same_derp-eq : (a b : DerpConfig) → same_derp a b ≡ true → b ≡ a
same_derp-eq a b h =
    let e₀ : b.listen ≡ a.listen = ground (arith, h, eq_iff a.listen b.listen) in
    let e₁ : b.stun_listen ≡ a.stun_listen =
      ground (arith, h, eq_iff a.stun_listen b.stun_listen) in
    let e₂ : b.tls_mode ≡ a.tls_mode = ground (arith, h, eq_iff a.tls_mode b.tls_mode) in
    let e₃ : b.cert_mode ≡ a.cert_mode = ground (arith, h, eq_iff a.cert_mode b.cert_mode) in
    let e₄ : b.cert_dir ≡ a.cert_dir = ground (arith, h, eq_iff a.cert_dir b.cert_dir) in cc

same_node-eq : (a b : NodeConfig) → same_node a b ≡ true → b ≡ a
same_node-eq a b h =
    let e₀ : b.derp_port ≡ a.derp_port = ground (arith, h, nat_beq_iff a.derp_port b.derp_port) in
    let e₁ : b.stun_port ≡ a.stun_port = ground (arith, h, nat_beq_iff a.stun_port b.stun_port) in
    let e₂ : b.controller_url ≡ a.controller_url =
      ground (arith, h, eq_iff a.controller_url b.controller_url) in
    let e₃ : b.state_dir ≡ a.state_dir = ground (arith, h, eq_iff a.state_dir b.state_dir) in
    let e₄ : b.max_budget_bps ≡ a.max_budget_bps =
      ground (arith, h, nat_beq_iff a.max_budget_bps b.max_budget_bps) in
    cc

same_controller-eq : (a b : Option ControllerConfig) → same_controller a b ≡ true → b ≡ a
same_controller-eq none none h = refl
same_controller-eq none (some b) h = cc
same_controller-eq (some a) none h = cc
same_controller-eq (some a) (some b) h =
    let e₀ : b.enabled ≡ a.enabled = ground (arith, h, bool_beq_iff a.enabled b.enabled) in
    let e₁ : b.listen ≡ a.listen = ground (arith, h, eq_iff a.listen b.listen) in
    let e₂ : b.database ≡ a.database = ground (arith, h, eq_iff a.database b.database) in
    let e₃ : b.key_file ≡ a.key_file = ground (arith, h, eq_iff a.key_file b.key_file) in
    let e₄ : b.allowed_node_cidrs ≡ a.allowed_node_cidrs =
      ground (arith, h, option_beq_iff a.allowed_node_cidrs b.allowed_node_cidrs) in
    let e : b ≡ a = cc in ap some e

needs_restart-same :
    (a b : Config)
    → needs_restart a b ≡ false
    → b ≡ record a { version = b.version; logging_level = b.logging_level }
unfolding needs_restart
needs_restart-same a b h =
    let e₀ : b.server.hostname ≡ a.server.hostname =
      ground (arith, h, eq_iff a.server.hostname b.server.hostname) in
    let e₁ : b.setup_required ≡ a.setup_required =
      ground (arith, h, bool_beq_iff a.setup_required b.setup_required) in
    let e₂ : b.server.management_listen ≡ a.server.management_listen =
      ground (arith, h, eq_iff a.server.management_listen b.server.management_listen) in
    let e₃ : b.server.derp ≡ a.server.derp =
      same_derp-eq a.server.derp b.server.derp (ground (arith, h)) in
    let e₄ : b.server.admin_socket ≡ a.server.admin_socket =
      ground (arith, h, eq_iff a.server.admin_socket b.server.admin_socket) in
    let e₅ : b.server.health_listen ≡ a.server.health_listen =
      ground (arith, h, eq_iff a.server.health_listen b.server.health_listen) in
    let e₆ : b.storage_dir ≡ a.storage_dir =
      ground (arith, h, eq_iff a.storage_dir b.storage_dir) in
    let e₇ : b.controller ≡ a.controller =
      same_controller-eq a.controller b.controller (ground (arith, h)) in
    let e₈ : b.node ≡ a.node = same_node-eq a.node b.node (ground (arith, h)) in
    let e₉ : b.server ≡ a.server = cc in cc

-- If a change needs no restart, then the two configurations, with their defaults filled in, differ in
-- their version and in how much they log only.
pub restart_only_changed-logging :
    (net : NetEnv) (a b : Config)
    → restart_only_changed net a b ≡ false
    → normalize net b ≡ record (normalize net a) {
      version = (normalize net b).version;
      logging_level = (normalize net b).logging_level;
    }
unfolding restart_only_changed
restart_only_changed-logging net a b h = needs_restart-same (normalize net a) (normalize net b) h
