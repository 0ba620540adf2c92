-- ===== src/Config/Restart.antt =====
-- internal/config/config.go: copies of a configuration, and changes that need a restart.
use multi_derp.Base.{
  Bool, List, Option, String, [], bool_eq, false, list_eq, nat_eq, none, not, option_eq, some,
  string_eq, true, ◌&&◌, ◌==◌, ◌||◌, ◌∷◌,
}
use multi_derp.Config.{Config, ControllerConfig, DerpConfig, NetEnv, NodeConfig, normalize}

abbrev pub clone_controller : ControllerConfig → ControllerConfig
clone_controller c = record c { allowed_node_cidrs = clone_cidrs c.allowed_node_cidrs }
  where
    -- Appending the elements of a list to Go's nil slice: nothing stays nil.
    clone_cidrs : Option (List String) → Option (List String)
    clone_cidrs none = none
    clone_cidrs (some []) = none
    clone_cidrs (some (x ∷ xs)) = some (x ∷ xs)

abbrev clone_option : Option ControllerConfig → Option ControllerConfig
clone_option none = none
clone_option (some k) = some (clone_controller k)

unfoldable pub clone : Config → Config
clone c = record c { controller = clone_option c.controller }

abbrev pub same_derp : DerpConfig → DerpConfig → Bool
same_derp a b =
    a.listen == b.listen
    && a.stun_listen == b.stun_listen
    && a.tls_mode == b.tls_mode
    && a.cert_mode == b.cert_mode
    && a.cert_dir == b.cert_dir

abbrev pub same_node : NodeConfig → NodeConfig → Bool
same_node a b =
    a.derp_port == b.derp_port
    && a.stun_port == b.stun_port
    && a.controller_url == b.controller_url
    && a.state_dir == b.state_dir
    && a.max_budget_bps == b.max_budget_bps

abbrev pub same_controller : Option ControllerConfig → Option ControllerConfig → Bool
same_controller none none = true
same_controller (some a) (some b) =
    a.enabled == b.enabled
    && a.listen == b.listen
    && a.database == b.database
    && a.key_file == b.key_file
    && a.allowed_node_cidrs == b.allowed_node_cidrs
same_controller _ _ = false

-- The comparison of two configurations that have their defaults.
unfoldable pub needs_restart : Config → Config → Bool
needs_restart a b =
    not (a.server.hostname == b.server.hostname)
    || not (a.setup_required == b.setup_required)
    || not (a.server.management_listen == b.server.management_listen)
    || not (same_derp a.server.derp b.server.derp)
    || not (a.server.admin_socket == b.server.admin_socket)
    || not (a.server.health_listen == b.server.health_listen)
    || not (a.storage_dir == b.storage_dir)
    || not (same_controller a.controller b.controller)
    || not (same_node a.node b.node)

unfoldable pub restart_only_changed : NetEnv → Config → Config → Bool
restart_only_changed net a b = needs_restart (normalize net a) (normalize net b)
