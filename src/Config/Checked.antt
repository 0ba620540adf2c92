-- ===== src/Config/Checked.antt =====
-- internal/config/config.go: what the checks promise.
use multi_derp.Base.{
  >>=-eq-ok, Bool-cases, arith, bool_eq, eq_iff, fail_if, false, if◌then◌else◌, inl, inr, length,
  list_eq, nat_beq_iff, nat_eq, not, ok, option_beq_iff, option_eq, or_fail, or_fail-some, some,
  string_eq, true, ◌&&◌, ◌==◌, ◌||◌, ◌≡◌, ◌≢◌, ◌≤◌, ◌⊎◌,
}
use multi_derp.Config.{
  Config, ControllerConfig, DerpConfig, NetEnv, NodeConfig, bad_cert_mode, bad_node_ports,
  bad_tls_mode, check_addresses, check_controller, check_external, check_member, check_node,
  check_passthrough, check_tls, cidrs_of, current_version, external_cert, external_port, host_of,
  is_cert_mode, is_origin, member_storage, nested_controller, no_controller, no_database,
  not_loopback, out_of_range, passthrough_cert, passthrough_dir, port_of, validate,
  validate_listen_address, wrong_version,
}
use multi_derp.Text.{trim_space}

module _ (net : NetEnv) where
  -- Who holds the certificate: a proxy in front, or the relay itself on port 443 unless its
  -- certificate is a file.
  pub data IsServed (d : DerpConfig) : Type 0 where
    by_proxy :
        d.tls_mode ≡ "external"
        → (d.cert_mode ≡ "") ⊎ (d.cert_mode ≡ "none")
        → d.cert_dir ≡ ""
        → (port_of net d.listen == some 443) ≡ false
        → IsServed d
    by_file : d.tls_mode ≡ "passthrough" → d.cert_mode ≡ "manual" → d.cert_dir ≢ "" → IsServed d
    by_authority :
        d.tls_mode ≡ "passthrough"
        → d.cert_mode ≡ "letsencrypt"
        → d.cert_dir ≢ ""
        → port_of net d.listen ≡ some 443
        → IsServed d

  -- No part of a controller is set up.
  pub record KeepsNothing (k : ControllerConfig) : Type 0 where
    pub no_listen : k.listen ≡ ""
    pub no_tables : k.database ≡ ""
    pub no_key : k.key_file ≡ ""
    pub no_networks : length (cidrs_of net k.allowed_node_cidrs) ≡ 0

  -- Who controls the node: itself, from its own machine only, or another controller, or nobody yet.
  pub data IsControlled (k : ControllerConfig) (n : NodeConfig) : Type 0 where
    by_itself :
        k.enabled ≡ true
        → n.controller_url ≡ ""
        → trim_space k.database ≢ ""
        → trim_space k.key_file ≢ ""
        → net.is_loopback (host_of net k.listen) ≡ true
        → IsControlled k n
    by_other :
        k.enabled ≡ false
        → KeepsNothing k
        → is_origin net (net.parse_url n.controller_url) ≡ true
        → IsControlled k n
    by_nobody : k.enabled ≡ false → KeepsNothing k → n.controller_url ≡ "" → IsControlled k n

  check_controller-IsControlled :
      (k : ControllerConfig) (n : NodeConfig)
      → k.enabled ≡ true
      → check_controller net k n ≡ ok tt
      → IsControlled k n
  unfolding check_controller
  check_controller-IsControlled k n on h =
      let (x₀, e₀, h₀) = >>=-eq-ok (fail_if (not (n.controller_url == "")) nested_controller) _ h in
      let (x₁, e₁, h₁) =
        >>=-eq-ok (fail_if (trim_space k.database == "" || trim_space k.key_file == "") no_database)
          _ h₀ in
      let (x₂, e₂, h₂) =
        >>=-eq-ok (validate_listen_address net k.listen "controller.listen") _ h₁ in
      let (x₃, e₃, h₃) =
        >>=-eq-ok
          (fail_if
            (not (net.is_ip (host_of net k.listen)) || not (net.is_loopback (host_of net k.listen)))
            not_loopback)
          _ h₂ in
      by_itself on (ground (arith, e₀, eq_iff n.controller_url ""))
        (λ e. absurd (ground (arith, e, e₁, eq_iff (trim_space k.database) "")))
        (λ e. absurd (ground (arith, e, e₁, eq_iff (trim_space k.key_file) "")))
        (ground (arith, e₃))

  check_member-IsControlled :
      (k : ControllerConfig) (n : NodeConfig)
      → k.enabled ≡ false
      → check_member net k n ≡ ok tt
      → IsControlled k n
  unfolding check_member
  check_member-IsControlled k n off h =
      let (x₀, e₀, h₀) =
        >>=-eq-ok
          (fail_if
            (not (k.listen == "")
              || not (k.database == "")
              || not (k.key_file == "")
              || not (length (cidrs_of net k.allowed_node_cidrs) == 0))
            member_storage)
          _ h in
      let nothing : KeepsNothing k = record {
        no_listen = ground (arith, e₀, eq_iff k.listen "");
        no_tables = ground (arith, e₀, eq_iff k.database "");
        no_key = ground (arith, e₀, eq_iff k.key_file "");
        no_networks =
            ground (arith, e₀, nat_beq_iff (length (cidrs_of net k.allowed_node_cidrs)) 0);
      } in
      elim (Bool-cases (n.controller_url == "")) [
        | inl none_url ↦
            by_nobody off nothing (ground (arith, none_url, eq_iff n.controller_url ""))
        | inr some_url ↦ by_other off nothing (ground (arith, h₀, some_url))
      ]

  check_tls-IsServed : (d : DerpConfig) → check_tls net d ≡ ok tt → IsServed d
  unfolding check_tls check_external check_passthrough
  check_tls-IsServed d h =
      let (x₀, e₀, h₀) =
        >>=-eq-ok
          (fail_if (not (d.tls_mode == "external") && not (d.tls_mode == "passthrough"))
            bad_tls_mode)
          _ h in
      let (x₁, e₁, h₁) =
        >>=-eq-ok (fail_if (not (is_cert_mode net d.cert_mode)) bad_cert_mode) _ h₀ in
      elim (Bool-cases (d.tls_mode == "external")) [
        | inl outside ↦
            let h₂ : check_external net d ≡ ok tt = rw outside at h₁ in
            let (x₃, e₃, h₃) =
              >>=-eq-ok (fail_if (port_of net d.listen == some 443) external_port) _ h₂ in
            let (x₄, e₄, h₄) =
              >>=-eq-ok
                (fail_if (not (d.cert_mode == "") && not (d.cert_mode == "none")) external_cert) _
                h₃ in
            by_proxy (ground (arith, outside, eq_iff d.tls_mode "external"))
              (ground (arith, e₄, eq_iff d.cert_mode "", eq_iff d.cert_mode "none"))
              (ground (arith, h₄, eq_iff d.cert_dir "")) (ground (arith, e₃))
        | inr inside ↦
            let h₂ : check_passthrough net d ≡ ok tt = rw inside at h₁ in
            let mode : d.tls_mode ≡ "passthrough" =
              ground (arith, e₀, inside, eq_iff d.tls_mode "passthrough") in
            let (x₃, e₃, h₃) =
              >>=-eq-ok
                (fail_if (not (d.cert_mode == "manual") && not (d.cert_mode == "letsencrypt"))
                  passthrough_cert)
                _ h₂ in
            let (x₄, e₄, h₄) = >>=-eq-ok (fail_if (d.cert_dir == "") passthrough_dir) _ h₃ in
            let filled : d.cert_dir ≢ "" =
              λ e. absurd (ground (arith, e, e₄, eq_iff d.cert_dir "")) in
            elim (Bool-cases (d.cert_mode == "manual")) [
              | inl by_hand ↦
                  by_file mode (ground (arith, by_hand, eq_iff d.cert_mode "manual")) filled
              | inr other ↦
                  by_authority mode (ground (arith, other, e₃, eq_iff d.cert_mode "letsencrypt"))
                    filled
                    (ground (arith, h₄, other, option_beq_iff (port_of net d.listen) (some 443)))
            ]
      ]

  -- A configuration that is accepted is of the current version, its public ports are ports, it names
  -- a consistent holder of its certificate, and it is controlled from its own machine, by one other
  -- controller, or by nobody yet; in the last two cases no part of a controller is set up here.
  pub validate-IsServed :
      (c : Config)
      → validate net c ≡ ok tt
      → (c.version ≡ 2)
        × (1 ≤ c.node.derp_port)
        × (c.node.derp_port ≤ 65535)
        × (1 ≤ c.node.stun_port)
        × (c.node.stun_port ≤ 65535)
        × IsServed c.server.derp
        × ((k : ControllerConfig) × (c.controller ≡ some k) × IsControlled k c.node)
  unfolding validate
  validate-IsServed c h =
      let (x₀, e₀, h₀) =
        >>=-eq-ok (fail_if (not (c.version == current_version)) wrong_version) _ h in
      let (k, e₁, h₁) = >>=-eq-ok (or_fail c.controller no_controller) _ h₀ in
      let (x₂, e₂, h₂) =
        >>=-eq-ok (if k.enabled then check_controller net k c.node else check_member net k c.node) _
          h₁ in
      let (x₃, e₃, h₃) =
        >>=-eq-ok
          (fail_if (out_of_range net c.node.derp_port || out_of_range net c.node.stun_port)
            bad_node_ports)
          _ h₂ in
      let (x₄, e₄, h₄) =
        >>=-eq-ok
          (if c.server.management_listen == ""
            then ok tt
            else validate_listen_address net c.server.management_listen "server.management.listen")
          _ h₃ in
      let (x₅, e₅, h₅) = >>=-eq-ok (check_node net c.node) _ h₄ in
      let (x₆, e₆, h₆) = >>=-eq-ok (check_addresses net c.server) _ h₅ in
      let (x₇, e₇, h₇) = >>=-eq-ok (check_tls net c.server.derp) _ h₆ in
      let controlled : IsControlled k c.node = elim (Bool-cases k.enabled) [
        | inl on ↦ check_controller-IsControlled k c.node on (rw on at e₂)
        | inr off ↦ check_member-IsControlled k c.node off (rw off at e₂)
      ] in
      (
        ground (arith, e₀, nat_beq_iff c.version current_version),
        ground (arith, e₃),
        ground (arith, e₃),
        ground (arith, e₃),
        ground (arith, e₃),
        check_tls-IsServed c.server.derp e₇,
        (k, or_fail-some _ _ e₁, controlled),
      )
