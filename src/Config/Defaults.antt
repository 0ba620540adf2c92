-- ===== src/Config/Defaults.antt =====
-- internal/config/config.go: the defaults fill what is missing, once.
use multi_derp.Base.{Bool-cases, String, arith, eq_iff, inl, inr, nat_beq_iff, refl, ℕ, ◌≡◌}
use multi_derp.Config.{
  Config, ControllerConfig, DerpConfig, NetEnv, current_version, normalize, normalize_controller,
  normalize_derp, or_no_cert, or_number, or_text, with_controller,
}

or_text-twice : (s preset : String) → or_text (or_text s preset) preset ≡ or_text s preset
unfolding or_text
or_text-twice s preset = ground (arith, eq_iff preset "")

or_number-twice : (n preset : ℕ) → or_number (or_number n preset) preset ≡ or_number n preset
unfolding or_number
or_number-twice n preset = ground (arith, nat_beq_iff preset 0)

or_no_cert-twice :
    (mode cert : String) → or_no_cert mode (or_no_cert mode cert) ≡ or_no_cert mode cert
unfolding or_no_cert
or_no_cert-twice mode cert = ground (arith, eq_iff "none" "")

module _ (net : NetEnv) where
  normalize_controller-twice :
      (dir : String) (c : ControllerConfig)
      → normalize_controller net dir (normalize_controller net dir c)
        ≡ normalize_controller net dir c
  unfolding normalize_controller
  normalize_controller-twice dir c = elim (Bool-cases c.enabled) [
    | inl on ↦ rw on (
        rw
          (
            or_text-twice c.listen "127.0.0.1:3341",
            or_text-twice c.database (net.join_path dir "controller.sqlite"),
            or_text-twice c.key_file (net.join_path dir "controller.key"),
          )
          refl)
    | inr off ↦ ground (arith, off)
  ]

  normalize_derp-twice :
      (d : DerpConfig) → normalize_derp net (normalize_derp net d) ≡ normalize_derp net d
  normalize_derp-twice d =
      rw
        (
          or_text-twice d.listen ":3377",
          or_text-twice d.stun_listen ":3478",
          or_text-twice d.tls_mode "external",
          or_no_cert-twice (or_text d.tls_mode "external") d.cert_mode,
        )
        refl

  -- Filling in the defaults a second time changes nothing.
  pub normalize-twice : (c : Config) → normalize net (normalize net c) ≡ normalize net c
  unfolding normalize
  normalize-twice c =
      rw
        (
          normalize_derp-twice c.server.derp,
          or_text-twice c.storage_dir "/data",
          or_number-twice c.version current_version,
          or_text-twice c.server.admin_socket "/run/uniderp/admin.sock",
          or_text-twice c.server.health_listen "127.0.0.1:9090",
          or_text-twice c.node.state_dir (net.join_path (or_text c.storage_dir "/data") "node"),
          or_number-twice c.node.derp_port 443,
          or_number-twice c.node.stun_port 3478,
          or_text-twice c.logging_level "info",
          normalize_controller-twice (or_text c.storage_dir "/data") (with_controller c.controller),
        )
        refl
