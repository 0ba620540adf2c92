-- ===== src/Config.antt =====
-- internal/config/config.go: the local configuration, its defaults and its checks. A struct with a
-- single field is that field. Numbers of the
-- configuration below zero are not represented.
pub mod Defaults
pub mod Checked
pub mod Yaml
pub mod Parse
pub mod Restart
pub mod Unchanged
use multi_derp.Base.{
  Bool, List, Option, Result, String, [], all, bool_eq, fail_if, false, if◌then◌else◌, leb, len,
  length, list_eq, ltb, nat_eq, none, not, ok, option_eq, or_fail, some, string_eq, true, ℕ, ◌&&◌,
  ◌==◌, ◌>>=◌, ◌>>◌, ◌||◌,
}
use multi_derp.Cluster.Validate.{max_int64}
use multi_derp.Text.{all_chars, ends_with, has_char, is_alnum, split_on, starts_with, trim_space}

-- `none` is Go's nil slice, which reflect.DeepEqual tells from an empty one.
pub record ControllerConfig : Type 0 where
  pub enabled : Bool
  pub listen : String
  pub database : String
  pub key_file : String
  pub allowed_node_cidrs : Option (List String)

pub record NodeConfig : Type 0 where
  pub derp_port : ℕ
  pub stun_port : ℕ
  pub controller_url : String
  pub state_dir : String
  pub max_budget_bps : ℕ

pub record DerpConfig : Type 0 where
  pub listen : String
  pub stun_listen : String
  pub tls_mode : String
  pub cert_mode : String
  pub cert_dir : String

pub record ServerConfig : Type 0 where
  pub management_listen : String
  pub hostname : String
  pub derp : DerpConfig
  pub admin_socket : String
  pub health_listen : String

pub record Config : Type 0 where
  pub setup_required : Bool
  pub controller : Option ControllerConfig
  pub node : NodeConfig
  pub version : ℕ
  pub server : ServerConfig
  pub storage_dir : String
  pub logging_level : String

-- What url.Parse tells of a text.
pub record Url : Type 0 where
  pub scheme : String
  pub hostname : String
  pub has_user : Bool
  pub path : String
  pub raw_query : String
  pub force_query : Bool
  pub fragment : String
  pub opaque : String

-- What the source calls of net, netip, net/url, strconv and path/filepath.
pub record NetEnv : Type 0 where
  pub split_host_port : String → Option (String × String)
  pub is_ip : String → Bool
  pub is_loopback : String → Bool
  pub is_prefix : String → Bool
  pub parse_url : String → Option Url
  pub parse_port : String → Option ℕ
  pub join_path : String → String → String

pub data ConfigError : Type 0 where
  wrong_version no_controller nested_controller no_database not_loopback bad_range : ConfigError
  member_storage bad_url bad_node_ports no_node_dir bad_budget bad_hostname : ConfigError
  host_mismatch bad_tls_mode bad_cert_mode external_port external_cert external_dir : ConfigError
  passthrough_cert passthrough_dir passthrough_port no_socket bad_level no_storage : ConfigError
  bad_address : String → ConfigError
  duplicate_key merge_key unsupported_field : String → ConfigError
  bad_yaml not_a_mapping version_missing not_an_integer old_version local_tailnets : ConfigError
  bad_fields : ConfigError

abbrev pub current_version : ℕ
current_version = 2

unfoldable pub or_text : String → String → String
or_text s preset = if s == "" then preset else s

unfoldable pub or_number : ℕ → ℕ → ℕ
or_number n preset = if n == 0 then preset else n

-- An external proxy holds the certificate, so none is the preset.
unfoldable pub or_no_cert : String → String → String
or_no_cert mode cert = if cert == "" && mode == "external" then "none" else cert

abbrev pub new_controller : ControllerConfig
new_controller = record {
  enabled = true;
  listen = "";
  database = "";
  key_file = "";
  allowed_node_cidrs = none;
}

abbrev pub with_controller : Option ControllerConfig → ControllerConfig
with_controller none = new_controller
with_controller (some c) = c

module _ (net : NetEnv) where
  unfoldable pub normalize_controller : String → ControllerConfig → ControllerConfig
  normalize_controller dir c =
      if c.enabled
      then record c {
        listen = or_text c.listen "127.0.0.1:3341";
        database = or_text c.database (net.join_path dir "controller.sqlite");
        key_file = or_text c.key_file (net.join_path dir "controller.key");
      }
      else c

  abbrev pub normalize_derp : DerpConfig → DerpConfig
  normalize_derp d =
      let mode = or_text d.tls_mode "external" in
      record d {
        listen = or_text d.listen ":3377";
        stun_listen = or_text d.stun_listen ":3478";
        tls_mode = mode;
        cert_mode = or_no_cert mode d.cert_mode;
      }

  unfoldable pub normalize : Config → Config
  normalize c =
      let dir = or_text c.storage_dir "/data" in
      record c {
        version = or_number c.version current_version;
        server = record c.server {
          derp = normalize_derp c.server.derp;
          admin_socket = or_text c.server.admin_socket "/run/uniderp/admin.sock";
          health_listen = or_text c.server.health_listen "127.0.0.1:9090";
        };
        storage_dir = dir;
        controller = some (normalize_controller dir (with_controller c.controller));
        node = record c.node {
          state_dir = or_text c.node.state_dir (net.join_path dir "node");
          derp_port = or_number c.node.derp_port 443;
          stun_port = or_number c.node.stun_port 3478;
        };
        logging_level = or_text c.logging_level "info";
      }

  abbrev pub empty_config : Config
  empty_config = record {
    setup_required = false;
    controller = none;
    node = record {
      derp_port = 0;
      stun_port = 0;
      controller_url = "";
      state_dir = "";
      max_budget_bps = 0;
    };
    version = current_version;
    server = record {
      management_listen = "";
      hostname = "";
      derp = record { listen = ""; stun_listen = ""; tls_mode = ""; cert_mode = ""; cert_dir = "" };
      admin_socket = "";
      health_listen = "";
    };
    storage_dir = "";
    logging_level = "";
  }

  unfoldable pub default : Config
  default = normalize empty_config

  unfoldable pub validate_listen_address : String → String → Result ConfigError (Unit {0})
  validate_listen_address address field = do
    fail_if (trim_space address == "") (bad_address field)
    (host, port) ← or_fail (net.split_host_port address) (bad_address field)
    fail_if (port == "") (bad_address field)
    fail_if
        (not (host == "") && not (host == "0.0.0.0") && not (host == "::") && not (net.is_ip host))
        (bad_address field)
    number ← or_fail (net.parse_port port) (bad_address field)
    fail_if (number == 0) (bad_address field)

  -- The host and the port of an address, empty texts where it has none.
  abbrev pub host_of : String → String
  host_of address = elim (net.split_host_port address) [ none ↦ "" | some (host, port) ↦ host ]

  abbrev pub port_of : String → Option ℕ
  port_of address = elim (net.split_host_port address) [
    | none ↦ none
    | some (host, port) ↦ net.parse_port port
  ]

  -- The regular expression `hostnameLabel`.
  unfoldable pub is_host_label : String → Bool
  is_host_label s =
      leb (len s) 63
      && starts_with is_alnum s
      && ends_with is_alnum s
      && all_chars (λ c. is_alnum c || c == b'-') s

  abbrev pub is_break : ℕ → Bool
  is_break c = c == b'/' || c == 92 || c == 32 || c == 9 || c == 13 || c == 10

  unfoldable pub validate_hostname : String → Result ConfigError (Unit {0})
  validate_hostname hostname = do
    fail_if (len hostname == 0 || ltb 253 (len hostname) || has_char is_break hostname) bad_hostname
    fail_if (not (net.is_ip hostname) && not (all is_host_label (split_on b'.' hostname)))
        bad_hostname

  abbrev pub cidrs_of : Option (List String) → List String
  cidrs_of none = []
  cidrs_of (some l) = l

  unfoldable pub check_controller : ControllerConfig → NodeConfig → Result ConfigError (Unit {0})
  check_controller c n = do
    fail_if (not (n.controller_url == "")) nested_controller
    fail_if (trim_space c.database == "" || trim_space c.key_file == "") no_database
    validate_listen_address c.listen "controller.listen"
    fail_if (not (net.is_ip (host_of c.listen)) || not (net.is_loopback (host_of c.listen)))
        not_loopback
    fail_if (not (all net.is_prefix (cidrs_of c.allowed_node_cidrs))) bad_range

  abbrev pub is_origin : Option Url → Bool
  is_origin none = false
  is_origin (some u) =
      u.scheme == "https"
      && not (u.hostname == "")
      && not u.has_user
      && u.path == ""
      && u.raw_query == ""
      && not u.force_query
      && u.fragment == ""
      && u.opaque == ""

  unfoldable pub check_member : ControllerConfig → NodeConfig → Result ConfigError (Unit {0})
  check_member c n = do
    fail_if
        (not (c.listen == "")
          || not (c.database == "")
          || not (c.key_file == "")
          || not (length (cidrs_of c.allowed_node_cidrs) == 0))
        member_storage
    fail_if (not (n.controller_url == "") && not (is_origin (net.parse_url n.controller_url)))
        bad_url

  abbrev pub out_of_range : ℕ → Bool
  out_of_range p = ltb p 1 || ltb 65535 p

  unfoldable pub check_node : NodeConfig → Result ConfigError (Unit {0})
  check_node n = do
    fail_if (trim_space n.state_dir == "") no_node_dir
    fail_if
        (ltb max_int64 n.max_budget_bps || not (n.max_budget_bps == 0) && ltb n.max_budget_bps 8)
        bad_budget

  unfoldable pub check_addresses : ServerConfig → Result ConfigError (Unit {0})
  check_addresses s = do
    if s.hostname == "" then ok tt else validate_hostname s.hostname
    validate_listen_address s.derp.listen "server.derp.listen"
    validate_listen_address s.derp.stun_listen "server.derp.stun_listen"
    fail_if
        (not (host_of s.derp.listen == "")
          && not (host_of s.derp.stun_listen == "")
          && not (host_of s.derp.listen == host_of s.derp.stun_listen))
        host_mismatch

  abbrev pub is_cert_mode : String → Bool
  is_cert_mode m = m == "" || m == "none" || m == "manual" || m == "letsencrypt"

  unfoldable pub check_external : DerpConfig → Result ConfigError (Unit {0})
  check_external d = do
    fail_if (port_of d.listen == some 443) external_port
    fail_if (not (d.cert_mode == "") && not (d.cert_mode == "none")) external_cert
    fail_if (not (d.cert_dir == "")) external_dir

  unfoldable pub check_passthrough : DerpConfig → Result ConfigError (Unit {0})
  check_passthrough d = do
    fail_if (not (d.cert_mode == "manual") && not (d.cert_mode == "letsencrypt")) passthrough_cert
    fail_if (d.cert_dir == "") passthrough_dir
    fail_if (not (d.cert_mode == "manual") && not (port_of d.listen == some 443)) passthrough_port

  unfoldable pub check_tls : DerpConfig → Result ConfigError (Unit {0})
  check_tls d = do
    fail_if (not (d.tls_mode == "external") && not (d.tls_mode == "passthrough")) bad_tls_mode
    fail_if (not (is_cert_mode d.cert_mode)) bad_cert_mode
    if d.tls_mode == "external" then check_external d else check_passthrough d

  abbrev pub is_level : String → Bool
  is_level l = l == "info" || l == "warn" || l == "error" || l == "debug"

  unfoldable pub validate : Config → Result ConfigError (Unit {0})
  validate c = do
    fail_if (not (c.version == current_version)) wrong_version
    k ← or_fail c.controller no_controller
    if k.enabled then check_controller k c.node else check_member k c.node
    fail_if (out_of_range c.node.derp_port || out_of_range c.node.stun_port) bad_node_ports
    if c.server.management_listen == ""
        then ok tt
        else validate_listen_address c.server.management_listen "server.management.listen"
    check_node c.node
    check_addresses c.server
    check_tls c.server.derp
    fail_if (trim_space c.server.admin_socket == "") no_socket
    validate_listen_address c.server.health_listen "server.health.listen"
    fail_if (not (is_level c.logging_level)) bad_level
    fail_if (trim_space c.storage_dir == "") no_storage
