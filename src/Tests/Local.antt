-- ===== src/Tests/Local.antt =====
-- Runs of the local configuration.
use Prim.Native.String.{◌++◌ as join}
use multi_derp.Base.{List, [], false, none, ok, refl, some, sort_by, true, ◌∷◌, ◌≡◌, ◌≤◌}
use multi_derp.Config.{
  Config, ControllerConfig, NetEnv, check_addresses, check_controller, check_external, check_node,
  check_tls, empty_config, normalize, normalize_controller, or_no_cert, or_number, or_text,
  validate, validate_listen_address,
}
use multi_derp.Config.Checked.{IsControlled, IsServed, validate-IsServed}
use multi_derp.Config.Defaults.{normalize-twice}
use multi_derp.Config.Parse.{
  ParseResult, YamlDecoder, check_version, no_tailnets, parse, parse_document, parse_documents,
}
use multi_derp.Config.Parse.Accepted.{Origin, parse-accepted}
use multi_derp.Config.Restart.{needs_restart, restart_only_changed}
use multi_derp.Config.Unchanged.{restart_only_changed-logging}
use multi_derp.Config.Yaml.{
  Yaml, YamlEnv, check_key, collect_unknown_fields, collect_unknown_pairs, find_field,
  is_empty_document, item, mapping, mapping_value, no_items, no_pairs, pair, reject_duplicate_keys,
  reject_duplicate_pairs, replace_dash, scalar, sequence,
}
use multi_derp.Config.Yaml.Keys.{passes, reject_duplicate_keys-unique_keys, unique_keys}
use multi_derp.Text.{is_space, trim_left, trim_right, trim_space}

-- A machine that takes every address as its own.
abbrev net : NetEnv
net = record {
  split_host_port = λ s. some ("127.0.0.1", "9090");
  is_ip = λ s. true;
  is_loopback = λ s. true;
  is_prefix = λ s. true;
  parse_url = λ s. none;
  parse_port = λ s. some 9090;
  join_path = λ a b. join a (join "/" b);
}

abbrev preset : Config
preset = normalize net (empty_config net)

normalize-twice_example : normalize net preset ≡ preset
normalize-twice_example = normalize-twice net (empty_config net)

first-valid : validate net preset ≡ ok tt
unfolding validate normalize normalize_controller or_text or_number or_no_cert check_controller
    validate_listen_address check_node check_addresses check_tls check_external trim_space trim_left
    trim_right is_space
first-valid = refl

validate-IsServed_example :
    (preset.version ≡ 2)
    × (1 ≤ preset.node.derp_port)
    × (preset.node.derp_port ≤ 65535)
    × (1 ≤ preset.node.stun_port)
    × (preset.node.stun_port ≤ 65535)
    × IsServed net preset.server.derp
    × ((k : ControllerConfig) × (preset.controller ≡ some k) × IsControlled net k preset.node)
validate-IsServed_example = validate-IsServed net preset first-valid

abbrev talkative : Config
talkative = record preset { logging_level = "debug" }

first-talkative : restart_only_changed net preset talkative ≡ false
unfolding restart_only_changed needs_restart normalize normalize_controller or_text or_number
    or_no_cert
first-talkative = refl

restart_only_changed-logging_example : normalize net talkative ≡ record (normalize net preset) {
  version = (normalize net talkative).version;
  logging_level = (normalize net talkative).logging_level;
}
restart_only_changed-logging_example =
    restart_only_changed-logging net preset talkative first-talkative

abbrev env : YamlEnv
env = record { to_lower = λ s. s; item_path = λ path i. path }

-- `version: 2`, and a tree with a key twice inside a list.
abbrev small : Yaml
small = mapping (pair "version" (scalar "!!int" "2") no_pairs)

abbrev twice : Yaml
twice = mapping (
    pair "peers" (sequence (item (mapping (pair "a" small (pair "a" small no_pairs))) no_items))
      no_pairs)

reject_duplicate_keys-unique_keys_example :
    passes (reject_duplicate_keys env twice "") ≡ unique_keys twice
reject_duplicate_keys-unique_keys_example = reject_duplicate_keys-unique_keys env twice ""

abbrev decoder : YamlDecoder
decoder = record {
  documents = λ s. some (small ∷ []);
  decode_int = λ y. some 2;
  decode_config = λ y. some (empty_config net);
}

abbrev read : ParseResult
read = record { config = preset; warnings = [] }

first-read : parse net env decoder "version: 2" ≡ ok read
unfolding parse parse_documents is_empty_document parse_document reject_duplicate_keys
    reject_duplicate_pairs check_version mapping_value no_tailnets collect_unknown_fields
    collect_unknown_pairs check_key replace_dash find_field sort_by validate normalize
    normalize_controller or_text or_number or_no_cert check_controller validate_listen_address
    check_node check_addresses check_tls check_external trim_space trim_left trim_right is_space
first-read = refl

parse-accepted_example :
    (normalize net read.config ≡ read.config)
    × ((docs : List Yaml) × (decoder.documents "version: 2" ≡ some docs)
        × Origin net env decoder docs read)
parse-accepted_example = parse-accepted net env decoder "version: 2" read first-read
