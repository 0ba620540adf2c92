-- ===== src/Config/Yaml.antt =====
-- internal/config/config.go: the tree of a YAML text, and the keys that it may not hold.
pub mod Keys
use Prim.Native.Char.{code}
use Prim.Native.String.{◌++◌ as join}
use multi_derp.Base.{
  Bool, List, Option, Result, String, [], bool_eq, contains, fail_if, false, if◌then◌else◌, list_eq,
  nat_eq, none, ok, option_eq, some, string_eq, true, ℕ, ◌++◌, ◌+◌, ◌==◌, ◌>>=◌, ◌>>◌, ◌||◌, ◌∷◌,
}
use multi_derp.Config.{ConfigError, duplicate_key, merge_key, unsupported_field}
use multi_derp.Text.{trim_space}

-- yaml.Node without its document: a mapping holds pairs of a key's text and a value.
mutual
  pub data Yaml : Type 0 where
    empty_node : Yaml
    scalar : String → String → Yaml
    mapping : Pairs → Yaml
    sequence : Children → Yaml
    alias : String → Yaml

  pub data Pairs : Type 0 where
    no_pairs : Pairs
    pair : String → Yaml → Pairs → Pairs

  pub data Children : Type 0 where
    no_items : Children
    item : Yaml → Children → Children

-- What the source calls: strings.ToLower, and fmt.Sprintf for the path of an item of a list.
pub record YamlEnv : Type 0 where
  pub to_lower : String → String
  pub item_path : String → ℕ → String

abbrev pub child_path : String → String → String
child_path path key = if path == "" then key else join path (join "." key)

unfoldable pub replace_dash : String → String
replace_dash String.[] = ""
replace_dash (String.◌∷◌ c s) =
    if code c == b'-' then join "_" (replace_dash s) else String.◌∷◌ c (replace_dash s)

unfoldable find_pair : String → Pairs → Option Yaml
find_pair key no_pairs = none
find_pair key (pair name value ps) = if name == key then some value else find_pair key ps

unfoldable pub mapping_value : String → Yaml → Option Yaml
unfolding find_pair
mapping_value key (mapping ps) = find_pair key ps
mapping_value key _ = none

unfoldable pub is_empty_document : Yaml → Bool
is_empty_document empty_node = true
is_empty_document (scalar tag value) = tag == "!!null" || trim_space value == ""
is_empty_document (mapping no_pairs) = true
is_empty_document _ = false

-- `unsupportedFields`, without the reasons that its messages give.
abbrev pub unsupported_fields : List String
unsupported_fields =
    "control_url" ∷ "controlurl" ∷ "derp_map" ∷ "derpmap" ∷ "derp_map_file" ∷ "derp_map_url"
    ∷ "mesh_psk_file" ∷ "mesh_with" ∷ "secrets_url" ∷ "verify_client_url" ∷ "verify_clients"
    ∷ "rate_config" ∷ "accept_connection_limit" ∷ "accept_connection_burst" ∷ []

-- `schemaNode`, where a leaf is Go's nil.
mutual
  pub data Schema : Type 0 where
    leaf : Schema
    branch : Fields → Schema

  pub data Fields : Type 0 where
    no_fields : Fields
    schema_field : String → Schema → Fields → Fields

unfoldable pub find_field : String → Fields → Option Schema
find_field key no_fields = none
find_field key (schema_field name child fs) = if name == key then some child else find_field key fs

abbrev pub leaves : List String → Fields
leaves [] = no_fields
leaves (name ∷ names) = schema_field name leaf (leaves names)

abbrev pub server_schema : Fields
server_schema = schema_field "management" (branch (leaves ("listen" ∷ []))) (
    schema_field "hostname" leaf (
      schema_field "derp"
        (branch (leaves ("listen" ∷ "stun_listen" ∷ "tls_mode" ∷ "cert_mode" ∷ "cert_dir" ∷ [])))
        (schema_field "admin" (branch (leaves ("socket" ∷ [])))
          (schema_field "health" (branch (leaves ("listen" ∷ []))) no_fields))))

abbrev pub root_schema : Fields
root_schema = schema_field "setup_required" leaf (
    schema_field "version" leaf (
      schema_field "server" (branch server_schema) (
        schema_field "storage" (branch (leaves ("state_dir" ∷ []))) (
          schema_field "logging" (branch (leaves ("level" ∷ []))) (
            schema_field "controller"
              (branch (
                leaves
                  ("enabled" ∷ "listen" ∷ "database" ∷ "key_file" ∷ "allowed_node_cidrs" ∷ [])))
              (schema_field "node"
                (branch (
                  leaves (
                    "controller_url" ∷ "state_dir" ∷ "max_budget_bps" ∷ "derp_port" ∷ "stun_port"
                    ∷ [])))
                no_fields))))))

module _ (env : YamlEnv) where
  unfoldable mutual
    pub reject_duplicate_keys : Yaml → String → Result ConfigError (Unit {0})
    reject_duplicate_keys (mapping ps) path = reject_duplicate_pairs [] ps path
    reject_duplicate_keys (sequence xs) path = reject_duplicate_items 0 xs path
    reject_duplicate_keys empty_node path = ok tt
    reject_duplicate_keys (scalar tag value) path = ok tt
    reject_duplicate_keys (alias name) path = ok tt

    pub reject_duplicate_pairs : List String → Pairs → String → Result ConfigError (Unit {0})
    reject_duplicate_pairs seen no_pairs path = ok tt
    reject_duplicate_pairs seen (pair key value ps) path =
        fail_if (contains seen key) (duplicate_key (if path == "" then "<root>" else path))
        >> (reject_duplicate_keys value (child_path path key)
            >> reject_duplicate_pairs (key ∷ seen) ps path)

    pub reject_duplicate_items : ℕ → Children → String → Result ConfigError (Unit {0})
    reject_duplicate_items i no_items path = ok tt
    reject_duplicate_items i (item value xs) path =
        reject_duplicate_keys value (env.item_path path i) >> reject_duplicate_items (i + 1) xs path

  -- The two checks on a key that every mapping makes.
  unfoldable pub check_key : String → String → Result ConfigError (Unit {0})
  check_key key path = do
    fail_if (key == "<<") (merge_key path)
    fail_if (contains unsupported_fields (env.to_lower (replace_dash key))) (unsupported_field path)

  unfoldable mutual
    pub reject_unsupported_fields : Yaml → String → Result ConfigError (Unit {0})
    reject_unsupported_fields (mapping ps) path = reject_unsupported_pairs ps path
    reject_unsupported_fields (sequence xs) path = reject_unsupported_items 0 xs path
    reject_unsupported_fields empty_node path = ok tt
    reject_unsupported_fields (scalar tag value) path = ok tt
    reject_unsupported_fields (alias name) path = ok tt

    pub reject_unsupported_pairs : Pairs → String → Result ConfigError (Unit {0})
    reject_unsupported_pairs no_pairs path = ok tt
    reject_unsupported_pairs (pair key value ps) path =
        check_key key (child_path path key)
        >> (reject_unsupported_fields value (child_path path key)
            >> reject_unsupported_pairs ps path)

    pub reject_unsupported_items : ℕ → Children → String → Result ConfigError (Unit {0})
    reject_unsupported_items i no_items path = ok tt
    reject_unsupported_items i (item value xs) path =
        reject_unsupported_fields value (env.item_path path i)
        >> reject_unsupported_items (i + 1) xs path

  -- The warnings so far, and those of a tree under a schema.
  unfoldable mutual
    pub collect_unknown_fields :
        Yaml → String → Schema → List String → Result ConfigError (List String)
    collect_unknown_fields (mapping ps) path (branch keys) warnings =
        collect_unknown_pairs ps path keys warnings
    collect_unknown_fields (mapping ps) path leaf warnings = ok warnings
    collect_unknown_fields (sequence xs) path schema warnings = ok warnings
    collect_unknown_fields empty_node path schema warnings = ok warnings
    collect_unknown_fields (scalar tag value) path schema warnings = ok warnings
    collect_unknown_fields (alias name) path schema warnings = ok warnings

    pub collect_unknown_pairs :
        Pairs → String → Fields → List String → Result ConfigError (List String)
    collect_unknown_pairs no_pairs path keys warnings = ok warnings
    collect_unknown_pairs (pair key value ps) path keys warnings =
        let known =
          λ (schema : Schema). collect_unknown_fields value (child_path path key) schema warnings in
        check_key key (child_path path key)
        >> (elim (find_field key keys) [
          | none ↦
              reject_unsupported_fields value (child_path path key)
              >> ok (warnings ++ join "unknown config field ignored: " (child_path path key) ∷ [])
          | some schema ↦ known schema
        ]
            >>= collect_unknown_pairs ps path keys)
