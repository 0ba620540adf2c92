-- ===== src/Config/Parse.antt =====
-- internal/config/config.go: reading a configuration.
pub mod Accepted
-- What the source calls of package yaml: the documents of a text (or that it is none), a number and
-- a configuration out of a tree.
use multi_derp.Base.{
  Bool, List, Option, Result, String, [], bool_eq, err, fail_if, false, if◌then◌else◌, length,
  list_eq, nat_eq, none, not, ok, option_eq, or_fail, some, sort_by, string_eq, true, ℕ, ◌==◌,
  ◌>>=◌, ◌>>◌, ◌∷◌,
}
use multi_derp.Config.{
  Config, ConfigError, NetEnv, bad_fields, bad_yaml, current_version, default, local_tailnets,
  normalize, not_a_mapping, not_an_integer, old_version, validate, version_missing,
}
use multi_derp.Config.Yaml.{
  Yaml, YamlEnv, branch, collect_unknown_fields, is_empty_document, mapping, mapping_value,
  reject_duplicate_keys, root_schema, scalar,
}
use multi_derp.Text.{text_le}

pub record YamlDecoder : Type 0 where
  pub documents : String → Option (List Yaml)
  pub decode_int : Yaml → Option ℕ
  pub decode_config : Yaml → Option Config

pub record ParseResult : Type 0 where
  pub config : Config
  pub warnings : List String

abbrev pub is_int : Yaml → Bool
is_int (scalar tag value) = tag == "!!int"
is_int _ = false

abbrev pub is_mapping : Yaml → Bool
is_mapping (mapping ps) = true
is_mapping _ = false

unfoldable pub no_tailnets : Option Yaml → Result ConfigError (Unit {0})
no_tailnets none = ok tt
no_tailnets (some y) = err local_tailnets

module _ (net : NetEnv) (env : YamlEnv) (yaml : YamlDecoder) where
  unfoldable pub check_version : Yaml → Result ConfigError (Unit {0})
  check_version root = do
    node ← or_fail (mapping_value "version" root) version_missing
    fail_if (not (is_int node)) not_an_integer
    n ← or_fail (yaml.decode_int node) not_an_integer
    fail_if (not (n == current_version)) old_version

  unfoldable pub parse_document : Yaml → Result ConfigError ParseResult
  parse_document root = do
    fail_if (not (is_mapping root)) not_a_mapping
    reject_duplicate_keys env root ""
    check_version root
    no_tailnets (mapping_value "tailnets" root)
    warnings ← collect_unknown_fields env root "" (branch root_schema) []
    decoded ← or_fail (yaml.decode_config root) bad_fields
    validate net (normalize net decoded)
    ok (record { config = normalize net decoded; warnings = sort_by text_le warnings })

  unfoldable pub parse_documents : List Yaml → Result ConfigError ParseResult
  parse_documents [] = ok (record { config = default net; warnings = [] })
  parse_documents (root ∷ rest) = do
    fail_if (not (length rest == 0)) bad_yaml
    if is_empty_document root
        then ok (record { config = default net; warnings = [] })
        else parse_document root

  unfoldable pub parse : String → Result ConfigError ParseResult
  parse text = do docs ← or_fail (yaml.documents text) bad_yaml; parse_documents docs
