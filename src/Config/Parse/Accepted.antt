-- ===== src/Config/Parse/Accepted.antt =====
-- internal/config/config.go: what is known of a configuration that was read.
use multi_derp.Base.{
  >>=-eq-ok, Bool-cases, List, Option, String, [], ap, arith, eq_iff, fail_if, inl, inr,
  nat_beq_iff, none, not, ok, or_fail, or_fail-some, refl, some, sym, true, ◌∙◌, ◌∷◌, ◌≡◌, ◌⊎◌,
}
use multi_derp.Config.{
  Config, NetEnv, bad_fields, bad_yaml, current_version, default, empty_config, normalize,
  not_a_mapping, not_an_integer, validate, version_missing,
}
use multi_derp.Config.Defaults.{normalize-twice}
use multi_derp.Config.Parse.{
  ParseResult, YamlDecoder, check_version, is_int, is_mapping, no_tailnets, parse, parse_document,
  parse_documents,
}
use multi_derp.Config.Yaml.{
  Pairs, Yaml, YamlEnv, alias, branch, collect_unknown_fields, empty_node, is_empty_document,
  mapping, mapping_value, no_pairs, pair, reject_duplicate_keys, root_schema, scalar, sequence,
}
use multi_derp.Config.Yaml.Keys.{passes, reject_duplicate_keys-unique_keys, unique_keys}
use multi_derp.Text.{trim_space}

module _ (net : NetEnv) (env : YamlEnv) (yaml : YamlDecoder) where
  no_list_left : (local : Option Yaml) → no_tailnets local ≡ ok tt → local ≡ none
  unfolding no_tailnets
  no_list_left local h = ground (arith, h)

  -- What a configuration takes from a tree: the tree is a mapping without a key twice and without
  -- tailnets, of the current version, and the configuration is what the tree decodes to, with its
  -- defaults, and passes the checks.
  pub record IsRead (root : Yaml) (r : ParseResult) : Type 0 where
    pub pairs : Pairs
    pub is_map : root ≡ mapping pairs
    pub unique : unique_keys root ≡ true
    pub version : Yaml
    pub version_found : mapping_value "version" root ≡ some version
    pub version_current : yaml.decode_int version ≡ some 2
    pub unlisted : mapping_value "tailnets" root ≡ none
    pub decoded : Config
    pub decodes : yaml.decode_config root ≡ some decoded
    pub filled : r.config ≡ normalize net decoded
    pub valid : validate net r.config ≡ ok tt

  -- A document that says nothing.
  pub data IsBlank (root : Yaml) : Type 0 where
    blank_node : root ≡ empty_node → IsBlank root
    blank_map : root ≡ mapping no_pairs → IsBlank root
    blank_scalar :
        (tag value : String)
        → root ≡ scalar tag value
        → (tag ≡ "!!null") ⊎ (trim_space value ≡ "")
        → IsBlank root

  is_empty_document-IsBlank : (root : Yaml) → is_empty_document root ≡ true → IsBlank root
  unfolding is_empty_document
  is_empty_document-IsBlank empty_node h = blank_node refl
  is_empty_document-IsBlank (mapping no_pairs) h = blank_map refl
  is_empty_document-IsBlank (mapping (pair key value ps)) h = absurd (ground (arith, h))
  is_empty_document-IsBlank (scalar tag value) h =
      blank_scalar tag value refl
        (ground (arith, h, eq_iff tag "!!null", eq_iff (trim_space value) ""))
  is_empty_document-IsBlank (sequence xs) h = absurd (ground (arith, h))
  is_empty_document-IsBlank (alias name) h = absurd (ground (arith, h))

  is_mapping-pairs : (root : Yaml) → is_mapping root ≡ true → (ps : Pairs) × (root ≡ mapping ps)
  is_mapping-pairs empty_node h = absurd (ground (arith, h))
  is_mapping-pairs (mapping ps) h = (ps, refl)
  is_mapping-pairs (scalar tag value) h = absurd (ground (arith, h))
  is_mapping-pairs (sequence xs) h = absurd (ground (arith, h))
  is_mapping-pairs (alias name) h = absurd (ground (arith, h))

  check_version-current :
      (root : Yaml)
      → check_version net env yaml root ≡ ok tt
      → (v : Yaml) × (mapping_value "version" root ≡ some v) × (yaml.decode_int v ≡ some 2)
  unfolding check_version
  check_version-current root h =
      let (v, e₀, h₀) = >>=-eq-ok (or_fail (mapping_value "version" root) version_missing) _ h in
      let (x₁, e₁, h₁) = >>=-eq-ok (fail_if (not (is_int v)) not_an_integer) _ h₀ in
      let (n, e₂, h₂) = >>=-eq-ok (or_fail (yaml.decode_int v) not_an_integer) _ h₁ in
      let two : n ≡ 2 = ground (arith, h₂, nat_beq_iff n current_version) in
      (v, or_fail-some _ _ e₀, or_fail-some _ _ e₂ ∙ ap some two)

  parse_document-IsRead :
      (root : Yaml) (r : ParseResult)
      → parse_document net env yaml root ≡ ok r
      → IsRead root r × (normalize net r.config ≡ r.config)
  unfolding parse_document
  parse_document-IsRead root r h =
      let (x₀, e₀, h₀) = >>=-eq-ok (fail_if (not (is_mapping root)) not_a_mapping) _ h in
      let (x₁, e₁, h₁) = >>=-eq-ok (reject_duplicate_keys env root "") _ h₀ in
      let (x₂, e₂, h₂) = >>=-eq-ok (check_version net env yaml root) _ h₁ in
      let (x₃, e₃, h₃) = >>=-eq-ok (no_tailnets (mapping_value "tailnets" root)) _ h₂ in
      let (warnings, e₄, h₄) =
        >>=-eq-ok (collect_unknown_fields env root "" (branch root_schema) []) _ h₃ in
      let (decoded, e₅, h₅) = >>=-eq-ok (or_fail (yaml.decode_config root) bad_fields) _ h₄ in
      let (x₆, e₆, h₆) = >>=-eq-ok (validate net (normalize net decoded)) _ h₅ in
      let same : normalize net decoded ≡ r.config = ground (arith, h₆) in
      let (ps, is_map) = is_mapping-pairs root (ground (arith, e₀)) in
      let (v, found, current) = check_version-current root e₂ in
      (
        record {
          pairs = ps;
          is_map = is_map;
          unique = ground (arith, reject_duplicate_keys-unique_keys env root "", ap passes e₁);
          version = v;
          version_found = found;
          version_current = current;
          unlisted = no_list_left (mapping_value "tailnets" root) e₃;
          decoded = decoded;
          decodes = or_fail-some _ _ e₅;
          filled = sym same;
          valid = rw same at e₆;
        },
        rw (← same) (normalize-twice net decoded),
      )

  default-normal : normalize net (default net) ≡ default net
  unfolding default
  default-normal = normalize-twice net (empty_config net)

  -- Where a configuration that was read comes from.
  pub data Origin (docs : List Yaml) (r : ParseResult) : Type 0 where
    by_default :
        (docs ≡ []) ⊎ ((root : Yaml) × (docs ≡ root ∷ []) × IsBlank root)
        → r.config ≡ default net
        → Origin docs r
    by_tree : (root : Yaml) → docs ≡ root ∷ [] → IsRead root r → Origin docs r

  parse_documents-accepted :
      (docs : List Yaml) (r : ParseResult)
      → parse_documents net env yaml docs ≡ ok r
      → (normalize net r.config ≡ r.config) × Origin docs r
  unfolding parse_documents
  parse_documents-accepted [] r h =
      let same : r.config ≡ default net = ground (arith, h) in
      (rw same default-normal, by_default (inl refl) same)
  parse_documents-accepted (root ∷ y ∷ rest) r h = absurd (ground (arith, h))
  parse_documents-accepted (root ∷ []) r h = elim (Bool-cases (is_empty_document root)) [
    | inl nothing_there ↦
        let same : r.config ≡ default net = ground (arith, h, nothing_there) in
        let blank = is_empty_document-IsBlank root nothing_there in
        (rw same default-normal, by_default (inr (root, refl, blank)) same)
    | inr something ↦
        let (read, filled) = parse_document-IsRead root r (ground (arith, h, something)) in
        (filled, by_tree root refl read)
  ]

  -- A configuration that was read has its defaults. Either it is the default one and the text holds no
  -- document or a blank one, or the text holds a single tree, a mapping of the current version that
  -- lists no tailnets and has no key twice in a mapping, and the configuration is what that tree
  -- decodes to with its defaults filled in, and passes the checks.
  pub parse-accepted :
      (text : String) (r : ParseResult)
      → parse net env yaml text ≡ ok r
      → (normalize net r.config ≡ r.config)
        × ((docs : List Yaml) × (yaml.documents text ≡ some docs) × Origin docs r)
  unfolding parse
  parse-accepted text r h =
      let (docs, e, h') = >>=-eq-ok (or_fail (yaml.documents text) bad_yaml) _ h in
      let (filled, origin) = parse_documents-accepted docs r h' in
      (filled, (docs, or_fail-some _ _ e, origin))
