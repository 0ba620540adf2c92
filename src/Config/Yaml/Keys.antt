-- ===== src/Config/Yaml/Keys.antt =====
-- internal/config/config.go: the search for keys that occur twice.
use multi_derp.Base.{
  Bool, List, Result, String, [], arith, bool_eq, contains, eq_iff, err, fail_if, false,
  if◌then◌else◌, list_eq, nat_eq, not, ok, option_eq, refl, string_eq, true, ℕ, ◌&&◌, ◌+◌, ◌==◌,
  ◌>>◌, ◌∷◌, ◌≡◌,
}
use multi_derp.Config.{ConfigError, duplicate_key}
use multi_derp.Config.Yaml.{
  Children, Pairs, Yaml, YamlEnv, alias, child_path, empty_node, item, mapping, no_items, no_pairs,
  pair, reject_duplicate_items, reject_duplicate_keys, reject_duplicate_pairs, scalar, sequence,
}

-- Whether something ended without an error.
abbrev pub passes : Result ConfigError (Unit {0}) → Bool
passes (ok x) = true
passes (err e) = false

-- All keys of a mapping.
abbrev pub keys_of : Pairs → List String
keys_of no_pairs = []
keys_of (pair key value ps) = key ∷ keys_of ps

abbrev pub no_repeats : List String → Bool
no_repeats [] = true
no_repeats (key ∷ keys) = not (contains keys key) && no_repeats keys

-- No mapping in a tree has a key twice.
unfoldable mutual
  pub unique_keys : Yaml → Bool
  unique_keys (mapping ps) = no_repeats (keys_of ps) && unique_pairs ps
  unique_keys (sequence xs) = unique_items xs
  unique_keys empty_node = true
  unique_keys (scalar tag value) = true
  unique_keys (alias name) = true

  pub unique_pairs : Pairs → Bool
  unique_pairs no_pairs = true
  unique_pairs (pair key value ps) = unique_keys value && unique_pairs ps

  pub unique_items : Children → Bool
  unique_items no_items = true
  unique_items (item value xs) = unique_keys value && unique_items xs

-- No key of a list is among those seen.
abbrev none_seen : List String → List String → Bool
none_seen seen [] = true
none_seen seen (key ∷ keys) = not (contains seen key) && none_seen seen keys

none_seen-nil : (keys : List String) → none_seen [] keys ≡ true
none_seen-nil [] = refl
none_seen-nil (key ∷ keys) = none_seen-nil keys

none_seen-cons :
    (key : String) (seen keys : List String)
    → none_seen (key ∷ seen) keys ≡ (not (contains keys key) && none_seen seen keys)
none_seen-cons key seen [] = refl
none_seen-cons key seen (k ∷ keys) =
    ground (arith, none_seen-cons key seen keys, eq_iff key k, eq_iff k key)

passes-then :
    (first rest : Result ConfigError (Unit {0}))
    → passes (first >> rest) ≡ (passes first && passes rest)
passes-then (ok x) rest = refl
passes-then (err e) rest = refl

passes-fail_if : (b : Bool) (e : ConfigError) → passes (fail_if b e) ≡ not b
passes-fail_if true e = refl
passes-fail_if false e = refl

module _ (env : YamlEnv) where
  mutual
    unfolding reject_duplicate_keys reject_duplicate_pairs reject_duplicate_items unique_keys
        unique_pairs unique_items

    tree_passes :
        (y : Yaml) (path : String) → passes (reject_duplicate_keys env y path) ≡ unique_keys y
    tree_passes (mapping ps) path =
        ground (arith, pairs_pass [] ps path, none_seen-nil (keys_of ps))
    tree_passes (sequence xs) path = items_pass 0 xs path
    tree_passes empty_node path = refl
    tree_passes (scalar tag value) path = refl
    tree_passes (alias name) path = refl

    pairs_pass :
        (seen : List String) (ps : Pairs) (path : String)
        → passes (reject_duplicate_pairs env seen ps path)
          ≡ (none_seen seen (keys_of ps) && no_repeats (keys_of ps) && unique_pairs ps)
    pairs_pass seen no_pairs path = refl
    pairs_pass seen (pair key value ps) path =
        rw
          (
            passes-then
                (fail_if (contains seen key)
                  (duplicate_key (if path == "" then "<root>" else path)))
                (reject_duplicate_keys env value (child_path path key)
                  >> reject_duplicate_pairs env (key ∷ seen) ps path),
            passes-then (reject_duplicate_keys env value (child_path path key))
                (reject_duplicate_pairs env (key ∷ seen) ps path),
            passes-fail_if (contains seen key)
                (duplicate_key (if path == "" then "<root>" else path)),
            tree_passes value (child_path path key),
            pairs_pass (key ∷ seen) ps path,
            none_seen-cons key seen (keys_of ps),
          )
          (ground arith)

    items_pass :
        (i : ℕ) (xs : Children) (path : String)
        → passes (reject_duplicate_items env i xs path) ≡ unique_items xs
    items_pass i no_items path = refl
    items_pass i (item value xs) path =
        rw
          (
            passes-then (reject_duplicate_keys env value (env.item_path path i))
                (reject_duplicate_items env (i + 1) xs path),
            tree_passes value (env.item_path path i),
            items_pass (i + 1) xs path,
          )
          refl

  -- The search for keys that occur twice passes exactly the trees in which no mapping, however deep,
  -- has a key twice.
  pub reject_duplicate_keys-unique_keys :
      (y : Yaml) (path : String) → passes (reject_duplicate_keys env y path) ≡ unique_keys y
  reject_duplicate_keys-unique_keys y path = tree_passes y path
