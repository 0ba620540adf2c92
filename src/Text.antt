-- ===== src/Text.antt =====
-- What the sources use of Go's package strings, on native text. `len` of a text is its length in
-- bytes, as in Go.
use Prim.Native.Char.{Char, code}
use Prim.Native.Nat.{Ordering}
use Prim.Native.String.{compare}
use multi_derp.Base.{
  Bool, List, String, [], bool_eq, false, if◌then◌else◌, leb, len, list_eq, nat_eq, option_eq,
  string_eq, true, ℕ, ◌&&◌, ◌+◌, ◌==◌, ◌||◌, ◌∷◌,
}

-- `unicode.IsSpace`.
unfoldable pub is_space : ℕ → Bool
is_space c =
    leb 9 c && leb c 13
    || c == 32
    || c == 0x85
    || c == 0xa0
    || c == 0x1680
    || leb 0x2000 c && leb c 0x200a
    || c == 0x2028
    || c == 0x2029
    || c == 0x202f
    || c == 0x205f
    || c == 0x3000

abbrev pub is_empty : String → Bool
is_empty String.[] = true
is_empty (String.◌∷◌ c s) = false

unfoldable pub trim_left : String → String
trim_left String.[] = ""
trim_left (String.◌∷◌ c s) =
    let rest = trim_left s in if is_space (code c) then rest else String.◌∷◌ c s

unfoldable pub trim_right : String → String
trim_right String.[] = ""
trim_right (String.◌∷◌ c s) =
    let rest = trim_right s in if is_empty rest && is_space (code c) then "" else String.◌∷◌ c rest

-- `strings.TrimSpace`.
unfoldable pub trim_space : String → String
unfolding is_space trim_left trim_right
trim_space s = trim_right (trim_left s)

unfoldable pub all_chars : (ℕ → Bool) → String → Bool
all_chars p String.[] = true
all_chars p (String.◌∷◌ c s) = p (code c) && all_chars p s

unfoldable pub is_hex : ℕ → Bool
is_hex c = leb b'0' c && leb c b'9' || leb b'a' c && leb c b'f' || leb b'A' c && leb c b'F'

-- `hex.DecodeString` gives 32 bytes.
unfoldable pub is_hex_token : String → Bool
unfolding is_hex all_chars
is_hex_token s = all_chars is_hex s && len s == 64

-- Order of texts by code points, as SQLite's `ORDER BY` on text.
abbrev pub text_le : String → String → Bool
text_le a b = elim (compare a b) [ Ordering.gt ↦ false | _ ↦ true ]

-- One letter under SQLite's collation `NOCASE`, which folds the letters of ASCII only.
abbrev pub fold_case : ℕ → ℕ
fold_case c = if leb b'A' c && leb c b'Z' then c + 32 else c

unfoldable pub same_nocase : String → String → Bool
same_nocase String.[] String.[] = true
same_nocase String.[] (String.◌∷◌ d t) = false
same_nocase (String.◌∷◌ c s) String.[] = false
same_nocase (String.◌∷◌ c s) (String.◌∷◌ d t) =
    fold_case (code c) == fold_case (code d) && same_nocase s t

abbrev add_first : Char → List String → List String
add_first c [] = String.◌∷◌ c "" ∷ []
add_first c (part ∷ parts) = String.◌∷◌ c part ∷ parts

-- The parts of a text between the marks, as strings.Split.
unfoldable pub split_on : ℕ → String → List String
split_on mark String.[] = "" ∷ []
split_on mark (String.◌∷◌ c s) =
    let rest = split_on mark s in if code c == mark then "" ∷ rest else add_first c rest

-- `strings.TrimSuffix(s, ".")`.
unfoldable pub trim_dot : String → String
trim_dot String.[] = ""
trim_dot (String.◌∷◌ c s) =
    let rest = trim_dot s in if is_empty s && code c == b'.' then "" else String.◌∷◌ c rest

unfoldable pub has_char : (ℕ → Bool) → String → Bool
has_char p String.[] = false
has_char p (String.◌∷◌ c s) = p (code c) || has_char p s

abbrev pub starts_with : (ℕ → Bool) → String → Bool
starts_with p String.[] = false
starts_with p (String.◌∷◌ c s) = p (code c)

unfoldable pub ends_with : (ℕ → Bool) → String → Bool
ends_with p String.[] = false
ends_with p (String.◌∷◌ c s) = let rest = ends_with p s in if is_empty s then p (code c) else rest

abbrev pub is_alnum : ℕ → Bool
is_alnum c = leb b'0' c && leb c b'9' || leb b'a' c && leb c b'z' || leb b'A' c && leb c b'Z'
