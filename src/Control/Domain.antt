-- ===== src/Control/Domain.antt =====
-- internal/control/domain.go: the domain of a node in its normal form.
use multi_derp.Base.{
  Bool, Result, String, all, bool_eq, fail_if, leb, len, list_eq, ltb, nat_eq, not, ok, option_eq,
  string_eq, ℕ, ◌&&◌, ◌==◌, ◌>>◌, ◌||◌,
}
use multi_derp.Control.Schema.{StoreError, grant_state_eq, invalid, node_state_eq, role_eq}
use multi_derp.Text.{all_chars, ends_with, has_char, split_on, starts_with, trim_dot, trim_space}

-- What the source calls: strings.ToLower, and whether netip.ParseAddr knows a text.
pub record DomainEnv : Type 0 where
  pub to_lower : String → String
  pub is_addr : String → Bool

abbrev pub is_label_char : ℕ → Bool
is_label_char c = leb b'a' c && leb c b'z' || leb b'0' c && leb c b'9' || c == b'-'

unfoldable pub good_label : String → Bool
good_label label =
    not (
      len label == 0
      || ltb 63 (len label)
      || starts_with (λ c. c == b'-') label
      || ends_with (λ c. c == b'-') label)
    && all_chars is_label_char label

module _ (text : DomainEnv) where
  unfoldable pub normalize_node_domain : String → Result StoreError String
  normalize_node_domain raw = do
    let domain = text.to_lower (trim_dot (trim_space raw))
    fail_if (len domain == 0 || ltb 253 (len domain) || not (has_char (λ c. c == b'.') domain))
        invalid
    fail_if (text.is_addr domain) invalid
    fail_if (not (all good_label (split_on b'.' domain))) invalid
    ok domain
