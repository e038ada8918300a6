-- ===== src/Text/Hostname.antt =====
-- The hostname check that crates/core/src/domain_set.rs (`normalize_domain`), crates/dns/src/lib.rs
-- (`normalize_name`) and crates/compat/src/lib.rs (`parse_domain`) spell out in the same words.
use commeatus.Prelude.{
  ℕ, Bool, true, false, not, ◌||◌, Option, none, some, [], ◌∷◌, ltb, if◌then◌else◌, Bytes, length,
  any,
}
use commeatus.Text.{dot, trim, to_ascii_lowercase, is_ascii, split}

abbrev pub max_domain_length : ℕ
max_domain_length = 253

abbrev pub is_empty : Bytes → Bool
is_empty [] = true
is_empty (c ∷ cs) = false

abbrev pub bad_label : Bytes → Bool
bad_label label = is_empty label || ltb 63 (length label)

-- The name, trimmed of dots and in lower case, if it passes; the callers differ in their errors.
unfoldable pub hostname : Bytes → Option Bytes
hostname text =
    let name = to_ascii_lowercase (trim dot text) in
    if is_empty name
      || ltb max_domain_length (length name)
      || not (is_ascii name)
      || any bad_label (split dot name)
    then none
    else some name
