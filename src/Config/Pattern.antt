-- ===== src/Config/Pattern.antt =====
-- src/config/schema.rs: domain patterns; and the functions of `str` that patterns are read with,
-- over the bytes of a string.
use nic_autoswitch.Common.{
  ℕ, Bool, true, false, ◌&&◌, ◌||◌, Option, none, some, [], ◌∷◌, ℕ_discrete, if◌then◌else◌, Text,
  bytes, ◌==◌, Text-discrete, Text-eq, ℕ-eq,
}
use nic_autoswitch.Error.{config, star_missing, star_inside, Result, ok, err}

abbrev pub star : ℕ
star = b'*'

-- `s.starts_with(prefix)`
unfoldable pub starts_with : Text → Text → Bool
unfolding ℕ_discrete
starts_with [] s = true
starts_with (p ∷ ps) [] = false
starts_with (p ∷ ps) (c ∷ s) = p == c && starts_with ps s

-- `s.ends_with(suffix)`: `s` itself, or what follows its first byte, is the suffix.
unfoldable pub ends_with : Text → Text → Bool
unfolding Text-discrete
ends_with suffix [] = suffix == []
ends_with suffix (c ∷ s) = suffix == (c ∷ s) || ends_with suffix s

-- `s.strip_prefix('*')`
unfoldable pub strip_prefix : Text → Option Text
unfolding ℕ_discrete
strip_prefix [] = none
strip_prefix (c ∷ s) = if c == star then some s else none

-- `s.strip_suffix('*')`
unfoldable pub strip_suffix : Text → Option Text
unfolding ℕ_discrete
strip_suffix [] = none
strip_suffix (c ∷ []) = if c == star then some [] else none
strip_suffix (c ∷ d ∷ s) = elim (strip_suffix (d ∷ s)) [ none ↦ none | some r ↦ some (c ∷ r) ]

-- `s.contains('*')`
unfoldable pub contains_star : Text → Bool
unfolding ℕ_discrete
contains_star [] = false
contains_star (c ∷ s) = c == star || contains_star s

unfoldable pub ensure_no_inner_star : Text → Text → Result (Unit {0})
unfolding contains_star
ensure_no_inner_star rest original =
    if contains_star rest then err (config (star_inside original)) else ok tt

unfoldable pub validate_domain_pattern : Text → Result (Unit {0})
unfolding Text-discrete strip_prefix strip_suffix ensure_no_inner_star
validate_domain_pattern pattern =
    if pattern == bytes "*" then ok tt else elim (strip_prefix pattern) [
      | some rest ↦ ensure_no_inner_star rest pattern
      | none ↦ elim (strip_suffix pattern) [
        | some rest ↦ ensure_no_inner_star rest pattern
        | none ↦ err (config (star_missing pattern))
      ]
    ]
