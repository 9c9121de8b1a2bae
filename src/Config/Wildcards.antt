-- ===== src/Config/Wildcards.antt =====
-- src/config/schema.rs: which domain patterns the validation accepts, and what the functions of
-- `str` that it reads them with compute.
use nic_autoswitch.Common.{
  ℕ, ◌≡◌, refl, ap, ◌≢◌, ◌↔◌, inl, inr, false, some, [], ◌∷◌, ◌++◌, arith, ℕ_discrete, Option-cases,
  Text, Text-eq, ℕ-eq, All,
}
use nic_autoswitch.Error.{ok}
use nic_autoswitch.Config.Pattern.{
  star, strip_suffix, contains_star, ensure_no_inner_star, validate_domain_pattern,
}
use mathlib.Core.Path.{subst}

abbrev pub NoStar : Text → Type 0
NoStar = All (λ c. c ≢ star)

contains_star_sound : (t : Text) → contains_star t ≡ false → NoStar t
unfolding contains_star
contains_star_sound [] h = tt
contains_star_sound (c ∷ t) h = (ground arith, contains_star_sound t (ground arith))

contains_star_complete : (t : Text) → NoStar t → contains_star t ≡ false
unfolding contains_star
contains_star_complete [] h = refl
contains_star_complete (c ∷ t) (p, h) = ground (arith, contains_star_complete t h)

pub strip_suffix_sound : (t r : Text) → strip_suffix t ≡ some r → t ≡ r ++ star ∷ []
unfolding strip_suffix
strip_suffix_sound [] r h = cc
strip_suffix_sound (c ∷ []) r h = ground arith
strip_suffix_sound (c ∷ d ∷ t) r h = elim (Option-cases (strip_suffix (d ∷ t))) [
  | inl none_here ↦ ground arith
  | inr (r', found) ↦ ground (arith, strip_suffix_sound (d ∷ t) r' found)
]

pub strip_suffix-append : (r : Text) → strip_suffix (r ++ star ∷ []) ≡ some r
unfolding strip_suffix
strip_suffix-append [] = refl
strip_suffix-append (c ∷ []) = refl
strip_suffix-append (c ∷ d ∷ r) = ground (arith, strip_suffix-append (d ∷ r))

-- One star, as the first byte or as the last.
pub data IsDomainPattern (p : Text) : Type 0 where
  leading : (rest : Text) → p ≡ star ∷ rest → NoStar rest → IsDomainPattern p
  trailing : (rest : Text) → p ≡ rest ++ star ∷ [] → NoStar rest → IsDomainPattern p

ensure_sound : (rest p : Text) → ensure_no_inner_star rest p ≡ ok tt → NoStar rest
unfolding ensure_no_inner_star
ensure_sound rest p h = contains_star_sound rest (ground arith)

ensure_complete : (rest p : Text) → NoStar rest → ensure_no_inner_star rest p ≡ ok tt
unfolding ensure_no_inner_star
ensure_complete rest p h = rw (contains_star_complete rest h)

leading_sound : (t : Text) → validate_domain_pattern (star ∷ t) ≡ ok tt → NoStar t
unfolding validate_domain_pattern
leading_sound [] h = tt
leading_sound (d ∷ t) h = ensure_sound (d ∷ t) (star ∷ d ∷ t) (ground arith)

trailing_sound :
    (c : ℕ) (t : Text)
    → c ≢ star
    → validate_domain_pattern (c ∷ t) ≡ ok tt
    → (rest : Text) × (c ∷ t ≡ rest ++ star ∷ []) × NoStar rest
unfolding validate_domain_pattern
trailing_sound c t ne h = elim (Option-cases (strip_suffix (c ∷ t))) [
  | inl missing ↦ absurd (ground arith)
  | inr (rest, found) ↦
      (rest, strip_suffix_sound (c ∷ t) rest found, ensure_sound rest (c ∷ t) (ground arith))
]

IsDomainPattern-sound : (p : Text) → validate_domain_pattern p ≡ ok tt → IsDomainPattern p
unfolding validate_domain_pattern
IsDomainPattern-sound [] h = absurd (ground arith)
IsDomainPattern-sound (c ∷ t) h = elim (ℕ_discrete c star) [
  | yes e ↦
      leading t (ap (λ (x : ℕ). x ∷ t) e)
        (leading_sound t (subst (λ x. validate_domain_pattern (x ∷ t) ≡ ok tt) e h))
  | no ne ↦ let (rest, e, clean) = trailing_sound c t ne h in trailing rest e clean
]

leading_complete : (t : Text) → NoStar t → validate_domain_pattern (star ∷ t) ≡ ok tt
unfolding validate_domain_pattern
leading_complete [] clean = refl
leading_complete (d ∷ t) clean = ground (arith, ensure_complete (d ∷ t) (star ∷ d ∷ t) clean)

trailing_complete : (r : Text) → NoStar r → validate_domain_pattern (r ++ star ∷ []) ≡ ok tt
unfolding validate_domain_pattern
trailing_complete [] clean = refl
trailing_complete (c ∷ r) clean =
    ground
      (arith, strip_suffix-append (c ∷ r), ensure_complete (c ∷ r) ((c ∷ r) ++ star ∷ []) clean)

domain_pattern_complete : (p : Text) → IsDomainPattern p → validate_domain_pattern p ≡ ok tt
domain_pattern_complete p (leading rest e clean) = rw e (leading_complete rest clean)
domain_pattern_complete p (trailing rest e clean) = rw e (trailing_complete rest clean)

-- Validation accepts exactly the patterns with one star, in front or at the end.
pub validate_domain_pattern_iff :
    (p : Text) → (validate_domain_pattern p ≡ ok tt) ↔ IsDomainPattern p
validate_domain_pattern_iff p = (IsDomainPattern-sound p, domain_pattern_complete p)
