-- ===== src/Engine/Matcher/Wildcards.antt =====
-- src/engine/matcher.rs: which domains a pattern matches.
use nic_autoswitch.Common.{
  ◌<◌, ◌≡◌, refl, ap, ◌≢◌, ◌↔◌, inl, inr, true, none, some, [], ◌∷◌, ◌++◌, arith, ltb, Bool-cases,
  Option-cases, Text, bytes, Text-discrete, Text-eq, ℕ-eq, length, length-append,
}
use nic_autoswitch.Config.{RouteRule-eq, star, starts_with, ends_with, strip_prefix, strip_suffix}
use nic_autoswitch.Config.Wildcards.{strip_suffix_sound, strip_suffix-append}
use nic_autoswitch.Engine.Matcher.{matches_wildcard}

-- A star stands for one or more bytes, in front or at the end; alone it stands for any domain.
pub data Matches (p d : Text) : Type 0 where
  any : p ≡ bytes "*" → Matches p d
  suffix :
      (fill rest : Text) → p ≡ star ∷ rest → rest ≢ [] → fill ≢ [] → d ≡ fill ++ rest → Matches p d
  prefix :
      (rest fill : Text)
      → p ≡ rest ++ star ∷ []
      → strip_prefix p ≡ none
      → fill ≢ []
      → d ≡ rest ++ fill
      → Matches p d

ends_with_sound : (s d : Text) → ends_with s d ≡ true → (f : Text) × (d ≡ f ++ s)
unfolding ends_with
ends_with_sound s [] h = ([], ground arith)
ends_with_sound s (c ∷ d) h = elim (Bool-cases (ends_with s d)) [
  | inl later ↦ let (f, e) = ends_with_sound s d later in (c ∷ f, ap (λ (x : Text). c ∷ x) e)
  | inr missing ↦ ([], ground arith)
]

ends_with-append : (f s : Text) → ends_with s (f ++ s) ≡ true
unfolding ends_with
ends_with-append [] [] = refl
ends_with-append [] (c ∷ s) = ground arith
ends_with-append (c ∷ f) s = ground (arith, ends_with-append f s)

starts_with_sound : (s d : Text) → starts_with s d ≡ true → (f : Text) × (d ≡ s ++ f)
unfolding starts_with
starts_with_sound [] d h = (d, refl)
starts_with_sound (c ∷ s) [] h = cc
starts_with_sound (c ∷ s) (b ∷ d) h =
    let (f, e) = starts_with_sound s d (ground arith) in (f, ground arith)

starts_with-append : (s f : Text) → starts_with s (s ++ f) ≡ true
unfolding starts_with
starts_with-append [] f = refl
starts_with-append (c ∷ s) f = ground (arith, starts_with-append s f)

longer_left : (f s : Text) → length s < length (f ++ s) → f ≢ []
longer_left f s h e = omega (arith, length-append f s, ap length e)

longer_right : (s f : Text) → length s < length (s ++ f) → f ≢ []
longer_right s f h e = omega (arith, length-append s f, ap length e)

length_pos : (f : Text) → f ≢ [] → 0 < length f
length_pos [] h = absurd (h refl)
length_pos (c ∷ f) h = omega arith

module _ (p d : Text) where
  suffix_sound :
      (rest : Text)
      → p ≡ star ∷ rest
      → rest ≢ []
      → ltb (length rest) (length d) ≡ true
      → ends_with rest d ≡ true
      → Matches p d
  suffix_sound rest e ne long h =
      let (f, same) = ends_with_sound rest d h in
      suffix f rest e ne (longer_left f rest (ground (arith, ap length same))) same

  prefix_sound :
      (rest : Text)
      → p ≡ rest ++ star ∷ []
      → strip_prefix p ≡ none
      → ltb (length rest) (length d) ≡ true
      → starts_with rest d ≡ true
      → Matches p d
  prefix_sound rest e none_here long h =
      let (f, same) = starts_with_sound rest d h in
      prefix rest f e none_here (longer_right rest f (ground (arith, ap length same))) same

strip_prefix_sound : (p r : Text) → strip_prefix p ≡ some r → p ≡ star ∷ r
unfolding strip_prefix
strip_prefix_sound [] r h = cc
strip_prefix_sound (c ∷ p) r h = ground arith

leading_sound :
    (p d : Text)
    → p ≢ bytes "*"
    → (rest : Text) → strip_prefix p ≡ some rest
    → matches_wildcard p d ≡ true
    → Matches p d
unfolding matches_wildcard
leading_sound p d ne [] found h = absurd (ne (strip_prefix_sound p [] found))
leading_sound p d ne (c ∷ rest) found h =
    suffix_sound p d (c ∷ rest) (strip_prefix_sound p (c ∷ rest) found) (λ e. cc) (ground arith)
      (ground arith)

trailing_sound :
    (p d : Text)
    → p ≢ bytes "*"
    → strip_prefix p ≡ none
    → matches_wildcard p d ≡ true
    → (rest : Text) → strip_suffix p ≡ some rest
    → Matches p d
unfolding matches_wildcard
trailing_sound p d ne none_here h [] found = absurd (ne (strip_suffix_sound p [] found))
trailing_sound p d ne none_here h (c ∷ rest) found =
    prefix_sound p d (c ∷ rest) (strip_suffix_sound p (c ∷ rest) found) none_here (ground arith)
      (ground arith)

no_star_matches :
    (p d : Text)
    → p ≢ bytes "*"
    → strip_prefix p ≡ none
    → strip_suffix p ≡ none
    → matches_wildcard p d ≡ true
    → ⊥
unfolding matches_wildcard
no_star_matches p d ne none_here none_there h = ground arith

matches_sound : (p d : Text) → matches_wildcard p d ≡ true → Matches p d
matches_sound p d h = elim (Text-discrete p (bytes "*")) [
  | yes e ↦ any e
  | no ne ↦ elim (Option-cases (strip_prefix p)) [
    | inr (rest, found) ↦ leading_sound p d ne rest found h
    | inl none_here ↦ elim (Option-cases (strip_suffix p)) [
      | inr (rest, found) ↦ trailing_sound p d ne none_here h rest found
      | inl none_there ↦ absurd (no_star_matches p d ne none_here none_there h)
    ]
  ]
]

suffix_complete :
    (fill rest : Text)
    → rest ≢ []
    → fill ≢ []
    → matches_wildcard (star ∷ rest) (fill ++ rest) ≡ true
unfolding matches_wildcard
suffix_complete fill [] ne filled = absurd (ne refl)
suffix_complete fill (c ∷ rest) ne filled =
    ground (
      arith,
      ends_with-append fill (c ∷ rest),
      length-append fill (c ∷ rest),
      length_pos fill filled,
    )

prefix_complete :
    (rest fill : Text)
    → strip_prefix (rest ++ star ∷ []) ≡ none
    → fill ≢ []
    → matches_wildcard (rest ++ star ∷ []) (rest ++ fill) ≡ true
unfolding matches_wildcard
prefix_complete [] fill none_here filled = absurd (ground arith)
prefix_complete (c ∷ rest) fill none_here filled = ground (
  arith,
  strip_suffix-append (c ∷ rest),
  starts_with-append (c ∷ rest) fill,
  length-append (c ∷ rest) fill,
  length_pos fill filled,
)

matches_complete : (p d : Text) → Matches p d → matches_wildcard p d ≡ true
matches_complete p d (any e) = rw e (unfold matches_wildcard in refl)
matches_complete p d (suffix fill rest e ne filled same) =
    rw (e, same) (suffix_complete fill rest ne filled)
matches_complete p d (prefix rest fill e none_here filled same) =
    rw (e, same) (prefix_complete rest fill (rw e at none_here) filled)

-- A pattern matches a domain exactly if it is a lone star, or a star and a suffix of the domain, or
-- a prefix of the domain and a star, the star standing for at least one byte. A pattern that begins
-- with a star is read as a suffix.
pub matches_wildcard_iff : (p d : Text) → (matches_wildcard p d ≡ true) ↔ Matches p d
matches_wildcard_iff p d = (matches_sound p d, matches_complete p d)
