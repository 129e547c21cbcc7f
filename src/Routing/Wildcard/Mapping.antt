-- ===== src/Routing/Wildcard/Mapping.antt =====
-- What the one-star wildcards match, and when their mapping panics.
use coding_switch.Base.{
  ◌+◌, ◌<◌, true, false, ◌&&◌, ◌↔◌, [], ◌∷◌, ◌++◌, none, Bytes, ◌≡◌, refl, arith, length,
  has_prefix, has_suffix, leb, &&-true, Bool-cases, inl, inr,
}
use coding_switch.Routing.Wildcard.{
  contains_star, split_star, substituted, slice_between, match_wildcard, apply_wildcard_mapping,
}

split_star_plain : (s : Bytes) → contains_star s ≡ false → split_star s ≡ s ∷ []
split_star_plain [] h = refl
split_star_plain (c ∷ s) h = ground (arith, split_star_plain s)

split_star_once :
    (p s : Bytes)
    → contains_star p ≡ false
    → contains_star s ≡ false
    → split_star (p ++ b'*' ∷ s) ≡ p ∷ s ∷ []
split_star_once [] s h k = ground (arith, split_star_plain s)
split_star_once (c ∷ p) s h k = ground (arith, split_star_once p s)

contains_star_once : (p s : Bytes) → contains_star (p ++ b'*' ∷ s) ≡ true
contains_star_once [] s = refl
contains_star_once (c ∷ p) s = ground (arith, contains_star_once p s)

panics_iff :
    (p s text replacement : Bytes)
    → (substituted (slice_between p s text) replacement ≡ none)
      ↔ (length text < length p + length s)
panics_iff p s text replacement = elim (Bool-cases (leb (length p + length s) (length text))) [
  | inl fits ↦ (λ h. ground arith, λ h. ground arith)
  | inr cross ↦ (λ h. ground arith, λ h. ground arith)
]

module _ (p s : Bytes) (plain_p : contains_star p ≡ false) (plain_s : contains_star s ≡ false) where
  pub match_once :
      (text : Bytes)
      → match_wildcard (p ++ b'*' ∷ s) text ≡ (has_prefix p text && has_suffix s text)
  unfolding match_wildcard
  match_once text = rw (contains_star_once p s, split_star_once p s plain_p plain_s)

  apply_once :
      (text replacement : Bytes)
      → contains_star replacement ≡ true
      → has_prefix p text ≡ true
      → has_suffix s text ≡ true
      → apply_wildcard_mapping (p ++ b'*' ∷ s) replacement text
        ≡ substituted (slice_between p s text) replacement
  unfolding apply_wildcard_mapping
  apply_once text replacement h f l =
      rw (contains_star_once p s, split_star_once p s plain_p plain_s, h, f, l)

  -- The mapping panics on exactly the matching texts in which prefix and suffix overlap.
  pub mapping_panics_iff :
      (text replacement : Bytes)
      → contains_star replacement ≡ true
      → match_wildcard (p ++ b'*' ∷ s) text ≡ true
      → (apply_wildcard_mapping (p ++ b'*' ∷ s) replacement text ≡ none)
        ↔ (length text < length p + length s)
  mapping_panics_iff text replacement h m =
      let b = &&-true (has_prefix p text) (has_suffix s text) (rw (match_once text) at m) in
      rw (apply_once text replacement h b.0 b.1) (panics_iff p s text replacement)
