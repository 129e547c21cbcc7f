-- ===== src/Base/Trim.antt =====
-- `strings.TrimSpace` leaves trimmed text alone.
use mathlib.Core.Path.{◌≡◌, refl, ap, sym, ◌∙◌, subst}
use mathlib.Core.Logic.{inl, inr}
use mathlib.Core.Bool.{false}
use mathlib.Core.List.{[], ◌∷◌, ◌++◌, reverse, reverse-append, reverse-reverse}
use coding_switch.Base.Tests.{Bool-cases}
use coding_switch.Base.Equality.{Bytes}
use coding_switch.Base.Text.{is_space, trim_left, trim_space}

-- No space in front.
abbrev Starts : Bytes → Type 0
Starts [] = Unit
Starts (c ∷ s) = is_space c ≡ false

trim_left-Starts : (s : Bytes) → Starts (trim_left s)
unfolding trim_left
trim_left-Starts [] = tt
trim_left-Starts (c ∷ s) = elim (Bool-cases (is_space c)) [
  | inl y ↦ rw y (trim_left-Starts s)
  | inr n ↦ rw n n
]

trim_left_same : (s : Bytes) → Starts s → trim_left s ≡ s
unfolding trim_left
trim_left_same [] h = refl
trim_left_same (c ∷ s) h = rw h

-- What `trim_left` drops.
dropped : (s : Bytes) → (w : Bytes) × (s ≡ w ++ trim_left s)
unfolding trim_left
dropped [] = ([], refl)
dropped (c ∷ s) = elim (Bool-cases (is_space c)) [
  | inl y ↦ let (w, e) = dropped s in (c ∷ w, rw y (ap (◌∷◌ c) e))
  | inr n ↦ ([], rw n)
]

Starts-prefix : (s w : Bytes) → Starts (s ++ w) → Starts s
Starts-prefix [] w h = tt
Starts-prefix (c ∷ s) w h = h

trim_right-Starts : (s : Bytes) → Starts s → Starts (reverse (trim_left (reverse s)))
trim_right-Starts s h =
    let (w, e) = dropped (reverse s) in
    let back : s ≡ reverse (trim_left (reverse s)) ++ reverse w =
      sym (reverse-reverse s) ∙ ap reverse e ∙ reverse-append w (trim_left (reverse s)) in
    Starts-prefix (reverse (trim_left (reverse s))) (reverse w) (subst Starts back h)

pub trim_space_idem : (s : Bytes) → trim_space (trim_space s) ≡ trim_space s
unfolding trim_space
trim_space_idem s =
    let a = trim_left s in
    let r = trim_left (reverse a) in
    ap (λ x. reverse (trim_left (reverse x)))
      (trim_left_same (reverse r) (trim_right-Starts a (trim_left-Starts s)))
    ∙ ap (λ x. reverse (trim_left x)) (reverse-reverse r)
    ∙ ap reverse (trim_left_same r (trim_left-Starts (reverse a)))
