-- ===== src/Base/Unique.antt =====
-- Lists with distinct keys, and the loop that looks for a key among those it has seen.
use mathlib.Core.Path.{◌≡◌, ap, sym, ◌∙◌}
use mathlib.Core.Logic.{◌≢◌, ◌↔◌, inl, inr}
use mathlib.Core.Bool.{Bool, true, false}
use mathlib.Core.List.{List, [], ◌∷◌}
use native.Mathlib.Omega.{arith}
use coding_switch.Base.Tests.{Bool-cases}
use coding_switch.Base.Equality.{Comparable, ◌==◌}
use coding_switch.Base.Lists.{In, All, All-In, any}

module _ {K : Type 0} ⦃e : Comparable K⦄ where
  abbrev pub seen_before : K → List K → Bool
  seen_before k = any (λ j. j == k)

  pub seen_before-In : (k : K) (ks : List K) → seen_before k ks ≡ true → In k ks
  seen_before-In k [] h = cc
  seen_before-In k (j ∷ ks) h = elim (Bool-cases (j == k)) [
    | inl y ↦ inl (sym ((e.same_iff j k).0 y))
    | inr n ↦ inr (seen_before-In k ks (ground arith))
  ]

  pub seen_before_of_In : (k : K) (ks : List K) → In k ks → seen_before k ks ≡ true
  seen_before_of_In k [] i = absurd i
  seen_before_of_In k (j ∷ ks) (inl q) = ground (arith, e.same_iff j k)
  seen_before_of_In k (j ∷ ks) (inr i) = ground (arith, seen_before_of_In k ks i)

  pub not_seen : (k : K) (ks : List K) → seen_before k ks ≡ false → ¬ In k ks
  not_seen k ks h i = cc (h, seen_before_of_In k ks i)

  pub seen_before-false : (k : K) (ks : List K) → ¬ In k ks → seen_before k ks ≡ false
  seen_before-false k ks h = elim (Bool-cases (seen_before k ks)) [
    | inl y ↦ absurd (h (seen_before-In k ks y))
    | inr n ↦ n
  ]

module _ {A K : Type 0} (f : A → K) where
  -- No key stands twice.
  abbrev pub Distinct : List A → Type 0
  Distinct [] = Unit
  Distinct (x ∷ xs) = All (λ y. f y ≢ f x) xs × Distinct xs

  -- Each key is new to those seen and those in front.
  abbrev pub Fresh : List K → List A → Type 0
  Fresh seen [] = Unit
  Fresh seen (x ∷ xs) = (¬ In (f x) seen) × Fresh (f x ∷ seen) xs

  abbrev Apart : List K → List A → Type 0
  Apart seen xs = All (λ y. ¬ In (f y) seen) xs

  Apart-cons :
      (k : K) (seen : List K) (xs : List A)
      → Apart (k ∷ seen) xs
      → All (λ y. f y ≢ k) xs × Apart seen xs
  Apart-cons k seen [] h = (tt, tt)
  Apart-cons k seen (x ∷ xs) h =
      let (a, b) = Apart-cons k seen xs h.1 in ((λ q. h.0 (inl q), a), (λ i. h.0 (inr i), b))

  Apart-of :
      (k : K) (seen : List K) (xs : List A)
      → All (λ y. f y ≢ k) xs
      → Apart seen xs
      → Apart (k ∷ seen) xs
  Apart-of k seen [] a b = tt
  Apart-of k seen (x ∷ xs) a b =
      (elim [ inl q ↦ a.0 q | inr i ↦ b.0 i ], Apart-of k seen xs a.1 b.1)

  Fresh-parts : (seen : List K) (xs : List A) → Fresh seen xs → Distinct xs × Apart seen xs
  Fresh-parts seen [] h = (tt, tt)
  Fresh-parts seen (x ∷ xs) h =
      let (d, a) = Fresh-parts (f x ∷ seen) xs h.1 in
      let (n, b) = Apart-cons (f x) seen xs a in ((n, d), (h.0, b))

  Fresh-of : (seen : List K) (xs : List A) → Distinct xs → Apart seen xs → Fresh seen xs
  Fresh-of seen [] d a = tt
  Fresh-of seen (x ∷ xs) d a = (a.0, Fresh-of (f x ∷ seen) xs d.1 (Apart-of (f x) seen xs d.0 a.1))

  Apart-nil : (xs : List A) → Apart [] xs
  Apart-nil [] = tt
  Apart-nil (x ∷ xs) = (λ i. i, Apart-nil xs)

  pub Fresh-iff : (xs : List A) → Fresh [] xs ↔ Distinct xs
  Fresh-iff xs = (λ h. (Fresh-parts [] xs h).0, λ d. Fresh-of [] xs d (Apart-nil xs))

  pub Distinct-unique :
      (xs : List A) (a b : A) → Distinct xs → In a xs → In b xs → f a ≡ f b → a ≡ b
  Distinct-unique [] a b d i j q = absurd i
  Distinct-unique (x ∷ xs) a b d (inl p) (inl r) q = p ∙ sym r
  Distinct-unique (x ∷ xs) a b d (inl p) (inr j) q =
      absurd (All-In (λ y. f y ≢ f x) b xs d.0 j (sym q ∙ ap f p))
  Distinct-unique (x ∷ xs) a b d (inr i) (inl r) q =
      absurd (All-In (λ y. f y ≢ f x) a xs d.0 i (q ∙ ap f r))
  Distinct-unique (x ∷ xs) a b d (inr i) (inr j) q = Distinct-unique xs a b d.1 i j q
