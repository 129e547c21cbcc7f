-- ===== src/Base/Sorted.antt =====
-- Insertion sort keeps the elements.
use mathlib.Core.Path.{◌≡◌}
use mathlib.Core.Logic.{◌⊎◌, inl, inr}
use mathlib.Core.Bool.{Bool}
use mathlib.Core.List.{List, [], ◌∷◌}
use coding_switch.Base.Tests.{Bool-cases}
use coding_switch.Base.Lists.{In, insert_sorted, sort_by}

module _ {A : Type 0} (less : A → A → Bool) where
  In-insert_sorted : (a x : A) (xs : List A) → (a ≡ x) ⊎ In a xs → In a (insert_sorted less x xs)
  In-insert_sorted a x [] (inl e) = inl e
  In-insert_sorted a x (y ∷ ys) h = elim (Bool-cases (less y x)) [
    | inl b ↦ rw b (elim h [
      | inl e ↦ inr (In-insert_sorted a x ys (inl e))
      | inr (inl e) ↦ inl e
      | inr (inr i) ↦ inr (In-insert_sorted a x ys (inr i))
    ])
    | inr b ↦ rw b h
  ]
  In-insert_sorted a x [] (inr i) = absurd i

  inserted : (a x : A) (xs : List A) → In a (insert_sorted less x xs) → (a ≡ x) ⊎ In a xs
  inserted a x [] i = i
  inserted a x (y ∷ ys) i = elim (Bool-cases (less y x)) [
    | inl b ↦
        let j : (a ≡ y) ⊎ In a (insert_sorted less x ys) = rw b at i in
        elim j [
          | inl e ↦ inr (inl e)
          | inr k ↦ elim (inserted a x ys k) [ inl e ↦ inl e | inr l ↦ inr (inr l) ]
        ]
    | inr b ↦ rw b at i
  ]

  pub In-sort_by : (a : A) (xs : List A) → In a xs → In a (sort_by less xs)
  In-sort_by a (x ∷ xs) (inl e) = In-insert_sorted a x (sort_by less xs) (inl e)
  In-sort_by a (x ∷ xs) (inr i) = In-insert_sorted a x (sort_by less xs) (inr (In-sort_by a xs i))
  In-sort_by a [] i = absurd i

  pub In-of_sort_by : (a : A) (xs : List A) → In a (sort_by less xs) → In a xs
  In-of_sort_by a [] i = i
  In-of_sort_by a (x ∷ xs) i = elim (inserted a x (sort_by less xs) i) [
    | inl e ↦ inl e
    | inr j ↦ inr (In-of_sort_by a xs j)
  ]
