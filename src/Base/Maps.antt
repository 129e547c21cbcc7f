-- ===== src/Base/Maps.antt =====
-- A Go map, as its entries in one order of iteration. A key is written in place.
use mathlib.Core.Path.{◌≡◌, refl, sym, ap, ◌∙◌}
use mathlib.Core.Logic.{◌↔◌, inl, inr}
use mathlib.Core.Option.{Option, none, some}
use mathlib.Core.List.{List, [], ◌∷◌}
use native.Mathlib.Omega.{arith}
use coding_switch.Base.Tests.{if◌then◌else◌, Bool-cases}
use coding_switch.Base.Equality.{Comparable, ◌==◌}
use coding_switch.Base.Lists.{In}

abbrev pub Map {ℓ κ} : Type ℓ → Type κ → Type (ℓ ⊔ κ)
Map K V = List (K × V)

module _ {ℓ κ} {K : Type ℓ} ⦃e : Comparable K⦄ {V : Type κ} where
  -- `v, ok := m[k]`
  abbrev pub lookup : K → Map K V → Option V
  lookup k [] = none
  lookup k ((j, v) ∷ m) = if j == k then some v else lookup k m

  -- `m[k] = v`
  abbrev pub insert : K → V → Map K V → Map K V
  insert k v [] = (k, v) ∷ []
  insert k v ((j, w) ∷ m) = if j == k then (k, v) ∷ m else (j, w) ∷ insert k v m

  -- `delete(m, k)`
  abbrev pub delete : K → Map K V → Map K V
  delete k [] = []
  delete k ((j, w) ∷ m) = if j == k then delete k m else (j, w) ∷ delete k m

  pub lookup-insert :
      (k j : K) (v : V) (m : Map K V)
      → lookup j (insert k v m) ≡ (if k == j then some v else lookup j m)
  lookup-insert k j v [] = refl
  lookup-insert k j v ((i, w) ∷ m) =
      ground (arith, e.same_iff k j, e.same_iff i k, e.same_iff i j, lookup-insert k j v m)

  pub lookup-delete :
      (k j : K) (m : Map K V) → lookup j (delete k m) ≡ (if k == j then none else lookup j m)
  lookup-delete k j [] = ground arith
  lookup-delete k j ((i, w) ∷ m) =
      ground (arith, e.same_iff k j, e.same_iff i k, e.same_iff i j, lookup-delete k j m)

module _ {K V : Type 0} ⦃e : Comparable K⦄ where
  pub In-lookup : (k : K) (v : V) (m : Map K V) → lookup k m ≡ some v → In (k, v) m
  In-lookup k v [] h = cc
  In-lookup k v ((j, w) ∷ m) h = elim (Bool-cases (j == k)) [
    | inl q ↦ inl (ground (arith, e.same_iff j k))
    | inr q ↦ inr (In-lookup k v m (ground arith))
  ]

  pub lookup_found : (k : K) (v : V) (m : Map K V) → In (k, v) m → (w : V) × (lookup k m ≡ some w)
  lookup_found k v [] i = absurd i
  lookup_found k v ((j, w) ∷ m) (inl q) =
      (w, ground (arith, e.same_iff j k, ap (λ (x : K × V). x.0) q))
  lookup_found k v ((j, w) ∷ m) (inr i) = elim (Bool-cases (j == k)) [
    | inl y ↦ (w, rw y)
    | inr n ↦ rw n (lookup_found k v m i)
  ]

  -- A key has one value, as in every Go map.
  abbrev pub UniqueKeys : Map K V → Type 0
  UniqueKeys m = (k : K) (v w : V) → In (k, v) m → In (k, w) m → v ≡ w

  -- Two orders of iteration over one map.
  abbrev pub SameEntries : Map K V → Map K V → Type 0
  SameEntries m n = (e : K × V) → In e m ↔ In e n

  pub lookup-In : (k : K) (v : V) (m : Map K V) → UniqueKeys m → In (k, v) m → lookup k m ≡ some v
  lookup-In k v m u i =
      let (w, h) = lookup_found k v m i in h ∙ ap some (u k w v (In-lookup k w m h) i)

  missing : (k : K) (m n : Map K V) → SameEntries m n → lookup k n ≡ none → lookup k m ≡ none
  missing k m n same h = go (lookup k m) refl
    where
      go : (o : Option V) → lookup k m ≡ o → lookup k m ≡ none
      go none g = g
      go (some v) g = cc (h, (lookup_found k v n ((same (k, v)).0 (In-lookup k v m g))).1)

  pub lookup-SameEntries :
      (k : K) (m n : Map K V) → UniqueKeys m → SameEntries m n → lookup k m ≡ lookup k n
  lookup-SameEntries k m n u same = go (lookup k n) refl
    where
      go : (o : Option V) → lookup k n ≡ o → lookup k m ≡ lookup k n
      go none h = missing k m n same h ∙ sym h
      go (some v) h = lookup-In k v m u ((same (k, v)).1 (In-lookup k v n h)) ∙ sym h
