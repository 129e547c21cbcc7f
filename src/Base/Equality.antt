-- ===== src/Base/Equality.antt =====
-- Go's `==` on the types that the program compares, as an instance argument.
use Prim.Native.Nat.{ℕ}
use mathlib.Core.Path.{◌≡◌, refl}
use mathlib.Core.Logic.{◌↔◌, ◌≢◌}
use mathlib.Core.Bool.{Bool, true, false, ◌&&◌}
use mathlib.Core.List.{List, [], ◌∷◌}
use native.Mathlib.Omega.{arith}
use coding_switch.Base.Tests.{nat_eq, nat_eq_iff}

pub record Comparable {ℓ} (K : Type ℓ) : Type ℓ where
  pub same : K → K → Bool
  pub same_iff : (x y : K) → (same x y ≡ true) ↔ (x ≡ y)

infix 50 ◌==◌
abbrev pub ◌==◌ {ℓ} : {K : Type ℓ} ⦃c : Comparable K⦄ → K → K → Bool
◌==◌ ⦃c⦄ x y = c.same x y

instance abbrev pub nat_is_eq : Comparable ℕ
nat_is_eq = record { same = nat_eq; same_iff = nat_eq_iff }

-- A Go string or byte slice, as its bytes.
abbrev pub Bytes : Type 0
Bytes = List ℕ

abbrev pub bytes_eq : Bytes → Bytes → Bool
bytes_eq [] [] = true
bytes_eq (x ∷ xs) (y ∷ ys) = nat_eq x y && bytes_eq xs ys
bytes_eq _ _ = false

pub bytes_eq_iff : (a b : Bytes) → (bytes_eq a b ≡ true) ↔ (a ≡ b)
bytes_eq_iff (x ∷ a) (y ∷ b) = ground (arith, bytes_eq_iff a b)
bytes_eq_iff _ _ = ground arith

instance abbrev pub bytes_is_eq : Comparable Bytes
bytes_is_eq = record { same = bytes_eq; same_iff = bytes_eq_iff }

module _ {ℓ} {A : Type ℓ} ⦃e : Comparable A⦄ where
  pub beq_refl : (a : A) → (a == a) ≡ true
  beq_refl a = (e.same_iff a a).1 refl

  pub beq_false : (a b : A) → a ≢ b → (a == b) ≡ false
  beq_false a b h = ground (arith, e.same_iff a b)

  pub beq_ne : (a b : A) → (a == b) ≡ false → a ≢ b
  beq_ne a b h q = ground (arith, e.same_iff a b)
