-- ===== src/Base/Text.antt =====
-- The parts of Go's `strings` and `bytes` that the program uses, on ASCII text as bytes.
use Prim.Native.Nat.{ℕ, ◌+◌, ◌-◌}
use Prim.Native.Char.{code}
use Prim.Native.String.{String}
use mathlib.Core.Path.{◌≡◌, refl}
use mathlib.Core.Bool.{Bool, true, false, ◌&&◌, ◌||◌}
use mathlib.Core.List.{[], ◌∷◌, ◌++◌, map, reverse}
use native.Mathlib.Omega.{arith}
use coding_switch.Base.Tests.{ltb, leb, nat_eq, if◌then◌else◌}
use coding_switch.Base.Equality.{Bytes, bytes_eq}
use coding_switch.Base.Lists.{length, take, drop}

-- The code points of a literal, which is ASCII everywhere below.
abbrev pub codes : String → Bytes
codes String.[] = []
codes (String.◌∷◌ c s) = code c ∷ codes s

-- `strings.HasPrefix(s, p)`, arguments in the other order.
abbrev pub has_prefix : Bytes → Bytes → Bool
has_prefix [] s = true
has_prefix (x ∷ p) [] = false
has_prefix (x ∷ p) (y ∷ s) = nat_eq x y && has_prefix p s

-- `strings.HasSuffix(s, t)`, arguments in the other order.
abbrev pub has_suffix : Bytes → Bytes → Bool
has_suffix t s = leb (length t) (length s) && bytes_eq (drop (length s - length t) s) t

-- `strings.TrimPrefix(s, p)`
abbrev pub trim_prefix : Bytes → Bytes → Bytes
trim_prefix p s = if has_prefix p s then drop (length p) s else s

-- `strings.TrimSuffix(s, t)`
abbrev pub trim_suffix : Bytes → Bytes → Bytes
trim_suffix t s = if has_suffix t s then take (length s - length t) s else s

-- `strings.Contains(s, sub)`
abbrev pub contains_text : Bytes → Bytes → Bool
contains_text sub [] = has_prefix sub []
contains_text sub (c ∷ s) = has_prefix sub (c ∷ s) || contains_text sub s

-- ASCII white space.
abbrev pub is_space : ℕ → Bool
is_space c = nat_eq c 32 || (leb 9 c && leb c 13)

unfoldable pub trim_left : Bytes → Bytes
trim_left [] = []
trim_left (c ∷ s) = if is_space c then trim_left s else c ∷ s

-- `strings.TrimSpace`
unfoldable pub trim_space : Bytes → Bytes
unfolding trim_left
trim_space s = reverse (trim_left (reverse (trim_left s)))

abbrev lower_byte : ℕ → ℕ
lower_byte c = if leb b'A' c && leb c b'Z' then c + 32 else c

-- `strings.ToLower`
unfoldable pub to_lower : Bytes → Bytes
to_lower s = map lower_byte s

-- `a < b` on strings.
abbrev pub bytes_lt : Bytes → Bytes → Bool
bytes_lt a [] = false
bytes_lt [] (y ∷ b) = true
bytes_lt (x ∷ a) (y ∷ b) = if nat_eq x y then bytes_lt a b else ltb x y

pub has_prefix-append : (p s : Bytes) → has_prefix p (p ++ s) ≡ true
has_prefix-append [] s = refl
has_prefix-append (x ∷ p) s = ground (arith, has_prefix-append p s)

pub split_of_prefix : (p s : Bytes) → has_prefix p s ≡ true → s ≡ p ++ drop (length p) s
split_of_prefix [] s h = refl
split_of_prefix (x ∷ p) [] h = cc
split_of_prefix (x ∷ p) (y ∷ s) h = ground (arith, split_of_prefix p s)

pub bytes_lt_irrefl : (a : Bytes) → bytes_lt a a ≡ false
bytes_lt_irrefl [] = refl
bytes_lt_irrefl (x ∷ a) = ground (arith, bytes_lt_irrefl a)

pub bytes_lt_asymm : (a b : Bytes) → bytes_lt a b ≡ true → bytes_lt b a ≡ false
bytes_lt_asymm a [] h = cc
bytes_lt_asymm [] (y ∷ b) h = refl
bytes_lt_asymm (x ∷ a) (y ∷ b) h = ground (arith, bytes_lt_asymm a b)

pub bytes_lt_trans :
    (a b c : Bytes) → bytes_lt a b ≡ true → bytes_lt b c ≡ true → bytes_lt a c ≡ true
bytes_lt_trans a [] c h k = cc
bytes_lt_trans a (y ∷ b) [] h k = cc
bytes_lt_trans [] (y ∷ b) (z ∷ c) h k = refl
bytes_lt_trans (x ∷ a) (y ∷ b) (z ∷ c) h k = ground (arith, bytes_lt_trans a b c)

pub bytes_lt_total : (a b : Bytes) → bytes_lt a b ≡ false → bytes_lt b a ≡ false → a ≡ b
bytes_lt_total [] [] h k = refl
bytes_lt_total [] (y ∷ b) h k = cc
bytes_lt_total (x ∷ a) [] h k = cc
bytes_lt_total (x ∷ a) (y ∷ b) h k = ground (arith, bytes_lt_total a b)

-- Nothing more to trim from the left.
trim_left-trim_left : (s : Bytes) → trim_left (trim_left s) ≡ trim_left s
unfolding trim_left
trim_left-trim_left [] = refl
trim_left-trim_left (c ∷ s) = ground (arith, trim_left-trim_left s)
