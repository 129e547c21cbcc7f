-- ===== src/Routing/Wildcard.antt =====
-- The wildcards of model names (internal/routing/domain/models.go, matchWildcard and the functions
-- around it). `none` is a run-time panic.
pub mod Order
pub mod Mapping
use coding_switch.Base.{
  ℕ, ◌+◌, ◌-◌, Bool, true, false, not, ◌&&◌, ◌||◌, List, [], ◌∷◌, ◌++◌, Option, none, some, Bytes,
  bytes_eq, nat_eq, ltb, leb, if◌then◌else◌, length, take, drop, any, keep, has_prefix, has_suffix,
  bytes_lt,
}

abbrev pub is_star : ℕ → Bool
is_star c = nat_eq c b'*'

-- `strings.Contains(s, "*")`
abbrev pub contains_star : Bytes → Bool
contains_star s = any is_star s

abbrev push_head : ℕ → List Bytes → List Bytes
push_head c [] = (c ∷ []) ∷ []
push_head c (p ∷ ps) = (c ∷ p) ∷ ps

-- `strings.Split(s, "*")`
abbrev pub split_star : Bytes → List Bytes
split_star [] = [] ∷ []
split_star (c ∷ s) = if is_star c then [] ∷ split_star s else push_head c (split_star s)

-- `strings.Replace(s, "*", w, 1)`
abbrev pub replace_first : Bytes → Bytes → Bytes
replace_first w [] = []
replace_first w (c ∷ s) = if is_star c then w ++ s else c ∷ replace_first w s

-- `len(strings.ReplaceAll(s, "*", ""))`
abbrev pub literal_length : Bytes → ℕ
literal_length s = length (keep (λ c. not (is_star c)) s)

-- The branch `len(parts) == 2`, and the one behind it.
abbrev match_parts : List Bytes → Bytes → Bool
match_parts (p ∷ s ∷ []) text = has_prefix p text && has_suffix s text
match_parts _ text = false

unfoldable pub match_wildcard : Bytes → Bytes → Bool
match_wildcard pattern text =
    if not (contains_star pattern)
    then bytes_eq pattern text
    else match_parts (split_star pattern) text

-- `input[len(prefix) : len(input)-len(suffix)]` panics where the bounds cross.
abbrev pub slice_between : Bytes → Bytes → Bytes → Option Bytes
slice_between p s input =
    if leb (length p + length s) (length input)
    then some (take (length input - length s - length p) (drop (length p) input))
    else none

abbrev pub substituted : Option Bytes → Bytes → Option Bytes
substituted none replacement = none
substituted (some w) replacement = some (replace_first w replacement)

abbrev apply_parts : List Bytes → Bytes → Bytes → Option Bytes
apply_parts (p ∷ s ∷ []) replacement input =
    if not (has_prefix p input) || not (has_suffix s input)
    then some replacement
    else substituted (slice_between p s input) replacement
apply_parts _ replacement input = some replacement

unfoldable pub apply_wildcard_mapping : Bytes → Bytes → Bytes → Option Bytes
apply_wildcard_mapping pattern replacement input =
    if not (contains_star pattern) || not (contains_star replacement)
    then some replacement
    else apply_parts (split_star pattern) replacement input

unfoldable pub wildcard_more_specific : Bytes → Bytes → Bool
wildcard_more_specific a b =
    let la = literal_length a in
    let lb = literal_length b in if not (nat_eq la lb) then ltb lb la else bytes_lt a b
