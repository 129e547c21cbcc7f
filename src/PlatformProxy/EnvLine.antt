-- ===== src/PlatformProxy/EnvLine.antt =====
-- One line of a dotenv file (internal/platformproxy/infrastructure/env_edit.go). A position in a text
-- is kept as the two parts that it cuts the text into.
pub mod Heads
pub mod Parsed
pub mod Values
use coding_switch.Base.{
  ℕ, suc, ◌-◌, Bool, true, false, not, ◌&&◌, ◌||◌, List, [], ◌∷◌, ◌++◌, reverse, Option, none, some,
  Bytes, ◌==◌, bytes_is_eq, codes, nat_eq, leb, length, drop, trim_suffix, if◌then◌else◌,
}

-- `isEnvSpace`
abbrev pub is_env_space : ℕ → Bool
is_env_space c = nat_eq c 32 || nat_eq c 9

-- `isEnvKeyStart`
abbrev pub is_env_key_start : ℕ → Bool
is_env_key_start c = nat_eq c b'_' || ((leb b'a' c && leb c b'z') || (leb b'A' c && leb c b'Z'))

-- `isEnvKeyPart`
abbrev pub is_env_key_part : ℕ → Bool
is_env_key_part c = is_env_key_start c || (leb b'0' c && leb c b'9')

-- The longest front whose bytes pass the test, and the rest: `skipEnvSpace` for spaces.
abbrev pub cons_front : ℕ → Bytes × Bytes → Bytes × Bytes
cons_front c (front, rest) = (c ∷ front, rest)

abbrev pub span : (ℕ → Bool) → Bytes → Bytes × Bytes
span test [] = ([], [])
span test (c ∷ s) = let more = span test s in if test c then cons_front c more else ([], c ∷ s)

abbrev pub starts : (ℕ → Bool) → Bytes → Bool
starts test [] = false
starts test (c ∷ s) = test c

-- The text starts with `p`, and the byte after it passes the test.
abbrev pub follows : (ℕ → Bool) → Bytes → Bytes → Bool
follows test [] s = starts test s
follows test (c ∷ p) [] = false
follows test (c ∷ p) (d ∷ s) = nat_eq c d && follows test p s

-- What stands in front of a value: spaces, `export` with spaces or nothing, the key, spaces, `=` and
-- spaces; and what comes after.
pub record Head : Type 0 where
  pub lead : Bytes
  pub export : Bytes
  pub key : Bytes
  pub gap : Bytes
  pub pad : Bytes
  pub rest : Bytes

-- `line[:valueStart]`
abbrev pub before : Head → Bytes
before h = h.lead ++ (h.export ++ (h.key ++ (h.gap ++ b'=' ∷ h.pad)))

abbrev pub export_word : Bytes
export_word = codes "export"

-- The key: a first byte of a key, and the bytes of a key after it. Without it there is no match.
abbrev pub split_key : Bytes → Option (Bytes × Bytes)
split_key [] = none
split_key (c ∷ s) =
    if is_env_key_start c then some (cons_front c (span is_env_key_part s)) else none

abbrev pub after_equals : Bytes → Bytes → Bytes → Bytes → Bytes × Bytes → Head
after_equals lead export key gap (pad, rest) = record {
  lead = lead;
  export = export;
  key = key;
  gap = gap;
  pad = pad;
  rest = rest;
}

abbrev pub at_equals : Bytes → Bytes → Bytes → Bytes × Bytes → Option Head
at_equals lead export key (gap, []) = none
at_equals lead export key (gap, c ∷ s) =
    if nat_eq c b'=' then some (after_equals lead export key gap (span is_env_space s)) else none

abbrev pub at_key : Bytes → Bytes → Option (Bytes × Bytes) → Option Head
at_key lead export none = none
at_key lead export (some (key, s)) = at_equals lead export key (span is_env_space s)

abbrev pub after_export : Bytes → Bytes × Bytes → Option Head
after_export lead (spaces, s) = at_key lead (export_word ++ spaces) (split_key s)

abbrev pub after_lead : Bytes × Bytes → Option Head
after_lead (lead, s) =
    if starts (λ c. nat_eq c b'#') s
    then none
    else if follows is_env_space export_word s
    then after_export lead (span is_env_space (drop 6 s))
    else at_key lead [] (split_key s)

-- The first half of `parseEnvAssignment`, up to `valueStart`. An empty line and a comment have no key.
unfoldable pub parse_head : Bytes → Option Head
parse_head content = after_lead (span is_env_space content)

-- The closing quote: `escaped` is whether the backslashes right in front are odd in number, which
-- `envEscaped` counts backwards. The text inside the quotes and the text after them.
abbrev pub cons_inside : ℕ → Option (Bytes × Bytes) → Option (Bytes × Bytes)
cons_inside c none = none
cons_inside c (some (inside, rest)) = some (c ∷ inside, rest)

abbrev pub find_quote : ℕ → Bool → Bytes → Option (Bytes × Bytes)
find_quote quote escaped [] = none
find_quote quote escaped (c ∷ s) =
    let more = cons_inside c (find_quote quote (if nat_eq c b'\\' then not escaped else false) s) in
    if nat_eq c quote && (nat_eq quote b'\'' || not escaped) then some ([], s) else more

-- The text up to a `#` that follows a space, and the rest. `prev` is the byte in front.
abbrev pub until_comment : ℕ → Bytes → Bytes × Bytes
until_comment prev [] = ([], [])
until_comment prev (c ∷ s) =
    let more = cons_front c (until_comment c s) in
    if nat_eq c b'#' && is_env_space prev then ([], c ∷ s) else more

-- The spaces at the end, in front of what follows.
abbrev pub keep_byte : ℕ → Bytes × Bytes → Bytes × Bytes
keep_byte c ([], more) = if is_env_space c then ([], c ∷ more) else (c ∷ [], more)
keep_byte c (d ∷ kept, more) = (c ∷ (d ∷ kept), more)

abbrev pub trim_end : Bytes → Bytes → Bytes × Bytes
trim_end [] rest = ([], rest)
trim_end (c ∷ s) rest = keep_byte c (trim_end s rest)

-- A value and what stands behind it in the content, or an error.
pub data Value : Type 0 where
  value : Bytes → Bytes → Value
  unclosed : Value
  trailing : Value

-- `unquote` is `strconv.Unquote`, `none` where it fails.
module _ (unquote : Bytes → Option Bytes) where
  abbrev pub unquoted : Bytes → Option Bytes → Bytes
  unquoted inside none = inside
  unquoted inside (some text) = text

  abbrev pub inner_value : ℕ → Bytes → Bytes
  inner_value quote inside =
      if nat_eq quote b'"'
      then unquoted inside (unquote (quote ∷ (inside ++ quote ∷ [])))
      else inside

  -- Behind the closing quote only spaces and a comment may stand.
  abbrev pub is_trailing : Bytes × Bytes → Bool
  is_trailing (spaces, []) = false
  is_trailing (spaces, c ∷ s) = not (nat_eq c b'#')

  abbrev pub closed_value : ℕ → Option (Bytes × Bytes) → Value
  closed_value quote none = unclosed
  closed_value quote (some (inside, rest)) =
      if is_trailing (span is_env_space rest)
      then trailing
      else value (inner_value quote inside) rest

  abbrev pub plain_value : Bytes × Bytes → Value
  plain_value (text, comment) = let (kept, rest) = trim_end text comment in value kept rest

  abbrev pub is_quote : ℕ → Bool
  is_quote c = nat_eq c b'\'' || nat_eq c b'"'

  -- The second half of `parseEnvAssignment`, from `valueStart`. A `#` at `valueStart` starts no comment.
  unfoldable pub parse_value : Bytes → Value
  parse_value [] = value [] []
  parse_value (c ∷ s) =
      if is_quote c
      then closed_value c (find_quote c false s)
      else plain_value (cons_front c (until_comment c s))
