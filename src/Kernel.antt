-- ===== src/Kernel.antt =====
-- The platforms that the program serves (internal/shared/kernel/platform.go).
use coding_switch.Base.{
  ℕ, ◌*◌, ◌||◌, List, [], ◌∷◌, Option, none, some, Bytes, ◌==◌, bytes_is_eq, codes, if◌then◌else◌,
}

-- A `Platform` is its name.
abbrev pub Platform : Type 0
Platform = Bytes

abbrev pub claude : Platform
claude = codes "claude"

abbrev pub codex : Platform
codex = codes "codex"

abbrev pub gemini : Platform
gemini = codes "gemini"

abbrev pub all_platforms : List Platform
all_platforms = claude ∷ codex ∷ gemini ∷ []

-- `none` is the error `unknown platform`.
unfoldable pub parse_platform : Bytes → Option Platform
parse_platform value =
    if value == claude || (value == codex || value == gemini) then some value else none

-- Nanoseconds in a second and in a minute.
abbrev pub second : ℕ
second = 1_000_000_000

abbrev pub minute : ℕ
minute = 60 * second

unfoldable pub session_timeout : Platform → ℕ
session_timeout p =
    if p == codex then 15 * minute else if p == gemini then 60 * minute else 5 * minute

-- `MustPlatform`; `none` is its panic.
abbrev must_platform : Bytes → Option Platform
must_platform value = parse_platform value

-- `String`
abbrev platform_string : Platform → Bytes
platform_string p = p
