-- ===== src/Mcp/Naming.antt =====
-- Public tool names (internal/mcpgateway/domain/naming.go). A tool name is a list of code points; a
-- sanitised name is ASCII, where code points are bytes.
pub mod Chars
use coding_switch.Base.{
  ℕ, ◌+◌, Bool, ◌&&◌, ◌||◌, List, [], ◌∷◌, ◌++◌, map, Bytes, nat_eq, leb, if◌then◌else◌, length,
  take, codes,
}

abbrev pub max_public_tool_name_len : ℕ
max_public_tool_name_len = 64

abbrev pub truncated_body_len : ℕ
truncated_body_len = 55

abbrev pub hash_suffix_len : ℕ
hash_suffix_len = 8

-- The characters [A-Za-z0-9_-].
abbrev pub is_tool_char : ℕ → Bool
is_tool_char r =
    (leb b'a' r && leb r b'z')
    || ((leb b'A' r && leb r b'Z')
        || ((leb b'0' r && leb r b'9') || (nat_eq r b'_' || nat_eq r b'-')))

abbrev pub sanitize_char : ℕ → ℕ
sanitize_char r = if is_tool_char r then r else b'_'

abbrev pub or_x : Bytes → Bytes
or_x [] = b'x' ∷ []
or_x (c ∷ s) = c ∷ s

unfoldable pub sanitize_tool_segment : List ℕ → Bytes
sanitize_tool_segment s = or_x (map sanitize_char s)

-- `<serverName>__<sanitizedTool>`
abbrev pub full_name : Bytes → List ℕ → Bytes
full_name server tool = server ++ (b'_' ∷ b'_' ∷ sanitize_tool_segment tool)

-- `hash` is the hexadecimal SHA-256 digest, which has 64 digits.
module _ (hash : Bytes → Bytes) where
  unfoldable pub public_tool_name : Bytes → List ℕ → Bytes
  public_tool_name server tool =
      let full = full_name server tool in
      if leb (length full) max_public_tool_name_len
      then full
      else take truncated_body_len full ++ (b'_' ∷ take hash_suffix_len (hash full))
