-- ===== src/PlatformProxy/EnvText.antt =====
-- The text of a dotenv file and its lines (internal/platformproxy/infrastructure/env_edit.go).
use coding_switch.Base.{
  ℕ, Bool, ◌||◌, List, [], ◌∷◌, ◌++◌, Bytes, ◌==◌, bytes_is_eq, codes, nat_eq, has_suffix,
  contains_text, if◌then◌else◌,
}

-- `strings.TrimSuffix` with a text of one byte, and what it cuts off.
abbrev pub chop : ℕ → Bytes → Bytes
chop b [] = []
chop b (c ∷ []) = if nat_eq c b then [] else c ∷ []
chop b (c ∷ (d ∷ s)) = c ∷ chop b (d ∷ s)

abbrev pub chopped : ℕ → Bytes → Bytes
chopped b [] = []
chopped b (c ∷ []) = if nat_eq c b then c ∷ [] else []
chopped b (c ∷ (d ∷ s)) = chopped b (d ∷ s)

-- The line without its end, and the end.
abbrev pub content_of : Bytes → Bytes
content_of line = chop b'\r' (chop b'\n' line)

abbrev pub ending_of : Bytes → Bytes
ending_of line = chopped b'\r' (chop b'\n' line) ++ chopped b'\n' line

-- One more line end after `push`: the bytes of a line come one by one.
abbrev pub push : ℕ → List Bytes → List Bytes
push c [] = (c ∷ []) ∷ []
push c (line ∷ lines) = (c ∷ line) ∷ lines

-- `splitEnvLines`: a line keeps its line break.
unfoldable pub split_env_lines : Bytes → List Bytes
split_env_lines [] = []
split_env_lines (c ∷ s) =
    let rest = split_env_lines s in if nat_eq c b'\n' then (c ∷ []) ∷ rest else push c rest

-- `strings.Join(lines, "")`
abbrev pub join : List Bytes → Bytes
join [] = []
join (line ∷ lines) = line ++ join lines

-- `detectEnvNewline`
abbrev pub detect_env_newline : Bytes → Bytes
detect_env_newline s = if contains_text (codes "\r\n") s then codes "\r\n" else codes "\n"

abbrev pub is_terminated : Bytes → Bool
is_terminated s = has_suffix (codes "\n") s || has_suffix (codes "\r") s

abbrev pub append_loop : Bytes → List Bytes → Bytes
append_loop newline [] = []
append_loop newline (line ∷ []) = line
append_loop newline (line ∷ (next ∷ lines)) =
    line ++ ((if is_terminated line then [] else newline) ++ append_loop newline (next ∷ lines))

-- `appendEnvLines`
unfoldable pub append_env_lines : Bytes → List Bytes → Bytes
append_env_lines s lines =
    let newline = detect_env_newline s in
    s ++ ((if (s == []) || is_terminated s then [] else newline) ++ append_loop newline lines)

-- `ensureEnvLinesTerminated`
abbrev pub ensure_env_lines_terminated : List Bytes → Bytes → List Bytes
ensure_env_lines_terminated [] newline = []
ensure_env_lines_terminated (line ∷ []) newline =
    (if is_terminated line then line else line ++ newline) ∷ []
ensure_env_lines_terminated (line ∷ (next ∷ lines)) newline =
    line ∷ ensure_env_lines_terminated (next ∷ lines) newline
