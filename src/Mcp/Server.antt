-- ===== src/Mcp/Server.antt =====
-- The configuration of an upstream server (internal/mcpgateway/domain/models.go).
pub mod Valid
pub mod Collision
use coding_switch.Base.{
  ℕ, ◌+◌, Bool, true, false, not, ◌&&◌, ◌||◌, List, [], ◌∷◌, Option, none, some, Bytes, ◌==◌,
  bytes_is_eq, ℤ, pos, codes, leb, length, not_positive, int_lt, Map, any, contains_text,
  if◌then◌else◌, Result, ok, err, ◌>>=◌, ◌>>◌,
}
use coding_switch.Mcp.Naming.{is_tool_char}

abbrev pub ServerType : Type 0
ServerType = Bytes

abbrev pub stdio : ServerType
stdio = codes "stdio"

abbrev pub http : ServerType
http = codes "http"

abbrev pub default_timeout_sec : ℕ
default_timeout_sec = 30

abbrev pub max_timeout_sec : ℕ
max_timeout_sec = 300

-- `none` stands for a nil map or slice. The times of creation and of update are left out.
pub record McpServer : Type 0 where
  pub id : ℤ
  pub name : Bytes
  pub server_type : ServerType
  pub command : Bytes
  pub args : Option (List Bytes)
  pub env : Option (Map Bytes Bytes)
  pub url : Bytes
  pub headers : Option (Map Bytes Bytes)
  pub enabled : Bool
  pub position : ℤ
  pub timeout_sec : ℤ

abbrev clear_unused : McpServer → McpServer
clear_unused s =
    if s.server_type == stdio
    then record s { url = []; headers = none }
    else if s.server_type == http
    then record s { command = []; args = none; env = none }
    else s

abbrev default_timeout : ℤ → ℤ
default_timeout t = if not_positive t then pos default_timeout_sec else t

abbrev cap_timeout : ℤ → ℤ
cap_timeout t = if int_lt (pos max_timeout_sec) t then pos max_timeout_sec else t

unfoldable pub normalize : McpServer → McpServer
normalize s =
    let c = clear_unused s in record c { timeout_sec = cap_timeout (default_timeout c.timeout_sec) }

pub data ServerError : Type 0 where
  bad_name double_underscore command_required empty_env_key url_required bad_url : ServerError
  empty_header_key unknown_type : ServerError

abbrev pub is_alnum : ℕ → Bool
is_alnum c =
    (leb b'a' c && leb c b'z') || ((leb b'A' c && leb c b'Z') || (leb b'0' c && leb c b'9'))

abbrev pub all_tool : Bytes → Bool
all_tool [] = true
all_tool (c ∷ s) = is_tool_char c && all_tool s

-- `^[A-Za-z0-9][A-Za-z0-9_-]{0,31}$`
abbrev pub name_pattern : Bytes → Bool
name_pattern [] = false
name_pattern (c ∷ s) = is_alnum c && (all_tool s && leb (length s) 31)

abbrev guard : Bool → ServerError → Result ServerError (Unit {0})
guard true e = err e
guard false e = ok tt

-- A nil map has no keys.
abbrev pub has_empty_key : Option (Map Bytes Bytes) → Bool
has_empty_key none = false
has_empty_key (some m) = any (λ (e : Bytes × Bytes). e.0 == []) m

-- `url.Parse`: the scheme and the host of a well-formed URL.
abbrev pub UrlParser : Type 0
UrlParser = Bytes → Option (Bytes × Bytes)

abbrev pub bad_parsed_url : Option (Bytes × Bytes) → Bool
bad_parsed_url none = true
bad_parsed_url (some (scheme, host)) =
    (not (scheme == codes "http") && not (scheme == codes "https")) || host == []

abbrev validate_stdio : McpServer → Result ServerError (Unit {0})
validate_stdio s = do
  guard (s.command == []) command_required
  guard (has_empty_key s.env) empty_env_key

abbrev validate_http : UrlParser → McpServer → Result ServerError (Unit {0})
validate_http parse_url s = do
  guard (s.url == []) url_required
  guard (bad_parsed_url (parse_url s.url)) bad_url
  guard (has_empty_key s.headers) empty_header_key

abbrev validate_type : UrlParser → McpServer → Result ServerError (Unit {0})
validate_type parse_url s =
    if s.server_type == stdio
    then validate_stdio s
    else if s.server_type == http
    then validate_http parse_url s
    else err unknown_type

unfoldable pub validate : UrlParser → McpServer → Result ServerError (Unit {0})
validate parse_url s = do
  guard (not (name_pattern s.name)) bad_name
  guard (contains_text (codes "__") s.name) double_underscore
  validate_type parse_url s
