-- ===== src/Mcp/Server/Valid.antt =====
-- What `Normalize` and `Validate` guarantee of a configuration.
use coding_switch.Base.{
  true, false, [], bytes_is_eq, bytes_eq_iff, codes, contains_text, ◌≡◌, ◌≢◌, ◌↔◌, beq_false, ◌⊎◌,
  inl, inr, arith, ok,
}
use coding_switch.Mcp.Server.{
  McpServer, UrlParser, stdio, http, validate, name_pattern, has_empty_key, bad_parsed_url,
}

-- A command without empty environment keys, or a well-formed URL without empty header keys.
abbrev pub IsStdio : McpServer → Type 0
IsStdio s = (s.server_type ≡ stdio) × (s.command ≢ []) × (has_empty_key s.env ≡ false)

abbrev pub IsHttp : UrlParser → McpServer → Type 0
IsHttp parse_url s =
    (s.server_type ≡ http)
    × (s.url ≢ [])
    × (bad_parsed_url (parse_url s.url) ≡ false)
    × (has_empty_key s.headers ≡ false)

validate_sound :
    (parse_url : UrlParser) (s : McpServer)
    → validate parse_url s ≡ ok tt
    → (name_pattern s.name ≡ true)
      × (contains_text (codes "__") s.name ≡ false)
      × (IsStdio s ⊎ IsHttp parse_url s)
unfolding validate
validate_sound parse_url s h = ground (
  arith,
  bytes_eq_iff s.server_type stdio,
  bytes_eq_iff s.server_type http,
  bytes_eq_iff s.command [],
  bytes_eq_iff s.url [],
)

validate_complete :
    (parse_url : UrlParser) (s : McpServer)
    → name_pattern s.name ≡ true
    → contains_text (codes "__") s.name ≡ false
    → IsStdio s ⊎ IsHttp parse_url s
    → validate parse_url s ≡ ok tt
unfolding validate
validate_complete parse_url s n d (inl (t, c, e)) = rw (n, d, t, beq_false s.command [] c, e)
validate_complete parse_url s n d (inr (t, u, p, e)) = rw (n, d, t, beq_false s.url [] u, p, e)

-- A configuration is accepted exactly if its name fits the pattern and has no "__" in it, and it is
-- a `stdio` server with a command and no empty environment key, or an `http` server with a
-- well-formed URL and no empty header key.
pub server_validate_iff :
    (parse_url : UrlParser) (s : McpServer)
    → (validate parse_url s ≡ ok tt) ↔ (
        (name_pattern s.name ≡ true)
        × (contains_text (codes "__") s.name ≡ false)
        × (IsStdio s ⊎ IsHttp parse_url s))
server_validate_iff parse_url s =
    (validate_sound parse_url s, λ h. validate_complete parse_url s h.0 h.1 h.2)
