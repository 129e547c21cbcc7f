-- ===== src/Tests/Mcp.antt =====
-- The MCP gateway at concrete inputs (internal/mcpgateway).
use coding_switch.Base.{
  ◌≤◌, true, false, [], ◌∷◌, none, some, Bytes, codes, pos, negsuc, ◌≡◌, ◌≢◌, ◌↔◌, ◌⊎◌, refl, arith,
  ok, length, contains_text,
}
use coding_switch.Mcp.Naming.{sanitize_tool_segment, full_name, public_tool_name}
use coding_switch.Mcp.Naming.Chars.{IsToolText, IsHex, public_name_bounded}
use coding_switch.Mcp.Server.{McpServer, UrlParser, stdio, validate, name_pattern}
use coding_switch.Mcp.Server.Valid.{server_validate_iff, IsStdio, IsHttp}
use coding_switch.Mcp.Server.Collision.{separator, accepted_names_collide}

sanitize_run : sanitize_tool_segment (codes "a.b:c") ≡ codes "a_b_c"
unfolding sanitize_tool_segment
sanitize_run = refl

-- A digest of 64 zeros.
abbrev zeros : Bytes → Bytes
zeros _ = codes "0000000000000000000000000000000000000000000000000000000000000000"

zeros-IsHex : (s : Bytes) → IsHex (zeros s)
zeros-IsHex s = search refl depth 130

public_name_bounded_example :
    (length (public_tool_name zeros (codes "fs") (codes "read file")) ≤ 64)
    × IsToolText (public_tool_name zeros (codes "fs") (codes "read file"))
public_name_bounded_example =
    public_name_bounded zeros (λ s. refl) zeros-IsHex (codes "fs") (codes "read file")
      (refl, (refl, tt))

same_full : full_name (codes "fs") (codes "a.b") ≡ full_name (codes "fs") (codes "a:b")
unfolding sanitize_tool_segment
same_full = refl

abbrev server : McpServer
server = record {
  id = pos 0;
  name = codes "fs";
  server_type = stdio;
  command = codes "npx";
  args = some (codes "-y" ∷ []);
  env = none;
  url = codes "http://x";
  headers = none;
  enabled = true;
  position = pos 0;
  timeout_sec = negsuc 4;
}

abbrev no_urls : UrlParser
no_urls _ = none

accepted : validate no_urls server ≡ ok tt
unfolding validate
accepted = refl

server_validate_iff_example : (validate no_urls server ≡ ok tt) ↔ (
    (name_pattern server.name ≡ true)
    × (contains_text (codes "__") server.name ≡ false)
    × (IsStdio server ⊎ IsHttp no_urls server))
server_validate_iff_example = server_validate_iff no_urls server

accepted_names_collide_example :
    (name_pattern (codes "a_") ≡ true)
    × (contains_text separator (codes "a_") ≡ false)
    × (codes "a_" ≢ codes "a")
    × (public_tool_name zeros (codes "a_") (codes "b")
        ≡ public_tool_name zeros (codes "a") (codes "_b"))
accepted_names_collide_example =
    accepted_names_collide zeros (codes "a") b'b' [] refl refl refl (omega arith)
