-- ===== src/Tests/Aggregator.antt =====
-- The aggregator at concrete runs (internal/mcpgateway/application).
use coding_switch.Base.{
  In, ◌↔◌, ℕ, ◌≤◌, true, false, [], ◌∷◌, none, some, Bytes, codes, ℤ, pos, lookup, int_is_eq,
  bytes_is_eq, ◌≡◌, refl, arith,
}
use coding_switch.Mcp.Server.{McpServer, stdio}
use coding_switch.Mcp.Aggregator.{Tool, ToolInfo, connected, Upstream, Aggregator, register_tools}
use coding_switch.Mcp.Naming.{public_tool_name, sanitize_tool_segment}
use coding_switch.Mcp.Aggregator.Sync.{servers_by_id, sync_once, close, new_upstream}
use coding_switch.Mcp.Aggregator.Results.{established, discard, finish_connect, mark_failed}
use coding_switch.Mcp.Aggregator.Replay.{served}
use coding_switch.Mcp.Aggregator.Served.{Steps-served}
use coding_switch.Mcp.Aggregator.Closed.{nothing_after_close}
use coding_switch.Mcp.Aggregator.Calls.{call_target}
use coding_switch.Mcp.Aggregator.Calls.Published.{published-call_target}
use coding_switch.Mcp.Aggregator.Stale.{by_pass, stale_result}
use coding_switch.Mcp.Aggregator.Ownership.{Registered, owned_by}
use coding_switch.Mcp.Aggregator.Views.{list_broken, test_connection, tool_catalog, statuses}
use coding_switch.Mcp.Aggregator.Views.Catalog.{tool_catalog-owned}
use coding_switch.Mcp.Aggregator.Converging.Pass.{Matches, sync_once-Converges}
use coding_switch.Mcp.Aggregator.Reach.{
  new_aggregator, Steps, stop, go, syncs, finishes, fails, Steps-Registered,
}

abbrev pub server : McpServer
server = record {
  id = pos 1;
  name = codes "fs";
  server_type = stdio;
  command = codes "npx";
  args = none;
  env = none;
  url = [];
  headers = none;
  enabled = true;
  position = pos 0;
  timeout_sec = pos 60;
}

abbrev tool : Tool
tool = record { name = codes "read"; description = codes "Reads." }

abbrev pub digest : Bytes → Bytes
digest s = s

abbrev pub print : McpServer → Bytes
print s = s.name

abbrev synced : Aggregator
synced = (sync_once print 5 (server ∷ []) new_aggregator).0

abbrev running : Aggregator
running = finish_connect digest 6 (pos 1) 1 (established 7 (tool ∷ [])) synced

abbrev run : Steps digest print new_aggregator running
run = go (go stop (syncs 5 (server ∷ []))) (finishes 6 (pos 1) 1 (established 7 (tool ∷ [])))

published :
    lookup (codes "fs__read") running.tools
    ≡ some (record { server_id = pos 1; upstream_name = codes "read" })
unfolding sync_once finish_connect register_tools public_tool_name sanitize_tool_segment
published = refl

Steps-Registered_example : Registered running
Steps-Registered_example = Steps-Registered digest print run

Steps-served_example : served running.calls [] ≡ running.tools
Steps-served_example = Steps-served digest print run

nothing_after_close_example :
    ((id : ℤ) → lookup id (mark_failed 9 (pos 1) 7 [] (close running)).ups ≡ none)
    × ((n : Bytes) → lookup n (mark_failed 9 (pos 1) 7 [] (close running)).tools ≡ none)
nothing_after_close_example = nothing_after_close digest print run (go stop (fails 9 (pos 1) 7 []))

abbrev started : Upstream
started = record (new_upstream server (codes "fs")) { generation = 1 }

abbrev switched_off : McpServer
switched_off = record server { enabled = false }

-- The server is disabled while its first connection is under way, and then enabled again.
abbrev paused : Aggregator
paused = (sync_once print 6 (switched_off ∷ []) synced).0

abbrev resumed : Aggregator
resumed = (sync_once print 7 (server ∷ []) paused).0

still_open : synced.closed ≡ false
unfolding sync_once
still_open = refl

is_started : lookup (pos 1) synced.ups ≡ some started
unfolding sync_once
is_started = refl

one_issued : 1 ≤ synced.gen_seq
unfolding sync_once
one_issued = omega arith

stale_result_example :
    finish_connect digest 8 (pos 1) 1 (established 7 (tool ∷ [])) resumed
    ≡ discard (established 7 (tool ∷ [])) resumed
stale_result_example =
    stale_result digest print 8 (pos 1) 1 (established 7 (tool ∷ [])) synced paused resumed
      one_issued (by_pass 6 (switched_off ∷ []) started still_open is_started refl)
      (go stop (syncs 7 (server ∷ [])))

published-call_target_example :
    (session : ℕ) × (seconds : ℤ) × (call_target (pos 1) running ≡ some (session, seconds))
published-call_target_example =
    published-call_target digest print run (codes "fs__read")
      (record { server_id = pos 1; upstream_name = codes "read" }) published

abbrev renamed : McpServer
renamed = record server { name = codes "files" }

still_running : running.closed ≡ false
unfolding sync_once finish_connect register_tools
still_running = refl

sync_once-Converges_example :
    ((j : ℤ)
      → Matches print 8
          (lookup j running.ups)
          (lookup j (servers_by_id true (renamed ∷ []) []))
          (lookup j (servers_by_id false (renamed ∷ []) []))
          (sync_once print 8 (renamed ∷ []) running).1
          (lookup j (sync_once print 8 (renamed ∷ []) running).0.ups))
    × (sync_once print 8 (renamed ∷ []) (sync_once print 8 (renamed ∷ []) running).0
        ≡ ((sync_once print 8 (renamed ∷ []) running).0, []))
sync_once-Converges_example = sync_once-Converges print 8 (renamed ∷ []) running still_running

listed_tool :
    tool_catalog running
    ≡ record {
      server_id = pos 1;
      server_name = codes "fs";
      public_name = codes "fs__read";
      upstream_name = codes "read";
      description = codes "Reads.";
    }
      ∷ []
unfolding tool_catalog sync_once finish_connect register_tools public_tool_name
    sanitize_tool_segment
listed_tool = refl

is_up :
    statuses running
    ≡ record { server_id = pos 1; state = connected; tool_count = 1; error = [] } ∷ []
unfolding statuses sync_once finish_connect register_tools public_tool_name sanitize_tool_segment
is_up = refl

-- A list that breaks off is a failure, and the session is closed.
breaks_off :
    test_connection (list_broken 4 (codes "eof"))
    ≡ (record { success = false; tool_count = 0; error = codes "eof" }, some 4)
unfolding test_connection
breaks_off = refl

tool_catalog-owned_example :
    ((info : ToolInfo) × In info (tool_catalog running)
      × (info.public_name ≡ codes "fs__read")
      × (info.server_id ≡ pos 1))
    ↔ (owned_by (lookup (codes "fs__read") running.tools) (pos 1) ≡ true)
tool_catalog-owned_example = tool_catalog-owned digest print run (codes "fs__read") (pos 1)
