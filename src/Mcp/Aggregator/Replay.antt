-- ===== src/Mcp/Aggregator/Replay.antt =====
-- The calls to the MCP server, replayed.
use coding_switch.Base.{
  ℕ, List, [], ◌∷◌, ◌++◌, Option, none, some, Bytes, bytes_is_eq, int_is_eq, ℤ, Map, lookup, insert,
  Option-cases, ◌≡◌, refl, inl, inr,
}
use coding_switch.Mcp.Aggregator.{
  Upstream, ToolRef, Call, add_tool, remove_tools, close_session, notify_changed, Aggregator,
  delete_all, remove_call, close_call, detach, teardown,
}

-- The tools that an MCP server publishes after the calls: `AddTool` replaces a tool of the same
-- name, and `RemoveTools` passes over a name that is not there.
abbrev pub served : List Call → Map Bytes ToolRef → Map Bytes ToolRef
served [] m = m
served (add_tool n ref ∷ cs) m = served cs (insert n ref m)
served (remove_tools ns ∷ cs) m = served cs (delete_all ns m)
served (close_session _ ∷ cs) m = served cs m
served (notify_changed ∷ cs) m = served cs m

pub served-append :
    (cs ds : List Call) (m : Map Bytes ToolRef) → served (cs ++ ds) m ≡ served ds (served cs m)
served-append [] ds m = refl
served-append (add_tool n ref ∷ cs) ds m = served-append cs ds (insert n ref m)
served-append (remove_tools ns ∷ cs) ds m = served-append cs ds (delete_all ns m)
served-append (close_session _ ∷ cs) ds m = served-append cs ds m
served-append (notify_changed ∷ cs) ds m = served-append cs ds m

pub served-remove_call :
    (ns : List Bytes) (m : Map Bytes ToolRef) → served (remove_call ns) m ≡ delete_all ns m
served-remove_call [] m = refl
served-remove_call (n ∷ ns) m = refl

served-close_call : (o : Option ℕ) (m : Map Bytes ToolRef) → served (close_call o) m ≡ m
served-close_call none m = refl
served-close_call (some s) m = refl

abbrev pub Serves : Aggregator → Type 0
Serves a = served a.calls [] ≡ a.tools

pub detach-Serves : (id : ℤ) (up : Upstream) (a : Aggregator) → Serves a → Serves (detach id up a)
unfolding detach
detach-Serves id up a h =
    rw
      (
        served-append a.calls (remove_call up.tool_names ++ close_call up.session) [],
        served-append (remove_call up.tool_names) (close_call up.session) (served a.calls []),
        served-close_call up.session (served (remove_call up.tool_names) (served a.calls [])),
        served-remove_call up.tool_names (served a.calls []),
        h,
      )
      refl

pub teardown-Serves : (id : ℤ) (a : Aggregator) → Serves a → Serves (teardown id a)
unfolding teardown
teardown-Serves id a h = elim (Option-cases (lookup id a.ups)) [
  | inl missing ↦ rw missing h
  | inr (up, found) ↦ rw found (detach-Serves id up a h)
]
