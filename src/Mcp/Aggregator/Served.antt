-- ===== src/Mcp/Aggregator/Served.antt =====
-- The MCP server publishes the tools of the registry: its calls, replayed, give the registry.
use coding_switch.Base.{
  List, [], ◌∷◌, ◌++◌, Bytes, bytes_is_eq, int_is_eq, ℤ, Map, lookup, seen_before, Bool-cases, ◌≡◌,
  refl, ◌∙◌, inl, inr,
}
use coding_switch.Mcp.Naming.{public_tool_name}
use coding_switch.Mcp.Server.{McpServer}
use coding_switch.Mcp.Aggregator.{
  Tool, Upstream, ToolRef, Call, close_session, notify_changed, Aggregator, remove_call, detach,
  Registration, taken_by_other, register_as, register_all, register_tools, publish,
}
use coding_switch.Mcp.Aggregator.Results.{connected_record}
use coding_switch.Mcp.Aggregator.Reach.{new_aggregator, Steps, Steps-keeps}
use coding_switch.Mcp.Aggregator.Replay.{
  served, served-append, served-remove_call, Serves, detach-Serves, teardown-Serves,
}
use coding_switch.Mcp.Aggregator.Keeping.{cleared, Steady}

notified-Serves :
    (cs : List Call) (m : Map Bytes ToolRef)
    → served cs [] ≡ m
    → served (cs ++ notify_changed ∷ []) [] ≡ m
notified-Serves cs m h = served-append cs (notify_changed ∷ []) [] ∙ h

module _ (hash : Bytes → Bytes) where
  register_as-Serves :
      (tool : Tool) (p : Bytes) (r : Registration)
      → served r.calls [] ≡ r.tools
      → served (register_as tool p r).calls [] ≡ (register_as tool p r).tools
  unfolding register_as publish
  register_as-Serves tool p r h = elim (Bool-cases (seen_before p r.seen)) [
    | inl old ↦ rw old h
    | inr new ↦ rw new (elim (Bool-cases (taken_by_other (lookup p r.tools) r.up.cfg.id)) [
      | inl y ↦ rw y h
      | inr n ↦ rw n (served-append r.calls _ [] ∙ rw h refl)
    ])
  ]

  register_all-Serves :
      (tools : List Tool) (r : Registration)
      → served r.calls [] ≡ r.tools
      → served (register_all hash tools r).calls [] ≡ (register_all hash tools r).tools
  unfolding register_all
  register_all-Serves [] r h = h
  register_all-Serves (tool ∷ tools) r h =
      register_all-Serves tools _
        (register_as-Serves tool (public_tool_name hash r.up.cfg.name tool.name) r h)

  register_tools-Serves :
      (id : ℤ) (up : Upstream) (tools : List Tool) (a : Aggregator)
      → Serves a
      → Serves (register_tools hash id up tools a)
  unfolding register_tools
  register_tools-Serves id up tools a h =
      register_all-Serves tools (record { seen = []; up = up; tools = a.tools; calls = a.calls }) h

module _ (hash : Bytes → Bytes) (fingerprint : McpServer → Bytes) where
  Serves-Steady : Steady hash fingerprint Serves
  Serves-Steady = record {
    at_teardown = teardown-Serves;
    at_disable = λ id up cfg a found own h. detach-Serves id up a h;
    at_new = λ id cfg a jobs missing own h. h;
    at_start = λ id cfg up a jobs found h. h;
    at_discard = λ session a h. served-append a.calls (close_session session ∷ []) [] ∙ h;
    at_refusal = λ now id up e a found h. notified-Serves a.calls a.tools h;
    at_connection = λ id up session tools a found h.
        register_tools-Serves hash id (connected_record up session) tools a h;
    at_refresh = λ id up session tools a found has h.
        register_tools-Serves hash id (cleared up) tools _ (
          served-append a.calls (remove_call up.tool_names) []
          ∙ rw (served-remove_call up.tool_names (served a.calls []), h) refl);
    at_failure = λ now id up e a found h.
        notified-Serves (detach id up a).calls (detach id up a).tools (detach-Serves id up a h);
    at_close = λ a h. h;
  }

  -- In every state that the operations reach from a new aggregator, the MCP server that took its
  -- calls `AddTool` and `RemoveTools` in order publishes exactly the registry's tools.
  pub Steps-served :
      {a : Aggregator} → Steps hash fingerprint new_aggregator a → served a.calls [] ≡ a.tools
  Steps-served = Steps-keeps hash fingerprint Serves Serves-Steady refl
