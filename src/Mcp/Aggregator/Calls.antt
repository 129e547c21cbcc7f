-- ===== src/Mcp/Aggregator/Calls.antt =====
-- The handler of a published tool, and the notice of an upstream that its tools changed.
pub mod Published
use coding_switch.Base.{
  ℕ, Bool, true, false, not, ◌||◌, Option, none, some, int_is_eq, ℤ, pos, lookup, if◌then◌else◌,
  not_positive,
}
use coding_switch.Mcp.Server.{default_timeout_sec}
use coding_switch.Mcp.Aggregator.{State, connected, Upstream, Aggregator}

abbrev pub is_connected : State → Bool
is_connected connected = true
is_connected _ = false

abbrev pub timeout_of : ℤ → ℤ
timeout_of n = if not_positive n then pos default_timeout_sec else n

-- The session and the seconds that a call gets; `none` is the error `not connected`.
abbrev pub target_of : Option Upstream → Option (ℕ × ℤ)
target_of none = none
target_of (some up) = elim up.session [
  | none ↦ none
  | some session ↦ some (session, timeout_of up.cfg.timeout_sec)
]

-- `makeCallHandler`, up to the call.
unfoldable pub call_target : ℤ → Aggregator → Option (ℕ × ℤ)
call_target id a = target_of (lookup id a.ups)

-- `onUpstreamToolsChanged`: the session and the generation to refresh with.
abbrev refresh_of : Option Upstream → Option (ℕ × ℕ)
refresh_of none = none
refresh_of (some up) = elim up.session [
  | none ↦ none
  | some session ↦ if not (is_connected up.state) then none else some (session, up.generation)
]

unfoldable pub upstream_tools_changed : ℤ → Aggregator → Option (ℕ × ℕ)
upstream_tools_changed id a = if a.closed then none else refresh_of (lookup id a.ups)
