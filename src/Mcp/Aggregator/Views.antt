-- ===== src/Mcp/Aggregator/Views.antt =====
-- What connects a server and what only reads: `connectAndRegister`, `TestConnection`, `ToolCatalog`
-- and `Statuses`. A time limit, or a prefix of an error, is part of what the connector answers.
pub mod Catalog
use coding_switch.Base.{
  ℕ, Bool, true, false, List, [], ◌∷◌, ◌++◌, map, Option, none, some, Bytes, ◌==◌, bytes_lt,
  int_is_eq, int_lt, ℤ, Map, lookup, length, sort_by, if◌then◌else◌,
}
use coding_switch.Mcp.Aggregator.{State, Tool, ToolInfo, Upstream, Aggregator, close_session}
use coding_switch.Mcp.Aggregator.Sync.{ids_of}
use coding_switch.Mcp.Aggregator.Results.{established, refused, finish_connect}

-- What the connector and then `session.Tools` answer: no session; a session that lists its tools; or
-- a session whose list breaks off.
pub data Answer : Type 0 where
  no_session : Bytes → Answer
  tools_listed : ℕ → List Tool → Answer
  list_broken : ℕ → Bytes → Answer

unfoldable pub connect_and_register : (Bytes → Bytes) → ℕ → ℤ → ℕ → Answer → Aggregator → Aggregator
unfolding finish_connect
connect_and_register hash now id generation (no_session error) a =
    finish_connect hash now id generation (refused error) a
connect_and_register hash now id generation (tools_listed session tools) a =
    finish_connect hash now id generation (established session tools) a
connect_and_register hash now id generation (list_broken session error) a =
    finish_connect hash now id generation (refused error)
      (record a { calls = a.calls ++ close_session session ∷ [] })

-- Without the duration.
pub record TestResult : Type 0 where
  pub success : Bool
  pub tool_count : ℕ
  pub error : Bytes

-- The result, and the session to close.
unfoldable pub test_connection : Answer → TestResult × Option ℕ
test_connection (no_session error) =
    (record { success = false; tool_count = 0; error = error }, none)
test_connection (tools_listed session tools) =
    (record { success = true; tool_count = length tools; error = [] }, some session)
test_connection (list_broken session error) =
    (record { success = false; tool_count = 0; error = error }, some session)

abbrev pub details_of : Option Upstream → List ToolInfo
details_of none = []
details_of (some up) = up.tool_details

abbrev pub all_details : List ℤ → Map ℤ Upstream → List ToolInfo
all_details [] ups = []
all_details (id ∷ ids) ups = details_of (lookup id ups) ++ all_details ids ups

abbrev pub catalog_less : ToolInfo → ToolInfo → Bool
catalog_less i j =
    if i.server_id == j.server_id
    then bytes_lt i.public_name j.public_name
    else int_lt i.server_id j.server_id

-- `ToolCatalog`
unfoldable pub tool_catalog : Aggregator → List ToolInfo
tool_catalog a = sort_by catalog_less (all_details (ids_of a.ups) a.ups)

pub record UpstreamStatus : Type 0 where
  pub server_id : ℤ
  pub state : State
  pub tool_count : ℕ
  pub error : Bytes

-- `Statuses`
unfoldable pub statuses : Aggregator → List UpstreamStatus
statuses a =
    map
      (λ (e : ℤ × Upstream). record {
        server_id = e.0;
        state = e.1.state;
        tool_count = length e.1.tool_names;
        error = e.1.error;
      })
      a.ups
