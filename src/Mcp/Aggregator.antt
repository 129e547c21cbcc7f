-- ===== src/Mcp/Aggregator.antt =====
-- The aggregator of upstream MCP servers (internal/mcpgateway/application/aggregator.go): its state,
-- and the parts of its operations that run under the lock. A session is the number of its pointer,
-- a time is in nanoseconds and 0 is the zero time.
pub mod Sync
pub mod Results
pub mod Views
pub mod Keeping
pub mod Filled
pub mod Everywhere
pub mod Ownership
pub mod Replay
pub mod Served
pub mod Generations
pub mod Reach
pub mod Closed
pub mod Converging
pub mod Loop
pub mod Stale
pub mod Calls
use coding_switch.Base.{
  ℕ, zero, suc, ◌+◌, ◌*◌, Bool, true, false, not, ◌&&◌, ◌||◌, List, [], ◌∷◌, ◌++◌, map, Option,
  none, some, Bytes, ◌==◌, bytes_is_eq, int_is_eq, ℤ, Map, lookup, insert, delete, if◌then◌else◌,
  seen_before,
}
use coding_switch.Kernel.{second}
use coding_switch.Mcp.Naming.{public_tool_name}
use coding_switch.Mcp.Server.{McpServer}

pub data State : Type 0 where
  connecting connected failed disabled : State

-- A tool as the upstream lists it. Its schema and its annotations are left out.
pub record Tool : Type 0 where
  pub name : List ℕ
  pub description : Bytes

pub record ToolInfo : Type 0 where
  pub server_id : ℤ
  pub server_name : Bytes
  pub public_name : Bytes
  pub upstream_name : List ℕ
  pub description : Bytes

pub record Upstream : Type 0 where
  pub cfg : McpServer
  pub fingerprint : Bytes
  pub session : Option ℕ
  pub state : State
  pub error : Bytes
  pub tool_names : List Bytes
  pub tool_details : List ToolInfo
  pub backoff_idx : ℕ
  pub next_retry : ℕ
  pub generation : ℕ

pub record ToolRef : Type 0 where
  pub server_id : ℤ
  pub upstream_name : List ℕ

-- What the aggregator asks of others, in order: of the MCP server that it publishes tools on, of a
-- session (`Close`, in a goroutine of its own) and of its reconcile loop (`NotifyChanged`).
pub data Call : Type 0 where
  add_tool : Bytes → ToolRef → Call
  remove_tools : List Bytes → Call
  close_session : ℕ → Call
  notify_changed : Call

pub record Aggregator : Type 0 where
  pub ups : Map ℤ Upstream
  pub tools : Map Bytes ToolRef
  pub gen_seq : ℕ
  pub closed : Bool
  pub calls : List Call

-- `delete(a.tools, name)` for each name.
abbrev pub delete_all : List Bytes → Map Bytes ToolRef → Map Bytes ToolRef
delete_all [] tools = tools
delete_all (n ∷ ns) tools = delete_all ns (delete n tools)

abbrev pub remove_call : List Bytes → List Call
remove_call [] = []
remove_call (n ∷ ns) = remove_tools (n ∷ ns) ∷ []

abbrev pub close_call : Option ℕ → List Call
close_call none = []
close_call (some session) = close_session session ∷ []

-- `toolDetails = nil`, which is under the test that there are names.
abbrev pub kept_details : List Bytes → List ToolInfo → List ToolInfo
kept_details [] details = details
kept_details (_ ∷ _) details = []

-- What `detachLocked` leaves of the record.
abbrev pub detached_record : ℕ → Upstream → Upstream
detached_record generation up = record up {
  generation = generation;
  session = none;
  tool_names = [];
  tool_details = kept_details up.tool_names up.tool_details;
}

-- `detachLocked`, on the record `up` that stands at `id`.
unfoldable pub detach : ℤ → Upstream → Aggregator → Aggregator
detach id up a =
    let generation = a.gen_seq + 1 in
    record a {
      ups = insert id (detached_record generation up) a.ups;
      tools = delete_all up.tool_names a.tools;
      gen_seq = generation;
      calls = a.calls ++ (remove_call up.tool_names ++ close_call up.session);
    }

abbrev pub teardown_found : Option Upstream → ℤ → Aggregator → Aggregator
teardown_found none id a = a
teardown_found (some up) id a = let d = detach id up a in record d { ups = delete id d.ups }

-- `teardownLocked`
unfoldable pub teardown : ℤ → Aggregator → Aggregator
unfolding detach
teardown id a = teardown_found (lookup id a.ups) id a

-- The loop of `registerToolsLocked` works on these.
pub record Registration : Type 0 where
  pub seen : List Bytes
  pub up : Upstream
  pub tools : Map Bytes ToolRef
  pub calls : List Call

abbrev pub taken_by_other : Option ToolRef → ℤ → Bool
taken_by_other none id = false
taken_by_other (some ref) id = not (ref.server_id == id)

abbrev pub new_tool_info : Upstream → Tool → Bytes → ToolInfo
new_tool_info up tool public = record {
  server_id = up.cfg.id;
  server_name = up.cfg.name;
  public_name = public;
  upstream_name = tool.name;
  description = tool.description;
}

-- The end of a round, for a tool that is published.
pub publish : Tool → Bytes → Registration → Registration
publish tool public r =
    let ref : ToolRef = record { server_id = r.up.cfg.id; upstream_name = tool.name } in
    record {
      seen = public ∷ r.seen;
      up = record (r.up) {
        tool_names = r.up.tool_names ++ public ∷ [];
        tool_details = r.up.tool_details ++ new_tool_info r.up tool public ∷ [];
      };
      tools = insert public ref r.tools;
      calls = r.calls ++ add_tool public ref ∷ [];
    }

-- One round, on a tool whose public name is `public`.
pub register_as : Tool → Bytes → Registration → Registration
unfolding publish
register_as tool public r =
    if seen_before public r.seen
    then r
    else if taken_by_other (lookup public r.tools) r.up.cfg.id
    then record r { seen = public ∷ r.seen }
    else publish tool public r

-- `hash` and `fingerprint` are the digests of the public names and of the configurations.
module _ (hash : Bytes → Bytes) where
  pub register_all : List Tool → Registration → Registration
  unfolding register_as
  register_all [] r = r
  register_all (tool ∷ tools) r =
      register_all tools (register_as tool (public_tool_name hash r.up.cfg.name tool.name) r)

  -- `registerToolsLocked`, on the record `up` that stands at `id`.
  unfoldable pub register_tools : ℤ → Upstream → List Tool → Aggregator → Aggregator
  unfolding register_all
  register_tools id up tools a =
      let r =
        register_all tools (record { seen = []; up = up; tools = a.tools; calls = a.calls }) in
      record a { ups = insert id r.up a.ups; tools = r.tools; calls = r.calls }
