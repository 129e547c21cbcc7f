-- ===== src/Mcp/Aggregator/Keeping.antt =====
-- What every operation keeps: a predicate that a few changes of the aggregator keep, those that the
-- operations are made of.
pub mod Passing
pub mod Operations
use coding_switch.Base.{
  ℕ, ◌+◌, true, List, [], ◌∷◌, ◌++◌, Option, none, some, Bytes, int_is_eq, ℤ, lookup, insert, ◌≡◌,
}
use coding_switch.Mcp.Server.{McpServer}
use coding_switch.Mcp.Aggregator.{
  connecting, Tool, Upstream, close_session, notify_changed, Aggregator, kept_details, detach,
  detached_record, teardown, register_tools,
}
use coding_switch.Mcp.Aggregator.Sync.{Job, disable, new_upstream, start_job}
use coding_switch.Mcp.Aggregator.Results.{
  refused, connected_record, failed_record, settle, replace_tools,
}

-- What a refresh leaves of the record before it registers the new tools.
abbrev pub cleared : Upstream → Upstream
cleared up = record up {
  tool_names = [];
  tool_details = kept_details up.tool_names up.tool_details;
}

-- What `markFailed` leaves of an aggregator whose record `up` has the session that failed.
abbrev pub failed_state : ℕ → ℤ → Upstream → Bytes → Aggregator → Aggregator
failed_state now id up error a =
    let d = detach id up a in
    record d {
      ups = insert id (failed_record now (detached_record d.gen_seq up) error) d.ups;
      calls = d.calls ++ notify_changed ∷ [];
    }

module _ (hash : Bytes → Bytes) (fingerprint : McpServer → Bytes) where
  pub record Steady (Inv : Aggregator → Type 0) : Type 0 where
    pub at_teardown : (id : ℤ) (a : Aggregator) → Inv a → Inv (teardown id a)
    pub at_disable :
        (id : ℤ) (up : Upstream) (cfg : McpServer) (a : Aggregator)
        → lookup id a.ups ≡ some up
        → cfg.id ≡ id
        → Inv a
        → Inv (disable id up cfg (fingerprint cfg) a)
    pub at_new :
        (id : ℤ) (cfg : McpServer) (a : Aggregator) (jobs : List Job)
        → lookup id a.ups ≡ none
        → cfg.id ≡ id
        → Inv a
        → Inv (start_job id cfg (new_upstream cfg (fingerprint cfg)) (a, jobs)).0
    pub at_start :
        (id : ℤ) (cfg : McpServer) (up : Upstream) (a : Aggregator) (jobs : List Job)
        → lookup id a.ups ≡ some up
        → Inv a
        → Inv (start_job id cfg (record up { state = connecting; error = [] }) (a, jobs)).0
    pub at_discard :
        (session : ℕ) (a : Aggregator)
        → Inv a
        → Inv (record a { calls = a.calls ++ close_session session ∷ [] })
    pub at_refusal :
        (now : ℕ) (id : ℤ) (up : Upstream) (e : Bytes) (a : Aggregator)
        → lookup id a.ups ≡ some up
        → Inv a
        → Inv (settle hash now id up (refused e) a)
    pub at_connection :
        (id : ℤ) (up : Upstream) (session : ℕ) (tools : List Tool) (a : Aggregator)
        → lookup id a.ups ≡ some up
        → Inv a
        → Inv (register_tools hash id (connected_record up session) tools a)
    pub at_refresh :
        (id : ℤ) (up : Upstream) (session : ℕ) (tools : List Tool) (a : Aggregator)
        → lookup id a.ups ≡ some up
        → up.session ≡ some session
        → Inv a
        → Inv (replace_tools hash id up tools a)
    pub at_failure :
        (now : ℕ) (id : ℤ) (up : Upstream) (e : Bytes) (a : Aggregator)
        → lookup id a.ups ≡ some up
        → Inv a
        → Inv (failed_state now id up e a)
    pub at_close : (a : Aggregator) → Inv a → Inv (record a { closed = true })
