-- ===== src/Mcp/Aggregator/Results.antt =====
-- The results that reach the aggregator later: of a connection, of a new list of tools, of a call.
use coding_switch.Base.{
  ℕ, zero, suc, ◌+◌, ◌*◌, Bool, false, not, ◌||◌, List, [], ◌∷◌, ◌++◌, Option, none, some, Bytes,
  nat_eq, int_is_eq, ℤ, lookup, insert, if◌then◌else◌,
}
use coding_switch.Kernel.{second}
use coding_switch.Mcp.Aggregator.{
  connected, failed, Tool, Upstream, Aggregator, close_session, notify_changed, delete_all,
  remove_call, kept_details, detach, detached_record, register_tools,
}

-- What `connectAndRegister` hands on: a session and its tools, or an error and no session.
pub data Outcome : Type 0 where
  established : ℕ → List Tool → Outcome
  refused : Bytes → Outcome

-- `backoffSteps[min(backoffIdx, 3)]`
abbrev pub backoff : ℕ → ℕ
backoff zero = 2 * second
backoff (suc zero) = 5 * second
backoff (suc (suc zero)) = 15 * second
backoff (suc (suc (suc _))) = 30 * second

abbrev pub discard : Outcome → Aggregator → Aggregator
discard (established session _) a = record a { calls = a.calls ++ close_session session ∷ [] }
discard (refused _) a = a

abbrev pub connected_record : Upstream → ℕ → Upstream
connected_record up session = record up {
  session = some session;
  state = connected;
  error = [];
  backoff_idx = 0;
}

abbrev pub refused_record : ℕ → Upstream → Bytes → Upstream
refused_record now up error = record up {
  state = failed;
  error = error;
  next_retry = now + backoff up.backoff_idx;
  backoff_idx = up.backoff_idx + 1;
}

abbrev pub same_session : Option ℕ → ℕ → Bool
same_session none session = false
same_session (some held) session = nat_eq held session

module _ (hash : Bytes → Bytes) where
  abbrev pub settle : ℕ → ℤ → Upstream → Outcome → Aggregator → Aggregator
  settle now id up (refused error) a = record a {
    ups = insert id (refused_record now up error) a.ups;
    calls = a.calls ++ notify_changed ∷ [];
  }
  settle now id up (established session tools) a =
      register_tools hash id (connected_record up session) tools a

  abbrev pub finish_found : ℕ → ℤ → ℕ → Option Upstream → Outcome → Aggregator → Aggregator
  finish_found now id generation none outcome a = discard outcome a
  finish_found now id generation (some up) outcome a =
      if not (nat_eq up.generation generation) || a.closed
      then discard outcome a
      else settle now id up outcome a

  -- `finishConnect`
  unfoldable pub finish_connect : ℕ → ℤ → ℕ → Outcome → Aggregator → Aggregator
  finish_connect now id generation outcome a =
      finish_found now id generation (lookup id a.ups) outcome a

  -- The tools of the record are taken out and its new ones put in.
  abbrev pub replace_tools : ℤ → Upstream → List Tool → Aggregator → Aggregator
  replace_tools id up tools a =
      let cleared = record up {
        tool_names = [];
        tool_details = kept_details up.tool_names up.tool_details;
      } in
      register_tools hash id cleared tools (record a {
        ups = insert id cleared a.ups;
        tools = delete_all up.tool_names a.tools;
        calls = a.calls ++ remove_call up.tool_names;
      })

  abbrev pub refresh_found : ℤ → ℕ → ℕ → List Tool → Option Upstream → Aggregator → Aggregator
  refresh_found id session generation tools none a = a
  refresh_found id session generation tools (some up) a =
      if not (same_session up.session session)
        || (not (nat_eq up.generation generation) || a.closed)
      then a
      else replace_tools id up tools a

  -- `refreshTools`, where the upstream listed its tools without an error.
  unfoldable pub refresh_tools : ℤ → ℕ → ℕ → List Tool → Aggregator → Aggregator
  refresh_tools id session generation tools a =
      refresh_found id session generation tools (lookup id a.ups) a

abbrev pub failed_record : ℕ → Upstream → Bytes → Upstream
failed_record now up error = record up {
  session = none;
  state = failed;
  error = error;
  next_retry = now + backoff 0;
}

abbrev pub fail_found : ℕ → ℤ → ℕ → Bytes → Option Upstream → Aggregator → Aggregator
fail_found now id session error none a = a
fail_found now id session error (some up) a =
    if not (same_session up.session session)
    then a
    else let d = detach id up a in
      record d {
        ups = insert id (failed_record now (detached_record d.gen_seq up) error) d.ups;
        calls = d.calls ++ notify_changed ∷ [];
      }

-- `markFailed`
unfoldable pub mark_failed : ℕ → ℤ → ℕ → Bytes → Aggregator → Aggregator
unfolding detach
mark_failed now id session error a = fail_found now id session error (lookup id a.ups) a
