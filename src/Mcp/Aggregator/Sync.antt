-- ===== src/Mcp/Aggregator/Sync.antt =====
-- `syncOnce`, `Close` and `nextRetryDelay` of the aggregator.
use coding_switch.Base.{
  ℕ, ◌+◌, ◌-◌, Bool, true, false, not, ◌&&◌, ◌||◌, List, [], ◌∷◌, ◌++◌, Option, none, some, Bytes,
  ◌==◌, bytes_is_eq, int_is_eq, nat_eq, leb, ltb, ℤ, Map, lookup, insert, if◌then◌else◌,
}
use coding_switch.Mcp.Server.{McpServer}
use coding_switch.Mcp.Aggregator.{
  State, connecting, failed, disabled, Upstream, Aggregator, detach, detached_record, teardown,
}

abbrev pub is_disabled : State → Bool
is_disabled disabled = true
is_disabled _ = false

abbrev pub is_failed : State → Bool
is_failed failed = true
is_failed _ = false

-- `desired`, or with the flag turned round `disabled`: the last server of an id counts.
abbrev pub servers_by_id : Bool → List McpServer → Map ℤ McpServer → Map ℤ McpServer
servers_by_id enabled [] m = m
servers_by_id enabled (s ∷ ss) m =
    servers_by_id enabled ss
      (if (if s.enabled then enabled else not enabled) then insert s.id s m else m)

pub record Job : Type 0 where
  pub cfg : McpServer
  pub generation : ℕ

abbrev pub disable : ℤ → Upstream → McpServer → Bytes → Aggregator → Aggregator
disable id up cfg fingerprint a =
    let d = detach id up a in
    record d {
      ups =
          insert id
            (record (detached_record d.gen_seq up) {
              cfg = cfg;
              fingerprint = fingerprint;
              state = disabled;
              error = [];
            })
            d.ups;
    }

abbrev pub new_upstream : McpServer → Bytes → Upstream
new_upstream cfg fingerprint = record {
  cfg = cfg;
  fingerprint = fingerprint;
  session = none;
  state = connecting;
  error = [];
  tool_names = [];
  tool_details = [];
  backoff_idx = 0;
  next_retry = 0;
  generation = 0;
}

-- The ids that `range a.ups` visits.
abbrev pub ids_of : Map ℤ Upstream → List ℤ
ids_of [] = []
ids_of ((id, _) ∷ m) = id ∷ ids_of m

-- The end of a round of the loop over `desired`: a new generation, and a job for it.
abbrev pub start_job : ℤ → McpServer → Upstream → Aggregator × List Job → Aggregator × List Job
start_job id cfg up (a, jobs) =
    let generation = a.gen_seq + 1 in
    (
      record a {
        ups = insert id (record up { generation = generation }) a.ups;
        gen_seq = generation;
      },
      jobs ++ record { cfg = cfg; generation = generation } ∷ [],
    )

module _ (fingerprint : McpServer → Bytes) where
  abbrev pub sync_disabled : ℤ → Upstream → Option McpServer → Aggregator → Aggregator
  sync_disabled id up none a = teardown id a
  sync_disabled id up (some cfg) a =
      if not (is_disabled up.state) then disable id up cfg (fingerprint cfg) a else a

  abbrev pub sync_found :
      ℤ → Upstream → Option McpServer → Option McpServer → Aggregator → Aggregator
  sync_found id up (some cfg) off a =
      if not (up.fingerprint == fingerprint cfg) then teardown id a else a
  sync_found id up none off a = sync_disabled id up off a

  abbrev pub sync_upstream :
      ℤ → Option Upstream → Map ℤ McpServer → Map ℤ McpServer → Aggregator → Aggregator
  sync_upstream id none desired off a = a
  sync_upstream id (some up) desired off a = sync_found id up (lookup id desired) (lookup id off) a

  -- The loop over the records.
  unfoldable pub sync_upstreams :
      List ℤ → Map ℤ McpServer → Map ℤ McpServer → Aggregator → Aggregator
  sync_upstreams [] desired off a = a
  sync_upstreams (id ∷ ids) desired off a =
      sync_upstreams ids desired off (sync_upstream id (lookup id a.ups) desired off a)

  abbrev pub sync_server :
      ℕ → ℤ → McpServer → Option Upstream → Aggregator × List Job → Aggregator × List Job
  sync_server now id cfg none s = start_job id cfg (new_upstream cfg (fingerprint cfg)) s
  sync_server now id cfg (some up) s =
      if not (is_disabled up.state) && not (is_failed up.state && leb up.next_retry now)
      then s
      else start_job id cfg (record up { state = connecting; error = [] }) s

  -- The loop over `desired`.
  unfoldable pub sync_servers : ℕ → Map ℤ McpServer → Aggregator × List Job → Aggregator × List Job
  sync_servers now [] s = s
  sync_servers now ((id, cfg) ∷ m) (a, jobs) =
      sync_servers now m (sync_server now id cfg (lookup id a.ups) (a, jobs))

  -- `syncOnce`, on what the repository lists: the new state and the connections to start.
  unfoldable pub sync_once : ℕ → List McpServer → Aggregator → Aggregator × List Job
  unfolding sync_upstreams sync_servers
  sync_once now servers a =
      if a.closed
      then (a, [])
      else let desired = servers_by_id true servers [] in
        let off = servers_by_id false servers [] in
        sync_servers now desired (sync_upstreams (ids_of a.ups) desired off a, [])

unfoldable pub teardown_all : List ℤ → Aggregator → Aggregator
teardown_all [] a = a
teardown_all (id ∷ ids) a = teardown_all ids (teardown id a)

-- `Close`, up to the wait for the goroutines.
unfoldable pub close : Aggregator → Aggregator
unfolding teardown_all
close a = teardown_all (ids_of a.ups) (record a { closed = true })

abbrev pub earlier : ℕ → Option ℕ → Option ℕ
earlier t none = some t
earlier t (some e) = if ltb t e then some t else some e

unfoldable pub earliest_retry : Map ℤ Upstream → Option ℕ → Option ℕ
earliest_retry [] earliest = earliest
earliest_retry ((_, up) ∷ m) earliest = earliest_retry m (
    if not (is_failed up.state) || nat_eq up.next_retry 0
    then earliest
    else earlier up.next_retry earliest)

-- `nextRetryDelay`
abbrev pub delay_until : ℕ → Option ℕ → Option ℕ
delay_until now none = none
delay_until now (some t) = some (t - now)

unfoldable pub next_retry_delay : ℕ → Aggregator → Option ℕ
unfolding earliest_retry
next_retry_delay now a = delay_until now (earliest_retry a.ups none)
