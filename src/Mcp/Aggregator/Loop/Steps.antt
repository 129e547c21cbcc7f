-- ===== src/Mcp/Aggregator/Loop/Steps.antt =====
-- Every operation of the aggregator is heard of where it lets a server fail.
use coding_switch.Base.{
  ℕ, true, false, List, [], Option, none, some, Bytes, int_is_eq, bytes_is_eq, ℤ, lookup,
  Bool-cases, ◌≡◌, refl, inl, inr,
}
use coding_switch.Mcp.Server.{McpServer}
use coding_switch.Mcp.Aggregator.{failed, Upstream, Aggregator}
use coding_switch.Mcp.Aggregator.Sync.{Job, servers_by_id, sync_once}
use coding_switch.Mcp.Aggregator.Reach.{Step, syncs, finishes, refreshes, fails, closes}
use coding_switch.Mcp.Aggregator.Converging.Pass.{Matches, sync_once-Converges}
-- The server `id` is failed, and is to be tried again at `t`.
use coding_switch.Mcp.Aggregator.Loop.Heard.{
  FailedAt, Heard, finish_connect-Heard, refresh_tools-Quiet, mark_failed-Heard, close-Quiet,
}

module _ (hash : Bytes → Bytes) (fingerprint : McpServer → Bytes) where
  failed_before :
      (now : ℕ) (id : ℤ) (t : ℕ) (before : Aggregator) (want off : Option McpServer)
      (jobs : List Job) (up : Upstream)
      → up.state ≡ failed
      → up.next_retry ≡ t
      → Matches fingerprint now (lookup id before.ups) want off jobs (some up)
      → FailedAt id t before
  failed_before now id t before none none jobs up f e m = absurd m
  failed_before now id t before none (some cfg) jobs up f e m = absurd (cc (f, m))
  failed_before now id t before (some cfg) off jobs up f e (p, inl (same, s)) = (up, same, f, e)
  failed_before now id t before (some cfg) off jobs up f e (p, inr (c, i)) = absurd (cc (f, c))

  closed_pass :
      (now : ℕ) (servers : List McpServer) (a : Aggregator)
      → a.closed ≡ true
      → sync_once fingerprint now servers a ≡ (a, [])
  unfolding sync_once
  closed_pass now servers a y = simp y refl

  pub sync_once-Quiet :
      (now : ℕ) (servers : List McpServer) (a : Aggregator) (id : ℤ) (t : ℕ)
      → FailedAt id t (sync_once fingerprint now servers a).0
      → FailedAt id t a
  sync_once-Quiet now servers a id t (up, found, f, e) = elim (Bool-cases a.closed) [
    | inl y ↦ (up, rw (closed_pass now servers a y) at found, f, e)
    | inr n ↦
        failed_before now id t a (lookup id (servers_by_id true servers []))
          (lookup id (servers_by_id false servers [])) _ up f e
          (rw found at ((sync_once-Converges fingerprint now servers a n).0 id))
  ]

  pub Step-Heard : {a b : Aggregator} → Step hash fingerprint a b → Heard a b
  Step-Heard {a} (syncs now servers) id t f = inl (sync_once-Quiet now servers a id t f)
  Step-Heard {a} (finishes now id g o) j t f = finish_connect-Heard hash now id g o a j t f
  Step-Heard {a} (refreshes id s g tools) j t f =
      inl (refresh_tools-Quiet hash id s g tools a j t f)
  Step-Heard {a} (fails now id s e) j t f = mark_failed-Heard now id s e a j t f
  Step-Heard {a} closes id t f = inl (close-Quiet a id t f)
