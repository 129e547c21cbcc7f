-- ===== src/Mcp/Aggregator/Stale.antt =====
-- Results that come too late: of a connection that was started before its server was taken out.
use coding_switch.Base.{
  ℕ, true, false, List, [], some, Bytes, bytes_is_eq, int_is_eq, nat_eq, ℤ, lookup, Option-cases,
  ◌≡◌, refl, inl, inr, arith, ◌≤◌, ◌<◌,
}
use coding_switch.Mcp.Server.{McpServer}
use coding_switch.Mcp.Aggregator.{Upstream, Aggregator, detach}
use coding_switch.Mcp.Aggregator.Sync.{servers_by_id, ids_of, sync_upstreams, sync_once, close}
use coding_switch.Mcp.Aggregator.Results.{Outcome, discard, finish_connect, mark_failed}
use coding_switch.Mcp.Aggregator.Closed.{close-Shut}
use coding_switch.Mcp.Aggregator.Converging.Pass.{In-ids_of}
use coding_switch.Mcp.Aggregator.Generations.{Evolves, Evolves-refl, lookup-written}
use coding_switch.Mcp.Aggregator.Generations.Operations.{Evolves-Steady, Steps-Evolves}
use coding_switch.Mcp.Aggregator.Generations.Late.{
  IsOutdated, Late, Late-Evolves, written-Late, gone-Late, upstreams-Late,
}
use coding_switch.Mcp.Aggregator.Keeping.Operations.{close-keeps}
use coding_switch.Mcp.Aggregator.Keeping.Passing.{servers-Listed, sync_servers-keeps}
use coding_switch.Mcp.Aggregator.Reach.{Steps}

module _ (hash : Bytes → Bytes) (fingerprint : McpServer → Bytes) where
  finish_connect-other :
      (now : ℕ) (id : ℤ) (generation : ℕ) (o : Outcome) (a : Aggregator)
      → ((up : Upstream) → lookup id a.ups ≡ some up → nat_eq up.generation generation ≡ false)
      → finish_connect hash now id generation o a ≡ discard o a
  unfolding finish_connect
  finish_connect-other now id generation o a h = elim (Option-cases (lookup id a.ups)) [
    | inl missing ↦ rw missing refl
    | inr (up, found) ↦ rw (found, h up found) refl
  ]

  -- An operation that takes out the server `id`: a pass over the configuration, the failure of the
  -- session that the record has, or the end of the aggregator.
  pub data TakesOut (id : ℤ) (a : Aggregator) : Aggregator → Type 0 where
    by_pass :
        (now : ℕ) (servers : List McpServer) (up : Upstream)
        → a.closed ≡ false
        → lookup id a.ups ≡ some up
        → IsOutdated hash fingerprint up
            (lookup id (servers_by_id true servers []))
            (lookup id (servers_by_id false servers []))
        → TakesOut id a (sync_once fingerprint now servers a).0
    by_failure :
        (now session : ℕ) (error : Bytes) (up : Upstream)
        → lookup id a.ups ≡ some up
        → up.session ≡ some session
        → TakesOut id a (mark_failed now id session error a)
    by_close : TakesOut id a (close a)

  taken-Late :
      (id : ℤ) (s : ℕ) (a b : Aggregator)
      → s ≤ a.gen_seq
      → TakesOut id a b
      → Late hash fingerprint id s b
  unfolding sync_once mark_failed detach
  taken-Late id s a b h (by_pass now servers up running found o) =
      let desired = servers_by_id true servers [] in
      let off = servers_by_id false servers [] in
      let mid = sync_upstreams fingerprint (ids_of a.ups) desired off a in
      let l =
        upstreams-Late hash fingerprint (ids_of a.ups) desired off id s up a h o
          (inl (In-ids_of fingerprint id a.ups up found, found)) in
      simp running (
        Late-Evolves hash fingerprint id s mid _ l (
          sync_servers-keeps hash fingerprint (Evolves mid) (Evolves-Steady hash fingerprint mid)
            now desired (mid, []) (servers-Listed true servers [] tt) (Evolves-refl mid)))
  taken-Late id s a b h (by_failure now session error up found has) =
      let itself : nat_eq session session ≡ true = ground arith in
      rw (found, has, itself)
        (written-Late hash fingerprint id s _ a _ h refl (lookup-written id _ (detach id up a).ups)
          refl)
  taken-Late id s a b h by_close =
      gone-Late hash fingerprint id s a (close a) h
        (close-keeps hash fingerprint (Evolves a) (Evolves-Steady hash fingerprint a) a
          (Evolves-refl a))
        ((close-Shut a).no_record id)

  -- A connection that was started, with a number given out by then, before an operation takes its server
  -- out (a pass that finds it removed, disabled or changed, the failure of its session, or `Close`)
  -- changes nothing when it ends but that its session is closed, whatever the aggregator has done in between.
  pub stale_result :
      (now : ℕ) (id : ℤ) (generation : ℕ) (o : Outcome) (a b c : Aggregator)
      → generation ≤ a.gen_seq
      → TakesOut id a b
      → Steps hash fingerprint b c
      → finish_connect hash now id generation o c ≡ discard o c
  stale_result now id generation o a b c issued out s =
      let l =
        Late-Evolves hash fingerprint id generation b c (taken-Late id generation a b issued out)
          (Steps-Evolves hash fingerprint s) in
      finish_connect-other now id generation o c (λ new found. differs (l.since new found))
    where
      differs : {g u : ℕ} → g < u → nat_eq u g ≡ false
      differs h = ground arith
