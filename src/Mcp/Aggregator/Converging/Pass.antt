-- ===== src/Mcp/Aggregator/Converging/Pass.antt =====
-- What a whole pass over the configuration leaves, and what a second pass finds.
use coding_switch.Base.{
  ℕ, true, false, List, [], ◌∷◌, Option, none, some, Bytes, ◌==◌, bytes_is_eq, int_is_eq,
  int_eq_iff, ℤ, Map, lookup, In, lookup_found, Bool-cases, Option-cases, ◌≡◌, refl, sym, inl, inr,
  arith,
}
use coding_switch.Mcp.Server.{McpServer}
use coding_switch.Mcp.Aggregator.{disabled, Upstream, Aggregator}
use coding_switch.Mcp.Aggregator.Sync.{
  servers_by_id, Job, ids_of, sync_upstreams, sync_servers, sync_once,
}
use coding_switch.Mcp.Aggregator.Converging.{
  settled, Kept, sync_upstreams-Kept, sync_upstreams-same,
}
use coding_switch.Mcp.Aggregator.Converging.Jobs.{
  Tended, Tended-settled, sync_servers-absent, sync_servers-same, sync_servers-Tended,
}

module _ (fingerprint : McpServer → Bytes) where
  -- What a pass makes of the record `before` of a server that the configuration lists as enabled
  -- (`want`), as disabled (`off`), or not at all.
  abbrev pub Matches :
      ℕ
      → Option Upstream
      → Option McpServer
      → Option McpServer
      → List Job
      → Option Upstream
      → Type 0
  Matches now before (some cfg) off jobs after = Tended fingerprint now before cfg jobs after
  Matches now before none off jobs none = Unit
  Matches now before none none jobs (some up) = ⊥
  Matches now before none (some cfg) jobs (some up) = up.state ≡ disabled

  Matches-Kept :
      (now : ℕ) (before : Option Upstream) (want off : Option McpServer) (jobs : List Job)
      (after : Option Upstream)
      → Matches now before want off jobs after
      → Kept fingerprint after after want off
  Matches-Kept now before want off jobs none m = tt
  Matches-Kept now before (some cfg) off jobs (some up) m = (refl, m.0)
  Matches-Kept now before none none jobs (some up) m = absurd m
  Matches-Kept now before none (some cfg) jobs (some up) m = rw m refl

  Kept-Matches :
      (now : ℕ) (before : Option Upstream) (off : Option McpServer) (jobs : List Job)
      (after : Option Upstream)
      → Kept fingerprint before after none off
      → Matches now before none off jobs after
  Kept-Matches now before off jobs none k = tt
  Kept-Matches now before none jobs (some up) k = absurd k
  Kept-Matches now before (some cfg) jobs (some up) k = ground arith

  pub In-ids_of :
      (j : ℤ) (ups : Map ℤ Upstream) (up : Upstream) → lookup j ups ≡ some up → In j (ids_of ups)
  In-ids_of j [] up e = absurd (cc e)
  In-ids_of j ((id, u) ∷ ups) up e = elim (Bool-cases (id == j)) [
    | inl y ↦ inl (sym ((int_eq_iff id j).0 y))
    | inr n ↦ inr (In-ids_of j ups up (rw n at e))
  ]

  looped :
      (desired off : Map ℤ McpServer) (a : Aggregator) (j : ℤ)
      → Kept fingerprint
          (lookup j a.ups)
          (lookup j (sync_upstreams fingerprint (ids_of a.ups) desired off a).ups)
          (lookup j desired)
          (lookup j off)
  looped desired off a j =
      sync_upstreams-Kept fingerprint (ids_of a.ups) desired off a j (lookup j a.ups)
        (elim (Option-cases (lookup j a.ups)) [
          | inl missing ↦ inr (rw missing tt)
          | inr (up, found) ↦ inl (In-ids_of j a.ups up found, refl)
        ])

  passed :
      (now : ℕ) (desired off : Map ℤ McpServer) (a : Aggregator) (j : ℤ)
      → let r =
          sync_servers fingerprint now desired
            (sync_upstreams fingerprint (ids_of a.ups) desired off a, []) in
        Matches now (lookup j a.ups) (lookup j desired) (lookup j off) r.1 (lookup j r.0.ups)
  passed now desired off a j = go (lookup j desired) refl
    where
      go :
          (want : Option McpServer)
          → lookup j desired ≡ want
          → Matches now
              (lookup j a.ups)
              want
              (lookup j off)
              (sync_servers fingerprint now desired
                (sync_upstreams fingerprint (ids_of a.ups) desired off a, [])).1
              (lookup j
                (sync_servers fingerprint now desired
                  (sync_upstreams fingerprint (ids_of a.ups) desired off a, [])).0.ups)
      go none e = Kept-Matches now (lookup j a.ups) (lookup j off) _ _ (
          rw
            (sync_servers-absent fingerprint now desired
              (sync_upstreams fingerprint (ids_of a.ups) desired off a, []) j e)
            (rw e at (looped desired off a j)))
      go (some cfg) e =
          sync_servers-Tended fingerprint now desired _ [] j (lookup j a.ups) cfg (lookup j off)
            (inl (e, rw e at (looped desired off a j)))

  settled_pass :
      (now : ℕ) (desired off : Map ℤ McpServer) (before a : Aggregator) (jobs : List Job)
      → ((j : ℤ)
          → Matches now
              (lookup j before.ups)
              (lookup j desired)
              (lookup j off)
              jobs
              (lookup j a.ups))
      → sync_servers fingerprint now desired
          (sync_upstreams fingerprint (ids_of a.ups) desired off a, [])
        ≡ (a, [])
  settled_pass now desired off before a jobs m =
      rw
        (sync_upstreams-same fingerprint (ids_of a.ups) desired off a (λ j. (
          lookup j a.ups,
          Matches-Kept now (lookup j before.ups) (lookup j desired) (lookup j off) jobs
              (lookup j a.ups) (m j),
        )))
        (sync_servers-same fingerprint now desired a [] (λ j cfg i.
          let (want, e) = lookup_found j cfg desired i in
          tended j want (lookup j a.ups) refl (rw e at (m j))))
    where
      tended :
          (j : ℤ) (want : McpServer) (o : Option Upstream)
          → lookup j a.ups ≡ o
          → Tended fingerprint now (lookup j before.ups) want jobs o
          → (up : Upstream) × (lookup j a.ups ≡ some up) × (settled now up ≡ true)
      tended j want none found t = absurd t
      tended j want (some up) found t =
          (up, found, Tended-settled fingerprint now (lookup j before.ups) want jobs up t)

  open_pass :
      (now : ℕ) (servers : List McpServer) (a : Aggregator)
      → a.closed ≡ false
      → sync_once fingerprint now servers a
        ≡ sync_servers fingerprint now (servers_by_id true servers []) (
          sync_upstreams fingerprint
              (ids_of a.ups)
              (servers_by_id true servers [])
              (servers_by_id false servers [])
              a,
          [],
        )
  unfolding sync_once
  open_pass now servers a running = simp running refl

  idle_pass :
      (now : ℕ) (servers : List McpServer) (a : Aggregator)
      → sync_servers fingerprint now (servers_by_id true servers []) (
        sync_upstreams fingerprint
            (ids_of a.ups)
            (servers_by_id true servers [])
            (servers_by_id false servers [])
            a,
        [],
      )
        ≡ (a, [])
      → sync_once fingerprint now servers a ≡ (a, [])
  unfolding sync_once
  idle_pass now servers a same = elim (Bool-cases a.closed) [
    | inl y ↦ simp y refl
    | inr n ↦ simp n same
  ]

  -- After a pass of an open aggregator at a time `now`, each record is as the configuration asks: a
  -- server that is enabled has a record with its fingerprint, either the one of before, which is
  -- neither disabled nor failed with its retry due, or one that is connecting and whose generation
  -- is in a job that the pass starts; a record of a server that is listed as disabled is disabled;
  -- there is no record of a server that is not listed. A second pass at that time over the same list
  -- changes nothing and starts no job.
  pub sync_once-Converges :
      (now : ℕ) (servers : List McpServer) (a : Aggregator)
      → a.closed ≡ false
      → ((j : ℤ)
          → Matches now
              (lookup j a.ups)
              (lookup j (servers_by_id true servers []))
              (lookup j (servers_by_id false servers []))
              (sync_once fingerprint now servers a).1
              (lookup j (sync_once fingerprint now servers a).0.ups))
        × (sync_once fingerprint now servers (sync_once fingerprint now servers a).0
            ≡ ((sync_once fingerprint now servers a).0, []))
  sync_once-Converges now servers a running =
      let desired = servers_by_id true servers [] in
      let off = servers_by_id false servers [] in
      let r : Aggregator × List Job =
        sync_servers fingerprint now desired
          (sync_upstreams fingerprint (ids_of a.ups) desired off a, []) in
      rw (open_pass now servers a running) (
        passed now desired off a,
        idle_pass now servers r.0
            (settled_pass now desired off a r.0 r.1 (passed now desired off a)),
      )
