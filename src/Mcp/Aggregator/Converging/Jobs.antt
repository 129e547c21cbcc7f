-- ===== src/Mcp/Aggregator/Converging/Jobs.antt =====
-- The connections that a pass over the configuration starts.
use coding_switch.Base.{
  ℕ, ◌+◌, true, false, List, [], ◌∷◌, Option, none, some, Bytes, ◌==◌, bytes_is_eq, int_is_eq,
  int_eq_iff, ℤ, Map, lookup, lookup-insert, beq_refl, In, In-append_left, In-append_right,
  Bool-cases, ◌≡◌, refl, ◌∙◌, ◌⊎◌, inl, inr,
}
use coding_switch.Mcp.Server.{McpServer}
use coding_switch.Mcp.Aggregator.{connecting, Upstream, Aggregator}
use coding_switch.Mcp.Aggregator.Sync.{Job, new_upstream, start_job, sync_server, sync_servers}
use coding_switch.Mcp.Aggregator.Converging.{settled, Kept}

module _ (fingerprint : McpServer → Bytes) where
  -- What the loop over `desired` leaves under a server that is enabled: the record of before, which
  -- needs nothing at `now`, or one that is being connected by a job of its own.
  abbrev pub Tended : ℕ → Option Upstream → McpServer → List Job → Option Upstream → Type 0
  Tended now before cfg jobs none = ⊥
  Tended now before cfg jobs (some up) =
      (up.fingerprint ≡ fingerprint cfg)
      × (((before ≡ some up) × (settled now up ≡ true))
          ⊎ ((up.state ≡ connecting) × In (record { cfg = cfg; generation = up.generation }) jobs))

  pub Tended-settled :
      (now : ℕ) (before : Option Upstream) (cfg : McpServer) (jobs : List Job) (up : Upstream)
      → Tended now before cfg jobs (some up)
      → settled now up ≡ true
  Tended-settled now before cfg jobs up (_, inl (_, s)) = s
  Tended-settled now before cfg jobs up (_, inr (e, _)) = rw e refl

  started :
      (now : ℕ) (before : Option Upstream) (id : ℤ) (cfg : McpServer) (up : Upstream)
      (a : Aggregator) (jobs : List Job)
      → up.fingerprint ≡ fingerprint cfg
      → up.state ≡ connecting
      → Tended now before cfg
          (start_job id cfg up (a, jobs)).1
          (lookup id (start_job id cfg up (a, jobs)).0.ups)
  started now before id cfg up a jobs f e =
      rw (lookup-insert id id (record up { generation = a.gen_seq + 1 }) a.ups, beq_refl id)
        (f, inr (e, In-append_right _ jobs _ (inl refl)))

  sync_server-Tended :
      (now : ℕ) (before : Option Upstream) (id : ℤ) (cfg : McpServer) (off : Option McpServer)
      (o : Option Upstream) (a : Aggregator) (jobs : List Job)
      → lookup id a.ups ≡ o
      → Kept fingerprint before o (some cfg) off
      → Tended now before cfg
          (sync_server fingerprint now id cfg o (a, jobs)).1
          (lookup id (sync_server fingerprint now id cfg o (a, jobs)).0.ups)
  sync_server-Tended now before id cfg off none a jobs found k =
      started now before id cfg (new_upstream cfg (fingerprint cfg)) a jobs refl refl
  sync_server-Tended now before id cfg off (some up) a jobs found (b, f) =
      elim (Bool-cases (settled now up)) [
        | inl y ↦ rw (y, found) (f, inl (b, y))
        | inr n ↦
            rw n (
              started now before id cfg (record up { state = connecting; error = [] }) a jobs f
                refl)
      ]

  sync_server-other :
      (now : ℕ) (id j : ℤ) (cfg : McpServer) (o : Option Upstream) (a : Aggregator)
      (jobs : List Job)
      → (id == j) ≡ false
      → lookup j (sync_server fingerprint now id cfg o (a, jobs)).0.ups ≡ lookup j a.ups
  sync_server-other now id j cfg none a jobs n = lookup-insert id j _ a.ups ∙ rw n refl
  sync_server-other now id j cfg (some up) a jobs n = elim (Bool-cases (settled now up)) [
    | inl y ↦ rw y refl
    | inr m ↦ rw m (lookup-insert id j _ a.ups ∙ rw n refl)
  ]

  sync_server-jobs :
      (now : ℕ) (id : ℤ) (cfg : McpServer) (o : Option Upstream) (a : Aggregator) (jobs : List Job)
      (job : Job)
      → In job jobs
      → In job (sync_server fingerprint now id cfg o (a, jobs)).1
  sync_server-jobs now id cfg none a jobs job i = In-append_left job jobs _ i
  sync_server-jobs now id cfg (some up) a jobs job i = elim (Bool-cases (settled now up)) [
    | inl y ↦ rw y i
    | inr m ↦ rw m (In-append_left job jobs _ i)
  ]

  Tended-jobs :
      (now : ℕ) (before o : Option Upstream) (cfg : McpServer) (jobs more : List Job)
      → ((job : Job) → In job jobs → In job more)
      → Tended now before cfg jobs o
      → Tended now before cfg more o
  Tended-jobs now before none cfg jobs more sub t = absurd t
  Tended-jobs now before (some up) cfg jobs more sub (f, inl s) = (f, inl s)
  Tended-jobs now before (some up) cfg jobs more sub (f, inr (e, i)) = (f, inr (e, sub _ i))

  sync_server-again :
      (now : ℕ) (before : Option Upstream) (id : ℤ) (c cfg : McpServer) (o : Option Upstream)
      (a : Aggregator) (jobs : List Job)
      → Tended now before cfg jobs o
      → sync_server fingerprint now id c o (a, jobs) ≡ (a, jobs)
  sync_server-again now before id c cfg none a jobs t = absurd t
  sync_server-again now before id c cfg (some up) a jobs t =
      rw (Tended-settled now before cfg jobs up t) refl

  pub sync_servers-absent :
      (now : ℕ) (m : Map ℤ McpServer) (s : Aggregator × List Job) (j : ℤ)
      → lookup j m ≡ none
      → lookup j (sync_servers fingerprint now m s).0.ups ≡ lookup j s.0.ups
  unfolding sync_servers
  sync_servers-absent now [] s j e = refl
  sync_servers-absent now ((id, cfg) ∷ m) (a, jobs) j e = elim (Bool-cases (id == j)) [
    | inl y ↦ absurd (cc (rw y at e))
    | inr n ↦
        sync_servers-absent now m _ j (rw n at e)
        ∙ sync_server-other now id j cfg (lookup id a.ups) a jobs n
  ]

  pub sync_servers-Tended :
      (now : ℕ) (m : Map ℤ McpServer) (a : Aggregator) (jobs : List Job) (j : ℤ)
      (before : Option Upstream) (cfg : McpServer) (off : Option McpServer)
      → ((lookup j m ≡ some cfg) × Kept fingerprint before (lookup j a.ups) (some cfg) off)
        ⊎ Tended now before cfg jobs (lookup j a.ups)
      → Tended now before cfg
          (sync_servers fingerprint now m (a, jobs)).1
          (lookup j (sync_servers fingerprint now m (a, jobs)).0.ups)
  unfolding sync_servers
  sync_servers-Tended now [] a jobs j before cfg off (inl (e, k)) = absurd (cc e)
  sync_servers-Tended now [] a jobs j before cfg off (inr t) = t
  sync_servers-Tended now ((id, c) ∷ m) a jobs j before cfg off h =
      sync_servers-Tended now m _ _ j before cfg off (visit (Bool-cases (id == j)) h)
    where
      after : Aggregator × List Job
      after = sync_server fingerprint now id c (lookup id a.ups) (a, jobs)

      visit :
          ((id == j) ≡ true) ⊎ ((id == j) ≡ false)
          → ((lookup j ((id, c) ∷ m) ≡ some cfg)
              × Kept fingerprint before (lookup j a.ups) (some cfg) off)
            ⊎ Tended now before cfg jobs (lookup j a.ups)
          → ((lookup j m ≡ some cfg)
              × Kept fingerprint before (lookup j after.0.ups) (some cfg) off)
            ⊎ Tended now before cfg after.1 (lookup j after.0.ups)
      visit (inl y) (inl (e, k)) =
          let p : id ≡ j = (int_eq_iff id j).0 y in
          let q : c ≡ cfg = cc (rw y at e) in
          inr (
            rw (← q, ← p)
              (sync_server-Tended now before id c off (lookup id a.ups) a jobs refl
                (rw (← q, ← p) at k)))
      visit (inl y) (inr t) =
          let p : id ≡ j = (int_eq_iff id j).0 y in
          inr
            (rw (sync_server-again now before id c cfg (lookup id a.ups) a jobs (rw (← p) at t)) t)
      visit (inr n) (inl (e, k)) =
          inl (rw n at e, rw (sync_server-other now id j c (lookup id a.ups) a jobs n) k)
      visit (inr n) (inr t) = inr (
          rw (sync_server-other now id j c (lookup id a.ups) a jobs n) (
            Tended-jobs now before (lookup j a.ups) cfg jobs _
              (λ job. sync_server-jobs now id c (lookup id a.ups) a jobs job) t))

  pub sync_servers-same :
      (now : ℕ) (m : Map ℤ McpServer) (a : Aggregator) (jobs : List Job)
      → ((j : ℤ) (cfg : McpServer)
          → In (j, cfg) m
          → (up : Upstream) × (lookup j a.ups ≡ some up) × (settled now up ≡ true))
      → sync_servers fingerprint now m (a, jobs) ≡ (a, jobs)
  unfolding sync_servers
  sync_servers-same now [] a jobs h = refl
  sync_servers-same now ((id, cfg) ∷ m) a jobs h =
      let (up, found, s) = h id cfg (inl refl) in
      rw (found, s) (sync_servers-same now m a jobs (λ j c i. h j c (inr i)))
