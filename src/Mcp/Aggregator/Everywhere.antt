-- ===== src/Mcp/Aggregator/Everywhere.antt =====
-- What holds of every record: a predicate that each change of a record keeps is kept by every
-- operation.
use coding_switch.Base.{
  ℕ, ◌+◌, ◌++◌, refl, bytes_is_eq, List, [], some, Bytes, ◌==◌, int_is_eq, ℤ, Map, lookup, insert,
  delete, lookup-insert, lookup-delete, subst, Bool-cases, Option-cases, ◌≡◌, inl, inr,
}
use coding_switch.Mcp.Server.{McpServer}
use coding_switch.Mcp.Aggregator.{
  connecting, disabled, Tool, ToolRef, Call, delete_all, remove_call, register_tools, Upstream,
  Aggregator, Registration, detach, detached_record, teardown, register_all,
}
use coding_switch.Mcp.Aggregator.Sync.{new_upstream}
use coding_switch.Mcp.Aggregator.Keeping.{cleared, Steady}
use coding_switch.Mcp.Aggregator.Reach.{new_aggregator, Steps, Steps-keeps}
use coding_switch.Mcp.Aggregator.Results.{connected_record, refused_record, failed_record}

abbrev pub disabled_record : ℕ → Upstream → McpServer → Bytes → Upstream
disabled_record generation up cfg fingerprint = record (detached_record generation up) {
  cfg = cfg;
  fingerprint = fingerprint;
  state = disabled;
  error = [];
}

abbrev pub started_record : ℕ → Upstream → Upstream
started_record generation up = record up { state = connecting; error = []; generation = generation }

-- Each change of a record keeps `P`.
pub record Kept (P : Upstream → Type 0) : Type 0 where
  pub at_detach : (g : ℕ) (up : Upstream) → P up → P (detached_record g up)
  pub at_disable :
      (g : ℕ) (up : Upstream) (cfg : McpServer) (f : Bytes) → P up → P (disabled_record g up cfg f)
  pub at_new : (g : ℕ) (cfg : McpServer) (f : Bytes) → P (started_record g (new_upstream cfg f))
  pub at_start : (g : ℕ) (up : Upstream) → P up → P (started_record g up)
  pub at_refusal : (now : ℕ) (up : Upstream) (e : Bytes) → P up → P (refused_record now up e)
  pub at_connection : (session : ℕ) (up : Upstream) → P up → P (connected_record up session)
  pub at_clearing : (up : Upstream) → P up → P (cleared up)
  pub at_registration :
      (hash : Bytes → Bytes) (tools : List Tool) (r : Registration) (session : ℕ)
      → r.up.session ≡ some session
      → P r.up
      → P (register_all hash tools r).up
  pub at_failure :
      (now g : ℕ) (up : Upstream) (e : Bytes)
      → P up
      → P (failed_record now (detached_record g up) e)

abbrev filling : Upstream → Map Bytes ToolRef → List Call → Registration
filling up tools calls = record { seen = []; up = up; tools = tools; calls = calls }

module _ (P : Upstream → Type 0) where
  abbrev pub AllOf : Map ℤ Upstream → Type 0
  AllOf ups = (id : ℤ) (up : Upstream) → lookup id ups ≡ some up → P up

  abbrev pub Everywhere : Aggregator → Type 0
  Everywhere a = AllOf a.ups

  pub insert-AllOf :
      (id : ℤ) (new : Upstream) (ups : Map ℤ Upstream)
      → P new
      → AllOf ups
      → AllOf (insert id new ups)
  insert-AllOf id new ups own h j up found = elim (Bool-cases (id == j)) [
    | inl y ↦
        let same : new ≡ up = cc (rw (lookup-insert id j new ups, y) at found) in subst P same own
    | inr n ↦ h j up (rw (lookup-insert id j new ups, n) at found)
  ]

  delete-AllOf : (id : ℤ) (ups : Map ℤ Upstream) → AllOf ups → AllOf (delete id ups)
  delete-AllOf id ups h j up found = elim (Bool-cases (id == j)) [
    | inl y ↦ absurd (cc (rw (lookup-delete id j ups, y) at found))
    | inr n ↦ h j up (rw (lookup-delete id j ups, n) at found)
  ]

  module _ (k : Kept P) where
    pub detach-Everywhere :
        (id : ℤ) (up : Upstream) (a : Aggregator)
        → P up
        → Everywhere a
        → Everywhere (detach id up a)
    unfolding detach
    detach-Everywhere id up a p h =
        insert-AllOf id (detached_record (a.gen_seq + 1) up) a.ups
          (k.at_detach (a.gen_seq + 1) up p) h

    pub teardown-Everywhere : (id : ℤ) (a : Aggregator) → Everywhere a → Everywhere (teardown id a)
    unfolding teardown
    teardown-Everywhere id a h = elim (Option-cases (lookup id a.ups)) [
      | inl missing ↦ rw missing h
      | inr (up, found) ↦
          rw found
            (delete-AllOf id (detach id up a).ups (detach-Everywhere id up a (h id up found) h))
    ]

  module _ (k : Kept P) (hash : Bytes → Bytes) (fingerprint : McpServer → Bytes) where
    Everywhere-Steady : Steady hash fingerprint Everywhere
    unfolding register_tools
    Everywhere-Steady = record {
      at_teardown = teardown-Everywhere k;
      at_disable = λ id up cfg a found own h.
          insert-AllOf id (disabled_record (detach id up a).gen_seq up cfg (fingerprint cfg))
            (detach id up a).ups
            (k.at_disable (detach id up a).gen_seq up cfg (fingerprint cfg) (h id up found))
            (detach-Everywhere k id up a (h id up found) h);
      at_new = λ id cfg a jobs missing own h.
          insert-AllOf id _ a.ups (k.at_new (a.gen_seq + 1) cfg (fingerprint cfg)) h;
      at_start = λ id cfg up a jobs found h.
          insert-AllOf id _ a.ups (k.at_start (a.gen_seq + 1) up (h id up found)) h;
      at_discard = λ session a h. h;
      at_refusal = λ now id up e a found h.
          insert-AllOf id (refused_record now up e) a.ups (k.at_refusal now up e (h id up found)) h;
      at_connection = λ id up session tools a found h.
          insert-AllOf id _ a.ups
            (k.at_registration hash tools (filling (connected_record up session) a.tools a.calls)
              session refl (k.at_connection session up (h id up found)))
            h;
      at_refresh = λ id up session tools a found has h.
          insert-AllOf id _ (insert id (cleared up) a.ups)
            (k.at_registration hash tools
              (filling (cleared up) (delete_all up.tool_names a.tools)
                (a.calls ++ remove_call up.tool_names))
              session has (k.at_clearing up (h id up found)))
            (insert-AllOf id (cleared up) a.ups (k.at_clearing up (h id up found)) h);
      at_failure = λ now id up e a found h.
          insert-AllOf id (failed_record now (detached_record (detach id up a).gen_seq up) e)
            (detach id up a).ups (k.at_failure now (detach id up a).gen_seq up e (h id up found))
            (detach-Everywhere k id up a (h id up found) h);
      at_close = λ a h. h;
    }

    -- A predicate that every change of a record keeps holds of every record of every run.
    pub Steps-Everywhere : {a : Aggregator} → Steps hash fingerprint new_aggregator a → Everywhere a
    Steps-Everywhere =
        Steps-keeps hash fingerprint Everywhere Everywhere-Steady (λ id up found. absurd (cc found))
