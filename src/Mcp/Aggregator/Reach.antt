-- ===== src/Mcp/Aggregator/Reach.antt =====
-- The runs of the aggregator: its operations in any order, each under the lock.
use coding_switch.Base.{ℕ, false, List, [], Bytes, ℤ, refl}
use coding_switch.Mcp.Server.{McpServer}
use coding_switch.Mcp.Aggregator.{Tool, Aggregator}
use coding_switch.Mcp.Aggregator.Sync.{sync_once, close}
use coding_switch.Mcp.Aggregator.Results.{Outcome, finish_connect, refresh_tools, mark_failed}
use coding_switch.Mcp.Aggregator.Ownership.{Registered}
use coding_switch.Mcp.Aggregator.Ownership.Operations.{Registered-Steady}
use coding_switch.Mcp.Aggregator.Keeping.{Steady}
use coding_switch.Mcp.Aggregator.Keeping.Passing.{sync_once-keeps}
use coding_switch.Mcp.Aggregator.Keeping.Operations.{
  close-keeps, finish_connect-keeps, refresh_tools-keeps, mark_failed-keeps,
}

-- `NewAggregator`
abbrev pub new_aggregator : Aggregator
new_aggregator = record { ups = []; tools = []; gen_seq = 0; closed = false; calls = [] }

module _ (hash : Bytes → Bytes) (fingerprint : McpServer → Bytes) where
  -- One operation. The times, the repository's answers, the outcomes and the sessions are any.
  pub data Step (a : Aggregator) : Aggregator → Type 0 where
    syncs : (now : ℕ) (servers : List McpServer) → Step a (sync_once fingerprint now servers a).0
    finishes :
        (now : ℕ) (id : ℤ) (generation : ℕ) (o : Outcome)
        → Step a (finish_connect hash now id generation o a)
    refreshes :
        (id : ℤ) (session generation : ℕ) (tools : List Tool)
        → Step a (refresh_tools hash id session generation tools a)
    fails :
        (now : ℕ) (id : ℤ) (session : ℕ) (error : Bytes)
        → Step a (mark_failed now id session error a)
    closes : Step a (close a)

  pub data Steps (a : Aggregator) : Aggregator → Type 0 where
    stop : Steps a a
    go : {b c : Aggregator} → Steps a b → Step b c → Steps a c

  module _ (Inv : Aggregator → Type 0) (k : Steady hash fingerprint Inv) where
    Step-keeps : {a b : Aggregator} → Step a b → Inv a → Inv b
    Step-keeps {a} (syncs now servers) h = sync_once-keeps hash fingerprint Inv k now servers a h
    Step-keeps {a} (finishes now id g o) h =
        finish_connect-keeps hash fingerprint Inv k now id g o a h
    Step-keeps {a} (refreshes id s g tools) h =
        refresh_tools-keeps hash fingerprint Inv k id s g tools a h
    Step-keeps {a} (fails now id s e) h = mark_failed-keeps hash fingerprint Inv k now id s e a h
    Step-keeps {a} closes h = close-keeps hash fingerprint Inv k a h

    pub Steps-keeps : {a b : Aggregator} → Inv a → Steps a b → Inv b
    Steps-keeps h stop = h
    Steps-keeps h (go s t) = Step-keeps t (Steps-keeps h s)

  -- In every state that the operations reach from a new aggregator, in any order and with any
  -- arguments, the registry and the records agree: a public name stands in the record of a server
  -- exactly if the registry gives the name to that server, and each record is filed under its id.
  pub Steps-Registered : {a : Aggregator} → Steps new_aggregator a → Registered a
  Steps-Registered =
      Steps-keeps Registered (Registered-Steady hash fingerprint)
        (record { owns = λ id n. refl; filed = λ id up e. absurd (cc e) })
