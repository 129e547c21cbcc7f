-- ===== src/Mcp/Aggregator/Loop.antt =====
-- The goroutine of the aggregator that passes over the configuration (`reconcileLoop`), among the
-- goroutines that change the aggregator and wake it up. `time.Timer` is the time at which it fires.
pub mod Heard
pub mod Steps
pub mod Timer
pub mod Wakes
use coding_switch.Base.{
  ℕ, zero, suc, ◌+◌, ◌-◌, ◌*◌, ◌≤◌, Bool, true, false, List, [], ◌∷◌, Option, none, some, Bytes,
  ltb, nat_eq, if◌then◌else◌, ◌≡◌,
}
use coding_switch.Kernel.{second}
use coding_switch.Mcp.Server.{McpServer}
use coding_switch.Mcp.Aggregator.{Call, notify_changed, Aggregator}
use coding_switch.Mcp.Aggregator.Sync.{sync_once, next_retry_delay}
use coding_switch.Mcp.Aggregator.Reach.{new_aggregator, Step}

abbrev pub reconcile_error_initial_delay : ℕ
reconcile_error_initial_delay = second

abbrev pub reconcile_error_max_delay : ℕ
reconcile_error_max_delay = 30 * second

-- Where the goroutine stands: in the `select`, about to pass, after a pass that succeeded, with the
-- answer of `nextRetryDelay`, or at its end.
pub data Phase : Type 0 where
  waiting syncing synced ended : Phase
  measured : Option ℕ → Phase

-- `changed` says that `syncCh` holds its one value; `owed` goroutines changed a record and have yet
-- to call `NotifyChanged`; `timer` is `retryC`, `none` where it is nil or its value was received.
pub record Reconciler : Type 0 where
  pub aggregator : Aggregator
  pub phase : Phase
  pub changed : Bool
  pub owed : ℕ
  pub timer : Option ℕ
  pub error_delay : ℕ
  pub clock : ℕ

abbrev pub notices : List Call → ℕ
notices [] = 0
notices (notify_changed ∷ calls) = suc (notices calls)
notices (_ ∷ calls) = notices calls

-- The operation that leads to `b` lets go of the lock, and then notifies if it has to.
abbrev pub acted : Aggregator → Reconciler → Reconciler
acted b s = record s {
  aggregator = b;
  owed = s.owed + (notices b.calls - notices s.aggregator.calls);
}

-- `NotifyChanged`: a value that is already there is enough.
abbrev pub send_changed : Reconciler → Reconciler
send_changed s = record s { changed = true }

abbrev pub next_error_delay : ℕ → ℕ
next_error_delay delay =
    if nat_eq delay 0
    then reconcile_error_initial_delay
    else if ltb reconcile_error_max_delay (delay * 2)
    then reconcile_error_max_delay
    else delay * 2

-- `resetReconcileTimer` and `stopReconcileTimer`
abbrev pub set_timer : Option ℕ → ℕ → Option ℕ
set_timer none clock = none
set_timer (some delay) clock = some (clock + delay)

-- The branch of a pass whose list of servers cannot be read.
unfoldable pub sync_failed : Reconciler → Reconciler
sync_failed s =
    let delay = next_error_delay s.error_delay in
    record s { phase = waiting; error_delay = delay; timer = set_timer (some delay) s.clock }

module _ (hash : Bytes → Bytes) (fingerprint : McpServer → Bytes) where
  unfoldable pub sync_done : List McpServer → Reconciler → Reconciler
  sync_done servers s = record s {
    aggregator = (sync_once fingerprint s.clock servers s.aggregator).0;
    phase = synced;
    error_delay = 0;
  }

  -- One step of the goroutine, of another one, or of the clock. From the answer of `nextRetryDelay`
  -- to the timer the clock stands still; other goroutines may act.
  pub data Move (s : Reconciler) : Reconciler → Type 0 where
    ticks :
        (t : ℕ)
        → s.clock ≤ t
        → ((d : Option ℕ) → s.phase ≡ measured d → s.clock ≡ t)
        → Move s (record s { clock = t })
    acts : (b : Aggregator) → Step hash fingerprint s.aggregator b → Move s (acted b s)
    notifies : (n : ℕ) → s.owed ≡ suc n → Move s (send_changed (record s { owed = n }))
    changes : Move s (send_changed s)
    receives :
        s.phase ≡ waiting
        → s.changed ≡ true
        → Move s (record s { phase = syncing; changed = false })
    fires :
        (due : ℕ)
        → s.phase ≡ waiting
        → s.timer ≡ some due
        → due ≤ s.clock
        → Move s (record s { phase = syncing; timer = none })
    cannot_list : s.phase ≡ syncing → Move s (sync_failed s)
    lists : (servers : List McpServer) → s.phase ≡ syncing → Move s (sync_done servers s)
    measures :
        s.phase ≡ synced
        → Move s (record s { phase = measured (next_retry_delay s.clock s.aggregator) })
    arms :
        (d : Option ℕ)
        → s.phase ≡ measured d
        → Move s (record s { phase = waiting; timer = set_timer d s.clock })
    ends : s.phase ≡ waiting → Move s (record s { phase = ended })

  -- `Start` at a time.
  abbrev pub started_at : ℕ → Reconciler
  started_at t = record {
    aggregator = new_aggregator;
    phase = waiting;
    changed = true;
    owed = 0;
    timer = none;
    error_delay = 0;
    clock = t;
  }

  pub data Moves (t : ℕ) : Reconciler → Type 0 where
    starts : Moves t (started_at t)
    then_moves : {s r : Reconciler} → Moves t s → Move s r → Moves t r
