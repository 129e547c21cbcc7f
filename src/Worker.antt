-- ===== src/Worker.antt =====
-- The background worker that batches log records and session updates
-- (internal/shared/worker/background_worker.go). What runs between two waits is one step; a panic of
-- the processor is an error of it, as `safeProcess` makes it. Times are nanoseconds, 0 the zero time.
pub mod Steps
pub mod Counts
pub mod Account
pub mod Exit
use coding_switch.Base.{
  ℕ, zero, suc, ◌+◌, ◌-◌, ◌*◌, Bool, true, false, not, ◌&&◌, List, [], ◌∷◌, ◌++◌, map, length, ℤ,
  pos, negsuc, ltb, leb, nat_eq, if◌then◌else◌,
}
use coding_switch.Kernel.{second}

pub record Config : Type 0 where
  pub buffer_size : ℤ
  pub batch_size : ℤ
  pub flush_interval : ℤ
  pub drop_when_full : Bool
  pub drop_log_every : ℤ

-- A size or a duration, with what stands for one that is not positive.
abbrev pub positive_or : ℕ → ℤ → ℕ
positive_or n (pos zero) = n
positive_or n (pos (suc m)) = suc m
positive_or n (negsuc m) = n

-- What the worker does to others, in order: `Process` of a batch and whether it failed,
-- `ProcessSingle` of an item of a failed batch, `ProcessSingle` for a caller of `Enqueue`, and the
-- number of drops in a log line.
pub data Output (T : Type 0) : Type 0 where
  processed : List T → Bool → Output T
  retried : T → Output T
  direct : T → Output T
  logged : ℕ → Output T

pub record Worker (T : Type 0) : Type 0 where
  pub config : Config
  pub queue : List T
  pub batch : List T
  pub stopped : Bool
  pub exited : Bool
  pub dropped : ℕ
  pub last_drop : ℕ
  pub outputs : List (Output T)

-- What `Enqueue` did with the item: it returns true for `queued` and false for the others.
pub data Fate : Type 0 where
  queued handled lost : Fate

-- `New`, with the sizes that are not positive replaced.
unfoldable pub new_worker : {T : Type 0} → Config → Worker T
new_worker config = record {
  config = record config {
    buffer_size = pos (positive_or 1024 config.buffer_size);
    batch_size = pos (positive_or 50 config.batch_size);
    flush_interval = pos (positive_or second config.flush_interval);
  };
  queue = [];
  batch = [];
  stopped = false;
  exited = false;
  dropped = 0;
  last_drop = 0;
  outputs = [];
}

-- The processor, `fails`, may answer by all that happened before.
module _ {T : Type 0} (fails : List (Output T) → List T → Bool) where
  abbrev pub capacity : Worker T → ℕ
  capacity w = positive_or 1024 w.config.buffer_size

  abbrev pub batch_limit : Worker T → ℕ
  batch_limit w = positive_or 50 w.config.batch_size

  -- The calls that a batch leads to.
  abbrev pub process_calls : List T → Bool → List (Output T)
  process_calls items false = processed items false ∷ []
  process_calls items true = processed items true ∷ map retried items

  abbrev pub flush_items : List T → Worker T → Worker T
  flush_items [] w = w
  flush_items (x ∷ xs) w = record w {
    batch = [];
    outputs = w.outputs ++ process_calls (x ∷ xs) (fails w.outputs (x ∷ xs));
  }

  -- `flush`, the closure of `run`.
  unfoldable pub flush : Worker T → Worker T
  flush w = flush_items w.batch w

  -- `logDrop`
  unfoldable pub log_drop : ℕ → Worker T → Worker T
  log_drop now w =
      let interval = positive_or (5 * second) w.config.drop_log_every in
      if not (nat_eq w.last_drop 0) && ltb (now - w.last_drop) interval
      then record w { dropped = w.dropped + 1 }
      else record w {
        dropped = 0;
        last_drop = now;
        outputs = w.outputs ++ logged (w.dropped + 1) ∷ [];
      }

  -- `Enqueue`, on its three tests: a worker that was stopped, room in the channel, `DropWhenFull`.
  abbrev pub enqueue_by : Bool → Bool → Bool → T → ℕ → Worker T → Worker T × Fate
  enqueue_by true room drop x now w = (record w { outputs = w.outputs ++ direct x ∷ [] }, handled)
  enqueue_by false true drop x now w = (record w { queue = w.queue ++ x ∷ [] }, queued)
  enqueue_by false false true x now w = (log_drop now w, lost)
  enqueue_by false false false x now w =
      (record w { outputs = w.outputs ++ direct x ∷ [] }, handled)

  unfoldable pub enqueue : T → ℕ → Worker T → Worker T × Fate
  enqueue x now w =
      enqueue_by w.stopped (ltb (length w.queue) (capacity w)) w.config.drop_when_full x now w

  -- The item `x` comes out of the channel, and `rest` stays in it.
  unfoldable pub receive : T → List T → Worker T → Worker T
  receive x rest w =
      let got = record w { queue = rest; batch = w.batch ++ x ∷ [] } in
      if leb (batch_limit w) (length got.batch) then flush got else got

  -- The loop of `run` after the shutdown.
  unfoldable pub drain : List T → Worker T → Worker T
  drain [] w = record (flush w) { exited = true }
  drain (x ∷ rest) w = drain rest (receive x rest w)

  -- `Stop`, up to the wait.
  unfoldable pub stop : Worker T → Worker T
  stop w = record w { stopped = true }
