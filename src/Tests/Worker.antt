-- ===== src/Tests/Worker.antt =====
-- The background worker in a run (internal/shared/worker).
use coding_switch.Base.{ℕ, true, Bool, List, [], ◌∷◌, pos, ◌≡◌, refl}
use coding_switch.Worker.{
  Config, Worker, Output, new_worker, flush, enqueue, receive, drain, stop, log_drop,
}
use coding_switch.Worker.Steps.{Run, starts, enqueues, stops, exits}
use coding_switch.Worker.Counts.{delivered}
use coding_switch.Worker.Account.{Account, Run-Account}
use coding_switch.Worker.Exit.{all_delivered}

abbrev config : Config
config = record {
  buffer_size = pos 2;
  batch_size = pos 2;
  flush_interval = pos 0;
  drop_when_full = true;
  drop_log_every = pos 0;
}

-- Every batch fails.
abbrev failing : List (Output ℕ) → List ℕ → Bool
failing os items = true

abbrev filled : Worker ℕ
filled = (enqueue failing 9 5 (enqueue failing 8 5 (enqueue failing 7 5 (new_worker config)).0).0).0

abbrev ended : Worker ℕ
ended = drain failing (stop failing filled).queue (stop failing filled)

-- Of three items two are queued, and the third is lost.
run : Run failing ended (7 ∷ 8 ∷ []) [] 1
unfolding new_worker enqueue stop log_drop
run = exits refl refl (stops (enqueues 9 5 (enqueues 8 5 (enqueues 7 5 (starts config)))))

ended_now : ended.exited ≡ true
unfolding new_worker enqueue stop drain flush receive log_drop
ended_now = refl

Run-Account_example : Account failing ended (7 ∷ 8 ∷ []) [] 1
Run-Account_example = Run-Account failing run

all_delivered_example : delivered ended.outputs ≡ 7 ∷ 8 ∷ []
all_delivered_example = all_delivered failing run ended_now
