-- ===== src/Tests/Reconciler.antt =====
-- The goroutine of the aggregator at a concrete run: a server that cannot be connected
-- (internal/mcpgateway/application).
use coding_switch.Base.{◌*◌, false, [], ◌∷◌, some, pos, ◌≡◌, ◌⊎◌, refl}
use coding_switch.Kernel.{second}
use coding_switch.Mcp.Aggregator.Sync.{sync_once, next_retry_delay}
use coding_switch.Mcp.Aggregator.Results.{refused, finish_connect}
use coding_switch.Mcp.Aggregator.Reach.{finishes}
use coding_switch.Mcp.Aggregator.Loop.{
  waiting, syncing, measured, Reconciler, acted, send_changed, set_timer, sync_done, started_at,
  acts, notifies, receives, lists, measures, arms, Moves, starts, then_moves,
}
use coding_switch.Mcp.Aggregator.Loop.Heard.{FailedAt}
use coding_switch.Mcp.Aggregator.Loop.Timer.{Roused, Armed}
use coding_switch.Mcp.Aggregator.Loop.Wakes.{Moves-Wakes}
use coding_switch.Tests.Aggregator.{digest, print, server}

-- A round of the goroutine, from a state in which it is about to pass.
abbrev passed : Reconciler → Reconciler
passed s = sync_done digest print (server ∷ []) s

abbrev asked : Reconciler → Reconciler
asked s = record s { phase = measured (next_retry_delay s.clock s.aggregator) }

abbrev armed : Reconciler → Reconciler
armed s = record s {
  phase = waiting;
  timer = set_timer (next_retry_delay s.clock s.aggregator) s.clock;
}

abbrev round : Reconciler → Reconciler
round s = armed (asked (passed s))

abbrev awake : Reconciler → Reconciler
awake s = record s { phase = syncing; changed = false }

abbrev first : Reconciler
first = round (awake (started_at digest print second))

abbrev refused_once : Reconciler
refused_once = acted (finish_connect digest second (pos 1) 1 (refused []) first.aggregator) first

abbrev told : Reconciler
told = send_changed (record refused_once { owed = 0 })

abbrev second_round : Reconciler
second_round = round (awake told)

owes_one : refused_once.owed ≡ 1
unfolding sync_done sync_once finish_connect
owes_one = refl

run : Moves digest print second second_round
unfolding sync_done
run =
    then_moves
      (then_moves
        (then_moves
          (then_moves
            (then_moves
              (then_moves
                (then_moves
                  (then_moves
                    (then_moves (then_moves starts (receives refl refl)) (lists (server ∷ []) refl))
                    (measures refl))
                  (arms _ refl))
                (acts _ (finishes second (pos 1) 1 (refused []))))
              (notifies 0 owes_one))
            (receives refl refl))
          (lists (server ∷ []) refl))
        (measures refl))
      (arms _ refl)

has_failed : FailedAt (pos 1) (3 * second) second_round.aggregator
unfolding sync_done sync_once finish_connect
has_failed = (_, refl, refl, refl)

timer_set : second_round.timer ≡ some (3 * second)
unfolding sync_done sync_once finish_connect next_retry_delay
timer_set = refl

Moves-Wakes_example : Roused second_round ⊎ Armed second_round (3 * second) second_round.timer
Moves-Wakes_example = Moves-Wakes digest print run refl (pos 1) (3 * second) has_failed
