-- ===== src/Worker/Steps.antt =====
-- The runs of the background worker: its goroutine, the callers of `Enqueue` and `Stop`, interleaved.
use coding_switch.Base.{ℕ, ◌+◌, Bool, true, false, List, [], ◌∷◌, ◌++◌, ◌≡◌}
use coding_switch.Worker.{
  Config, Output, Worker, Fate, queued, handled, lost, new_worker, flush, enqueue, receive, drain,
  stop,
}

abbrev pub add_queued : {T : Type 0} → Fate → T → List T → List T
add_queued queued x xs = xs ++ x ∷ []
add_queued handled x xs = xs
add_queued lost x xs = xs

abbrev pub add_handled : {T : Type 0} → Fate → T → List T → List T
add_handled queued x xs = xs
add_handled handled x xs = xs ++ x ∷ []
add_handled lost x xs = xs

abbrev pub add_lost : Fate → ℕ → ℕ
add_lost queued n = n
add_lost handled n = n
add_lost lost n = n + 1

module _ {T : Type 0} (fails : List (Output T) → List T → Bool) where
  -- A state, and the items that callers brought: those queued, those handled at once, and the
  -- number of those lost.
  pub data Run : Worker T → List T → List T → ℕ → Type 0 where
    starts : (config : Config) → Run (new_worker config) [] [] 0
    enqueues :
        {w : Worker T} {xs ys : List T} {n : ℕ} (x : T) (now : ℕ)
        → Run w xs ys n
        → Run
            (enqueue fails x now w).0
            (add_queued (enqueue fails x now w).1 x xs)
            (add_handled (enqueue fails x now w).1 x ys)
            (add_lost (enqueue fails x now w).1 n)
    receives :
        {w : Worker T} {xs ys : List T} {n : ℕ} (x : T) (rest : List T)
        → w.exited ≡ false
        → w.queue ≡ x ∷ rest
        → Run w xs ys n
        → Run (receive fails x rest w) xs ys n
    ticks :
        {w : Worker T} {xs ys : List T} {n : ℕ}
        → w.exited ≡ false
        → Run w xs ys n
        → Run (flush fails w) xs ys n
    stops : {w : Worker T} {xs ys : List T} {n : ℕ} → Run w xs ys n → Run (stop fails w) xs ys n
    exits :
        {w : Worker T} {xs ys : List T} {n : ℕ}
        → w.exited ≡ false
        → w.stopped ≡ true
        → Run w xs ys n
        → Run (drain fails w.queue w) xs ys n
