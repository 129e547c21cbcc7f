-- ===== src/Worker/Exit.antt =====
-- What the worker leaves when its goroutine ends.
use coding_switch.Base.{
  ℕ, ◌-◌, ◌*◌, Bool, true, false, not, ◌&&◌, List, [], ◌∷◌, ◌++◌, length, ltb, leb, nat_eq,
  Bool-cases, ◌≡◌, refl, sym, ◌∙◌, inl, inr, append-nil,
}
use coding_switch.Kernel.{second}
use coding_switch.Worker.{
  Output, Worker, new_worker, positive_or, batch_limit, flush_items, flush, log_drop, enqueue_by,
  enqueue, receive, drain, stop,
}
use coding_switch.Worker.Steps.{Run, starts, enqueues, receives, ticks, stops, exits}
use coding_switch.Worker.Counts.{delivered}
use coding_switch.Worker.Account.{Run-Account, drained}

module _ {T : Type 0} (fails : List (Output T) → List T → Bool) where
  -- A goroutine that ended has nothing left, and nothing comes after it.
  record Ended (w : Worker T) : Type 0 where
    after_stop : w.exited ≡ true → w.stopped ≡ true
    no_queue : w.exited ≡ true → w.queue ≡ []
    no_batch : w.exited ≡ true → w.batch ≡ []

  running-Ended : (w : Worker T) → w.exited ≡ false → Ended w
  running-Ended w live = record {
    after_stop = λ e. absurd (cc (live, e));
    no_queue = λ e. absurd (cc (live, e));
    no_batch = λ e. absurd (cc (live, e));
  }

  exited-flush_items :
      (items : List T) (w : Worker T)
      → ((flush_items fails items w).exited ≡ w.exited)
        × ((flush_items fails items w).stopped ≡ w.stopped)
  exited-flush_items [] w = (refl, refl)
  exited-flush_items (x ∷ items) w = (refl, refl)

  exited-receive :
      (x : T) (rest : List T) (w : Worker T)
      → ((receive fails x rest w).exited ≡ w.exited)
        × ((receive fails x rest w).stopped ≡ w.stopped)
  unfolding receive flush
  exited-receive x rest w =
      let got : Worker T = record w { queue = rest; batch = w.batch ++ x ∷ [] } in
      elim (Bool-cases (leb (batch_limit fails w) (length got.batch))) [
        | inl y ↦ rw y (exited-flush_items got.batch got)
        | inr f ↦ rw f (refl, refl)
      ]

  stopped-drain : (q : List T) (w : Worker T) → (drain fails q w).stopped ≡ w.stopped
  unfolding drain flush
  stopped-drain [] w = (exited-flush_items w.batch w).1
  stopped-drain (x ∷ rest) w =
      stopped-drain rest (receive fails x rest w) ∙ (exited-receive x rest w).1

  log_drop-Ended : (now : ℕ) (w : Worker T) → Ended w → Ended (log_drop fails now w)
  unfolding log_drop
  log_drop-Ended now w h =
      elim (Bool-cases (
        not (nat_eq w.last_drop 0)
        && ltb (now - w.last_drop) (positive_or (5 * second) w.config.drop_log_every))) [
          | inl y ↦
              rw y
                (record { after_stop = h.after_stop; no_queue = h.no_queue; no_batch = h.no_batch })
          | inr f ↦
              rw f
                (record { after_stop = h.after_stop; no_queue = h.no_queue; no_batch = h.no_batch })
        ]

  enqueue_by-Ended :
      (b room drop : Bool) (x : T) (now : ℕ) (w : Worker T)
      → w.stopped ≡ b
      → Ended w
      → Ended (enqueue_by fails b room drop x now w).0
  enqueue_by-Ended true room drop x now w s h = record {
    after_stop = h.after_stop;
    no_queue = h.no_queue;
    no_batch = h.no_batch;
  }
  enqueue_by-Ended false true drop x now w s h =
      running-Ended _
        (elim (Bool-cases w.exited) [ inl y ↦ absurd (cc (s, h.after_stop y)) | inr n ↦ n ])
  enqueue_by-Ended false false true x now w s h = log_drop-Ended now w h
  enqueue_by-Ended false false false x now w s h = record {
    after_stop = h.after_stop;
    no_queue = h.no_queue;
    no_batch = h.no_batch;
  }

  Run-Ended : {w : Worker T} {xs ys : List T} {n : ℕ} → Run fails w xs ys n → Ended w
  unfolding new_worker stop flush enqueue
  Run-Ended (starts config) = running-Ended _ refl
  Run-Ended (enqueues x now r) = enqueue_by-Ended _ _ _ x now _ refl (Run-Ended r)
  Run-Ended (receives {w} x rest live e r) = running-Ended _ ((exited-receive x rest w).0 ∙ live)
  Run-Ended (ticks {w} live r) = running-Ended _ ((exited-flush_items w.batch w).0 ∙ live)
  Run-Ended (stops r) =
      let h = Run-Ended r in
      record { after_stop = λ e. refl; no_queue = h.no_queue; no_batch = h.no_batch }
  Run-Ended (exits {w} live s r) = record {
    after_stop = λ e. stopped-drain w.queue w ∙ s;
    no_queue = λ e. (drained fails w.queue w refl).0;
    no_batch = λ e. (drained fails w.queue w refl).1;
  }

  -- Once the goroutine has ended, everything for which `Enqueue` returned true has been delivered, each
  -- item once and in the order in which it was queued.
  pub all_delivered :
      {w : Worker T} {xs ys : List T} {n : ℕ}
      → Run fails w xs ys n
      → w.exited ≡ true
      → delivered w.outputs ≡ xs
  all_delivered {w} r e =
      let h = Run-Ended r in
      sym (append-nil (delivered w.outputs))
      ∙ rw (h.no_batch e, h.no_queue e) at ((Run-Account fails r).in_order)
