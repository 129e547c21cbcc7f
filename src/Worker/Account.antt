-- ===== src/Worker/Account.antt =====
-- What becomes of each item that a caller brings.
use coding_switch.Base.{
  ℕ, ◌+◌, ◌-◌, ◌*◌, Bool, true, false, not, ◌&&◌, List, [], ◌∷◌, ◌++◌, length, append_assoc, ltb,
  leb, nat_eq, Bool-cases, ◌≡◌, refl, sym, ap, ◌∙◌, inl, inr, arith, append-nil,
}
use coding_switch.Kernel.{second}
use coding_switch.Worker.{
  Output, direct, logged, Worker, new_worker, positive_or, batch_limit, process_calls, flush_items,
  flush, log_drop, enqueue_by, enqueue, receive, drain, stop,
}
use coding_switch.Worker.Steps.{
  add_queued, add_handled, add_lost, Run, starts, enqueues, receives, ticks, stops, exits,
}
use coding_switch.Worker.Counts.{
  delivered, directs, total_logged, delivered-append, directs-append, total_logged-append, retries,
}

module _ {T : Type 0} (fails : List (Output T) → List T → Bool) where
  process_calls-account :
      (items : List T) (b : Bool)
      → (delivered (process_calls fails items b) ≡ items)
        × (directs (process_calls fails items b) ≡ [])
        × (total_logged (process_calls fails items b) ≡ 0)
  process_calls-account items false = (append-nil items, refl, refl)
  process_calls-account items true = retries items

  -- The items that were queued are delivered, or wait in their order; the others are where `Enqueue`
  -- put them.
  pub record Account (w : Worker T) (xs ys : List T) (n : ℕ) : Type 0 where
    pub in_order : delivered w.outputs ++ (w.batch ++ w.queue) ≡ xs
    pub handled_at_once : directs w.outputs ≡ ys
    pub counted : total_logged w.outputs + w.dropped ≡ n

  flush-Account :
      (w : Worker T) (xs ys : List T) (n : ℕ) → Account w xs ys n → Account (flush fails w) xs ys n
  unfolding flush
  flush-Account w xs ys n a = go w.batch refl
    where
      go : (items : List T) → w.batch ≡ items → Account (flush_items fails items w) xs ys n
      go [] e = a
      go (x ∷ items) e =
          let calls = process_calls fails (x ∷ items) (fails w.outputs (x ∷ items)) in
          let (d, r, l) = process_calls-account (x ∷ items) (fails w.outputs (x ∷ items)) in
          record {
            in_order =
                ap (λ t. t ++ w.queue)
                  (delivered-append w.outputs calls ∙ ap (λ t. delivered w.outputs ++ t) d)
                ∙ append_assoc (delivered w.outputs) (x ∷ items) w.queue
                ∙ ap (λ t. delivered w.outputs ++ (t ++ w.queue)) (sym e)
                ∙ a.in_order;
            handled_at_once =
                directs-append w.outputs calls
                ∙ ap (λ t. directs w.outputs ++ t) r
                ∙ append-nil (directs w.outputs)
                ∙ a.handled_at_once;
            counted = omega (arith, total_logged-append w.outputs calls, l, a.counted);
          }

  receive-Account :
      (x : T) (rest : List T) (w : Worker T) (xs ys : List T) (n : ℕ)
      → w.queue ≡ x ∷ rest
      → Account w xs ys n
      → Account (receive fails x rest w) xs ys n
  unfolding receive
  receive-Account x rest w xs ys n e a =
      let got : Worker T = record w { queue = rest; batch = w.batch ++ x ∷ [] } in
      let b : Account got xs ys n = record {
        in_order =
            ap (λ t. delivered w.outputs ++ t) (append_assoc w.batch (x ∷ []) rest)
            ∙ ap (λ t. delivered w.outputs ++ (w.batch ++ t)) (sym e)
            ∙ a.in_order;
        handled_at_once = a.handled_at_once;
        counted = a.counted;
      } in
      elim (Bool-cases (leb (batch_limit fails w) (length got.batch))) [
        | inl y ↦ rw y (flush-Account got xs ys n b)
        | inr f ↦ rw f b
      ]

  log_drop-Account :
      (now : ℕ) (w : Worker T) (xs ys : List T) (n : ℕ)
      → Account w xs ys n
      → Account (log_drop fails now w) xs ys (n + 1)
  unfolding log_drop
  log_drop-Account now w xs ys n a =
      elim (Bool-cases (
        not (nat_eq w.last_drop 0)
        && ltb (now - w.last_drop) (positive_or (5 * second) w.config.drop_log_every))) [
          | inl y ↦ rw y (record {
            in_order = a.in_order;
            handled_at_once = a.handled_at_once;
            counted = omega (arith, a.counted);
          })
          | inr f ↦ rw f (record {
            in_order =
                ap (λ t. t ++ (w.batch ++ w.queue))
                  (delivered-append w.outputs _ ∙ append-nil (delivered w.outputs))
                ∙ a.in_order;
            handled_at_once =
                directs-append w.outputs _ ∙ append-nil (directs w.outputs) ∙ a.handled_at_once;
            counted =
                omega
                  (arith, total_logged-append w.outputs (logged (w.dropped + 1) ∷ []), a.counted);
          })
        ]

  direct-Account :
      (x : T) (w : Worker T) (xs ys : List T) (n : ℕ)
      → Account w xs ys n
      → Account (record w { outputs = w.outputs ++ direct x ∷ [] }) xs (ys ++ x ∷ []) n
  direct-Account x w xs ys n a = record {
    in_order =
        ap (λ t. t ++ (w.batch ++ w.queue))
          (delivered-append w.outputs _ ∙ append-nil (delivered w.outputs))
        ∙ a.in_order;
    handled_at_once = directs-append w.outputs _ ∙ ap (λ t. t ++ x ∷ []) a.handled_at_once;
    counted = omega (arith, total_logged-append w.outputs (direct x ∷ []), a.counted);
  }

  queue-Account :
      (x : T) (w : Worker T) (xs ys : List T) (n : ℕ)
      → Account w xs ys n
      → Account (record w { queue = w.queue ++ x ∷ [] }) (xs ++ x ∷ []) ys n
  queue-Account x w xs ys n a = record {
    in_order =
        ap (λ t. delivered w.outputs ++ t) (sym (append_assoc w.batch w.queue (x ∷ [])))
        ∙ sym (append_assoc (delivered w.outputs) (w.batch ++ w.queue) (x ∷ []))
        ∙ ap (λ t. t ++ x ∷ []) a.in_order;
    handled_at_once = a.handled_at_once;
    counted = a.counted;
  }

  enqueue_by-Account :
      (b room drop : Bool) (x : T) (now : ℕ) (w : Worker T) (xs ys : List T) (n : ℕ)
      → Account w xs ys n
      → Account
          (enqueue_by fails b room drop x now w).0
          (add_queued (enqueue_by fails b room drop x now w).1 x xs)
          (add_handled (enqueue_by fails b room drop x now w).1 x ys)
          (add_lost (enqueue_by fails b room drop x now w).1 n)
  enqueue_by-Account true room drop x now w xs ys n a = direct-Account x w xs ys n a
  enqueue_by-Account false true drop x now w xs ys n a = queue-Account x w xs ys n a
  enqueue_by-Account false false true x now w xs ys n a = log_drop-Account now w xs ys n a
  enqueue_by-Account false false false x now w xs ys n a = direct-Account x w xs ys n a

  enqueue-Account :
      (x : T) (now : ℕ) (w : Worker T) (xs ys : List T) (n : ℕ)
      → Account w xs ys n
      → Account
          (enqueue fails x now w).0
          (add_queued (enqueue fails x now w).1 x xs)
          (add_handled (enqueue fails x now w).1 x ys)
          (add_lost (enqueue fails x now w).1 n)
  unfolding enqueue
  enqueue-Account x now w xs ys n a = enqueue_by-Account _ _ _ x now w xs ys n a

  queue-flush : (w : Worker T) → ((flush fails w).queue ≡ w.queue) × ((flush fails w).batch ≡ [])
  unfolding flush
  queue-flush w = go w.batch refl
    where
      go :
          (items : List T)
          → w.batch ≡ items
          → ((flush_items fails items w).queue ≡ w.queue) × ((flush_items fails items w).batch ≡ [])
      go [] e = (refl, e)
      go (x ∷ items) e = (refl, refl)

  queue-receive : (x : T) (rest : List T) (w : Worker T) → (receive fails x rest w).queue ≡ rest
  unfolding receive
  queue-receive x rest w =
      let got : Worker T = record w { queue = rest; batch = w.batch ++ x ∷ [] } in
      elim (Bool-cases (leb (batch_limit fails w) (length got.batch))) [
        | inl y ↦ rw y (queue-flush got).0
        | inr f ↦ rw f refl
      ]

  drain-Account :
      (q : List T) (w : Worker T) (xs ys : List T) (n : ℕ)
      → w.queue ≡ q
      → Account w xs ys n
      → Account (drain fails q w) xs ys n
  unfolding drain
  drain-Account [] w xs ys n e a =
      let f = flush-Account w xs ys n a in
      record { in_order = f.in_order; handled_at_once = f.handled_at_once; counted = f.counted }
  drain-Account (x ∷ rest) w xs ys n e a =
      drain-Account rest (receive fails x rest w) xs ys n (queue-receive x rest w)
        (receive-Account x rest w xs ys n e a)

  pub drained :
      (q : List T) (w : Worker T)
      → w.queue ≡ q
      → ((drain fails q w).queue ≡ []) × ((drain fails q w).batch ≡ [])
  unfolding drain
  drained [] w e = ((queue-flush w).0 ∙ e, (queue-flush w).1)
  drained (x ∷ rest) w e = drained rest (receive fails x rest w) (queue-receive x rest w)

  -- In every run, with a processor that answers by anything that happened before: the items for
  -- which `Enqueue` returned true were delivered, each once and in order, up to those that wait in
  -- the batch and in the channel; the others were processed for their caller, or were dropped and
  -- are counted in a log line or in the number of the next one.
  pub Run-Account :
      {w : Worker T} {xs ys : List T} {n : ℕ} → Run fails w xs ys n → Account w xs ys n
  unfolding new_worker stop
  Run-Account (starts config) = record {
    in_order = refl;
    handled_at_once = refl;
    counted = omega arith;
  }
  Run-Account (enqueues x now r) = enqueue-Account x now _ _ _ _ (Run-Account r)
  Run-Account (receives x rest live e r) = receive-Account x rest _ _ _ _ e (Run-Account r)
  Run-Account (ticks live r) = flush-Account _ _ _ _ (Run-Account r)
  Run-Account (stops r) =
      let a = Run-Account r in
      record { in_order = a.in_order; handled_at_once = a.handled_at_once; counted = a.counted }
  Run-Account (exits live s r) = drain-Account _ _ _ _ _ refl (Run-Account r)
