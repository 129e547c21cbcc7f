-- ===== src/Mcp/Aggregator/Loop/Timer.antt =====
-- When the timer of the goroutine fires, seen from the retry of a failed server.
use coding_switch.Base.{
  ℕ, ◌+◌, ◌<◌, ◌≤◌, true, false, not, ◌||◌, [], ◌∷◌, Option, none, some, int_is_eq, ℤ, Map, In,
  In-lookup, nat_eq, leb, Bool-cases, ◌≡◌, refl, ap, ◌⊎◌, inl, inr, arith,
}
use coding_switch.Mcp.Aggregator.{failed, Upstream}
use coding_switch.Mcp.Aggregator.Sync.{
  is_failed, earlier, earliest_retry, delay_until, next_retry_delay,
}
use coding_switch.Mcp.Aggregator.Loop.{
  Phase, waiting, syncing, synced, ended, measured, Reconciler, next_error_delay,
  reconcile_error_max_delay, set_timer,
}
use coding_switch.Mcp.Aggregator.Loop.Heard.{FailedAt}

-- The earliest retry is not later than `t`.
abbrev By : Option ℕ → ℕ → Type 0
By none t = ⊥
By (some e) t = e ≤ t

earlier-By : (e t : ℕ) (acc : Option ℕ) → (e ≤ t) ⊎ By acc t → By (earlier e acc) t
earlier-By e t none (inl h) = h
earlier-By e t none (inr h) = absurd h
earlier-By e t (some f) h = ground (arith, h)

earliest_retry-By :
    (m : Map ℤ Upstream) (acc : Option ℕ) (t : ℕ) → By acc t → By (earliest_retry m acc) t
unfolding earliest_retry
earliest_retry-By [] acc t h = h
earliest_retry-By ((id, up) ∷ m) acc t h =
    elim (Bool-cases (not (is_failed up.state) || nat_eq up.next_retry 0)) [
      | inl y ↦ rw y (earliest_retry-By m acc t h)
      | inr n ↦ rw n (earliest_retry-By m _ t (earlier-By up.next_retry t acc (inr h)))
    ]

earliest_retry-In :
    (m : Map ℤ Upstream) (acc : Option ℕ) (id : ℤ) (up : Upstream)
    → In (id, up) m
    → up.state ≡ failed
    → 0 < up.next_retry
    → By (earliest_retry m acc) up.next_retry
unfolding earliest_retry
earliest_retry-In [] acc id up i f late = absurd i
earliest_retry-In ((j, u) ∷ m) acc id up (inl q) f late =
    let e : up ≡ u = ap (λ (x : ℤ × Upstream). x.1) q in
    rw (← e) (
      rw f (
        rw (not_zero up.next_retry late) (
          earliest_retry-By m _ up.next_retry
            (earlier-By up.next_retry up.next_retry acc (inl (omega arith))))))
  where
    not_zero : (n : ℕ) → 0 < n → nat_eq n 0 ≡ false
    not_zero n h = ground (arith, h)
earliest_retry-In ((j, u) ∷ m) acc id up (inr i) f late = earliest_retry-In m _ id up i f late

-- The time `due` at which the timer fires is not later than `t`, or has come; after a pass that
-- failed it is at most 30 seconds away.
abbrev pub InTime : Reconciler → ℕ → ℕ → Type 0
InTime s t due =
    ((s.error_delay ≡ 0) × ((due ≤ t) ⊎ (due ≤ s.clock)))
    ⊎ ((0 < s.error_delay) × (due ≤ s.clock + reconcile_error_max_delay))

abbrev pub Armed : Reconciler → ℕ → Option ℕ → Type 0
Armed s t none = ⊥
Armed s t (some due) = InTime s t due

-- `syncCh` holds a value, or a goroutine is about to send one.
abbrev pub Roused : Reconciler → Type 0
Roused s = (s.changed ≡ true) ⊎ (0 < s.owed)

abbrev pub Covered : Phase → Reconciler → ℕ → Type 0
Covered waiting s t = Armed s t s.timer
Covered (measured none) s t = ⊥
Covered (measured (some d)) s t = (s.clock + d ≤ t) ⊎ (d ≡ 0)
Covered _ s t = Unit

-- After a pass that succeeded the delay of failed passes is reset.
abbrev pub Calm : Phase → ℕ → Type 0
Calm synced delay = delay ≡ 0
Calm (measured d) delay = delay ≡ 0
Calm _ delay = Unit

later-Armed :
    (s : Reconciler) (c t : ℕ) (o : Option ℕ)
    → s.clock ≤ c
    → Armed s t o
    → Armed (record s { clock = c }) t o
later-Armed s c t none h a = a
later-Armed s c t (some due) h (inl (z, inl b)) = inl (z, inl b)
later-Armed s c t (some due) h (inl (z, inr b)) = inl (z, inr (omega arith))
later-Armed s c t (some due) h (inr (p, b)) = inr (p, omega arith)

pub later-Covered :
    (p : Phase) (s : Reconciler) (c t : ℕ)
    → s.clock ≤ c
    → ((d : Option ℕ) → p ≡ measured d → s.clock ≡ c)
    → Covered p s t
    → Covered p (record s { clock = c }) t
later-Covered waiting s c t h still a = later-Armed s c t s.timer h a
later-Covered syncing s c t h still a = tt
later-Covered synced s c t h still a = tt
later-Covered ended s c t h still a = tt
later-Covered (measured none) s c t h still a = a
later-Covered (measured (some d)) s c t h still a = rw (← still (some d) refl) a

pub error_delay-bounds :
    (d : ℕ) → (0 < next_error_delay d) × (next_error_delay d ≤ reconcile_error_max_delay)
error_delay-bounds d = (ground arith, ground arith)

measured-Covered :
    (s : Reconciler) (o : Option ℕ) (t : ℕ)
    → By o t
    → Covered (measured (delay_until s.clock o)) s t
measured-Covered s none t h = h
measured-Covered s (some e) t h = elim (Bool-cases (leb s.clock e)) [
  | inl y ↦ inl (ground (arith, y, h))
  | inr n ↦ inr (ground (arith, n))
]

pub Covered-Armed :
    (d : Option ℕ) (s : Reconciler) (t : ℕ)
    → s.error_delay ≡ 0
    → Covered (measured d) s t
    → Armed (record s { phase = waiting; timer = set_timer d s.clock }) t (set_timer d s.clock)
Covered-Armed none s t z c = c
Covered-Armed (some d) s t z (inl h) = inl (z, inl h)
Covered-Armed (some d) s t z (inr h) = inl (z, inr (omega arith))

pub measured_now :
    (s : Reconciler) (id : ℤ) (t : ℕ)
    → FailedAt id t s.aggregator
    → 0 < t
    → Covered (measured (next_retry_delay s.clock s.aggregator)) s t
unfolding next_retry_delay
measured_now s id t (up, found, f, e) l =
    measured-Covered s (earliest_retry s.aggregator.ups none) t (
      rw e at (
        earliest_retry-In s.aggregator.ups none id up (In-lookup id up s.aggregator.ups found) f
          (rw (← e) at l)))
