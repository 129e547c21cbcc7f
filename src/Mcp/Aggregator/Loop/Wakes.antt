-- ===== src/Mcp/Aggregator/Loop/Wakes.antt =====
-- The goroutine that passes over the configuration never sleeps past the retry of a failed server.
use coding_switch.Base.{
  ℕ, ◌<◌, ◌≤◌, Option, none, some, Bytes, int_is_eq, ℤ, ◌≡◌, refl, subst, ◌⊎◌, inl, inr, arith,
}
use coding_switch.Mcp.Server.{McpServer}
use coding_switch.Mcp.Aggregator.{Aggregator}
use coding_switch.Mcp.Aggregator.Sync.{next_retry_delay}
use coding_switch.Mcp.Aggregator.Loop.{
  Phase, waiting, syncing, synced, ended, measured, Reconciler, acted, reconcile_error_max_delay,
  sync_failed, sync_done, Move, ticks, acts, notifies, changes, receives, fires, cannot_list, lists,
  measures, arms, ends, Moves, starts, then_moves,
}
use coding_switch.Mcp.Aggregator.Loop.Heard.{FailedAt, Heard}
use coding_switch.Mcp.Aggregator.Loop.Steps.{Step-Heard, sync_once-Quiet}
use coding_switch.Mcp.Aggregator.Loop.Timer.{
  Armed, Roused, Covered, Calm, later-Covered, error_delay-bounds, Covered-Armed, measured_now,
}

-- The earliest retry is not later than `t`.

record Watched (s : Reconciler) : Type 0 where
  late : (id : ℤ) (t : ℕ) → FailedAt id t s.aggregator → 0 < t
  calm : Calm s.phase s.error_delay
  bounded : s.error_delay ≤ reconcile_error_max_delay
  covered : (id : ℤ) (t : ℕ) → FailedAt id t s.aggregator → Roused s ⊎ Covered s.phase s t

module _ (hash : Bytes → Bytes) (fingerprint : McpServer → Bytes) where
  acted-Roused :
      (s : Reconciler) (b : Aggregator) (t : ℕ)
      → Roused s ⊎ Covered s.phase s t
      → Roused (acted b s) ⊎ Covered s.phase (acted b s) t
  acted-Roused s b t (inl (inl c)) = inl (inl c)
  acted-Roused s b t (inl (inr o)) = inl (inr (omega arith))
  acted-Roused s b t (inr c) = inr (unread s.phase c)
    where
      unread : (p : Phase) → Covered p s t → Covered p (acted b s) t
      unread waiting c = same_timer s.timer c
        where
          same_timer : (o : Option ℕ) → Armed s t o → Armed (acted b s) t o
          same_timer none a = a
          same_timer (some due) a = a
      unread syncing c = c
      unread synced c = c
      unread ended c = c
      unread (measured none) c = c
      unread (measured (some d)) c = c

  acted-Watched :
      (s : Reconciler) (b : Aggregator) → Heard s.aggregator b → Watched s → Watched (acted b s)
  acted-Watched s b heard w = record {
    late = λ id t f. elim (heard id t f) [ inl g ↦ w.late id t g | inr (more, l) ↦ l ];
    calm = w.calm;
    bounded = w.bounded;
    covered = λ id t f. elim (heard id t f) [
      | inl g ↦ acted-Roused s b t (w.covered id t g)
      | inr (more, l) ↦ inl (inr (omega arith))
    ];
  }

  Move-Watched : {s r : Reconciler} → Move hash fingerprint s r → Watched s → Watched r
  unfolding sync_failed sync_done
  Move-Watched {s} (ticks c h still) w = record {
    late = w.late;
    calm = w.calm;
    bounded = w.bounded;
    covered = λ id t f. elim (w.covered id t f) [
      | inl r ↦ inl r
      | inr k ↦ inr (later-Covered s.phase s c t h still k)
    ];
  }
  Move-Watched {s} (acts b step) w = acted-Watched s b (Step-Heard hash fingerprint step) w
  Move-Watched {s} (notifies n e) w = record {
    late = w.late;
    calm = w.calm;
    bounded = w.bounded;
    covered = λ id t f. inl (inl refl);
  }
  Move-Watched {s} changes w = record {
    late = w.late;
    calm = w.calm;
    bounded = w.bounded;
    covered = λ id t f. inl (inl refl);
  }
  Move-Watched {s} (receives p c) w = record {
    late = w.late;
    calm = tt;
    bounded = w.bounded;
    covered = λ id t f. inr tt;
  }
  Move-Watched {s} (fires due p e h) w = record {
    late = w.late;
    calm = tt;
    bounded = w.bounded;
    covered = λ id t f. inr tt;
  }
  Move-Watched {s} (cannot_list p) w =
      let b = error_delay-bounds s.error_delay in
      record {
        late = w.late;
        calm = tt;
        bounded = b.1;
        covered = λ id t f. inr (inr (b.0, omega (arith, b.1)));
      }
  Move-Watched {s} (lists servers p) w = record {
    late = λ id t f.
        w.late id t (sync_once-Quiet hash fingerprint s.clock servers s.aggregator id t f);
    calm = refl;
    bounded = omega arith;
    covered = λ id t f. inr tt;
  }
  Move-Watched {s} (measures p) w = record {
    late = w.late;
    calm = rw p at w.calm;
    bounded = w.bounded;
    covered = λ id t f. inr (
        measured_now (record s { phase = measured (next_retry_delay s.clock s.aggregator) }) id t f
          (w.late id t f));
  }
  Move-Watched {s} (arms d p) w = record {
    late = w.late;
    calm = tt;
    bounded = w.bounded;
    covered = λ id t f. elim (w.covered id t f) [
      | inl r ↦ inl r
      | inr k ↦ inr (Covered-Armed d s t (rw p at w.calm) (subst (λ q. Covered q s t) p k))
    ];
  }
  Move-Watched {s} (ends p) w = record {
    late = w.late;
    calm = tt;
    bounded = w.bounded;
    covered = λ id t f. inr tt;
  }

  Moves-Watched : {c : ℕ} {s : Reconciler} → Moves hash fingerprint c s → Watched s
  Moves-Watched starts = record {
    late = λ id t (up, found, f, e). absurd (cc found);
    calm = tt;
    bounded = omega arith;
    covered = λ id t f. inl (inl refl);
  }
  Moves-Watched (then_moves m s) = Move-Watched s (Moves-Watched m)

  -- Whatever the goroutines do, in every state where the one that passes over the configuration
  -- waits, a server that is failed and is to be tried again at `t` is not forgotten: a value is in
  -- `syncCh`, or a goroutine is about to send one, or the timer is set, after a pass that succeeded
  -- to a time that is not after `t` or has come, and after one that failed to at most 30 seconds
  -- from now.
  pub Moves-Wakes :
      {c : ℕ} {s : Reconciler}
      → Moves hash fingerprint c s
      → s.phase ≡ waiting
      → (id : ℤ) (t : ℕ) → FailedAt id t s.aggregator
      → Roused s ⊎ Armed s t s.timer
  Moves-Wakes {c} {s} m p id t f = elim ((Moves-Watched m).covered id t f) [
    | inl r ↦ inl r
    | inr k ↦ inr (subst (λ q. Covered q s t) p k)
  ]
