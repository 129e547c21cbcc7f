-- ===== src/Sessions/Locks/Ending.antt =====
-- The calls of `LockSession` end: no run of them stands still, and each step brings the end nearer.
use coding_switch.Base.{
  ℕ, suc, ◌+◌, Bool, true, false, List, [], ◌∷◌, ◌++◌, nat_eq, All, if◌then◌else◌, Bool-cases, ◌≡◌,
  ◌⊎◌, refl, ap, ◌∙◌, inl, inr, arith,
}
use coding_switch.Sessions.Locks.{
  Phase, waiting, holding, leaving, Caller, Locks, moved, acquire, release, leave, Advance,
  acquires, releases, leaves, Reachable, advances,
}
use coding_switch.Sessions.Locks.Counting.{count, holds}
use coding_switch.Sessions.Locks.Sound.{Sound}
use coding_switch.Sessions.Locks.Exclusive.{Reachable-Sound}

-- The steps that a call has before it.
abbrev pub steps_left : Phase → ℕ
steps_left waiting = 3
steps_left holding = 2
steps_left leaving = 1

abbrev pub work : List Caller → ℕ
work [] = 0
work (c ∷ callers) = steps_left c.phase + work callers

-- Runs of `n` steps in which no call begins.
pub data Advances (l : Locks) : ℕ → Locks → Type 0 where
  rests : Advances l 0 l
  goes : {n : ℕ} {m k : Locks} → Advances l n m → Advance m k → Advances l (suc n) k

work-append : (xs ys : List Caller) → work (xs ++ ys) ≡ work xs + work ys
work-append [] ys = omega arith
work-append (x ∷ xs) ys = omega (arith, work-append xs ys)

Advance-work : {l m : Locks} → Advance l m → suc (work m.callers) ≡ work l.callers
Advance-work {l} (acquires front c back same free) = rw same (
    omega (
      arith,
      work-append front (record c { phase = waiting } ∷ back),
      work-append front (record c { phase = holding } ∷ back),
    ))
Advance-work {l} (releases front c back same) = rw same (
    omega (
      arith,
      work-append front (record c { phase = holding } ∷ back),
      work-append front (record c { phase = leaving } ∷ back),
    ))
Advance-work {l} (leaves front c back same) =
    rw same (
      omega
        (arith, work-append front (record c { phase = leaving } ∷ back), work-append front back))

-- A caller that does not wait, or all do.
abbrev Found : List Caller → Type 0
Found callers =
    (front : List Caller) × (c : Caller) × (back : List Caller) × (callers ≡ front ++ c ∷ back)
    × ((c.phase ≡ holding) ⊎ (c.phase ≡ leaving))

Found-cons : (d : Caller) (callers : List Caller) → Found callers → Found (d ∷ callers)
Found-cons d callers (front, c, back, e, p) = (d ∷ front, c, back, ap (◌∷◌ d) e, p)

abbrev AllWait : List Caller → Type 0
AllWait = All (λ c. c.phase ≡ waiting)

find : (callers : List Caller) → Found callers ⊎ AllWait callers
find [] = inr tt
find (c ∷ callers) = by_phase c.phase refl (find callers)
  where
    by_phase :
        (p : Phase)
        → c.phase ≡ p
        → Found callers ⊎ AllWait callers
        → Found (c ∷ callers) ⊎ AllWait (c ∷ callers)
    by_phase holding e f = inl ([], c, callers, refl, inl e)
    by_phase leaving e f = inl ([], c, callers, refl, inr e)
    by_phase waiting e (inl f) = inl (Found-cons c callers f)
    by_phase waiting e (inr n) = inr (e, n)

none_holds : (i : ℕ) (callers : List Caller) → AllWait callers → count (holds i) callers ≡ 0
none_holds i [] h = refl
none_holds i (c ∷ callers) h = elim (Bool-cases (nat_eq c.lock i)) [
  | inl y ↦ rw (y, h.0) (none_holds i callers h.1)
  | inr n ↦ rw n (none_holds i callers h.1)
]

free_lock : (l : Locks) (i : ℕ) → Sound l → AllWait l.callers → l.held i ≡ false
free_lock l i s h =
    unheld (l.held i) (count (holds i) l.callers) (none_holds i l.callers h) (s.inside i)
  where
    unheld : (b : Bool) (n : ℕ) → n ≡ 0 → n ≡ (if b then 1 else 0) → b ≡ false
    unheld true n z e = absurd (omega arith)
    unheld false n z e = refl

-- While a call runs, one can go on.
progress : (l : Locks) → Sound l → (l.callers ≡ []) ⊎ ((m : Locks) × Advance l m)
progress l s = go l.callers refl (find l.callers)
  where
    at :
        (front : List Caller) (c : Caller) (back : List Caller) (p : Phase)
        → l.callers ≡ front ++ c ∷ back
        → c.phase ≡ p
        → l.callers ≡ moved front c back p
    at front c back p e q = e ∙ ap (moved front c back) q

    go :
        (callers : List Caller)
        → l.callers ≡ callers
        → Found callers ⊎ AllWait callers
        → (l.callers ≡ []) ⊎ ((m : Locks) × Advance l m)
    go callers e (inl (front, c, back, q, inl p)) =
        inr (release front c back l, releases front c back (at front c back holding (e ∙ q) p))
    go callers e (inl (front, c, back, q, inr p)) =
        inr (leave front c back l, leaves front c back (at front c back leaving (e ∙ q) p))
    go [] e (inr w) = inl e
    go (c ∷ callers) e (inr w) = inr (
      acquire [] c callers l,
      acquires [] c callers (at [] c callers waiting e w.0) (free_lock l c.lock s (rw e w)),
    )

module _ {l : Locks} (r : Reachable l) where
  still_Reachable : {n : ℕ} {m : Locks} → Advances l n m → Reachable m
  still_Reachable rests = r
  still_Reachable (goes s a) = advances a (still_Reachable s)

  -- From every state that the locks reach, whatever the order of the steps, the calls that run return:
  -- a run of `n` steps in which no call begins lowers by `n` the steps that the calls have before them
  -- (three while it waits, two while it holds the mutex, one while it leaves), and it goes on as long
  -- as a call runs.
  pub Advances-end :
      {n : ℕ} {m : Locks}
      → Advances l n m
      → (n + work m.callers ≡ work l.callers) × ((m.callers ≡ []) ⊎ ((k : Locks) × Advance m k))
  Advances-end {m = m} s = (spent s, progress m (Reachable-Sound (still_Reachable s)))
    where
      spent : {n : ℕ} {m : Locks} → Advances l n m → n + work m.callers ≡ work l.callers
      spent rests = omega arith
      spent (goes s a) = omega (arith, spent s, Advance-work a)
