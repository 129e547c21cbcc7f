-- ===== src/Sessions/Locks/Exclusive.antt =====
-- The locks of the session service exclude each other: callers with one key have one mutex, so at most
-- one of them is inside; and a key that nobody uses is forgotten.
use coding_switch.Base.{
  ℕ, ◌≤◌, Bool, true, false, ◌&&◌, List, [], ◌∷◌, Option, none, some, ◌==◌, nat_eq_iff, Map, lookup,
  if◌then◌else◌, Bool-cases, All, ◌≡◌, refl, sym, ap, ◌∙◌, inl, inr, arith,
}
use coding_switch.Sessions.Locks.{
  Key, key_is_eq, Caller, Locks, Reachable, acquires, releases, leaves, starts, enters, advances,
}
use coding_switch.Sessions.Locks.Counting.{tally, count, has, is_holding, holds, AtKey}
use coding_switch.Sessions.Locks.Sound.{Sound, start-Sound, acquire-Sound, release-Sound}
use coding_switch.Sessions.Locks.Entering.{enter-Sound}
use coding_switch.Sessions.Locks.Leaving.{leave-Sound}

pub Reachable-Sound : {l : Locks} → Reachable l → Sound l
Reachable-Sound starts = start-Sound
Reachable-Sound (enters {l = l} key r) = enter-Sound l key (Reachable-Sound r)
Reachable-Sound (advances {l = l} (acquires front c back same free) r) =
    acquire-Sound l front c back same free (Reachable-Sound r)
Reachable-Sound (advances {l = l} (releases front c back same) r) =
    release-Sound l front c back same (Reachable-Sound r)
Reachable-Sound (advances {l = l} (leaves front c back same) r) =
    leave-Sound l front c back same (Reachable-Sound r)

-- Callers inside with one key.
abbrev pub inside_key : Key → Caller → Bool
inside_key key c = key == c.key && is_holding c.phase

one_lock :
    (table : Map Key ℕ) (key : Key) (lock : ℕ) (callers : List Caller)
    → lookup key table ≡ some lock
    → All (AtKey table) callers
    → count (inside_key key) callers ≤ count (holds lock) callers
one_lock table key lock [] there h = omega arith
one_lock table key lock (c ∷ callers) there h = elim (Bool-cases (key == c.key)) [
  | inl y ↦
      let same : some c.lock ≡ some lock =
        sym h.0 ∙ ap (λ k. lookup k table) (sym ((key_is_eq.same_iff key c.key).0 y)) ∙ there in
      rw (y, (nat_eq_iff c.lock lock).1 (cc same))
        (tally_both (is_holding c.phase) _ _ (one_lock table key lock callers there h.1))
  | inr n ↦ rw n (tally_more (holds lock c) _ _ (one_lock table key lock callers there h.1))
]
  where
    tally_both : (b : Bool) (m n : ℕ) → m ≤ n → tally b m ≤ tally b n
    tally_both true m n h = omega arith
    tally_both false m n h = h

    tally_more : (b : Bool) (m n : ℕ) → m ≤ n → m ≤ tally b n
    tally_more true m n h = omega arith
    tally_more false m n h = h

no_lock :
    (table : Map Key ℕ) (key : Key) (callers : List Caller)
    → lookup key table ≡ none
    → All (AtKey table) callers
    → count (inside_key key) callers ≡ 0
no_lock table key [] there h = refl
no_lock table key (c ∷ callers) there h = elim (Bool-cases (key == c.key)) [
  | inl y ↦
      absurd (cc (sym there ∙ ap (λ k. lookup k table) ((key_is_eq.same_iff key c.key).0 y) ∙ h.0))
  | inr n ↦ rw n (no_lock table key callers there h.1)
]

-- However the calls of `LockSession` run, at most one caller is inside for each platform and session.
pub Reachable-one : {l : Locks} (key : Key) → Reachable l → count (inside_key key) l.callers ≤ 1
Reachable-one {l = l} key r =
    let s = Reachable-Sound r in by_entry (lookup key l.registry.table) refl s
  where
    at_most : (b : Bool) → (if b then 1 else 0) ≤ 1
    at_most true = omega arith
    at_most false = omega arith

    by_entry :
        (o : Option ℕ)
        → lookup key l.registry.table ≡ o
        → Sound l
        → count (inside_key key) l.callers ≤ 1
    by_entry none h s = let z = no_lock l.registry.table key l.callers h s.at_key in omega arith
    by_entry (some lock) h s =
        let few = one_lock l.registry.table key lock l.callers h s.at_key in
        let one = s.inside lock in let small = at_most (l.held lock) in omega arith

-- When every call has returned, no lock is left behind.
pub Reachable-forgotten :
    {l : Locks} (key : Key) → Reachable l → l.callers ≡ [] → lookup key l.registry.table ≡ none
Reachable-forgotten {l = l} key r empty =
    by_entry (lookup key l.registry.table) refl (Reachable-Sound r)
  where
    by_entry :
        (o : Option ℕ)
        → lookup key l.registry.table ≡ o
        → Sound l
        → lookup key l.registry.table ≡ none
    by_entry none h s = h
    by_entry (some lock) h s =
        absurd (s.used key lock h (s.refs lock ∙ ap (count (has lock)) empty))
