-- ===== src/Sessions/Locks/Entering.antt =====
-- A new call of `LockSession` keeps what holds of the locks.
use coding_switch.Base.{
  ℕ, suc, ◌<◌, true, false, List, [], ◌∷◌, Option, none, some, ◌==◌, nat_eq, nat_eq_iff, Map,
  lookup, insert, lookup-insert, Bool-cases, All, beq_refl, ◌≡◌, ◌⊎◌, refl, sym, ap, ◌∙◌, inl, inr,
  arith,
}
use coding_switch.Sessions.Locks.{
  Key, key_is_eq, waiting, Caller, write, increase, register_found, register, Locks, enter,
}
use coding_switch.Sessions.Locks.Counting.{tally, count, has, holds, AtKey}
use coding_switch.Sessions.Locks.Sound.{Sound}

-- A new caller waits, so it is not counted inside.
waits :
    (lock i : ℕ) (key : Key) (callers : List Caller)
    → count (holds i) (record { key = key; lock = lock; phase = waiting } ∷ callers)
      ≡ count (holds i) callers
waits lock i key callers = elim (Bool-cases (nat_eq lock i)) [
  | inl y ↦ rw y refl
  | inr n ↦ rw n refl
]

counted :
    (lock i : ℕ) (refs : ℕ → ℕ) (n : ℕ)
    → refs i ≡ n
    → increase lock refs i ≡ tally (nat_eq lock i) n
counted lock i refs n h = elim (Bool-cases (nat_eq lock i)) [
  | inl y ↦ rw y (ap suc (ap refs ((nat_eq_iff lock i).0 y) ∙ h))
  | inr n ↦ rw n h
]

found-Sound :
    (l : Locks) (key : Key) (lock : ℕ)
    → lookup key l.registry.table ≡ some lock
    → Sound l
    → Sound (record l {
      registry = record l.registry { refs = increase lock l.registry.refs };
      callers = record { key = key; lock = lock; phase = waiting } ∷ l.callers;
    })
found-Sound l key lock found s = record {
  refs = λ i. counted lock i l.registry.refs (count (has i) l.callers) (s.refs i);
  inside = λ i. waits lock i key l.callers ∙ s.inside i;
  at_key = (found, s.at_key);
  apart = s.apart;
  known = s.known;
  used = λ k i p z. elim (Bool-cases (nat_eq lock i)) [
    | inl y ↦ absurd (positive lock i y z)
    | inr n ↦ s.used k i p (rw n at z)
  ];
}
  where
    positive : (a i : ℕ) → nat_eq a i ≡ true → increase a l.registry.refs i ≡ 0 → ⊥
    positive a i y z = let z2 : suc (l.registry.refs a) ≡ 0 = rw y at z in omega arith

-- No caller has a lock that was never made.
unknown :
    (table : Map Key ℕ) (i : ℕ) (callers : List Caller)
    → ((k : Key) → lookup k table ≡ some i → ⊥)
    → All (AtKey table) callers
    → count (has i) callers ≡ 0
unknown table i [] none_has h = refl
unknown table i (c ∷ callers) none_has h = elim (Bool-cases (nat_eq c.lock i)) [
  | inl y ↦ absurd (none_has c.key (h.0 ∙ ap some ((nat_eq_iff c.lock i).0 y)))
  | inr n ↦ rw n (unknown table i callers none_has h.1)
]

-- What holds of every caller still holds where the entry of another key is written.
All-change :
    (P Q : Caller → Type 0) (callers : List Caller)
    → ((c : Caller) → P c → Q c)
    → All P callers
    → All Q callers
All-change P Q [] f h = tt
All-change P Q (c ∷ callers) f h = (f c h.0, All-change P Q callers f h.1)

-- The entry that was found was written now, or was there before.
inserted :
    (key k : Key) (lock i : ℕ) (table : Map Key ℕ)
    → lookup k (insert key lock table) ≡ some i
    → ((key ≡ k) × (lock ≡ i)) ⊎ (lookup k table ≡ some i)
inserted key k lock i table h = elim (Bool-cases (key == k)) [
  | inl y ↦
      let same : some lock ≡ some i = rw y at (sym (lookup-insert key k lock table) ∙ h) in
      inl ((key_is_eq.same_iff key k).0 y, cc same)
  | inr n ↦ inr (rw n at (sym (lookup-insert key k lock table) ∙ h))
]

inserted-apart :
    (l : Locks) (key j k : Key) (i : ℕ)
    → Sound l
    → ((key ≡ j) × (l.registry.next ≡ i)) ⊎ (lookup j l.registry.table ≡ some i)
    → ((key ≡ k) × (l.registry.next ≡ i)) ⊎ (lookup k l.registry.table ≡ some i)
    → j ≡ k
inserted-apart l key j k i s (inl (e, n)) (inl (f, m)) = sym e ∙ f
inserted-apart l key j k i s (inl (e, n)) (inr q) = let h = s.known k i q in absurd (omega arith)
inserted-apart l key j k i s (inr p) (inl (f, m)) = let h = s.known j i p in absurd (omega arith)
inserted-apart l key j k i s (inr p) (inr q) = s.apart j k i p q

inserted-used :
    (l : Locks) (key k : Key) (i : ℕ)
    → Sound l
    → ((key ≡ k) × (l.registry.next ≡ i)) ⊎ (lookup k l.registry.table ≡ some i)
    → increase l.registry.next (write l.registry.next 0 l.registry.refs) i ≡ 0
    → ⊥
inserted-used l key k i s p z = elim (Bool-cases (nat_eq l.registry.next i)) [
  | inl y ↦
      let z2 : suc (write l.registry.next 0 l.registry.refs l.registry.next) ≡ 0 = rw y at z in
      omega arith
  | inr n ↦ old p n (rw n at z)
]
  where
    old :
        ((key ≡ k) × (l.registry.next ≡ i)) ⊎ (lookup k l.registry.table ≡ some i)
        → nat_eq l.registry.next i ≡ false
        → l.registry.refs i ≡ 0
        → ⊥
    old (inl (e, q)) n z = cc (sym n ∙ (nat_eq_iff l.registry.next i).1 q)
    old (inr q) n z = s.used k i q z

new-Sound :
    (l : Locks) (key : Key)
    → lookup key l.registry.table ≡ none
    → Sound l
    → Sound (record l {
      registry = (register_found key none l.registry).0;
      callers = record { key = key; lock = l.registry.next; phase = waiting } ∷ l.callers;
    })
new-Sound l key none_there s =
    let next = l.registry.next in
    let table = l.registry.table in
    let nobody : count (has next) l.callers ≡ 0 =
      unknown table next l.callers (λ k p. not_below next (s.known k next p)) s.at_key in
    record {
      refs = λ i.
          counted next i (write next 0 l.registry.refs) (count (has i) l.callers)
            (cleared nobody i (Bool-cases (nat_eq next i)));
      inside = λ i. waits next i key l.callers ∙ s.inside i;
      at_key = (
        lookup-insert key key next table ∙ rw (beq_refl key) refl,
        All-change (AtKey table) (AtKey (insert key next table)) l.callers kept s.at_key,
      );
      apart = λ j k i p q.
          inserted-apart l key j k i s (inserted key j next i table p)
            (inserted key k next i table q);
      known = λ k i p. below k i (inserted key k next i table p);
      used = λ k i p z. inserted-used l key k i s (inserted key k next i table p) z;
    }
  where
    not_below : (n : ℕ) → n < n → ⊥
    not_below n h = omega arith

    cleared :
        count (has l.registry.next) l.callers ≡ 0
        → (i : ℕ) → (nat_eq l.registry.next i ≡ true) ⊎ (nat_eq l.registry.next i ≡ false)
        → write l.registry.next 0 l.registry.refs i ≡ count (has i) l.callers
    cleared z i (inl y) =
        rw y (sym z ∙ ap (λ j. count (has j) l.callers) ((nat_eq_iff l.registry.next i).0 y))
    cleared z i (inr n) = rw n (s.refs i)

    kept :
        (c : Caller)
        → AtKey l.registry.table c
        → AtKey (insert key l.registry.next l.registry.table) c
    kept c h =
        lookup-insert key c.key l.registry.next l.registry.table
        ∙ elim (Bool-cases (key == c.key)) [
          | inl y ↦ absurd (
              cc (
                sym (ap (λ k. lookup k l.registry.table) ((key_is_eq.same_iff key c.key).0 y) ∙ h)
                ∙ none_there))
          | inr n ↦ rw n h
        ]

    below :
        (k : Key) (i : ℕ)
        → ((key ≡ k) × (l.registry.next ≡ i)) ⊎ (lookup k l.registry.table ≡ some i)
        → i < suc l.registry.next
    below k i (inl (e, q)) = omega arith
    below k i (inr q) = let h = s.known k i q in omega arith

pub enter-Sound : (l : Locks) (key : Key) → Sound l → Sound (enter key l)
unfolding register
enter-Sound l key s = go (lookup key l.registry.table) refl
  where
    go :
        (o : Option ℕ)
        → lookup key l.registry.table ≡ o
        → Sound (record l {
          registry = (register_found key o l.registry).0;
          callers =
              record { key = key; lock = (register_found key o l.registry).1; phase = waiting }
              ∷ l.callers;
        })
    go none h = new-Sound l key h s
    go (some lock) h = found-Sound l key lock h s
