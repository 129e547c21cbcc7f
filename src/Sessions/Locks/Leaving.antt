-- ===== src/Sessions/Locks/Leaving.antt =====
-- A caller that leaves keeps what holds of the locks.
use coding_switch.Base.{
  ℕ, suc, ◌-◌, ◌<◌, false, List, [], ◌∷◌, ◌++◌, some, ◌==◌, nat_eq, nat_eq_iff, Map, lookup, delete,
  lookup-delete, if◌then◌else◌, Bool-cases, All, ◌≡◌, ◌⊎◌, refl, sym, ap, ◌∙◌, subst, inl, inr,
  arith,
}
use coding_switch.Sessions.Locks.{
  Key, key_is_eq, Registry, leaving, Caller, write, unregister, Locks, moved, leave,
}
use coding_switch.Sessions.Locks.Counting.{
  tally, count, has, holds, count-middle, All-middle, AtKey,
}
use coding_switch.Sessions.Locks.Sound.{Sound}

-- The last caller of a lock leaves: what holds of the others holds without the entry.
left :
    (table : Map Key ℕ) (key : Key) (lock : ℕ) (callers : List Caller)
    → lookup key table ≡ some lock
    → count (has lock) callers ≡ 0
    → All (AtKey table) callers
    → All (AtKey (delete key table)) callers
left table key lock [] there zero h = tt
left table key lock (c ∷ callers) there zero h = elim (Bool-cases (nat_eq c.lock lock)) [
  | inl y ↦ absurd (positive (rw y at zero))
  | inr n ↦ (
    lookup-delete key c.key table ∙ elim (Bool-cases (key == c.key)) [
      | inl y ↦
          let same : some c.lock ≡ some lock =
            sym h.0 ∙ ap (λ k. lookup k table) (sym ((key_is_eq.same_iff key c.key).0 y)) ∙ there in
          absurd (cc (sym ((nat_eq_iff c.lock lock).1 (cc same)) ∙ n))
      | inr m ↦ rw m h.0
    ],
    left table key lock callers there (rw n at zero) h.1,
  )
]
  where
    positive : suc (count (has lock) callers) ≡ 0 → ⊥
    positive z = omega arith

deleted :
    (key k : Key) (i : ℕ) (table : Map Key ℕ)
    → lookup k (delete key table) ≡ some i
    → ((key == k) ≡ false) × (lookup k table ≡ some i)
deleted key k i table h = elim (Bool-cases (key == k)) [
  | inl y ↦ absurd (cc (rw y at (sym (lookup-delete key k table) ∙ h)))
  | inr n ↦ (n, rw n at (sym (lookup-delete key k table) ∙ h))
]

-- What the caller that leaves makes of the registry.
record Left (l : Locks) (c : Caller) (rest : List Caller) (r : Registry) : Type 0 where
  refs : (i : ℕ) → r.refs i ≡ count (has i) rest
  table :
      ((r.table ≡ delete c.key l.registry.table) × (count (has c.lock) rest ≡ 0))
      ⊎ ((r.table ≡ l.registry.table) × (r.refs c.lock ≡ 0 → ⊥))
  next : r.next ≡ l.registry.next
  before : (i : ℕ) → l.registry.refs i ≡ tally (nat_eq c.lock i) (count (has i) rest)

one_less : (a b : ℕ) → a ≡ suc b → a - 1 ≡ b
one_less a b h = omega arith

unregister-Left :
    (l : Locks) (c : Caller) (rest : List Caller)
    → ((i : ℕ) → l.registry.refs i ≡ tally (nat_eq c.lock i) (count (has i) rest))
    → Left l c rest (unregister c.key c.lock l.registry)
unfolding unregister
unregister-Left l c rest h = record {
  refs = counts;
  table =
      elim (Bool-cases (nat_eq (refs c.lock) 0))
        as (λ x.
          ((if nat_eq (refs c.lock) 0 then delete c.key l.registry.table else l.registry.table)
              ≡ delete c.key l.registry.table)
            × (count (has c.lock) rest ≡ 0)
          ⊎ ((if nat_eq (refs c.lock) 0 then delete c.key l.registry.table else l.registry.table)
              ≡ l.registry.table)
            × (refs c.lock ≡ 0 → ⊥)) [
              | inl y ↦ inl (rw y refl, sym (counts c.lock) ∙ (nat_eq_iff (refs c.lock) 0).0 y)
              | inr n ↦ inr (rw n refl, λ z. cc (sym n ∙ (nat_eq_iff (refs c.lock) 0).1 z))
            ];
  next = refl;
  before = h;
}
  where
    refs : ℕ → ℕ
    refs = write c.lock (l.registry.refs c.lock - 1) l.registry.refs

    counts :
        (i : ℕ) → write c.lock (l.registry.refs c.lock - 1) l.registry.refs i ≡ count (has i) rest
    counts i = elim (Bool-cases (nat_eq c.lock i)) [
      | inl y ↦
          let at : c.lock ≡ i = (nat_eq_iff c.lock i).0 y in
          let n : l.registry.refs i ≡ suc (count (has i) rest) = rw y at (h i) in
          rw y (one_less (l.registry.refs c.lock) (count (has i) rest) (ap l.registry.refs at ∙ n))
      | inr n ↦ rw n (rw n at (h i))
    ]

pub leave-Sound :
    (l : Locks) (front : List Caller) (c : Caller) (back : List Caller)
    → l.callers ≡ moved front c back leaving
    → Sound l
    → Sound (leave front c back l)
leave-Sound l front c back same s =
    let gone = record c { phase = leaving } in
    let rest = front ++ back in
    let table = l.registry.table in
    let (there, others) =
      All-middle (AtKey table) front gone back (subst (All (AtKey table)) same s.at_key) in
    let x =
      unregister-Left l c rest
        (λ i. s.refs i ∙ ap (count (has i)) same ∙ count-middle (has i) front gone back) in
    let was =
      λ (k : Key) (i : ℕ) (p : lookup k (unregister c.key c.lock l.registry).table ≡ some i).
        found_before (unregister c.key c.lock l.registry) rest k i x p in
    record {
      refs = x.refs;
      inside = λ i.
          sym (not_inside i (count-middle (holds i) front gone back))
          ∙ ap (count (holds i)) (sym same)
          ∙ s.inside i;
      at_key = kept (unregister c.key c.lock l.registry) rest x there others;
      apart = λ j k i p q. s.apart j k i (was j i p) (was k i q);
      known = λ k i p. subst (λ n. i < n) (sym x.next) (s.known k i (was k i p));
      used = λ k i p z. still (unregister c.key c.lock l.registry) rest k i x there p z;
    }
  where
    not_inside :
        (i : ℕ)
        → count (holds i) (front ++ record c { phase = leaving } ∷ back)
          ≡ tally (holds i (record c { phase = leaving })) (count (holds i) (front ++ back))
        → count (holds i) (front ++ record c { phase = leaving } ∷ back)
          ≡ count (holds i) (front ++ back)
    not_inside i h = elim (Bool-cases (nat_eq c.lock i)) [ inl y ↦ rw y at h | inr n ↦ rw n at h ]

    kept :
        (r : Registry) (rest : List Caller)
        → Left l c rest r
        → lookup c.key l.registry.table ≡ some c.lock
        → All (AtKey l.registry.table) rest
        → All (AtKey r.table) rest
    kept r rest x there others = by_table x.table
      where
        by_table :
            ((r.table ≡ delete c.key l.registry.table) × (count (has c.lock) rest ≡ 0))
              ⊎ ((r.table ≡ l.registry.table) × (r.refs c.lock ≡ 0 → ⊥))
            → All (AtKey r.table) rest
        by_table (inl (e, z)) = rw e (left l.registry.table c.key c.lock rest there z others)
        by_table (inr (e, n)) = rw e others

    found_before :
        (r : Registry) (rest : List Caller) (k : Key) (i : ℕ)
        → Left l c rest r
        → lookup k r.table ≡ some i
        → lookup k l.registry.table ≡ some i
    found_before r rest k i x p = by_table x.table
      where
        by_table :
            ((r.table ≡ delete c.key l.registry.table) × (count (has c.lock) rest ≡ 0))
              ⊎ ((r.table ≡ l.registry.table) × (r.refs c.lock ≡ 0 → ⊥))
            → lookup k l.registry.table ≡ some i
        by_table (inl (e, z)) = (deleted c.key k i l.registry.table (rw e at p)).1
        by_table (inr (e, n)) = rw e at p

    still :
        (r : Registry) (rest : List Caller) (k : Key) (i : ℕ)
        → Left l c rest r
        → lookup c.key l.registry.table ≡ some c.lock
        → lookup k r.table ≡ some i
        → r.refs i ≡ 0
        → ⊥
    still r rest k i x there p z = elim (Bool-cases (nat_eq c.lock i)) [
      | inl y ↦ by_table x.table ((nat_eq_iff c.lock i).0 y)
      | inr n ↦
          let few : l.registry.refs i ≡ count (has i) rest = rw n at (x.before i) in
          s.used k i (found_before r rest k i x p) (few ∙ sym (x.refs i) ∙ z)
    ]
      where
        by_table :
            ((r.table ≡ delete c.key l.registry.table) × (count (has c.lock) rest ≡ 0))
              ⊎ ((r.table ≡ l.registry.table) × (r.refs c.lock ≡ 0 → ⊥))
            → c.lock ≡ i
            → ⊥
        by_table (inl (e, zero)) at =
            let (n, q) = deleted c.key k i l.registry.table (rw e at p) in
            let same : c.key ≡ k = s.apart c.key k i (there ∙ ap some at) q in
            cc (sym n ∙ (key_is_eq.same_iff c.key k).1 same)
        by_table (inr (e, n)) at = n (ap r.refs at ∙ z)
