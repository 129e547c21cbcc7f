-- ===== src/Mcp/Aggregator/Generations.antt =====
-- The generations: how the numbers of the records change from one operation to the next.
pub mod Operations
pub mod Late
use coding_switch.Base.{
  ℕ, suc, ◌+◌, Bool, true, false, List, [], ◌∷◌, Option, none, some, Bytes, ◌==◌, int_is_eq,
  int_eq_iff, ℤ, Map, lookup, insert, delete, lookup-insert, lookup-delete, beq_refl, if◌then◌else◌,
  Bool-cases, Option-cases, ◌≡◌, refl, sym, ap, ◌∙◌, inl, inr, arith, ◌≤◌, ◌<◌, ◌⊎◌,
}
use coding_switch.Mcp.Aggregator.{Upstream, Aggregator, detach, detached_record, teardown}

-- The record `up` of `id` has its number from the map before, or one that was given out since.
abbrev pub From : Map ℤ Upstream → ℕ → ℕ → ℤ → Upstream → Type 0
From before low high id up =
    ((old : Upstream) × (lookup id before ≡ some old) × (old.generation ≡ up.generation))
    ⊎ ((low < up.generation) × (up.generation ≤ high))

pub record Evolves (a b : Aggregator) : Type 0 where
  pub grows : a.gen_seq ≤ b.gen_seq
  pub from :
      (id : ℤ) (up : Upstream) → lookup id b.ups ≡ some up → From a.ups a.gen_seq b.gen_seq id up

pub Evolves-refl : (a : Aggregator) → Evolves a a
Evolves-refl a = record { grows = omega arith; from = λ id up found. inl (up, found, refl) }

pub Evolves-trans : {a b c : Aggregator} → Evolves a b → Evolves b c → Evolves a c
Evolves-trans {a} {b} {c} e f = record {
  grows = le_trans e.grows f.grows;
  from = λ id up found. elim (f.from id up found) [
    | inl (mid, at, same) ↦ elim (e.from id mid at) [
      | inl (old, there, eq) ↦ inl (old, there, eq ∙ same)
      | inr (l, h) ↦
          inr (later a.gen_seq b.gen_seq c.gen_seq mid.generation up.generation l h same f.grows)
    ]
    | inr (l, h) ↦ inr (lt_of a.gen_seq b.gen_seq up.generation e.grows l, h)
  ];
}
  where
    le_trans : {x y z : ℕ} → x ≤ y → y ≤ z → x ≤ z
    le_trans h k = omega arith

    later : (x y z m u : ℕ) → x < m → m ≤ y → m ≡ u → y ≤ z → (x < u) × (u ≤ z)
    later x y z m u l h e g = (omega arith, omega arith)

    lt_of : (x y u : ℕ) → x ≤ y → y < u → x < u
    lt_of x y u h k = omega arith

-- A record is written that has its number from before, or a new one.
pub write-Evolves :
    (id : ℤ) (up : Upstream) (a b : Aggregator)
    → a.gen_seq ≤ b.gen_seq
    → b.ups ≡ insert id up a.ups
    → From a.ups a.gen_seq b.gen_seq id up
    → Evolves a b
write-Evolves id up a b grows same h = record {
  grows = grows;
  from = λ j new found. elim (Bool-cases (id == j)) [
    | inl y ↦
        let e : id ≡ j = (int_eq_iff id j).0 y in
        let s : up ≡ new = cc (rw (same, lookup-insert id j up a.ups, y) at found) in
        rw (← e, ← s) h
    | inr n ↦ inl (new, rw (same, lookup-insert id j up a.ups, n) at found, refl)
  ];
}

-- A record is deleted.
pub drop-Evolves :
    (id : ℤ) (a b : Aggregator) → a.gen_seq ≤ b.gen_seq → b.ups ≡ delete id a.ups → Evolves a b
drop-Evolves id a b grows same = record {
  grows = grows;
  from = λ j new found. elim (Bool-cases (id == j)) [
    | inl y ↦ absurd (cc (rw (same, lookup-delete id j a.ups, y) at found))
    | inr n ↦ inl (new, rw (same, lookup-delete id j a.ups, n) at found, refl)
  ];
}

-- Neither the records nor the counter change.
pub same-Evolves : (a b : Aggregator) → b.gen_seq ≡ a.gen_seq → b.ups ≡ a.ups → Evolves a b
same-Evolves a b g u = record {
  grows = omega arith;
  from = λ id up found. inl (up, rw u at found, refl);
}

pub detach-Evolves : (id : ℤ) (up : Upstream) (a : Aggregator) → Evolves a (detach id up a)
unfolding detach
detach-Evolves id up a =
    write-Evolves id (detached_record (a.gen_seq + 1) up) a _ (omega arith) refl
      (inr (omega arith, omega arith))

pub teardown-Evolves : (id : ℤ) (a : Aggregator) → Evolves a (teardown id a)
unfolding teardown
teardown-Evolves id a = elim (Option-cases (lookup id a.ups)) [
  | inl missing ↦ rw missing (Evolves-refl a)
  | inr (up, found) ↦ rw found (
      Evolves-trans (detach-Evolves id up a)
        (drop-Evolves id (detach id up a) _ (omega arith) refl))
]

pub lookup-written :
    (id : ℤ) (up : Upstream) (ups : Map ℤ Upstream) → lookup id (insert id up ups) ≡ some up
lookup-written id up ups = lookup-insert id id up ups ∙ rw (beq_refl id)

pub lookup-detach :
    (id : ℤ) (up : Upstream) (a : Aggregator)
    → lookup id (detach id up a).ups ≡ some (detached_record (a.gen_seq + 1) up)
unfolding detach
lookup-detach id up a = lookup-written id (detached_record (a.gen_seq + 1) up) a.ups
