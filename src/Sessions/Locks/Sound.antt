-- ===== src/Sessions/Locks/Sound.antt =====
-- What holds of the locks at any time, and the steps of a mutex keep it.
use coding_switch.Base.{
  ℕ, suc, ◌<◌, Bool, true, false, List, ◌++◌, some, nat_eq, nat_eq_iff, lookup, if◌then◌else◌,
  Bool-cases, All, ◌≡◌, refl, sym, ap, ◌∙◌, subst, inl, inr, arith,
}
use coding_switch.Sessions.Locks.{
  Key, key_is_eq, Phase, waiting, holding, leaving, Caller, write, Locks, no_locks, moved, acquire,
  release,
}
use coding_switch.Sessions.Locks.Counting.{
  count, has, holds, count-middle, All-middle, All-insert, AtKey,
}

-- What holds of the locks at any time.
pub record Sound (l : Locks) : Type 0 where
  pub refs : (i : ℕ) → l.registry.refs i ≡ count (has i) l.callers
  pub inside : (i : ℕ) → count (holds i) l.callers ≡ (if l.held i then 1 else 0)
  pub at_key : All (AtKey l.registry.table) l.callers
  pub apart :
      (j k : Key) (i : ℕ)
      → lookup j l.registry.table ≡ some i
      → lookup k l.registry.table ≡ some i
      → j ≡ k
  pub known : (k : Key) (i : ℕ) → lookup k l.registry.table ≡ some i → i < l.registry.next
  pub used : (k : Key) (i : ℕ) → lookup k l.registry.table ≡ some i → l.registry.refs i ≡ 0 → ⊥

pub start-Sound : Sound no_locks
start-Sound = record {
  refs = λ i. refl;
  inside = λ i. refl;
  at_key = tt;
  apart = λ j k i p q. absurd (cc p);
  known = λ k i p. absurd (cc p);
  used = λ k i p z. absurd (cc p);
}

-- A step of a mutex: the caller stays where it is.
moved-Sound :
    (l : Locks) (front : List Caller) (c : Caller) (back : List Caller) (before after : Phase)
    (held : ℕ → Bool)
    → l.callers ≡ moved front c back before
    → ((i : ℕ)
        → count (holds i) (moved front c back before) ≡ (if l.held i then 1 else 0)
        → count (holds i) (moved front c back after) ≡ (if held i then 1 else 0))
    → Sound l
    → Sound (record l { held = held; callers = moved front c back after })
moved-Sound l front c back before after held same step s =
    let old = record c { phase = before } in
    let new = record c { phase = after } in
    let (p, q) =
      All-middle (AtKey l.registry.table) front old back
        (subst (All (AtKey l.registry.table)) same s.at_key) in
    record {
      refs = λ i.
          s.refs i
          ∙ ap (count (has i)) same
          ∙ count-middle (has i) front old back
          ∙ sym (count-middle (has i) front new back);
      inside = λ i. step i (ap (count (holds i)) (sym same) ∙ s.inside i);
      at_key = All-insert (AtKey l.registry.table) front new back p q;
      apart = s.apart;
      known = s.known;
      used = s.used;
    }

pub acquire-Sound :
    (l : Locks) (front : List Caller) (c : Caller) (back : List Caller)
    → l.callers ≡ moved front c back waiting
    → l.held c.lock ≡ false
    → Sound l
    → Sound (acquire front c back l)
acquire-Sound l front c back same free s =
    moved-Sound l front c back waiting holding (write c.lock true l.held) same step s
  where
    step :
        (i : ℕ)
        → count (holds i) (moved front c back waiting) ≡ (if l.held i then 1 else 0)
        → count (holds i) (moved front c back holding)
          ≡ (if write c.lock true l.held i then 1 else 0)
    step i h =
        let a = count-middle (holds i) front (record c { phase = waiting }) back in
        let b = count-middle (holds i) front (record c { phase = holding }) back in
        elim (Bool-cases (nat_eq c.lock i)) [
          | inl y ↦
              let at : c.lock ≡ i = (nat_eq_iff c.lock i).0 y in
              b
              ∙ rw y (
                  ap suc (
                    sym (rw y at a) ∙ h ∙ ap (λ b. if b then 1 else 0) (ap l.held (sym at) ∙ free)))
          | inr n ↦ b ∙ rw n (sym (rw n at a) ∙ h)
        ]

pub release-Sound :
    (l : Locks) (front : List Caller) (c : Caller) (back : List Caller)
    → l.callers ≡ moved front c back holding
    → Sound l
    → Sound (release front c back l)
release-Sound l front c back same s =
    moved-Sound l front c back holding leaving (write c.lock false l.held) same step s
  where
    one : (b : Bool) (n : ℕ) → suc n ≡ (if b then 1 else 0) → n ≡ 0
    one true n h = omega arith
    one false n h = absurd (omega arith)

    step :
        (i : ℕ)
        → count (holds i) (moved front c back holding) ≡ (if l.held i then 1 else 0)
        → count (holds i) (moved front c back leaving)
          ≡ (if write c.lock false l.held i then 1 else 0)
    step i h =
        let a = count-middle (holds i) front (record c { phase = holding }) back in
        let b = count-middle (holds i) front (record c { phase = leaving }) back in
        elim (Bool-cases (nat_eq c.lock i)) [
          | inl y ↦
              b ∙ rw y (one (l.held i) (count (holds i) (front ++ back)) (sym (rw y at a) ∙ h))
          | inr n ↦ b ∙ rw n (sym (rw n at a) ∙ h)
        ]
