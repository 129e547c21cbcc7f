-- ===== src/Sessions/Locks.antt =====
-- The locks of the session service (internal/sessions/application/service.go, `LockSession`): one mutex
-- for each pair of a platform and a session, which is made when it is first asked for and forgotten
-- when nobody has it or waits for it. Callers run at the same time: each section under
-- `sessionLocksMu`, and each step of a mutex, is one step.
pub mod Counting
pub mod Sound
pub mod Entering
pub mod Leaving
pub mod Exclusive
pub mod Ending
use coding_switch.Base.{
  ℕ, suc, ◌+◌, ◌-◌, Bool, true, false, not, ◌&&◌, List, [], ◌∷◌, ◌++◌, Option, none, some, Bytes,
  Comparable, ◌==◌, bytes_is_eq, nat_eq, Map, lookup, insert, delete, if◌then◌else◌, arith, ap, ◌↔◌,
  ◌≡◌,
}

-- `[2]string`
abbrev pub Key : Type 0
Key = Bytes × Bytes

abbrev pub key_eq : Key → Key → Bool
key_eq (a, b) (c, d) = a == c && b == d

pub key_eq_iff : (x y : Key) → (key_eq x y ≡ true) ↔ (x ≡ y)
key_eq_iff (a, b) (c, d) = ground (arith, bytes_is_eq.same_iff a c, bytes_is_eq.same_iff b d)

instance abbrev pub key_is_eq : Comparable Key
key_is_eq = record { same = key_eq; same_iff = key_eq_iff }

-- `sessionLocks`, and the locks that its pointers lead to: a pointer is a number, and `next` is the
-- next new one.
pub record Registry : Type 0 where
  pub table : Map Key ℕ
  pub refs : ℕ → ℕ
  pub next : ℕ

pub data Phase : Type 0 where
  waiting : Phase
  holding : Phase
  leaving : Phase

-- A call of `LockSession`: the key it was called with, and its `lock`.
pub record Caller : Type 0 where
  pub key : Key
  pub lock : ℕ
  pub phase : Phase

abbrev pub write : {A : Type 0} → ℕ → A → (ℕ → A) → ℕ → A
write i v f j = if nat_eq i j then v else f j

abbrev pub increase : ℕ → (ℕ → ℕ) → ℕ → ℕ
increase i refs = write i (suc (refs i)) refs

abbrev pub register_found : Key → Option ℕ → Registry → Registry × ℕ
register_found key (some lock) r = (record r { refs = increase lock r.refs }, lock)
register_found key none r = (
  record {
    table = insert key r.next r.table;
    refs = increase r.next (write r.next 0 r.refs);
    next = suc r.next;
  },
  r.next,
)

-- The first section of `LockSession`.
unfoldable pub register : Key → Registry → Registry × ℕ
register key r = register_found key (lookup key r.table) r

-- The section of the returned function, after the mutex is free.
unfoldable pub unregister : Key → ℕ → Registry → Registry
unregister key lock r =
    let refs = write lock (r.refs lock - 1) r.refs in
    record r { table = if nat_eq (refs lock) 0 then delete key r.table else r.table; refs = refs }

-- The service's locks, with the mutexes that are locked and the calls that run.
pub record Locks : Type 0 where
  pub registry : Registry
  pub held : ℕ → Bool
  pub callers : List Caller

abbrev pub no_locks : Locks
no_locks = record {
  registry = record { table = []; refs = λ i. 0; next = 0 };
  held = λ i. false;
  callers = [];
}

abbrev pub enter : Key → Locks → Locks
enter key l =
    let (registry, lock) = register key l.registry in
    record l {
      registry = registry;
      callers = record { key = key; lock = lock; phase = waiting } ∷ l.callers;
    }

-- One call goes on, between those in front of it and behind it in the list.
abbrev pub moved : List Caller → Caller → List Caller → Phase → List Caller
moved front c back phase = front ++ (record c { phase = phase } ∷ back)

abbrev pub acquire : List Caller → Caller → List Caller → Locks → Locks
acquire front c back l = record l {
  held = write c.lock true l.held;
  callers = moved front c back holding;
}

abbrev pub release : List Caller → Caller → List Caller → Locks → Locks
release front c back l = record l {
  held = write c.lock false l.held;
  callers = moved front c back leaving;
}

abbrev pub leave : List Caller → Caller → List Caller → Locks → Locks
leave front c back l = record l {
  registry = unregister c.key c.lock l.registry;
  callers = front ++ back;
}

-- A running call goes on: a mutex lets a caller in while nobody holds it.
pub data Advance (l : Locks) : Locks → Type 0 where
  acquires :
      (front : List Caller) (c : Caller) (back : List Caller)
      → l.callers ≡ moved front c back waiting
      → l.held c.lock ≡ false
      → Advance l (acquire front c back l)
  releases :
      (front : List Caller) (c : Caller) (back : List Caller)
      → l.callers ≡ moved front c back holding
      → Advance l (release front c back l)
  leaves :
      (front : List Caller) (c : Caller) (back : List Caller)
      → l.callers ≡ moved front c back leaving
      → Advance l (leave front c back l)

-- What can happen, in any order.
pub data Reachable : Locks → Type 0 where
  starts : Reachable no_locks
  enters : {l : Locks} (key : Key) → Reachable l → Reachable (enter key l)
  advances : {l m : Locks} → Advance l m → Reachable l → Reachable m
