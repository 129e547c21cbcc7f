-- ===== src/Sessions/Cache.antt =====
-- The session cache (internal/sessions/infrastructure/cache.go). Each definition is one section under
-- the mutex; what the service answers between two sections is an argument of the second. Times are
-- nanoseconds and 0 is the zero time.
pub mod Current
pub mod Keeping
pub mod Generations
use coding_switch.Base.{
  ℕ, ◌+◌, ◌-◌, ◌*◌, ◌%◌, Bool, true, false, not, ◌&&◌, ◌||◌, List, [], ◌∷◌, ◌++◌, Option, none,
  some, Bytes, ◌==◌, bytes_is_eq, nat_eq, ltb, if◌then◌else◌, Result, ok, err, ◌≡◌, ◌≢◌, ◌⊎◌,
}
use coding_switch.Kernel.{Platform, second, session_timeout}

pub record Entry : Type 0 where
  pub provider_name : Bytes
  pub last_success : ℕ
  pub last_persisted : ℕ
  pub pending_persist : ℕ
  pub generation : ℕ

-- The LRU cache: `get` is `Get` with the order of use that it leaves, `add` is `Add` and may evict
-- other keys, and `change` writes through the pointer that `Get` gave.
pub record Lru (L : Type 0) : Type 0 where
  pub get : Bytes → L → Option Entry × L
  pub add : Bytes → Entry → L → L
  pub change : Bytes → Entry → L → L

-- What the cache holds under a key.
abbrev pub content : {L : Type 0} → Lru L → Bytes → L → Option Entry
content lru k l = (lru.get k l).0

-- What golang-lru documents.
pub record LruLaws {L : Type 0} (lru : Lru L) : Type 0 where
  pub content-get : (k j : Bytes) (l : L) → content lru k (lru.get j l).1 ≡ content lru k l
  pub content-add : (k : Bytes) (e : Entry) (l : L) → content lru k (lru.add k e l) ≡ some e
  pub content-add_other :
      (k j : Bytes) (e : Entry) (l : L)
      → k ≢ j
      → (content lru j (lru.add k e l) ≡ content lru j l) ⊎ (content lru j (lru.add k e l) ≡ none)
  pub content-change :
      (k : Bytes) (e f : Entry) (l : L)
      → content lru k l ≡ some f
      → content lru k (lru.change k e l) ≡ some e
  pub content-change_other :
      (k j : Bytes) (e : Entry) (l : L) → k ≢ j → content lru j (lru.change k e l) ≡ content lru j l

abbrev pub persist_interval : ℕ
persist_interval = 60 * second

-- `cacheKey`
abbrev pub cache_key : Bytes → Bytes → Bytes
cache_key platform session = platform ++ b':' ∷ session

-- `uint64`
abbrev pub next_generation : ℕ → ℕ
next_generation g = (g + 1) % 18_446_744_073_709_551_616

-- `isExpired`
abbrev pub is_expired : Platform → ℕ → ℕ → Bool
is_expired platform now last = ltb (session_timeout platform) (now - last)

abbrev pub cleared : ℕ → Entry → Entry
cleared generation e = record {
  provider_name = [];
  last_success = 0;
  last_persisted = 0;
  pending_persist = 0;
  generation = generation;
}

abbrev pub generation_in : Option Entry → ℕ
generation_in none = 0
generation_in (some e) = e.generation

module _ {L : Type 0} (lru : Lru L) (platform session : Bytes) where
  abbrev pub key : Bytes
  key = cache_key platform session

  -- `sessionGenerationLocked`, where there is a cache. `Get` also moves the key in the order of use.
  unfoldable pub session_generation : L → ℕ × L
  session_generation l =
      if session == [] then (0, l) else let (found, m) = lru.get key l in (generation_in found, m)

  -- `isCurrentGenerationLocked`, where there is a cache.
  unfoldable pub is_current : ℕ → L → Bool × L
  is_current generation l =
      if session == []
      then (true, l)
      else let (g, m) = session_generation l in (nat_eq g generation, m)

  -- What `cachedProviderLocked` returns: a name, a generation, and whether it is a hit.
  abbrev pub provider_found : ℕ → Option Entry → L → (Bytes × ℕ × Bool) × L
  provider_found now none m = (([], 0, false), m)
  provider_found now (some e) m =
      if not (is_expired platform now e.last_success)
      then ((e.provider_name, e.generation, true), m)
      else (([], e.generation, false), lru.change key (cleared e.generation e) m)

  unfoldable pub cached_provider : ℕ → L → (Bytes × ℕ × Bool) × L
  cached_provider now l = let (found, m) = lru.get key l in provider_found now found m

  -- The last section of `GetSessionProviderSnapshot`, on what the service answered to a look-up that
  -- began at `generation`.
  abbrev pub filled :
      ℕ → ℕ → {E : Type 0} → Result E Bytes → Bytes × ℕ × Bool → L → Result E (Bytes × ℕ) × L
  filled now generation answer (name, current, hit) m =
      if not (nat_eq current generation) || hit then (ok (name, current), m) else elim answer [
        | err e ↦ (err e, m)
        | ok provider ↦ (
          ok (provider, generation),
          if provider == []
              then m
              else lru.add key
                  (record {
                    provider_name = provider;
                    last_success = now;
                    last_persisted = 0;
                    pending_persist = 0;
                    generation = generation;
                  })
                  m,
        )
      ]

  unfoldable pub fill_snapshot :
      ℕ → ℕ → {E : Type 0} → Result E Bytes → L → Result E (Bytes × ℕ) × L
  fill_snapshot now generation answer l =
      let (seen, m) = cached_provider now l in filled now generation answer seen m

  abbrev pub bound_entry : ℕ → Bytes → ℕ → Entry
  bound_entry now provider generation = record {
    provider_name = provider;
    last_success = now;
    last_persisted = now;
    pending_persist = 0;
    generation = generation;
  }

  -- The last section of `BindSessionToProviderGeneration`; `failed` is whether the service failed.
  unfoldable pub bind_session : ℕ → Bytes → ℕ → Bool → L → L
  bind_session now provider generation failed l =
      let (current, m) = is_current generation l in
      if not current || failed then m else lru.add key (bound_entry now provider generation) m

  abbrev pub persisted : ℕ → Option Entry → L → L
  persisted now none m = m
  persisted now (some e) m =
      lru.change key (record e { last_success = now; last_persisted = now; pending_persist = 0 }) m

  abbrev pub pending_cleared : Option Entry → L → L
  pending_cleared none m = m
  pending_cleared (some e) m = lru.change key (record e { pending_persist = 0 }) m

  -- `clearPendingSessionSuccessLocked`
  unfoldable pub clear_pending : L → L
  clear_pending l =
      if session == [] then l else let (found, m) = lru.get key l in pending_cleared found m

  -- The last section of `UpdateSessionSuccessGeneration`.
  unfoldable pub update_success : ℕ → ℕ → Bool → L → L
  update_success now generation failed l =
      let (current, m) = is_current generation l in
      if not current
      then m
      else if failed
      then clear_pending m
      else let (found, n) = lru.get key m in persisted now found n

  abbrev pub later : ℕ → ℕ → ℕ
  later a b = if ltb a b then b else a

  abbrev pub or_new : ℕ → Bytes → Option Entry → Entry
  or_new generation provider none = record {
    provider_name = provider;
    last_success = 0;
    last_persisted = 0;
    pending_persist = 0;
    generation = generation;
  }
  or_new generation provider (some e) = e

  -- The entry is there, or it is added first.
  abbrev pub with_entry : ℕ → Bytes → Option Entry → L → L
  with_entry generation provider none m = lru.add key (or_new generation provider none) m
  with_entry generation provider (some e) m = m

  abbrev pub succeeded : ℕ → Bytes → Entry → L → (Bool × Bool) × L
  succeeded now provider e m =
      let named = if provider == [] then e else record e { provider_name = provider } in
      let reference = later e.last_persisted e.pending_persist in
      if not (nat_eq reference 0) && ltb (now - reference) persist_interval
      then ((true, false), lru.change key (record named { last_success = now }) m)
      else (
        (true, true),
        lru.change key (record named { last_success = now; pending_persist = now }) m,
      )

  -- `RecordSessionSuccessGeneration`, where there is a cache.
  unfoldable pub record_success : ℕ → Bytes → ℕ → L → (Bool × Bool) × L
  record_success now provider generation l =
      if session == []
      then ((false, false), l)
      else let (current, m) = is_current generation l in
        if not current
        then ((false, false), m)
        else let (found, n) = lru.get key m in
          succeeded now provider (or_new generation provider found)
            (with_entry generation provider found n)

  abbrev pub invalidated : Option Entry → L → L
  invalidated none m =
      lru.add key
        (record {
          provider_name = [];
          last_success = 0;
          last_persisted = 0;
          pending_persist = 0;
          generation = 1;
        })
        m
  invalidated (some e) m = lru.change key (cleared (next_generation e.generation) e) m

  -- `InvalidateSession`, where there is a cache.
  unfoldable pub invalidate : L → L
  invalidate l = let (found, m) = lru.get key l in invalidated found m
