-- ===== src/Sessions/Cache/Generations.antt =====
-- Results that come after `InvalidateSession` (internal/sessions/infrastructure/cache.go).
use coding_switch.Base.{
  ℕ, Bool, true, false, [], Option, none, some, Bytes, ◌==◌, bytes_is_eq, nat_eq, Result, ◌≡◌, ◌≢◌,
  refl, sym, ap, ◌∙◌, inl, inr, arith,
}
use coding_switch.Sessions.Cache.{
  Entry, Lru, content, LruLaws, cache_key, next_generation, generation_in, cleared, key,
  session_generation, is_current, cached_provider, fill_snapshot, bind_session, update_success,
  record_success, invalidated, invalidate,
}
use coding_switch.Sessions.Cache.Current.{is_current-content, content-is_current}
use coding_switch.Sessions.Cache.Keeping.{
  Held, After, session_generation-After, cached_provider-After, fill_snapshot-After,
  bind_session-After, update_success-After, record_success-After, invalidate-After,
}

next_differs : (g h : ℕ) → nat_eq g h ≡ true → nat_eq (next_generation g) h ≡ false
next_differs g h e = ground arith

module _ {L : Type 0} (lru : Lru L) (laws : LruLaws lru) (platform session : Bytes)
    (named : (session == []) ≡ false) where
  abbrev pub k : Bytes
  k = key lru platform session

  stale_entry :
      (o : Option Entry) (g : ℕ) (m : L)
      → content lru k m ≡ o
      → nat_eq (generation_in o) g ≡ true
      → nat_eq (generation_in (content lru k (invalidated lru platform session o m))) g ≡ false
  stale_entry none g m at h = rw (laws.content-add k _ m) (ground arith)
  stale_entry (some e) g m at h =
      rw (laws.content-change k (cleared (next_generation e.generation) e) e m at)
        (next_differs e.generation g h)

  invalidate-is_current :
      (g : ℕ) (l : L)
      → (is_current lru platform session g l).0 ≡ true
      → (is_current lru platform session g (invalidate lru platform session l)).0 ≡ false
  unfolding invalidate
  invalidate-is_current g l h =
      is_current-content lru laws platform session named g _
      ∙ stale_entry (lru.get k l).0 g (lru.get k l).1 (laws.content-get k k l)
          (sym (is_current-content lru laws platform session named g l) ∙ h)

  bind-stale :
      (now g : ℕ) (provider : Bytes) (failed : Bool) (j : Bytes) (l : L)
      → (is_current lru platform session g l).0 ≡ false
      → content lru j (bind_session lru platform session now provider g failed l) ≡ content lru j l
  unfolding bind_session
  bind-stale now g provider failed j l h =
      rw h (content-is_current lru laws platform session named g j l)

  update-stale :
      (now g : ℕ) (failed : Bool) (j : Bytes) (l : L)
      → (is_current lru platform session g l).0 ≡ false
      → content lru j (update_success lru platform session now g failed l) ≡ content lru j l
  unfolding update_success
  update-stale now g failed j l h = rw h (content-is_current lru laws platform session named g j l)

  record-stale :
      (now g : ℕ) (provider : Bytes) (l : L)
      → (is_current lru platform session g l).0 ≡ false
      → ((record_success lru platform session now provider g l).0 ≡ (false, false))
        × ((j : Bytes)
            → content lru j (record_success lru platform session now provider g l).1
              ≡ content lru j l)
  unfolding record_success
  record-stale now g provider l h =
      rw (named, h) (refl, λ j. content-is_current lru laws platform session named g j l)

  invalidated-Held :
      (o : Option Entry) (m : L)
      → content lru k m ≡ o
      → Held lru laws k
          (generation_in (content lru k (invalidated lru platform session o m)))
          (invalidated lru platform session o m)
  invalidated-Held none m at = let e = laws.content-add k _ m in (_, e, sym (ap generation_in e))
  invalidated-Held (some e) m at =
      let c = laws.content-change k (cleared (next_generation e.generation) e) e m at in
      (_, c, sym (ap generation_in c))

  -- One section of the cache, for any session with an id, of any platform. The session at hand is not
  -- invalidated.
  pub data Section (l : L) : L → Type 0 where
    reads : (p s : Bytes) → Section l (session_generation lru p s l).1
    looks_up : (p s : Bytes) (now : ℕ) → Section l (cached_provider lru p s now l).1
    fills :
        (p s : Bytes) (now g : ℕ) (answer : Result Unit Bytes)
        → Section l (fill_snapshot lru p s now g answer l).1
    binds :
        (p s : Bytes) (now g : ℕ) (provider : Bytes) (failed : Bool)
        → (s == []) ≡ false
        → Section l (bind_session lru p s now provider g failed l)
    stores :
        (p s : Bytes) (now g : ℕ) (failed : Bool)
        → (s == []) ≡ false
        → Section l (update_success lru p s now g failed l)
    records :
        (p s : Bytes) (now g : ℕ) (provider : Bytes)
        → (s == []) ≡ false
        → Section l (record_success lru p s now provider g l).1
    invalidates : (p s : Bytes) → cache_key p s ≢ k → Section l (invalidate lru p s l)

  -- Any sections in any order, after each of which the session has an entry: it is not evicted.
  pub data Stays (l : L) : L → Type 0 where
    stop : Stays l l
    go : {m n : L} (e : Entry) → Stays l m → Section m n → content lru k n ≡ some e → Stays l n

  Section-After : {l m : L} (g : ℕ) → Section l m → Held lru laws k g l → After lru laws k g m
  Section-After {l} g (reads p s) h = session_generation-After lru laws k p s g l (inr h)
  Section-After {l} g (looks_up p s now) h = cached_provider-After lru laws k p s g now l (inr h)
  Section-After {l} g (fills p s now i answer) h =
      fill_snapshot-After lru laws k p s g now i answer l h
  Section-After {l} g (binds p s now i provider failed n) h =
      bind_session-After lru laws k p s n g now i provider failed l h
  Section-After {l} g (stores p s now i failed n) h =
      update_success-After lru laws k p s n g now i failed l h
  Section-After {l} g (records p s now i provider n) h =
      record_success-After lru laws k p s n g now i provider l h
  Section-After {l} g (invalidates p s other) h = invalidate-After lru laws k p s g l other (inr h)

  Stays-Held : {l m : L} (g : ℕ) → Stays l m → Held lru laws k g l → Held lru laws k g m
  Stays-Held g stop h = h
  Stays-Held g (go e t s at) h = elim (Section-After g s (Stays-Held g t h)) [
    | inl gone ↦ absurd (cc (gone, at))
    | inr held ↦ held
  ]

  is_current-invalidated :
      (g : ℕ) (l m : L)
      → (is_current lru platform session g l).0 ≡ true
      → Stays (invalidate lru platform session l) m
      → (is_current lru platform session g m).0 ≡ false
  unfolding invalidate
  is_current-invalidated g l m h stays =
      let (e, at, same) =
        Stays-Held _ stays
          (invalidated-Held (lru.get k l).0 (lru.get k l).1 (laws.content-get k k l)) in
      is_current-content lru laws platform session named g m
      ∙ ap (λ x. nat_eq x g) (ap generation_in at ∙ same)
      ∙ sym
          (is_current-content lru laws platform session named g (invalidate lru platform session l))
      ∙ invalidate-is_current g l h

  -- For a session with an id, and an LRU cache as documented: a request begins under the generation of
  -- a cache `l`, in which the session is then invalidated. After any further sections of the cache, for
  -- this session and others, that neither invalidate the session again nor leave it without an entry,
  -- the request changes no entry when it binds the session, reports a success or stores one, and its
  -- success counts neither as current nor as due for storage.
  pub late_after_invalidate :
      (now g : ℕ) (provider : Bytes) (failed : Bool) (l m : L)
      → (is_current lru platform session g l).0 ≡ true
      → Stays (invalidate lru platform session l) m
      → ((j : Bytes)
          → content lru j (bind_session lru platform session now provider g failed m)
            ≡ content lru j m)
        × ((j : Bytes)
            → content lru j (update_success lru platform session now g failed m) ≡ content lru j m)
        × ((record_success lru platform session now provider g m).0 ≡ (false, false))
        × ((j : Bytes)
            → content lru j (record_success lru platform session now provider g m).1
              ≡ content lru j m)
  late_after_invalidate now g provider failed l m h stays =
      let stale = is_current-invalidated g l m h stays in
      let (fate, kept) = record-stale now g provider _ stale in
      (
        λ j. bind-stale now g provider failed j _ stale,
        λ j. update-stale now g failed j _ stale,
        fate,
        kept,
      )
