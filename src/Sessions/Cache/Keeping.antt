-- ===== src/Sessions/Cache/Keeping.antt =====
-- What the sections of the cache (internal/sessions/infrastructure/cache.go) make of the generation of
-- one session.
use coding_switch.Base.{
  ℕ, Bool, true, false, not, ◌||◌, [], Option, none, some, Bytes, ◌==◌, bytes_is_eq, bytes_eq_iff,
  nat_eq, if◌then◌else◌, Bool-cases, Result, ok, err, ◌≡◌, ◌≢◌, ◌⊎◌, refl, sym, ap, ◌∙◌, inl, inr,
  arith,
}
use coding_switch.Sessions.Cache.{
  Entry, Lru, content, LruLaws, generation_in, cleared, key, is_expired, session_generation,
  is_current, provider_found, cached_provider, filled, fill_snapshot, bind_session, persisted,
  pending_cleared, clear_pending, update_success, or_new, with_entry, succeeded, record_success,
  invalidated, invalidate,
}
use coding_switch.Sessions.Cache.Current.{is_current-content, content-is_current}

module _ {L : Type 0} (lru : Lru L) (laws : LruLaws lru) (k : Bytes) where
  -- The key has an entry of the generation `g`.
  abbrev pub Held : ℕ → L → Type 0
  Held g l = (e : Entry) × (content lru k l ≡ some e) × (e.generation ≡ g)

  -- Or its entry was evicted.
  abbrev pub After : ℕ → L → Type 0
  After g l = (content lru k l ≡ none) ⊎ Held g l

  same-Held : (g : ℕ) (l m : L) → content lru k m ≡ content lru k l → Held g l → Held g m
  same-Held g l m e (f, at, h) = (f, e ∙ at, h)

  same-After : (g : ℕ) (l m : L) → content lru k m ≡ content lru k l → After g l → After g m
  same-After g l m e (inl gone) = inl (e ∙ gone)
  same-After g l m e (inr held) = inr (same-Held g l m e held)

  apart : (j : Bytes) → (j == k) ≡ false → j ≢ k
  apart j n e = ground (arith, bytes_eq_iff j k, n, e)

  add-After :
      (g : ℕ) (j : Bytes) (e : Entry) (l : L)
      → After g l
      → (j ≡ k → e.generation ≡ g)
      → After g (lru.add j e l)
  add-After g j e l a h = elim (Bool-cases (j == k)) [
    | inl y ↦
        let same : j ≡ k = (bytes_eq_iff j k).0 y in
        inr (e, ap (λ x. content lru x (lru.add j e l)) (sym same) ∙ laws.content-add j e l, h same)
    | inr n ↦ elim (laws.content-add_other j k e l (apart j n)) [
      | inl kept ↦ same-After g l _ kept a
      | inr gone ↦ inl gone
    ]
  ]

  change-After :
      (g : ℕ) (j : Bytes) (e f : Entry) (l : L)
      → content lru j l ≡ some f
      → e.generation ≡ f.generation
      → After g l
      → After g (lru.change j e l)
  change-After g j e f l at h a = elim (Bool-cases (j == k)) [
    | inl y ↦
        let same : j ≡ k = (bytes_eq_iff j k).0 y in
        let here : content lru k l ≡ some f = ap (λ x. content lru x l) (sym same) ∙ at in
        let there : content lru k (lru.change j e l) ≡ some e =
          ap (λ x. content lru x (lru.change j e l)) (sym same) ∙ laws.content-change j e f l at in
        written here there a
    | inr n ↦ same-After g l _ (laws.content-change_other j k e l (apart j n)) a
  ]
    where
      written :
          content lru k l ≡ some f
          → content lru k (lru.change j e l) ≡ some e
          → After g l
          → After g (lru.change j e l)
      written here there (inl gone) = absurd (cc (here, gone))
      written here there (inr (d, held, is)) =
          let same : f ≡ d = cc (here, held) in inr (e, there, h ∙ ap Entry.generation same ∙ is)

  module _ (platform session : Bytes) where
    abbrev j : Bytes
    j = key lru platform session

    get-After : (g : ℕ) (l : L) → After g l → After g (lru.get j l).1
    get-After g l a = same-After g l _ (laws.content-get k j l) a

    pub session_generation-After :
        (g : ℕ) (l : L) → After g l → After g (session_generation lru platform session l).1
    unfolding session_generation
    session_generation-After g l a = elim (Bool-cases (session == [])) [
      | inl y ↦ rw y a
      | inr n ↦ rw n (get-After g l a)
    ]

    provider_found-After :
        (g now : ℕ) (o : Option Entry) (m : L)
        → content lru j m ≡ o
        → After g m
        → After g (provider_found lru platform session now o m).1
    provider_found-After g now none m at a = a
    provider_found-After g now (some e) m at a =
        elim (Bool-cases (not (is_expired platform now e.last_success))) [
          | inl y ↦ rw y a
          | inr n ↦ rw n (change-After g j (cleared e.generation e) e m at refl a)
        ]

    provider_found-generation :
        (now : ℕ) (o : Option Entry) (m : L)
        → (provider_found lru platform session now o m).0.1 ≡ generation_in o
    provider_found-generation now none m = refl
    provider_found-generation now (some e) m =
        elim (Bool-cases (not (is_expired platform now e.last_success))) [
          | inl y ↦ rw y refl
          | inr n ↦ rw n refl
        ]

    pub cached_provider-After :
        (g now : ℕ) (l : L) → After g l → After g (cached_provider lru platform session now l).1
    unfolding cached_provider
    cached_provider-After g now l a =
        provider_found-After g now (lru.get j l).0 (lru.get j l).1 (laws.content-get j j l)
          (get-After g l a)

    -- The generation of the entry, where the key is that of the session.
    Held-generation : (g : ℕ) (l : L) → Held g l → j ≡ k → generation_in (content lru j l) ≡ g
    Held-generation g l (e, at, h) same =
        ap (λ x. generation_in (content lru x l)) same ∙ ap generation_in at ∙ h

    filled-After :
        (g now generation current : ℕ) (answer : Result Unit Bytes) (name : Bytes) (hit : Bool)
        (m : L)
        → (j ≡ k → current ≡ g)
        → After g m
        → After g (filled lru platform session now generation answer (name, current, hit) m).1
    filled-After g now generation current (err e) name hit m h a =
        elim (Bool-cases (not (nat_eq current generation) || hit)) [
          | inl y ↦ rw y a
          | inr n ↦ rw n a
        ]
    filled-After g now generation current (ok provider) name hit m h a =
        elim (Bool-cases (not (nat_eq current generation) || hit)) [
          | inl y ↦ rw y a
          | inr n ↦ rw n (elim (Bool-cases (provider == [])) [
            | inl y ↦ rw y a
            | inr p ↦ rw p (add-After g j _ m a (λ same. equal n (h same)))
          ])
        ]
      where
        equal : {c g2 : ℕ} → (not (nat_eq c generation) || hit) ≡ false → c ≡ g2 → generation ≡ g2
        equal n e = ground arith

    pub fill_snapshot-After :
        (g now generation : ℕ) (answer : Result Unit Bytes) (l : L)
        → Held g l
        → After g (fill_snapshot lru platform session now generation answer l).1
    unfolding fill_snapshot cached_provider
    fill_snapshot-After g now generation answer l held =
        let r = provider_found lru platform session now (lru.get j l).0 (lru.get j l).1 in
        filled-After g now generation r.0.1 answer r.0.0 r.0.2 r.1
          (λ same.
            provider_found-generation now (lru.get j l).0 (lru.get j l).1
            ∙ Held-generation g l held same)
          (provider_found-After g now (lru.get j l).0 (lru.get j l).1 (laws.content-get j j l)
            (get-After g l (inr held)))

    module _ (named : (session == []) ≡ false) where
      is_current-After :
          (g generation : ℕ) (l : L)
          → After g l
          → After g (is_current lru platform session generation l).1
      is_current-After g generation l a =
          same-After g l _ (content-is_current lru laws platform session named generation k l) a

      -- A request that is current has the generation of the entry.
      current_generation :
          (g generation : ℕ) (l : L)
          → Held g l
          → (is_current lru platform session generation l).0 ≡ true
          → j ≡ k
          → generation ≡ g
      current_generation g generation l held h same =
          equal (Held-generation g l held same)
            (sym (is_current-content lru laws platform session named generation l) ∙ h)
        where
          equal : {c g2 : ℕ} → c ≡ g2 → nat_eq c generation ≡ true → generation ≡ g2
          equal e t = ground arith

      pub bind_session-After :
          (g now generation : ℕ) (provider : Bytes) (failed : Bool) (l : L)
          → Held g l
          → After g (bind_session lru platform session now provider generation failed l)
      unfolding bind_session
      bind_session-After g now generation provider failed l held =
          let m = (is_current lru platform session generation l).1 in
          let a : After g m = is_current-After g generation l (inr held) in
          elim (Bool-cases (is_current lru platform session generation l).0) [
            | inl y ↦ rw y (elim (Bool-cases failed) [
              | inl t ↦ rw t a
              | inr n ↦ rw n (add-After g j _ m a (current_generation g generation l held y))
            ])
            | inr n ↦ rw n a
          ]

      persisted-After :
          (g now : ℕ) (o : Option Entry) (m : L)
          → content lru j m ≡ o
          → After g m
          → After g (persisted lru platform session now o m)
      persisted-After g now none m at a = a
      persisted-After g now (some e) m at a = change-After g j _ e m at refl a

      pending_cleared-After :
          (g : ℕ) (o : Option Entry) (m : L)
          → content lru j m ≡ o
          → After g m
          → After g (pending_cleared lru platform session o m)
      pending_cleared-After g none m at a = a
      pending_cleared-After g (some e) m at a = change-After g j _ e m at refl a

      clear_pending-After :
          (g : ℕ) (l : L) → After g l → After g (clear_pending lru platform session l)
      unfolding clear_pending
      clear_pending-After g l a = rw named (
          pending_cleared-After g (lru.get j l).0 (lru.get j l).1 (laws.content-get j j l)
            (get-After g l a))

      pub update_success-After :
          (g now generation : ℕ) (failed : Bool) (l : L)
          → Held g l
          → After g (update_success lru platform session now generation failed l)
      unfolding update_success
      update_success-After g now generation failed l held =
          let m = (is_current lru platform session generation l).1 in
          let a : After g m = is_current-After g generation l (inr held) in
          elim (Bool-cases (is_current lru platform session generation l).0) [
            | inl y ↦ rw y (elim (Bool-cases failed) [
              | inl t ↦ rw t (clear_pending-After g m a)
              | inr n ↦ rw n (
                  persisted-After g now (lru.get j m).0 (lru.get j m).1 (laws.content-get j j m)
                    (get-After g m a))
            ])
            | inr n ↦ rw n a
          ]

      succeeded-After :
          (g now : ℕ) (provider : Bytes) (e : Entry) (m : L)
          → content lru j m ≡ some e
          → After g m
          → After g (succeeded lru platform session now provider e m).1
      succeeded-After g now provider e m at a = elim (Bool-cases (provider == [])) [
        | inl y ↦
            rw y (both _ _ _ (change-After g j _ e m at refl a) (change-After g j _ e m at refl a))
        | inr n ↦
            rw n (both _ _ _ (change-After g j _ e m at refl a) (change-After g j _ e m at refl a))
      ]
        where
          both :
              (b : Bool) (x y : (Bool × Bool) × L)
              → After g x.1
              → After g y.1
              → After g (if b then x else y).1
          both true x y p q = p
          both false x y p q = q

      recorded-After :
          (g now generation : ℕ) (provider : Bytes) (o : Option Entry) (m : L)
          → content lru j m ≡ o
          → (j ≡ k → generation ≡ g)
          → After g m
          → After g
              (succeeded lru platform session now provider
                (or_new lru platform session generation provider o)
                (with_entry lru platform session generation provider o m)).1
      recorded-After g now generation provider none m at h a =
          let new = or_new lru platform session generation provider none in
          succeeded-After g now provider new _ (laws.content-add j new m) (add-After g j new m a h)
      recorded-After g now generation provider (some e) m at h a =
          succeeded-After g now provider e m at a

      pub record_success-After :
          (g now generation : ℕ) (provider : Bytes) (l : L)
          → Held g l
          → After g (record_success lru platform session now provider generation l).1
      unfolding record_success
      record_success-After g now generation provider l held =
          let m = (is_current lru platform session generation l).1 in
          let a : After g m = is_current-After g generation l (inr held) in
          elim (Bool-cases (is_current lru platform session generation l).0) [
            | inl y ↦
                rw (named, y)
                  (recorded-After g now generation provider (lru.get j m).0 (lru.get j m).1
                    (laws.content-get j j m) (current_generation g generation l held y)
                    (get-After g m a))
            | inr n ↦ rw (named, n) a
          ]

    invalidated-After :
        (g : ℕ) (o : Option Entry) (m : L)
        → content lru j m ≡ o
        → j ≢ k
        → After g m
        → After g (invalidated lru platform session o m)
    invalidated-After g none m at other a = add-After g j _ m a (λ same. absurd (other same))
    invalidated-After g (some e) m at other a =
        same-After g m _ (laws.content-change_other j k _ m other) a

    pub invalidate-After :
        (g : ℕ) (l : L) → j ≢ k → After g l → After g (invalidate lru platform session l)
    unfolding invalidate
    invalidate-After g l other a =
        invalidated-After g (lru.get j l).0 (lru.get j l).1 (laws.content-get j j l) other
          (get-After g l a)
