-- ===== src/Pricing/Coherent.antt =====
-- The cache of looked-up prices agrees with the tables.
use coding_switch.Base.{
  false, List, [], ◌∷◌, Option, none, some, Bytes, ◌==◌, bytes_is_eq, bytes_eq_iff, Map, lookup,
  lookup-insert, Bool-cases, ◌≡◌, refl, sym, ap, ◌∙◌, inl, inr,
}
use coding_switch.Pricing.{
  Lookup, Prices, resolve_in, get_cached, get_pricing, merge_external, new_service, add_price,
  add_prices, rebuild_fuzzy,
}

module _ {P : Type 0} (ensure : P → P) where
  -- The service in use: its construction, look-ups and merges, in any order.
  pub data Use : Prices P → Type 0 where
    starts : (raw : Map Bytes P) → Use (new_service ensure raw)
    looks : {s : Prices P} (model : Bytes) → Use s → Use (get_pricing ensure model s).1
    merges :
        {s : Prices P} (external : Map Bytes P) → Use s → Use (merge_external ensure external s)

  abbrev Coherent : Prices P → Type 0
  Coherent s =
      (m : Bytes) (found : Lookup P)
      → lookup m s.lookup_cache ≡ some found
      → found ≡ resolve_in ensure s m

  cache-add_prices :
      (ks : List Bytes) (raw : Map Bytes P) (s : Prices P)
      → (add_prices ensure ks raw s).lookup_cache ≡ s.lookup_cache
  cache-add_prices [] raw s = refl
  cache-add_prices (k ∷ ks) raw s =
      cache-add_prices ks raw (add_price ensure k (lookup k raw) s) ∙ one (lookup k raw)
    where
      one : (o : Option P) → (add_price ensure k o s).lookup_cache ≡ s.lookup_cache
      one none = refl
      one (some item) = refl

  get_cached-Coherent :
      (o : Option (Lookup P)) (model : Bytes) (s : Prices P)
      → lookup model s.lookup_cache ≡ o
      → Coherent s
      → ((get_cached ensure o model s).0 ≡ resolve_in ensure s model)
        × Coherent (get_cached ensure o model s).1
  get_cached-Coherent (some found) model s at c = (c model found at, c)
  get_cached-Coherent none model s at c = (
    refl,
    λ m found h. elim (Bool-cases (model == m)) [
      | inl y ↦
          let e : resolve_in ensure s model ≡ found =
            cc (rw (lookup-insert model m (resolve_in ensure s model) s.lookup_cache, y) at h) in
          sym e ∙ ap (resolve_in ensure s) ((bytes_eq_iff model m).0 y)
      | inr n ↦
          c m found (rw (lookup-insert model m (resolve_in ensure s model) s.lookup_cache, n) at h)
    ],
  )

  get_pricing-Coherent :
      (model : Bytes) (s : Prices P) → Coherent s → Coherent (get_pricing ensure model s).1
  unfolding get_pricing
  get_pricing-Coherent model s c = elim (Bool-cases (model == [])) [
    | inl y ↦ rw y c
    | inr n ↦ rw n (get_cached-Coherent (lookup model s.lookup_cache) model s refl c).1
  ]

  Use-Coherent : {s : Prices P} → Use s → Coherent s
  unfolding new_service merge_external rebuild_fuzzy
  Use-Coherent (starts raw) = λ m found h. absurd (cc (rw (cache-add_prices _ raw _) at h))
  Use-Coherent (looks model u) = get_pricing-Coherent model _ (Use-Coherent u)
  Use-Coherent (merges external u) = λ m found h. absurd (cc h)

  -- However the service was used before, what it answers for a model with a name is what the search
  -- through its present tables gives.
  pub get-resolve :
      {s : Prices P}
      → Use s
      → (model : Bytes) → (model == []) ≡ false
      → (get_pricing ensure model s).0 ≡ resolve_in ensure s model
  unfolding get_pricing
  get-resolve {s} u model named =
      rw named (get_cached-Coherent (lookup model s.lookup_cache) model s refl (Use-Coherent u)).0
