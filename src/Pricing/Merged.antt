-- ===== src/Pricing/Merged.antt =====
-- A price file that is merged.
use coding_switch.Base.{
  sort_by, In-sort_by, true, false, List, [], ◌∷◌, Option, none, some, Bytes, ◌==◌, bytes_is_eq,
  bytes_eq_iff, bytes_lt, Map, lookup, lookup-insert, In, ◌⊎◌, Bool-cases, ◌≡◌, refl, sym, ◌∙◌, inl,
  inr,
}
use coding_switch.Pricing.{
  Prices, keys_of, resolve_pricing, get_pricing, merge_external, add_price, add_prices,
  rebuild_fuzzy,
}

module _ {P : Type 0} (ensure : P → P) where
  In-keys_of : (k : Bytes) (item : P) (m : Map Bytes P) → lookup k m ≡ some item → In k (keys_of m)
  In-keys_of k item [] h = absurd (cc h)
  In-keys_of k item ((j, v) ∷ m) h = elim (Bool-cases (j == k)) [
    | inl y ↦ inl (sym ((bytes_eq_iff j k).0 y))
    | inr n ↦ inr (In-keys_of k item m (rw n at h))
  ]

  lookup-add_price :
      (k j : Bytes) (o : Option P) (item : P) (s : Prices P)
      → (k ≡ j → o ≡ some item)
      → (lookup j (add_price ensure k o s).prices ≡ some (ensure item))
        ⊎ (((k == j) ≡ false) × (lookup j (add_price ensure k o s).prices ≡ lookup j s.prices))
  lookup-add_price k j none item s h = elim (Bool-cases (k == j)) [
    | inl y ↦ absurd (cc (h ((bytes_eq_iff k j).0 y)))
    | inr n ↦ inr (n, refl)
  ]
  lookup-add_price k j (some x) item s h = elim (Bool-cases (k == j)) [
    | inl y ↦
        let same : x ≡ item = cc (h ((bytes_eq_iff k j).0 y)) in
        inl (lookup-insert k j (ensure x) s.prices ∙ rw (y, same) refl)
    | inr n ↦ inr (n, lookup-insert k j (ensure x) s.prices ∙ rw n refl)
  ]

  lookup-add_prices :
      (ks : List Bytes) (raw : Map Bytes P) (j : Bytes) (item : P) (s : Prices P)
      → lookup j raw ≡ some item
      → In j ks ⊎ (lookup j s.prices ≡ some (ensure item))
      → lookup j (add_prices ensure ks raw s).prices ≡ some (ensure item)
  lookup-add_prices [] raw j item s at (inl i) = absurd i
  lookup-add_prices [] raw j item s at (inr e) = e
  lookup-add_prices (k ∷ ks) raw j item s at h =
      let t = add_price ensure k (lookup k raw) s in
      lookup-add_prices ks raw j item t at
        (elim (lookup-add_price k j (lookup k raw) item s (λ e. rw e at)) [
          | inl done ↦ inr done
          | inr (n, kept) ↦ elim h [
            | inl (inl e) ↦ absurd (cc (n, (bytes_eq_iff k j).1 (sym e)))
            | inl (inr i) ↦ inl i
            | inr e ↦ inr (kept ∙ e)
          ]
        ])

  -- After a merge, a model with a name that the merged file prices is answered with the file's entry,
  -- completed, whatever the cache held before.
  pub get-merge_external :
      (external : Map Bytes P) (s : Prices P) (model : Bytes) (item : P)
      → (model == []) ≡ false
      → lookup model external ≡ some item
      → (get_pricing ensure model (merge_external ensure external s)).0
        ≡ record { entry = some (ensure item); has_pricing = true }
  unfolding get_pricing merge_external rebuild_fuzzy resolve_pricing
  get-merge_external external s model item named at =
      rw
        (
          named,
          lookup-add_prices (sort_by bytes_lt (keys_of external)) external model item s at (
              inl
                (In-sort_by bytes_lt model (keys_of external) (In-keys_of model item external at))),
        )
        refl
