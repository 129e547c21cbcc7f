-- ===== src/Pricing.antt =====
-- The prices of models (resources/model-pricing/price.go): tables, the search for a model's entry and
-- the cache of its results. The numbers of an entry, which are floats, stay inside a parameter.
pub mod Coherent
pub mod Merged
use coding_switch.Base.{
  sort_by, ℕ, Bool, true, false, not, ◌||◌, List, [], ◌∷◌, map, Option, none, some, Bytes, ◌==◌,
  bytes_is_eq, bytes_lt, codes, nat_eq, keep, length, drop, has_prefix, trim_prefix, contains_text,
  to_lower, Map, lookup, insert, if◌then◌else◌,
}

-- `nameReplacer` deletes these.
abbrev is_separator : ℕ → Bool
is_separator c =
    nat_eq c b'-'
    || (nat_eq c b'_' || (nat_eq c b'.' || (nat_eq c b':' || (nat_eq c b'/' || nat_eq c 32))))

-- `normalizeName`
unfoldable pub normalize_name : Bytes → Bytes
normalize_name name = keep (λ c. not (is_separator c)) (to_lower name)

abbrev strip_first : List Bytes → Bytes → Bytes
strip_first [] name = name
strip_first (p ∷ ps) name =
    if has_prefix p (to_lower name) then drop (length p) name else strip_first ps name

-- `stripRegionPrefix`
unfoldable pub strip_region_prefix : Bytes → Bytes
strip_region_prefix name = strip_first (codes "us." ∷ codes "eu." ∷ codes "apac." ∷ []) name

pub record FuzzyKey : Type 0 where
  pub key : Bytes
  pub normalized : Bytes

-- The comparison of `rebuildFuzzyKeysLocked`.
abbrev pub fuzzy_less : FuzzyKey → FuzzyKey → Bool
fuzzy_less a b =
    if not (a.normalized == b.normalized)
    then bytes_lt a.normalized b.normalized
    else bytes_lt a.key b.key

abbrev pub keys_of {ℓ} : {V : Type ℓ} → Map Bytes V → List Bytes
keys_of [] = []
keys_of ((k, v) ∷ m) = k ∷ keys_of m

-- `pricingLookup`
pub record Lookup (P : Type 0) : Type 0 where
  pub entry : Option P
  pub has_pricing : Bool

-- The tables of the service. `fuzzy` is `none` while it is nil.
pub record Prices (P : Type 0) : Type 0 where
  pub prices : Map Bytes P
  pub normalized : Map Bytes Bytes
  pub fuzzy : Option (List FuzzyKey)
  pub lookup_cache : Map Bytes (Lookup P)

-- `ensure` is `ensureCachePricing`.
module _ {P : Type 0} (ensure : P → P) where
  abbrev pub build_fuzzy : Map Bytes P → List FuzzyKey
  build_fuzzy prices =
      sort_by fuzzy_less
        (map (λ k. record { key = k; normalized = normalize_name k }) (keys_of prices))

  -- `rebuildFuzzyKeysLocked`
  unfoldable pub rebuild_fuzzy : Prices P → Prices P
  rebuild_fuzzy s = record s { fuzzy = some (build_fuzzy s.prices) }

  abbrev pub fuzzy_of : Prices P → List FuzzyKey
  fuzzy_of s = elim s.fuzzy [ none ↦ build_fuzzy s.prices | some keys ↦ keys ]

  -- The first candidate that contains the target or is contained in it.
  abbrev pub resolve_fuzzy : List FuzzyKey → Bytes → Map Bytes P → Lookup P
  resolve_fuzzy [] target prices = record { entry = none; has_pricing = false }
  resolve_fuzzy (c ∷ cs) target prices =
      if contains_text target c.normalized || contains_text c.normalized target
      then record { entry = lookup c.key prices; has_pricing = true }
      else resolve_fuzzy cs target prices

  abbrev pub resolve_normalized : Option Bytes → List FuzzyKey → Bytes → Map Bytes P → Lookup P
  resolve_normalized (some key) fuzzy target prices = record {
    entry = lookup key prices;
    has_pricing = true;
  }
  resolve_normalized none fuzzy target prices = resolve_fuzzy fuzzy target prices

  abbrev pub first_found : Option P → Lookup P → Lookup P
  first_found (some e) rest = record { entry = some e; has_pricing = true }
  first_found none rest = rest

  -- `resolvePricingLocked`
  unfoldable pub resolve_pricing : Map Bytes P → Map Bytes Bytes → List FuzzyKey → Bytes → Lookup P
  resolve_pricing prices normalized fuzzy model =
      let without_region = strip_region_prefix model in
      let target = normalize_name model in
      first_found (lookup model prices) (
        first_found (lookup without_region prices) (
          first_found (lookup (trim_prefix (codes "anthropic.") without_region) prices)
            (resolve_normalized (lookup target normalized) fuzzy target prices)))

  abbrev pub resolve_in : Prices P → Bytes → Lookup P
  resolve_in s model = resolve_pricing s.prices s.normalized (fuzzy_of s) model

  abbrev pub get_cached : Option (Lookup P) → Bytes → Prices P → Lookup P × Prices P
  get_cached (some found) model s = (found, s)
  get_cached none model s =
      let t = record s { fuzzy = some (fuzzy_of s) } in
      let found = resolve_in t model in
      (found, record t { lookup_cache = insert model found t.lookup_cache })

  -- `getPricing`. The second look under the write lock sees what another call has stored meanwhile.
  unfoldable pub get_pricing : Bytes → Prices P → Lookup P × Prices P
  get_pricing model s =
      if model == []
      then (record { entry = none; has_pricing = false }, s)
      else get_cached (lookup model s.lookup_cache) model s

  abbrev pub or_first : Option Bytes → Bytes → Bytes → Map Bytes Bytes → Map Bytes Bytes
  or_first none norm key m = insert norm key m
  or_first (some old) norm key m = m

  -- One round of the loops over sorted keys, on the entry of the key.
  abbrev pub add_price : Bytes → Option P → Prices P → Prices P
  add_price key none s = s
  add_price key (some item) s = record s {
    prices = insert key (ensure item) s.prices;
    normalized =
        or_first (lookup (normalize_name key) s.normalized) (normalize_name key) key s.normalized;
  }

  abbrev pub add_prices : List Bytes → Map Bytes P → Prices P → Prices P
  add_prices [] raw s = s
  add_prices (k ∷ ks) raw s = add_prices ks raw (add_price k (lookup k raw) s)

  -- `mergeExternal`
  unfoldable pub merge_external : Map Bytes P → Prices P → Prices P
  unfolding rebuild_fuzzy
  merge_external external s =
      record (rebuild_fuzzy (add_prices (sort_by bytes_lt (keys_of external)) external s)) {
        lookup_cache = [];
      }

  -- `NewService`, after the parse of the embedded file.
  unfoldable pub new_service : Map Bytes P → Prices P
  unfolding rebuild_fuzzy
  new_service raw = rebuild_fuzzy (
      add_prices (sort_by bytes_lt (keys_of raw)) raw
        (record { prices = []; normalized = []; fuzzy = none; lookup_cache = [] }))
