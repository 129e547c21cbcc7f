-- ===== src/Tests/Pricing.antt =====
-- The prices of models on small tables (resources/model-pricing).
use coding_switch.Base.{ℕ, true, [], ◌∷◌, some, Bytes, bytes_is_eq, codes, Map, ◌≡◌, refl, to_lower}
use coding_switch.Pricing.{
  Prices, new_service, get_pricing, merge_external, resolve_in, resolve_pricing, rebuild_fuzzy,
  normalize_name, strip_region_prefix,
}
use coding_switch.Pricing.Coherent.{starts, looks, merges, get-resolve}
use coding_switch.Pricing.Merged.{get-merge_external}

abbrev unchanged : ℕ → ℕ
unchanged n = n

abbrev built_in : Map Bytes ℕ
built_in = (codes "gpt-5", 3) ∷ (codes "claude-3-opus", 5) ∷ []

abbrev file : Map Bytes ℕ
file = (codes "kimi-k2", 9) ∷ []

abbrev looked : Prices ℕ
looked = (get_pricing unchanged (codes "kimi-k2") (new_service unchanged built_in)).1

-- A name without a region and with other separators is found.
regional :
    (get_pricing unchanged (codes "EU.Claude_3.opus") (new_service unchanged built_in)).0
    ≡ record { entry = some 5; has_pricing = true }
unfolding get_pricing new_service rebuild_fuzzy resolve_pricing normalize_name strip_region_prefix
    to_lower
regional = refl

get-resolve_example :
    (get_pricing unchanged (codes "kimi-k2") (merge_external unchanged file looked)).0
    ≡ resolve_in unchanged (merge_external unchanged file looked) (codes "kimi-k2")
get-resolve_example =
    get-resolve unchanged (merges file (looks (codes "kimi-k2") (starts built_in)))
      (codes "kimi-k2") refl

get-merge_external_example :
    (get_pricing unchanged (codes "kimi-k2") (merge_external unchanged file looked)).0
    ≡ record { entry = some 9; has_pricing = true }
get-merge_external_example = get-merge_external unchanged file looked (codes "kimi-k2") 9 refl refl
