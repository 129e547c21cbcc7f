-- ===== src/Routing/Provider.antt =====
-- A provider: its models, its proxy and its configuration check (internal/routing/domain/models.go).
pub mod Effective
use coding_switch.Base.{
  ℕ, Bool, true, false, not, ◌&&◌, ◌||◌, List, [], ◌∷◌, ◌++◌, Option, none, some, Bytes, ◌==◌,
  bytes_is_eq, codes, length, any, Map, lookup, if◌then◌else◌, ℤ,
}
use coding_switch.Routing.Wildcard.{
  contains_star, match_wildcard, apply_wildcard_mapping, wildcard_more_specific,
}

-- An instant, and whether it is shown in UTC.
pub record Time : Type 0 where
  pub instant : ℕ
  pub is_utc : Bool

pub record RequestBodyReplacement : Type 0 where
  pub path : Bytes
  pub match_value : Bytes
  pub value : Bytes

-- `none` stands for a nil map, slice or pointer.
pub record Provider : Type 0 where
  pub id : ℤ
  pub name : Bytes
  pub api_url : Bytes
  pub api_key : Bytes
  pub official_site : Bytes
  pub tint : Bytes
  pub accent : Bytes
  pub position : ℤ
  pub supported_models : Option (Map Bytes Bool)
  pub model_mapping : Option (Map Bytes Bytes)
  pub request_body_replacements : Option (List RequestBodyReplacement)
  pub proxy_mode : Bytes
  pub proxy_url : Bytes
  pub insecure_skip_verify : Bool
  pub archived : Bool
  pub archived_at : Option Time

-- The entries that `range` visits: none of a nil map.
abbrev pub entries {ℓ κ} : {K : Type ℓ} {V : Type κ} → Option (Map K V) → Map K V
entries none = []
entries (some m) = m

unfoldable pub resolve_proxy_url : Provider → Bool → Bytes → Bytes
resolve_proxy_url p global_enabled global_url =
    if p.proxy_mode == codes "direct"
    then []
    else if p.proxy_mode == codes "custom"
    then p.proxy_url
    else if global_enabled && not (global_url == [])
    then global_url
    else []

-- The value of a missing key is `false`.
abbrev pub enabled_exactly : Map Bytes Bool → Bytes → Bool
enabled_exactly m k = elim (lookup k m) [ none ↦ false | some b ↦ b ]

-- The loop over `SupportedModels` that skips disabled patterns.
abbrev pub enabled_pattern : Bytes → Bytes × Bool → Bool
enabled_pattern model (pattern, enabled) = enabled && match_wildcard pattern model

abbrev pub mapped_pattern : Bytes → Bytes × Bytes → Bool
mapped_pattern model (pattern, _) = match_wildcard pattern model

abbrev is_empty {ℓ} : {A : Type ℓ} → List A → Bool
is_empty [] = true
is_empty (_ ∷ _) = false

abbrev has_key : Bytes → Map Bytes Bytes → Bool
has_key k m = elim (lookup k m) [ none ↦ false | some _ ↦ true ]

unfoldable pub is_model_supported : Provider → Bytes → Bool
is_model_supported p model =
    let supported = entries p.supported_models in
    let mapping = entries p.model_mapping in
    if is_empty supported && is_empty mapping
    then true
    else if enabled_exactly supported model
    then true
    else if any (enabled_pattern model) supported
    then true
    else has_key model mapping || any (mapped_pattern model) mapping

-- The pattern and replacement chosen so far.
abbrev pub Best : Type 0
Best = Option (Bytes × Bytes)

pub better : Bytes → Bytes → Best → Best
better pattern replacement none = some (pattern, replacement)
better pattern replacement (some (q, s)) =
    if wildcard_more_specific pattern q then some (pattern, replacement) else some (q, s)

unfoldable pub scan_patterns : Bytes → Map Bytes Bytes → Best → Best
unfolding better
scan_patterns model [] best = best
scan_patterns model ((pattern, replacement) ∷ m) best =
    scan_patterns model m
      (if not (match_wildcard pattern model) then best else better pattern replacement best)

abbrev pub apply_best : Best → Bytes → Option Bytes
apply_best none model = some model
apply_best (some (pattern, replacement)) model = apply_wildcard_mapping pattern replacement model

-- The exact entry wins; then the most specific pattern. `none` is a run-time panic.
abbrev pub mapped_model : Option Bytes → Map Bytes Bytes → Bytes → Option Bytes
mapped_model (some mapped) m model = some mapped
mapped_model none m model = apply_best (scan_patterns model m none) model

unfoldable pub get_effective_model : Provider → Bytes → Option Bytes
unfolding scan_patterns
get_effective_model p model =
    let m = entries p.model_mapping in mapped_model (lookup model m) m model

abbrev target_supported : Map Bytes Bool → Bytes → Bool
target_supported supported target =
    enabled_exactly supported target || any (enabled_pattern target) supported

-- An error is the mapping entry that it names.
abbrev mapping_errors : Map Bytes Bool → Map Bytes Bytes → List (Bytes × Bytes)
mapping_errors supported [] = []
mapping_errors supported ((external, internal) ∷ m) =
    let rest = mapping_errors supported m in
    if contains_star internal
    then rest
    else if target_supported supported internal
    then rest
    else (external, internal) ∷ rest

unfoldable pub validate_configuration : Provider → List (Bytes × Bytes)
validate_configuration p =
    let supported = entries p.supported_models in
    let mapping = entries p.model_mapping in
    if not (is_empty mapping) && not (is_empty supported)
    then mapping_errors supported mapping
    else []
