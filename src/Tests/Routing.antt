-- ===== src/Tests/Routing.antt =====
-- Routing at concrete inputs (internal/routing).
use coding_switch.Base.{
  ◌+◌, ◌<◌, true, false, [], ◌∷◌, none, some, Bytes, bytes_is_eq, codes, pos, Map, UniqueKeys,
  SameEntries, ◌≡◌, ◌↔◌, refl, inl, inr, ok, get_elem?, trim_space, to_lower, length,
}
use coding_switch.Kernel.{claude}
use coding_switch.Routing.Wildcard.{match_wildcard, apply_wildcard_mapping, wildcard_more_specific}
use coding_switch.Routing.Wildcard.Mapping.{mapping_panics_iff}
use coding_switch.Routing.Provider.{
  Provider, is_model_supported, get_effective_model, validate_configuration,
}
use coding_switch.Routing.Provider.Effective.{effective_model-SameEntries}
use coding_switch.Routing.Profile.{RouteProfile, resolve_provider, provider}
use coding_switch.Routing.Profile.Resolve.{Serves, resolve_provider-Serves}
use coding_switch.Routing.Profile.Validate.{validate, IsValid}
use coding_switch.Routing.Profile.Validate.Exact.{validate_iff}
use coding_switch.Routing.Profile.Normalize.{normalize}

abbrev alpha : Provider
alpha = record {
  id = pos 7;
  name = codes " alpha ";
  api_url = codes "https://a.example";
  api_key = codes "k";
  official_site = [];
  tint = [];
  accent = [];
  position = pos 9;
  supported_models = some ((codes "claude-*", true) ∷ []);
  model_mapping =
      some ((codes "gpt-*", codes "claude-*") ∷ (codes "gpt-5*", codes "claude-5*") ∷ []);
  request_body_replacements =
      some (record { path = codes " a "; match_value = []; value = codes "1" } ∷ []);
  proxy_mode = [];
  proxy_url = [];
  insecure_skip_verify = false;
  archived = false;
  archived_at = none;
}

abbrev beta : Provider
beta = record alpha { id = pos 8; name = codes "beta"; position = pos 2; archived = true }

abbrev pub profile : RouteProfile
profile = record {
  platform = claude;
  default_provider_id = some (pos 7);
  providers = alpha ∷ beta ∷ [];
}

most_specific : get_effective_model alpha (codes "gpt-5.1") ≡ some (codes "claude-5.1")
unfolding get_effective_model match_wildcard wildcard_more_specific apply_wildcard_mapping
most_specific = refl

overlap_panics : apply_wildcard_mapping (codes "aba*ba") (codes "x*") (codes "aba") ≡ none
unfolding apply_wildcard_mapping
overlap_panics = refl

overlap_matches : match_wildcard (codes "aba*ba") (codes "aba") ≡ true
unfolding match_wildcard
overlap_matches = refl

mapping_panics_iff_example :
    (apply_wildcard_mapping (codes "aba*ba") (codes "x*") (codes "aba") ≡ none)
    ↔ (length (codes "aba") < length (codes "aba") + length (codes "ba"))
mapping_panics_iff_example =
    mapping_panics_iff (codes "aba") (codes "ba") refl refl (codes "aba") (codes "x*") refl
      overlap_matches

abbrev order_a : Map Bytes Bytes
order_a = (codes "gpt-*", codes "claude-*") ∷ (codes "gpt-5*", codes "claude-5*") ∷ []

abbrev order_b : Map Bytes Bytes
order_b = (codes "gpt-5*", codes "claude-5*") ∷ (codes "gpt-*", codes "claude-*") ∷ []

order_a_unique : UniqueKeys order_a
order_a_unique k v w (inl e) (inl f) = cc
order_a_unique k v w (inl e) (inr (inl f)) = cc
order_a_unique k v w (inr (inl e)) (inl f) = cc
order_a_unique k v w (inr (inl e)) (inr (inl f)) = cc
order_a_unique k v w (inl e) (inr (inr f)) = absurd f
order_a_unique k v w (inr (inl e)) (inr (inr f)) = absurd f
order_a_unique k v w (inr (inr e)) i = absurd e

orders_same : SameEntries order_a order_b
orders_same e = (
  elim [ inl a ↦ inr (inl a) | inr (inl b) ↦ inl b | inr (inr n) ↦ absurd n ],
  elim [ inl a ↦ inr (inl a) | inr (inl b) ↦ inl b | inr (inr n) ↦ absurd n ],
)

effective_model-SameEntries_example :
    get_effective_model (record alpha { model_mapping = some order_a }) (codes "gpt-5.1")
    ≡ get_effective_model (record alpha { model_mapping = some order_b }) (codes "gpt-5.1")
effective_model-SameEntries_example =
    effective_model-SameEntries alpha order_a order_b (codes "gpt-5.1") order_a_unique orders_same

resolves : resolve_provider profile [] (codes "claude-3") ≡ provider alpha
unfolding resolve_provider is_model_supported match_wildcard
resolves = refl

resolve_provider-Serves_example : Serves profile [] (codes "claude-3") alpha
resolve_provider-Serves_example =
    resolve_provider-Serves profile [] (codes "claude-3") alpha resolves

validates : validate (normalize profile) ≡ ok tt
unfolding validate normalize validate_configuration match_wildcard trim_space to_lower
validates = refl

validate_iff_example : (validate (normalize profile) ≡ ok tt) ↔ IsValid (normalize profile)
validate_iff_example = validate_iff (normalize profile)

abbrev first : Provider
first = record beta {
  position = pos 1;
  request_body_replacements =
      some (record { path = codes "a"; match_value = []; value = codes "1" } ∷ []);
}

first_is_beta : get_elem? (normalize profile).providers 0 ≡ some first
unfolding normalize trim_space
first_is_beta = refl
