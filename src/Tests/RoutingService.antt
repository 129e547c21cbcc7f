-- ===== src/Tests/RoutingService.antt =====
-- The routing service with a store in memory (internal/routing/application).
use coding_switch.Base.{
  true, false, [], ◌∷◌, Option, none, some, Bytes, bytes_is_eq, codes, Map, lookup, insert, All, In,
  ◌≡◌, ◌≢◌, refl, Result, ok, err, int_is_eq, to_lower, trim_space,
}
use coding_switch.Kernel.{Platform}
use coding_switch.Routing.Profile.{RouteProfile}
use coding_switch.Routing.Profile.Normalize.{normalize}
use coding_switch.Routing.Profile.Validate.{validate}
use coding_switch.Routing.Provider.{validate_configuration}
use coding_switch.Routing.Wildcard.{match_wildcard}
use coding_switch.Tests.Routing.{profile}
use coding_switch.Routing.Service.{
  AppPreferences, Repository, Service, ServiceError, invalid, get_known, save_profile, replace_all,
  original_names, store_profile_cache, clone_profile,
}
use coding_switch.Routing.Service.Saving.{KeepsName, get-save, saved_names}
use coding_switch.Routing.Service.Restoring.{get-replace_all, failed_replace_all}

abbrev Store : Type 0
Store = Map Platform RouteProfile

abbrev found : Option RouteProfile → Result Bytes RouteProfile
found none = err (codes "missing")
found (some p) = ok p

abbrev preferences : AppPreferences
preferences = record {
  show_heatmap = true;
  show_home_title = true;
  proxy_enabled = false;
  proxy_url = [];
}

abbrev memory : Repository Store Bytes
memory = record {
  get_profile = λ platform store. (found (lookup platform store), store);
  save_profile = λ p store. (ok p, insert p.platform p store);
  get_preferences = λ store. (ok preferences, store);
  save_preferences = λ p store. (ok p, store);
  replace_all = λ p ps store. (ok tt, store);
}

abbrev fresh : Service Store
fresh = record {
  store = insert profile.platform (normalize profile) [];
  cache = [];
  has_sink = true;
  told = [];
}

abbrev saved : RouteProfile
saved = normalize profile

abbrev after : Service Store
after = (save_profile memory profile true fresh).1

saves : save_profile memory profile true fresh ≡ (ok saved, after)
unfolding save_profile validate normalize get_known to_lower trim_space validate_configuration
    clone_profile store_profile_cache match_wildcard
saves = refl

get-save_example : get_known memory saved.platform after ≡ (ok (normalize saved), after)
get-save_example = get-save memory profile true fresh after saved saves

saved_names_example :
    (validate (normalize profile) ≡ ok tt)
    × ((current : RouteProfile) × ((get_known memory (normalize profile).platform fresh).0
          ≡ ok current)
        × All (KeepsName (original_names current.providers [])) (normalize profile).providers)
saved_names_example = saved_names memory profile fresh after saved saves

abbrev replaced : Service Store
replaced = (replace_all memory preferences (profile ∷ []) fresh).1

replaces : replace_all memory preferences (profile ∷ []) fresh ≡ (ok tt, replaced)
unfolding replace_all validate normalize to_lower trim_space validate_configuration match_wildcard
replaces = refl

get-replace_all_example :
    All (λ p. validate (normalize p) ≡ ok tt) (profile ∷ [])
    × ((p : RouteProfile)
        → In p (profile ∷ [])
        → get_known memory p.platform replaced ≡ (ok (normalize p), replaced))
get-replace_all_example =
    get-replace_all memory preferences (profile ∷ []) fresh replaced (tt, tt) replaces

abbrev nameless : RouteProfile
nameless = record profile { platform = [] }

refused :
    replace_all memory preferences (nameless ∷ []) fresh
    ≡ (err (invalid (coding_switch.Routing.Profile.Validate.platform_required)), fresh)
unfolding replace_all validate normalize
refused = refl

failed_replace_all_example :
    (fresh.cache ≡ fresh.cache)
    × (fresh.told ≡ fresh.told)
    × (((x : Bytes)
          → invalid (coding_switch.Routing.Profile.Validate.platform_required)
            ≢ ServiceError.store_failed x)
        → fresh ≡ fresh)
failed_replace_all_example =
    failed_replace_all memory preferences (nameless ∷ []) fresh fresh
      (invalid (coding_switch.Routing.Profile.Validate.platform_required)) refused
