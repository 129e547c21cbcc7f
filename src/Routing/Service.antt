-- ===== src/Routing/Service.antt =====
-- The routing service (internal/routing/application/service.go): profiles behind a cache, and the
-- preferences that the relay is told of.
pub mod Cache
pub mod Saving
pub mod Restoring
use coding_switch.Base.{
  ℕ, Bool, true, false, not, ◌&&◌, List, [], ◌∷◌, ◌++◌, map, Option, none, some, Bytes, ◌==◌,
  bytes_is_eq, int_is_eq, ℤ, Map, lookup, insert, if◌then◌else◌, Result, ok, err,
}
use coding_switch.Kernel.{Platform, parse_platform}
use coding_switch.Routing.Provider.{Provider, RequestBodyReplacement}
use coding_switch.Routing.Profile.{RouteProfile}
use coding_switch.Routing.Profile.Normalize.{or_empty, normalize}
use coding_switch.Routing.Profile.Validate.{ValidateError, validate}

pub record AppPreferences : Type 0 where
  pub show_heatmap : Bool
  pub show_home_title : Bool
  pub proxy_enabled : Bool
  pub proxy_url : Bytes

-- The repository: a store `S`, and the errors `E` of its own.
pub record Repository (S E : Type 0) : Type 0 where
  pub get_profile : Platform → S → Result E RouteProfile × S
  pub save_profile : RouteProfile → S → Result E RouteProfile × S
  pub get_preferences : S → Result E AppPreferences × S
  pub save_preferences : AppPreferences → S → Result E AppPreferences × S
  pub replace_all : AppPreferences → List RouteProfile → S → Result E (Unit {0}) × S

pub data ServiceError (E : Type 0) : Type 0 where
  unknown_platform : Bytes → ServiceError E
  invalid : ValidateError → ServiceError E
  name_fixed : ℤ → ServiceError E
  store_failed : E → ServiceError E

-- `told` is what `SetProxyConfig` was called with, in order.
pub record Service (S : Type 0) : Type 0 where
  pub store : S
  pub cache : Map Platform RouteProfile
  pub has_sink : Bool
  pub told : List (Bool × Bytes)

-- `append(nil, input...)` of an empty slice is nil.
abbrev pub clone_replacements :
    Option (List RequestBodyReplacement) → Option (List RequestBodyReplacement)
clone_replacements none = some []
clone_replacements (some []) = none
clone_replacements (some (r ∷ rs)) = some (r ∷ rs)

abbrev pub clone_provider : Provider → Provider
clone_provider p = record p {
  supported_models = some (or_empty p.supported_models);
  model_mapping = some (or_empty p.model_mapping);
  request_body_replacements = clone_replacements p.request_body_replacements;
}

-- `cloneRouteProfile`
unfoldable pub clone_profile : RouteProfile → RouteProfile
clone_profile profile = record profile { providers = map clone_provider profile.providers }

-- `originalNames`: the last provider of an id counts.
abbrev pub original_names : List Provider → Map ℤ Bytes → Map ℤ Bytes
original_names [] m = m
original_names (p ∷ ps) m = original_names ps (insert p.id p.name m)

abbrev pub renamed : Option Bytes → Bytes → Bool
renamed none name = false
renamed (some old) name = not (old == name)

abbrev pub check_names :
    {E : Type 0} → Map ℤ Bytes → List Provider → Result (ServiceError E) (Unit {0})
check_names m [] = ok tt
check_names m (p ∷ ps) =
    let rest = check_names m ps in
    if renamed (lookup p.id m) p.name then err (name_fixed p.id) else rest

module _ {S E : Type 0} (repo : Repository S E) where
  -- `storeProfileCache`
  unfoldable pub store_profile_cache : RouteProfile → Service S → Service S
  store_profile_cache profile s = record s {
    cache = insert profile.platform (clone_profile (normalize profile)) s.cache;
  }

  -- `notifyProxyConfig`
  unfoldable pub notify_proxy_config : AppPreferences → Service S → Service S
  notify_proxy_config p s =
      if s.has_sink then record s { told = s.told ++ (p.proxy_enabled, p.proxy_url) ∷ [] } else s

  abbrev pub fetched :
      Result E RouteProfile → Service S → Result (ServiceError E) RouteProfile × Service S
  fetched (err e) s = (err (store_failed e), s)
  fetched (ok profile) s = (ok (clone_profile profile), store_profile_cache profile s)

  abbrev pub get_cached :
      Option RouteProfile → Platform → Service S → Result (ServiceError E) RouteProfile × Service S
  get_cached (some profile) platform s = (ok (clone_profile profile), s)
  get_cached none platform s =
      let (r, store) = repo.get_profile platform s.store in fetched r (record s { store = store })

  -- `getProfile`
  unfoldable pub get_known : Platform → Service S → Result (ServiceError E) RouteProfile × Service S
  get_known platform s = get_cached (lookup platform s.cache) platform s

  -- `GetProfile`
  unfoldable pub get_profile : Bytes → Service S → Result (ServiceError E) RouteProfile × Service S
  get_profile platform s = elim (parse_platform platform) [
    | none ↦ (err (unknown_platform platform), s)
    | some p ↦ get_known p s
  ]

  abbrev pub stored :
      Result E RouteProfile → Service S → Result (ServiceError E) RouteProfile × Service S
  stored (err e) s = (err (store_failed e), s)
  stored (ok saved) s = (ok saved, store_profile_cache saved s)

  -- The end of `saveProfile`, on what the checks gave.
  abbrev pub save_checked :
      RouteProfile
      → Result (ServiceError E) (Unit {0})
      → Service S
      → Result (ServiceError E) RouteProfile × Service S
  save_checked profile (err e) s = (err e, s)
  save_checked profile (ok _) s =
      let (r, store) = repo.save_profile profile s.store in stored r (record s { store = store })

  abbrev pub stable_names :
      Result (ServiceError E) RouteProfile → RouteProfile → Result (ServiceError E) (Unit {0})
  stable_names (err e) profile = err e
  stable_names (ok current) profile =
      check_names (original_names current.providers []) profile.providers

  abbrev pub save_valid :
      RouteProfile
      → Bool
      → Result ValidateError (Unit {0})
      → Service S
      → Result (ServiceError E) RouteProfile × Service S
  save_valid profile enforce (err e) s = (err (invalid e), s)
  save_valid profile false (ok _) s = save_checked profile (ok tt) s
  save_valid profile true (ok _) s =
      let (current, t) = get_known profile.platform s in
      save_checked profile (stable_names current profile) t

  -- `saveProfile`: `SaveProfile` with stable names, `ReplaceProfile` without.
  unfoldable pub save_profile :
      RouteProfile → Bool → Service S → Result (ServiceError E) RouteProfile × Service S
  save_profile profile enforce s =
      save_valid (normalize profile) enforce (validate (normalize profile)) s

  abbrev pub preferences_saved :
      Result E AppPreferences → Service S → Result (ServiceError E) AppPreferences × Service S
  preferences_saved (err e) s = (err (store_failed e), s)
  preferences_saved (ok saved) s = (ok saved, notify_proxy_config saved s)

  -- `SaveAppPreferences`
  unfoldable pub save_app_preferences :
      AppPreferences → Service S → Result (ServiceError E) AppPreferences × Service S
  save_app_preferences p s =
      let (r, store) = repo.save_preferences p s.store in
      preferences_saved r (record s { store = store })

  abbrev pub add_checked :
      RouteProfile
      → Result ValidateError (Unit {0})
      → Result (ServiceError E) (List RouteProfile)
      → Result (ServiceError E) (List RouteProfile)
  add_checked p (err e) rest = err (invalid e)
  add_checked p (ok _) (err e) = err e
  add_checked p (ok _) (ok ps) = ok (p ∷ ps)

  -- The loop of `ReplaceAll` that normalises and checks: the first error is returned.
  abbrev pub normalize_all : List RouteProfile → Result (ServiceError E) (List RouteProfile)
  normalize_all [] = ok []
  normalize_all (p ∷ ps) = add_checked (normalize p) (validate (normalize p)) (normalize_all ps)

  abbrev pub store_all : List RouteProfile → Service S → Service S
  store_all [] s = s
  store_all (p ∷ ps) s = store_all ps (store_profile_cache p s)

  abbrev pub replaced :
      AppPreferences
      → List RouteProfile
      → Result E (Unit {0})
      → Service S
      → Result (ServiceError E) (Unit {0}) × Service S
  replaced prefs profiles (err e) s = (err (store_failed e), s)
  replaced prefs profiles (ok _) s = (ok tt, notify_proxy_config prefs (store_all profiles s))

  abbrev pub replace_checked :
      AppPreferences
      → Result (ServiceError E) (List RouteProfile)
      → Service S
      → Result (ServiceError E) (Unit {0}) × Service S
  replace_checked prefs (err e) s = (err e, s)
  replace_checked prefs (ok profiles) s =
      let (r, store) = repo.replace_all prefs profiles s.store in
      replaced prefs profiles r (record s { store = store })

  -- `ReplaceAll`
  unfoldable pub replace_all :
      AppPreferences
      → List RouteProfile
      → Service S
      → Result (ServiceError E) (Unit {0}) × Service S
  replace_all prefs profiles s = replace_checked prefs (normalize_all profiles) s
