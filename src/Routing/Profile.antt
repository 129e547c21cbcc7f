-- ===== src/Routing/Profile.antt =====
-- A route profile: the providers of one platform, and the provider that serves a request
-- (internal/routing/domain/models.go and resolver.go).
pub mod Resolve
pub mod Validate
pub mod Normalize
use coding_switch.Base.{
  ℕ, zero, suc, ◌+◌, Bool, true, false, not, ◌&&◌, ◌||◌, List, [], ◌∷◌, ◌++◌, Option, none, some,
  Bytes, ◌==◌, bytes_is_eq, int_is_eq, if◌then◌else◌, ℤ, pos, negsuc, any, not_positive, int_lt,
  trim_space, to_lower,
}
use coding_switch.Kernel.{Platform}
use coding_switch.Routing.Provider.{
  Provider, Time, RequestBodyReplacement, is_model_supported, get_effective_model,
  validate_configuration,
}

pub record RouteProfile : Type 0 where
  pub platform : Platform
  pub default_provider_id : Option ℤ
  pub providers : List Provider

abbrev pub find_by_id : ℤ → List Provider → Option Provider
find_by_id id [] = none
find_by_id id (p ∷ ps) = if p.id == id then some p else find_by_id id ps

abbrev pub find_by_name : Bytes → List Provider → Option Provider
find_by_name name [] = none
find_by_name name (p ∷ ps) = if p.name == name then some p else find_by_name name ps

unfoldable pub find_provider_by_id : RouteProfile → ℤ → Option Provider
find_provider_by_id profile id = find_by_id id profile.providers

unfoldable pub find_provider_by_name : RouteProfile → Bytes → Option Provider
find_provider_by_name profile name = find_by_name name profile.providers

abbrev pub default_in : Option ℤ → List Provider → Option Provider
default_in none ps = none
default_in (some id) ps = find_by_id id ps

unfoldable pub default_provider : RouteProfile → Option Provider
default_provider profile = default_in profile.default_provider_id profile.providers

-- `none` is the error `provider not found`.
unfoldable pub set_default_provider : RouteProfile → Option ℤ → Option RouteProfile
set_default_provider profile none = some (record profile { default_provider_id = none })
set_default_provider profile (some id) = elim (find_by_id id profile.providers) [
  | none ↦ none
  | some _ ↦ some (record profile { default_provider_id = some id })
]

pub data ResolveError : Type 0 where
  no_default : ResolveError
  unknown_provider : Bytes → ResolveError
  provider_archived : Bytes → ResolveError
  incomplete : Bytes → ResolveError
  model_not_supported : Bytes → Bytes → ResolveError

pub data Resolved : Type 0 where
  provider : Provider → Resolved
  refused : ResolveError → Resolved

-- The checks on the provider that was found.
abbrev pub check_provider : Provider → Bytes → Resolved
check_provider p model =
    if p.archived
    then refused (provider_archived p.name)
    else if p.api_url == [] || p.api_key == []
    then refused (incomplete p.name)
    else if not (model == []) && not (is_model_supported p model)
    then refused (model_not_supported p.name model)
    else provider p

abbrev pub check_found : Option Provider → ResolveError → Bytes → Resolved
check_found none e model = refused e
check_found (some p) e model = check_provider p model

unfoldable pub resolve_provider : RouteProfile → Bytes → Bytes → Resolved
unfolding default_provider find_provider_by_name
resolve_provider profile name model =
    if name == []
    then check_found (default_provider profile) no_default model
    else check_found (find_provider_by_name profile name) (unknown_provider name) model

pub record ModelRewrite : Type 0 where
  pub effective_model : Bytes
  pub should_rewrite_body : Bool

abbrev rewrite_to : Bytes → Bool → Bool → Bytes → ModelRewrite
rewrite_to requested body_has_model force effective = record {
  effective_model = effective;
  should_rewrite_body =
      not (requested == []) && (body_has_model && (not (effective == requested) || force));
}

-- `none` is the panic of the mapping.
unfoldable pub plan_model_rewrite : Provider → Bytes → Bool → Bool → Option ModelRewrite
plan_model_rewrite p requested body_has_model force = elim (get_effective_model p requested) [
  | none ↦ none
  | some effective ↦ some (rewrite_to requested body_has_model force effective)
]
