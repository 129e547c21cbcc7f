-- ===== src/Routing/Service/Cache.antt =====
-- The cache gives back what was stored.
use coding_switch.Base.{
  List, [], ◌∷◌, map, some, bytes_is_eq, lookup, lookup-insert, beq_refl, All, ◌≡◌, refl, sym, ap,
  ◌∙◌, ok,
}
use coding_switch.Routing.Provider.{Provider, RequestBodyReplacement}
use coding_switch.Routing.Profile.{RouteProfile}
use coding_switch.Routing.Profile.Normalize.{
  or_empty, normalize_request_body_replacements, normalize,
}
use coding_switch.Routing.Profile.Normalize.Stable.{IsClean, normalize-IsClean}
use coding_switch.Routing.Service.{
  Repository, Service, clone_replacements, clone_provider, clone_profile, store_profile_cache,
  get_cached, get_known,
}

clone_twice :
    (rs : List RequestBodyReplacement) → clone_replacements (clone_replacements (some rs)) ≡ some rs
clone_twice [] = refl
clone_twice (r ∷ rs) = refl

clone_provider_twice : (p : Provider) → IsClean p → clone_provider (clone_provider p) ≡ p
clone_provider_twice p c =
    ap
      (λ s. record p {
        supported_models = s;
        model_mapping = some (or_empty p.model_mapping);
        request_body_replacements =
            clone_replacements (clone_replacements p.request_body_replacements);
      })
      c.supported
    ∙ ap
        (λ s. record p {
          model_mapping = s;
          request_body_replacements =
              clone_replacements (clone_replacements p.request_body_replacements);
        })
        c.mapping
    ∙ ap (λ s. record p { request_body_replacements = s })
        (ap (λ s. clone_replacements (clone_replacements s)) (sym c.replacements)
          ∙ clone_twice (normalize_request_body_replacements p.request_body_replacements)
          ∙ c.replacements)

clone_providers_twice :
    (ps : List Provider) → All IsClean ps → map clone_provider (map clone_provider ps) ≡ ps
clone_providers_twice [] c = refl
clone_providers_twice (p ∷ ps) c =
    rw (clone_provider_twice p c.0, clone_providers_twice ps c.1) refl

pub clone-normalize : (p : RouteProfile) → clone_profile (clone_profile (normalize p)) ≡ normalize p
unfolding clone_profile
clone-normalize p =
    ap (λ ps. record (normalize p) { providers = ps })
      (clone_providers_twice (normalize p).providers (normalize-IsClean p))

module _ {S E : Type 0} (repo : Repository S E) where
  pub lookup-store_profile_cache :
      (p : RouteProfile) (s : Service S)
      → lookup p.platform (store_profile_cache repo p s).cache ≡ some (clone_profile (normalize p))
  unfolding store_profile_cache
  lookup-store_profile_cache p s =
      lookup-insert p.platform p.platform (clone_profile (normalize p)) s.cache
      ∙ rw (beq_refl p.platform)

  -- A profile that was put into the cache is read as its normal form, and the store is not asked.
  pub get-store :
      (p : RouteProfile) (s : Service S)
      → get_known repo p.platform (store_profile_cache repo p s)
        ≡ (ok (normalize p), store_profile_cache repo p s)
  unfolding get_known
  get-store p s =
      ap (λ o. get_cached repo o p.platform (store_profile_cache repo p s))
        (lookup-store_profile_cache p s)
      ∙ ap (λ q. (ok q, store_profile_cache repo p s)) (clone-normalize p)
