-- ===== src/Routing/Service/Restoring.antt =====
-- `ReplaceAll`: all profiles or none.
use coding_switch.Base.{
  List, [], ◌∷◌, map, some, ◌==◌, bytes_is_eq, bytes_eq_iff, lookup, lookup-insert, All, In,
  Bool-cases, ◌≡◌, ◌≢◌, refl, sym, ap, ◌∙◌, inl, inr, Result, ok, err, Distinct,
}
use coding_switch.Kernel.{Platform}
use coding_switch.Routing.Profile.{RouteProfile}
use coding_switch.Routing.Profile.Normalize.{normalize}
use coding_switch.Routing.Profile.Normalize.Stable.{normalize_idem}
use coding_switch.Routing.Profile.Validate.{ValidateError, validate}
use coding_switch.Routing.Service.{
  AppPreferences, Repository, Service, ServiceError, clone_profile, store_profile_cache,
  notify_proxy_config, get_cached, get_known, add_checked, normalize_all, store_all, replaced,
  replace_checked, replace_all,
}
use coding_switch.Routing.Service.Cache.{clone-normalize, lookup-store_profile_cache}

module _ {S E : Type 0} (repo : Repository S E) where
  add_checked-ok :
      (p : RouteProfile) (v : Result ValidateError (Unit {0}))
      (rest : Result (ServiceError E) (List RouteProfile)) (qs : List RouteProfile)
      → add_checked repo p v rest ≡ ok qs
      → (v ≡ ok tt) × ((rs : List RouteProfile) × (rest ≡ ok rs) × (qs ≡ p ∷ rs))
  add_checked-ok p (err e) rest qs h = absurd (cc h)
  add_checked-ok p (ok u) (err e) qs h = absurd (cc h)
  add_checked-ok p (ok u) (ok rs) qs h = (refl, (rs, refl, cc h))

  normalize_all-ok :
      (ps qs : List RouteProfile)
      → normalize_all repo ps ≡ ok qs
      → (qs ≡ map normalize ps) × All (λ p. validate (normalize p) ≡ ok tt) ps
  normalize_all-ok [] qs h = (cc h, tt)
  normalize_all-ok (p ∷ ps) qs h =
      let (valid, (rs, rest, same)) =
        add_checked-ok (normalize p) (validate (normalize p)) (normalize_all repo ps) qs h in
      let (tail, others) = normalize_all-ok ps rs rest in
      (same ∙ ap (◌∷◌ (normalize p)) tail, (valid, others))

  lookup-store_all_other :
      (k : Platform) (ps : List RouteProfile) (s : Service S)
      → All (λ p. p.platform ≢ k) ps
      → lookup k (store_all repo ps s).cache ≡ lookup k s.cache
  unfolding store_profile_cache
  lookup-store_all_other k [] s h = refl
  lookup-store_all_other k (p ∷ ps) s h =
      lookup-store_all_other k ps (store_profile_cache repo p s) h.1
      ∙ lookup-insert p.platform k (clone_profile (normalize p)) s.cache
      ∙ elim (Bool-cases (p.platform == k)) [
        | inl y ↦ absurd (h.0 ((bytes_eq_iff p.platform k).0 y))
        | inr n ↦ rw n refl
      ]

  lookup-store_all :
      (p : RouteProfile) (ps : List RouteProfile) (s : Service S)
      → Distinct (λ (q : RouteProfile). q.platform) ps
      → In p ps
      → lookup p.platform (store_all repo ps s).cache ≡ some (clone_profile (normalize p))
  lookup-store_all p [] s d i = absurd i
  lookup-store_all p (q ∷ ps) s d (inl e) = rw e (
      lookup-store_all_other q.platform ps (store_profile_cache repo q s) d.0
      ∙ lookup-store_profile_cache repo q s)
  lookup-store_all p (q ∷ ps) s d (inr i) =
      lookup-store_all p ps (store_profile_cache repo q s) d.1 i

  Others-normalize :
      (k : Platform) (ps : List RouteProfile)
      → All (λ q. q.platform ≢ k) ps
      → All (λ q. q.platform ≢ k) (map normalize ps)
  unfolding normalize
  Others-normalize k [] a = tt
  Others-normalize k (p ∷ ps) a = (a.0, Others-normalize k ps a.1)

  Distinct-normalize :
      (ps : List RouteProfile)
      → Distinct (λ (q : RouteProfile). q.platform) ps
      → Distinct (λ (q : RouteProfile). q.platform) (map normalize ps)
  unfolding normalize
  Distinct-normalize [] d = tt
  Distinct-normalize (p ∷ ps) d = (Others-normalize p.platform ps d.0, Distinct-normalize ps d.1)

  In-map-normalize :
      (p : RouteProfile) (ps : List RouteProfile) → In p ps → In (normalize p) (map normalize ps)
  In-map-normalize p [] i = absurd i
  In-map-normalize p (q ∷ ps) (inl e) = inl (ap normalize e)
  In-map-normalize p (q ∷ ps) (inr i) = inr (In-map-normalize p ps i)

  cache-notify :
      (prefs : AppPreferences) (s : Service S) → (notify_proxy_config repo prefs s).cache ≡ s.cache
  unfolding notify_proxy_config
  cache-notify prefs s = elim (Bool-cases s.has_sink) [ inl y ↦ simp y refl | inr n ↦ simp n refl ]

  -- The state after a `ReplaceAll` that succeeds.
  restored :
      (prefs : AppPreferences) (qs : List RouteProfile) (r : Result E (Unit {0})) (s t : Service S)
      → replaced repo prefs qs r s ≡ (ok tt, t)
      → t.cache ≡ (store_all repo qs s).cache
  restored prefs qs (err e) s t h =
      absurd (cc (ap (λ (x : Result (ServiceError E) (Unit {0}) × Service S). x.0) h))
  restored prefs qs (ok u) s t h =
      ap (λ (x : Result (ServiceError E) (Unit {0}) × Service S). x.1.cache) (sym h)
      ∙ cache-notify prefs (store_all repo qs s)

  -- A `ReplaceAll` that succeeds had only profiles with a valid normal form, and each of them, where
  -- no platform stands twice, is then read in its normal form without the store.
  pub get-replace_all :
      (prefs : AppPreferences) (ps : List RouteProfile) (s t : Service S)
      → Distinct (λ (q : RouteProfile). q.platform) ps
      → replace_all repo prefs ps s ≡ (ok tt, t)
      → All (λ p. validate (normalize p) ≡ ok tt) ps
        × ((p : RouteProfile) → In p ps → get_known repo p.platform t ≡ (ok (normalize p), t))
  unfolding replace_all get_known normalize
  get-replace_all prefs ps s t d h = go (normalize_all repo ps) refl h
    where
      go :
          (c : Result (ServiceError E) (List RouteProfile))
          → normalize_all repo ps ≡ c
          → replace_checked repo prefs c s ≡ (ok tt, t)
          → All (λ p. validate (normalize p) ≡ ok tt) ps
            × ((p : RouteProfile) → In p ps → get_known repo p.platform t ≡ (ok (normalize p), t))
      go (err e) a k =
          absurd (cc (ap (λ (x : Result (ServiceError E) (Unit {0}) × Service S). x.0) k))
      go (ok qs) a k =
          let (same, valid) = normalize_all-ok ps qs a in
          let cache = restored prefs qs (repo.replace_all prefs qs s.store).0 _ t k in
          (
            valid,
            λ p i.
                let at : lookup p.platform t.cache ≡ some (clone_profile (normalize p)) =
                  ap (lookup p.platform) cache
                  ∙ lookup-store_all (normalize p) qs _ (rw same (Distinct-normalize ps d))
                      (rw same (In-map-normalize p ps i))
                  ∙ ap (λ q. some (clone_profile q)) (normalize_idem p) in
                ap (λ o. get_cached repo o p.platform t) at
                ∙ ap (λ q. (ok q, t)) (clone-normalize p),
          )

  -- A `ReplaceAll` that fails leaves the cache and what the relay was told as they were, and if a
  -- profile is the reason then the store as well.
  pub failed_replace_all :
      (prefs : AppPreferences) (ps : List RouteProfile) (s t : Service S) (e : ServiceError E)
      → replace_all repo prefs ps s ≡ (err e, t)
      → (t.cache ≡ s.cache)
        × (t.told ≡ s.told)
        × (((x : E) → e ≢ ServiceError.store_failed x) → t ≡ s)
  unfolding replace_all
  failed_replace_all prefs ps s t e h = go (normalize_all repo ps) h
    where
      P : Type 0
      P =
          (t.cache ≡ s.cache)
          × (t.told ≡ s.told)
          × (((x : E) → e ≢ ServiceError.store_failed x) → t ≡ s)

      late :
          (qs : List RouteProfile) (r : Result E (Unit {0})) (store : S)
          → replaced repo prefs qs r (record s { store = store }) ≡ (err e, t)
          → P
      late qs (err x) store k =
          let same : t ≡ record s { store = store } =
            ap (λ (y : Result (ServiceError E) (Unit {0}) × Service S). y.1) (sym k) in
          (
            ap Service.cache same,
            ap Service.told same,
            λ f.
                absurd
                  (f x (cc (ap (λ (y : Result (ServiceError E) (Unit {0}) × Service S). y.0) k))),
          )
      late qs (ok u) store k =
          absurd (cc (ap (λ (y : Result (ServiceError E) (Unit {0}) × Service S). y.0) k))

      go :
          (c : Result (ServiceError E) (List RouteProfile))
          → replace_checked repo prefs c s ≡ (err e, t)
          → P
      go (err x) k =
          let same : t ≡ s =
            ap (λ (y : Result (ServiceError E) (Unit {0}) × Service S). y.1) (sym k) in
          (ap Service.cache same, ap Service.told same, λ f. same)
      go (ok qs) k =
          late qs (repo.replace_all prefs qs s.store).0 (repo.replace_all prefs qs s.store).1 k
