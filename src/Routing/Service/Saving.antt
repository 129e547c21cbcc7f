-- ===== src/Routing/Service/Saving.antt =====
-- What a save and a restore promise.
use coding_switch.Base.{
  Bool, true, false, List, [], ◌∷◌, Option, none, some, Bytes, ◌==◌, bytes_is_eq, bytes_eq_iff,
  int_is_eq, ℤ, Map, lookup, All, Bool-cases, ◌≡◌, refl, sym, ap, ◌∙◌, inl, inr, Result, ok, err,
}
use coding_switch.Routing.Provider.{Provider}
use coding_switch.Routing.Profile.{RouteProfile}
use coding_switch.Routing.Profile.Normalize.{normalize}
use coding_switch.Routing.Profile.Validate.{ValidateError, validate}
use coding_switch.Routing.Service.{
  Repository, Service, ServiceError, original_names, renamed, check_names, store_profile_cache,
  get_known, stored, save_checked, stable_names, save_valid, save_profile,
}
use coding_switch.Routing.Service.Cache.{get-store}

-- A provider whose id is among the old ones has its old name.
abbrev pub KeepsName : Map ℤ Bytes → Provider → Type 0
KeepsName m p = (old : Bytes) → lookup p.id m ≡ some old → old ≡ p.name

renamed-false :
    (o : Option Bytes) (name : Bytes)
    → renamed o name ≡ false
    → (old : Bytes) → o ≡ some old
    → old ≡ name
renamed-false none name h old e = absurd (cc e)
renamed-false (some a) name h old e = elim (Bool-cases (a == name)) [
  | inl y ↦
      sym (ap (λ (o : Option Bytes). elim o [ none ↦ [] | some x ↦ x ]) e)
      ∙ (bytes_eq_iff a name).0 y
  | inr n ↦ absurd (cc (rw n at h))
]

check_names-ok :
    {E : Type 0} (m : Map ℤ Bytes) (ps : List Provider)
    → check_names {E = E} m ps ≡ ok tt
    → All (KeepsName m) ps
check_names-ok m [] h = tt
check_names-ok {E = E} m (p ∷ ps) h = elim (Bool-cases (renamed (lookup p.id m) p.name)) [
  | inl y ↦ absurd (cc (rw y at h))
  | inr n ↦ (renamed-false (lookup p.id m) p.name n, check_names-ok {E = E} m ps (rw n at h))
]

module _ {S E : Type 0} (repo : Repository S E) where
  stored-ok :
      (r : Result E RouteProfile) (s t : Service S) (saved : RouteProfile)
      → stored repo r s ≡ (ok saved, t)
      → (u : Service S) × (t ≡ store_profile_cache repo saved u)
  stored-ok (err e) s t saved h =
      absurd (cc (ap (λ (x : Result (ServiceError E) RouteProfile × Service S). x.0) h))
  stored-ok (ok a) s t saved h =
      let same : a ≡ saved =
        cc (ap (λ (x : Result (ServiceError E) RouteProfile × Service S). x.0) h) in
      (
        s,
        sym (ap (λ (x : Result (ServiceError E) RouteProfile × Service S). x.1) h)
            ∙ ap (λ x. store_profile_cache repo x s) same,
      )

  save_checked-ok :
      (p : RouteProfile) (c : Result (ServiceError E) (Unit {0})) (s t : Service S)
      (saved : RouteProfile)
      → save_checked repo p c s ≡ (ok saved, t)
      → (c ≡ ok tt) × ((u : Service S) × (t ≡ store_profile_cache repo saved u))
  save_checked-ok p (err e) s t saved h =
      absurd (cc (ap (λ (x : Result (ServiceError E) RouteProfile × Service S). x.0) h))
  save_checked-ok p (ok u) s t saved h =
      (refl, stored-ok (repo.save_profile p s.store).0 _ t saved h)

  stable_names-ok :
      (r : Result (ServiceError E) RouteProfile) (p : RouteProfile)
      → stable_names repo r p ≡ ok tt
      → (current : RouteProfile) × (r ≡ ok current)
        × All (KeepsName (original_names current.providers [])) p.providers
  stable_names-ok (err e) p h = absurd (cc h)
  stable_names-ok (ok current) p h =
      (current, refl, check_names-ok {E = E} (original_names current.providers []) p.providers h)

  save_valid-ok :
      (p : RouteProfile) (enforce : Bool) (v : Result ValidateError (Unit {0})) (s t : Service S)
      (saved : RouteProfile)
      → save_valid repo p enforce v s ≡ (ok saved, t)
      → (v ≡ ok tt) × ((u : Service S) × (t ≡ store_profile_cache repo saved u))
  save_valid-ok p enforce (err e) s t saved h =
      absurd (cc (ap (λ (x : Result (ServiceError E) RouteProfile × Service S). x.0) h))
  save_valid-ok p false (ok u) s t saved h = (refl, (save_checked-ok p (ok tt) s t saved h).1)
  save_valid-ok p true (ok u) s t saved h = (
    refl,
    (save_checked-ok p (stable_names repo (get_known repo p.platform s).0 p)
        (get_known repo p.platform s).1 t saved h).1,
  )

  -- After a save that succeeds, the profile that the repository gave back is read from the cache in
  -- its normal form, and the store is left as it is.
  pub get-save :
      (p : RouteProfile) (enforce : Bool) (s t : Service S) (saved : RouteProfile)
      → save_profile repo p enforce s ≡ (ok saved, t)
      → get_known repo saved.platform t ≡ (ok (normalize saved), t)
  unfolding save_profile
  get-save p enforce s t saved h =
      let (last, e) =
        (save_valid-ok (normalize p) enforce (validate (normalize p)) s t saved h).1 in
      rw e (get-store repo saved last)

  keeps :
      (p : RouteProfile) (v : Result ValidateError (Unit {0})) (s t : Service S)
      (saved : RouteProfile)
      → save_valid repo p true v s ≡ (ok saved, t)
      → (current : RouteProfile) × ((get_known repo p.platform s).0 ≡ ok current)
        × All (KeepsName (original_names current.providers [])) p.providers
  keeps p (err e) s t saved h =
      absurd (cc (ap (λ (x : Result (ServiceError E) RouteProfile × Service S). x.0) h))
  keeps p (ok u) s t saved h =
      let current = (get_known repo p.platform s).0 in
      stable_names-ok current p
        (save_checked-ok p (stable_names repo current p) (get_known repo p.platform s).1 t saved
          h).0

  -- `SaveProfile` succeeds only with a profile whose normal form is valid, and in which each provider
  -- whose id the current profile has keeps the name that the current profile gives to the id.
  pub saved_names :
      (p : RouteProfile) (s t : Service S) (saved : RouteProfile)
      → save_profile repo p true s ≡ (ok saved, t)
      → (validate (normalize p) ≡ ok tt)
        × ((current : RouteProfile) × ((get_known repo (normalize p).platform s).0 ≡ ok current)
            × All (KeepsName (original_names current.providers [])) (normalize p).providers)
  unfolding save_profile
  saved_names p s t saved h = (
    (save_valid-ok (normalize p) true (validate (normalize p)) s t saved h).0,
    keeps (normalize p) (validate (normalize p)) s t saved h,
  )
