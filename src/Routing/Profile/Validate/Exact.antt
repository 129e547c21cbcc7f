-- ===== src/Routing/Profile/Validate/Exact.antt =====
-- `Validate` accepts exactly the valid profiles.
use coding_switch.Base.{
  true, List, [], ◌∷◌, Option, none, some, ◌==◌, bytes_is_eq, int_is_eq, int_eq_iff, ℤ, ◌≡◌, refl,
  sym, ◌∙◌, ◌⊎◌, inl, inr, ◌↔◌, arith, In, Bool-cases, ok, bind_ok, beq_ne, beq_false, Distinct,
  Fresh-iff, Distinct-unique,
}
use coding_switch.Routing.Provider.{Provider}
use coding_switch.Routing.Profile.{RouteProfile}
use coding_switch.Routing.Profile.Validate.{
  platform_required, Seen, normalized_name, guard, check_providers, check_default, start, validate,
  ActiveDefault, IsValid,
}
use coding_switch.Routing.Profile.Validate.Rounds.{
  last_default, check_providers-PassesAll, PassesAll-check_providers,
}

module _ (id : ℤ) where
  last_default_found :
      (ps : List Provider) (candidate : Option Provider) (q : Provider)
      → last_default (some id) ps candidate ≡ some q
      → (candidate ≡ some q) ⊎ (In q ps × (q.id ≡ id))
  last_default_found [] candidate q h = inl h
  last_default_found (p ∷ ps) candidate q h = elim (last_default_found ps _ q h) [
    | inr (i, e) ↦ inr (inr i, e)
    | inl e ↦ elim (Bool-cases (p.id == id)) [
      | inr n ↦ inl (rw n at e)
      | inl y ↦
          let same : p ≡ q = cc (rw y at e) in
          inr (inl (sym same), rw (← same) ((int_eq_iff p.id id).0 y))
    ]
  ]

  last_default_kept :
      (ps : List Provider) (c : Provider)
      → (q : Provider) × (last_default (some id) ps (some c) ≡ some q)
  last_default_kept [] c = (c, refl)
  last_default_kept (p ∷ ps) c = elim (Bool-cases (p.id == id)) [
    | inl y ↦ rw y (last_default_kept ps p)
    | inr n ↦ rw n (last_default_kept ps c)
  ]

  last_default-some :
      (ps : List Provider) (candidate : Option Provider) (p : Provider)
      → In p ps
      → p.id ≡ id
      → (q : Provider) × (last_default (some id) ps candidate ≡ some q)
  last_default-some [] candidate p i e = absurd i
  last_default-some (q ∷ ps) candidate p (inl s) e =
      let y : (q.id == id) ≡ true = (int_eq_iff q.id id).1 (rw (← s) e) in
      rw y (last_default_kept ps q)
  last_default-some (q ∷ ps) candidate p (inr i) e = last_default-some ps _ p i e

check_default_sound :
    (d : Option ℤ) (ps : List Provider)
    → check_default d (last_default d ps none) ≡ ok tt
    → ActiveDefault d ps
check_default_sound none ps h = tt
check_default_sound (some id) ps h = go (last_default (some id) ps none) refl h
  where
    go :
        (found : Option Provider)
        → last_default (some id) ps none ≡ found
        → check_default (some id) found ≡ ok tt
        → ActiveDefault (some id) ps
    go none e k = absurd (cc)
    go (some q) e k = elim (last_default_found id ps none q e) [
      | inl no_candidate ↦ absurd (cc)
      | inr (i, same) ↦ (q, i, same, ground arith)
    ]

check_default_complete :
    (d : Option ℤ) (ps : List Provider)
    → Distinct (λ (p : Provider). p.id) ps
    → ActiveDefault d ps
    → check_default d (last_default d ps none) ≡ ok tt
check_default_complete none ps u a = refl
check_default_complete (some id) ps u (p, i, e, active) =
    let (q, found) = last_default-some id ps none p i e in
    elim (last_default_found id ps none q found) [
      | inl no_candidate ↦ absurd (cc)
      | inr (j, same) ↦
          let one : q ≡ p = Distinct-unique (λ (r : Provider). r.id) ps q p u j i (same ∙ sym e) in
          rw (found, one, active)
    ]

-- `Validate` returns no error for exactly the valid profiles: those with a platform, in which every
-- provider is well formed, no normalised name, id or position stands twice, and the default id, if
-- any, is that of a provider that is not archived.
pub validate_iff : (profile : RouteProfile) → (validate profile ≡ ok tt) ↔ IsValid profile
unfolding validate
validate_iff profile = (sound, complete)
  where
    sound : validate profile ≡ ok tt → IsValid profile
    sound h =
        let (_, g, rest) = bind_ok (guard (profile.platform == []) platform_required) _ h in
        let (last, loop, check) =
          bind_ok (check_providers profile.default_provider_id profile.providers start)
            (λ (seen : Seen). check_default profile.default_provider_id seen.default) rest in
        let (all, l) =
          check_providers-PassesAll profile.default_provider_id profile.providers start last loop in
        record {
          has_platform = beq_ne profile.platform [] (ground arith);
          well_formed = all.well_formed;
          names = (Fresh-iff normalized_name profile.providers).0 all.names;
          ids = (Fresh-iff (λ (p : Provider). p.id) profile.providers).0 all.ids;
          positions = (Fresh-iff (λ (p : Provider). p.position) profile.providers).0 all.positions;
          default =
              check_default_sound profile.default_provider_id profile.providers (rw l at check);
        }

    complete : IsValid profile → validate profile ≡ ok tt
    complete v =
        let (last, loop, l) =
          PassesAll-check_providers profile.default_provider_id profile.providers start (record {
            well_formed = v.well_formed;
            names = (Fresh-iff normalized_name profile.providers).1 v.names;
            ids = (Fresh-iff (λ (p : Provider). p.id) profile.providers).1 v.ids;
            positions = (Fresh-iff (λ (p : Provider). p.position) profile.providers).1 v.positions;
          }) in
        rw (
          beq_false profile.platform [] v.has_platform,
          loop,
          l,
          check_default_complete profile.default_provider_id profile.providers v.ids v.default,
        )
