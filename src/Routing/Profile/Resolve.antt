-- ===== src/Routing/Profile/Resolve.antt =====
-- What a resolved provider has been checked for, and when a request is refused.
use coding_switch.Base.{
  true, false, List, [], ◌∷◌, Option, none, some, Bytes, ◌==◌, bytes_is_eq, bytes_eq_iff, int_is_eq,
  int_eq_iff, ℤ, ◌≡◌, ◌≢◌, refl, sym, ap, ◌∙◌, ◌⊎◌, inl, inr, arith, In, Bool-cases,
}
use coding_switch.Routing.Provider.{Provider, is_model_supported}
use coding_switch.Routing.Profile.{
  RouteProfile, ResolveError, check_found, find_by_id, find_by_name, default_provider,
  find_provider_by_name, resolve_provider, provider, default_in, no_default, unknown_provider,
}

find_by_id_found :
    (id : ℤ) (ps : List Provider) (p : Provider) → find_by_id id ps ≡ some p → In p ps × (p.id ≡ id)
find_by_id_found id [] p h = cc
find_by_id_found id (q ∷ ps) p h = elim (Bool-cases (q.id == id)) [
  | inl y ↦
      let e : q ≡ p = ground arith in (inl (ground arith), rw (← e) ((int_eq_iff q.id id).0 y))
  | inr n ↦ let (i, e) = find_by_id_found id ps p (ground arith) in (inr i, e)
]

find_by_name_found :
    (name : Bytes) (ps : List Provider) (p : Provider)
    → find_by_name name ps ≡ some p
    → In p ps × (p.name ≡ name)
find_by_name_found name [] p h = cc
find_by_name_found name (q ∷ ps) p h = elim (Bool-cases (q.name == name)) [
  | inl y ↦
      let e : q ≡ p = ground arith in
      (inl (ground arith), rw (← e) ((bytes_eq_iff q.name name).0 y))
  | inr n ↦ let (i, e) = find_by_name_found name ps p (ground arith) in (inr i, e)
]

-- `p` may serve `model` for a request that asks for `name`.
pub record Serves (profile : RouteProfile) (name model : Bytes) (p : Provider) : Type 0 where
  pub configured : In p profile.providers
  pub active : p.archived ≡ false
  pub has_url : p.api_url ≢ []
  pub has_key : p.api_key ≢ []
  pub supports : (model ≡ []) ⊎ (is_model_supported p model ≡ true)
  pub by_name : name ≢ [] → p.name ≡ name
  pub by_default : name ≡ [] → profile.default_provider_id ≡ some p.id

check_provider_sound :
    (found : Option Provider) (e : ResolveError) (model : Bytes) (p : Provider)
    → check_found found e model ≡ provider p
    → (found ≡ some p)
      × (p.archived ≡ false)
      × (p.api_url ≢ [])
      × (p.api_key ≢ [])
      × ((model ≡ []) ⊎ (is_model_supported p model ≡ true))
check_provider_sound none e model p h = absurd (cc)
check_provider_sound (some q) e model p h =
    ground (arith, bytes_eq_iff q.api_url [], bytes_eq_iff q.api_key [], bytes_eq_iff model [])

default_found :
    (profile : RouteProfile) (p : Provider)
    → default_provider profile ≡ some p
    → In p profile.providers × (profile.default_provider_id ≡ some p.id)
unfolding default_provider
default_found profile p h = go profile.default_provider_id refl h
  where
    go :
        (d : Option ℤ)
        → profile.default_provider_id ≡ d
        → default_in d profile.providers ≡ some p
        → In p profile.providers × (profile.default_provider_id ≡ some p.id)
    go none e k = absurd (cc)
    go (some id) e k =
        let (i, q) = find_by_id_found id profile.providers p k in (i, e ∙ ap some (sym q))

named_found :
    (profile : RouteProfile) (name : Bytes) (p : Provider)
    → find_provider_by_name profile name ≡ some p
    → In p profile.providers × (p.name ≡ name)
unfolding find_provider_by_name
named_found profile name p h = find_by_name_found name profile.providers p h

module _ (profile : RouteProfile) (name model : Bytes) where
  resolve_default :
      (name == []) ≡ true
      → (p : Provider) → resolve_provider profile name model ≡ provider p
      → check_found (default_provider profile) no_default model ≡ provider p
  unfolding resolve_provider
  resolve_default empty p h = rw empty at h

  resolve_named :
      (name == []) ≡ false
      → (p : Provider) → resolve_provider profile name model ≡ provider p
      → check_found (find_provider_by_name profile name) (unknown_provider name) model ≡ provider p
  unfolding resolve_provider
  resolve_named named p h = rw named at h

-- A provider that is resolved is configured, active and complete, supports the model asked for, and
-- is the one that was named, or the default provider where none was named.
pub resolve_provider-Serves :
    (profile : RouteProfile) (name model : Bytes) (p : Provider)
    → resolve_provider profile name model ≡ provider p
    → Serves profile name model p
resolve_provider-Serves profile name model p h = elim (Bool-cases (name == [])) [
  | inl empty ↦
      let (found, active, url, key, model_fits) =
        check_provider_sound (default_provider profile) no_default model p
          (resolve_default profile name model empty p h) in
      let (i, d) = default_found profile p found in
      record {
        configured = i;
        active = active;
        has_url = url;
        has_key = key;
        supports = model_fits;
        by_name = λ ne. absurd (ne ((bytes_eq_iff name []).0 empty));
        by_default = λ _. d;
      }
  | inr named ↦
      let (found, active, url, key, model_fits) =
        check_provider_sound (find_provider_by_name profile name) (unknown_provider name) model p
          (resolve_named profile name model named p h) in
      let (i, d) = named_found profile name p found in
      record {
        configured = i;
        active = active;
        has_url = url;
        has_key = key;
        supports = model_fits;
        by_name = λ _. d;
        by_default = λ e. absurd (cc (named, (bytes_eq_iff name []).1 e));
      }
]
