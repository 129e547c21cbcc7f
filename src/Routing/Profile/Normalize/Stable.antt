-- ===== src/Routing/Profile/Normalize/Stable.antt =====
-- A normalised profile is a fixed point, with its providers in the order of their positions.
use native.Mathlib.Numerals.{add-one}
use coding_switch.Base.{
  ℕ, ◌+◌, Bool, true, false, List, [], ◌∷◌, Option, none, some, bytes_is_eq, pos, ◌≡◌, refl, ap,
  ◌∙◌, inl, inr, arith, if◌then◌else◌, Bool-cases, All, trim_space, trim_space_idem, not_positive,
  int_lt,
}
use coding_switch.Routing.Provider.{Provider, Time, RequestBodyReplacement}
use coding_switch.Routing.Profile.{RouteProfile}
use coding_switch.Routing.Profile.Normalize.{
  normalize_replacement_list, normalize_request_body_replacements, normalize_archived_at, or_empty,
  normalize_provider, normalize_from, insert_by_position, sort_by_position, renumber, normalize,
}

replacements_idem :
    (rs : List RequestBodyReplacement)
    → normalize_replacement_list (normalize_replacement_list rs) ≡ normalize_replacement_list rs
unfolding normalize_replacement_list
replacements_idem [] = refl
replacements_idem (r ∷ rs) = ground (
  arith,
  replacements_idem rs,
  trim_space_idem r.path,
  trim_space_idem r.value,
  trim_space_idem r.match_value,
)

-- What the first loop leaves alone at a positive position.
pub record IsClean (p : Provider) : Type 0 where
  pub name : trim_space p.name ≡ p.name
  pub archived_at : normalize_archived_at p.archived p.archived_at ≡ p.archived_at
  pub supported : some (or_empty p.supported_models) ≡ p.supported_models
  pub mapping : some (or_empty p.model_mapping) ≡ p.model_mapping
  pub replacements :
      some (normalize_request_body_replacements p.request_body_replacements)
      ≡ p.request_body_replacements

archived_at_idem :
    (b : Bool) (t : Option Time)
    → normalize_archived_at b (normalize_archived_at b t) ≡ normalize_archived_at b t
archived_at_idem false t = refl
archived_at_idem true none = refl
archived_at_idem true (some t) = refl

normalize_replacements_idem :
    (r : Option (List RequestBodyReplacement))
    → normalize_replacement_list (normalize_request_body_replacements r)
      ≡ normalize_request_body_replacements r
normalize_replacements_idem none = unfold normalize_replacement_list in refl
normalize_replacements_idem (some rs) = replacements_idem rs

normalize_provider-IsClean : (idx : ℕ) (p : Provider) → IsClean (normalize_provider idx p)
unfolding normalize_provider
normalize_provider-IsClean idx p = record {
  name = trim_space_idem p.name;
  archived_at = archived_at_idem p.archived p.archived_at;
  supported = refl;
  mapping = refl;
  replacements = ap some (normalize_replacements_idem p.request_body_replacements);
}

normalize_from-IsClean : (idx : ℕ) (ps : List Provider) → All IsClean (normalize_from idx ps)
unfolding normalize_from
normalize_from-IsClean idx [] = tt
normalize_from-IsClean idx (p ∷ ps) =
    (normalize_provider-IsClean idx p, normalize_from-IsClean (idx + 1) ps)

insert-All :
    (P : Provider → Type 0) (p : Provider) (ps : List Provider)
    → P p
    → All P ps
    → All P (insert_by_position p ps)
unfolding insert_by_position
insert-All P p [] h k = (h, tt)
insert-All P p (q ∷ qs) h k = elim (Bool-cases (int_lt q.position p.position)) [
  | inl y ↦ rw y (k.0, insert-All P p qs h k.1)
  | inr n ↦ rw n (h, k)
]

sort-All : (P : Provider → Type 0) (ps : List Provider) → All P ps → All P (sort_by_position ps)
unfolding sort_by_position
sort-All P [] h = tt
sort-All P (p ∷ ps) h = insert-All P p (sort_by_position ps) h.0 (sort-All P ps h.1)

clean_same :
    (idx at : ℕ) (p : Provider)
    → IsClean p
    → normalize_provider idx (record p { position = pos (at + 1) })
      ≡ record p { position = pos (at + 1) }
unfolding normalize_provider
clean_same idx at p c =
    let e : (if not_positive (pos (at + 1)) then pos (idx + 1) else pos (at + 1)) ≡ pos (at + 1) =
      rw add-one in
    λ i. record p {
      name = c.name i;
      position = e i;
      archived_at = c.archived_at i;
      supported_models = c.supported i;
      model_mapping = c.mapping i;
      request_body_replacements = c.replacements i;
    }

normalize_from-renumber :
    (idx at : ℕ) (ps : List Provider)
    → All IsClean ps
    → normalize_from idx (renumber at ps) ≡ renumber at ps
unfolding normalize_from renumber
normalize_from-renumber idx at [] h = refl
normalize_from-renumber idx at (p ∷ ps) h =
    rw (clean_same idx at p h.0, normalize_from-renumber (idx + 1) (at + 1) ps h.1)

sort-renumber : (at : ℕ) (ps : List Provider) → sort_by_position (renumber at ps) ≡ renumber at ps
unfolding sort_by_position renumber insert_by_position
sort-renumber at [] = refl
sort-renumber at (p ∷ []) = refl
sort-renumber at (p ∷ q ∷ ps) = rw (sort-renumber (at + 1) (q ∷ ps)) (ground arith)

renumber-renumber : (at : ℕ) (ps : List Provider) → renumber at (renumber at ps) ≡ renumber at ps
unfolding renumber
renumber-renumber at [] = refl
renumber-renumber at (p ∷ ps) = rw (renumber-renumber (at + 1) ps)

-- Normalising twice is normalising once.
pub normalize_idem : (profile : RouteProfile) → normalize (normalize profile) ≡ normalize profile
unfolding normalize
normalize_idem profile =
    let sorted = sort_by_position (normalize_from 0 profile.providers) in
    let clean =
      sort-All IsClean (normalize_from 0 profile.providers)
        (normalize_from-IsClean 0 profile.providers) in
    ap (λ ps. record profile { providers = renumber 0 (sort_by_position ps) })
      (normalize_from-renumber 0 0 sorted clean)
    ∙ ap (λ ps. record profile { providers = renumber 0 ps }) (sort-renumber 0 sorted)
    ∙ ap (λ ps. record profile { providers = ps }) (renumber-renumber 0 sorted)

renumber-IsClean : (at : ℕ) (ps : List Provider) → All IsClean ps → All IsClean (renumber at ps)
unfolding renumber
renumber-IsClean at [] c = tt
renumber-IsClean at (p ∷ ps) (h, c) = (
  record {
    name = h.name;
    archived_at = h.archived_at;
    supported = h.supported;
    mapping = h.mapping;
    replacements = h.replacements;
  },
  renumber-IsClean (at + 1) ps c,
)

pub normalize-IsClean : (profile : RouteProfile) → All IsClean (normalize profile).providers
unfolding normalize
normalize-IsClean profile =
    renumber-IsClean 0 (sort_by_position (normalize_from 0 profile.providers)) (
      sort-All IsClean (normalize_from 0 profile.providers)
        (normalize_from-IsClean 0 profile.providers))
