-- ===== src/Routing/Profile/Normalize.antt =====
-- `RouteProfile.Normalize` (internal/routing/domain/models.go). `slices.SortFunc` is an insertion
-- sort up to twelve elements; beyond them Go leaves the order of equal positions open.
pub mod Stable
use coding_switch.Base.{
  ℕ, ◌+◌, Bool, true, false, not, List, [], ◌∷◌, Option, none, some, Bytes, ◌==◌, bytes_is_eq, ℤ,
  pos, if◌then◌else◌, trim_space, not_positive, int_lt,
}
use coding_switch.Routing.Provider.{Provider, Time, RequestBodyReplacement}
use coding_switch.Routing.Profile.{RouteProfile}

abbrev pub trimmed : RequestBodyReplacement → RequestBodyReplacement
trimmed r = record {
  path = trim_space r.path;
  match_value = trim_space r.match_value;
  value = trim_space r.value;
}

-- The loop drops a replacement without a path or a value.
pub normalize_replacement_list : List RequestBodyReplacement → List RequestBodyReplacement
normalize_replacement_list [] = []
normalize_replacement_list (r ∷ rs) =
    let rest = normalize_replacement_list rs in
    if trim_space r.path == []
    then rest
    else if trim_space r.value == []
    then rest
    else trimmed r ∷ rest

abbrev pub normalize_request_body_replacements :
    Option (List RequestBodyReplacement) → List RequestBodyReplacement
normalize_request_body_replacements none = []
normalize_request_body_replacements (some input) = normalize_replacement_list input

abbrev pub normalize_archived_at : Bool → Option Time → Option Time
normalize_archived_at false at = none
normalize_archived_at true none = none
normalize_archived_at true (some t) = some (record t { is_utc = true })

abbrev pub or_empty {ℓ} : {A : Type ℓ} → Option (List A) → List A
or_empty none = []
or_empty (some m) = m

-- The first loop, on the provider at `idx`.
pub normalize_provider : ℕ → Provider → Provider
normalize_provider idx p = record p {
  name = trim_space p.name;
  position = if not_positive p.position then pos (idx + 1) else p.position;
  archived_at = normalize_archived_at p.archived p.archived_at;
  supported_models = some (or_empty p.supported_models);
  model_mapping = some (or_empty p.model_mapping);
  request_body_replacements =
      some (normalize_request_body_replacements p.request_body_replacements);
}

pub normalize_from : ℕ → List Provider → List Provider
normalize_from idx [] = []
normalize_from idx (p ∷ ps) = normalize_provider idx p ∷ normalize_from (idx + 1) ps

pub insert_by_position : Provider → List Provider → List Provider
insert_by_position p [] = p ∷ []
insert_by_position p (q ∷ qs) =
    if int_lt q.position p.position then q ∷ insert_by_position p qs else p ∷ q ∷ qs

pub sort_by_position : List Provider → List Provider
sort_by_position [] = []
sort_by_position (p ∷ ps) = insert_by_position p (sort_by_position ps)

-- The last loop numbers the positions from 1.
pub renumber : ℕ → List Provider → List Provider
renumber idx [] = []
renumber idx (p ∷ ps) = record p { position = pos (idx + 1) } ∷ renumber (idx + 1) ps

unfoldable pub normalize : RouteProfile → RouteProfile
unfolding normalize_replacement_list normalize_provider normalize_from insert_by_position
    sort_by_position renumber
normalize profile = record profile {
  providers = renumber 0 (sort_by_position (normalize_from 0 profile.providers));
}
