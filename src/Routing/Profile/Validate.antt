-- ===== src/Routing/Profile/Validate.antt =====
-- `RouteProfile.Validate` (internal/routing/domain/models.go), and what it is meant to accept.
pub mod Rounds
pub mod Exact
use coding_switch.Base.{
  Bool, true, false, not, ◌&&◌, ◌||◌, List, [], ◌∷◌, Option, none, some, Bytes, ◌==◌, bytes_is_eq,
  bytes_eq_iff, int_is_eq, int_eq_iff, ℤ, pos, ◌≡◌, ◌≢◌, refl, sym, ap, ◌∙◌, ◌⊎◌, inl, inr, ◌↔◌,
  arith, In, All, All-In, if◌then◌else◌, Bool-cases, trim_space, to_lower, not_positive, Result, ok,
  err, ◌>>=◌, ◌>>◌, bind_ok, beq_ne, beq_false, seen_before, seen_before-In, not_seen,
  seen_before-false, Distinct, Fresh, Fresh-iff, Distinct-unique,
}
use coding_switch.Routing.Provider.{Provider, validate_configuration}
use coding_switch.Routing.Profile.{RouteProfile}

pub data ValidateError : Type 0 where
  platform_required id_required name_required : ValidateError
  duplicate_name : Bytes → ValidateError
  duplicate_id : ℤ → ValidateError
  invalid_position : Bytes → ℤ → ValidateError
  duplicate_position : ℤ → ValidateError
  invalid_configuration : Bytes → List (Bytes × Bytes) → ValidateError
  default_not_found : ℤ → ValidateError
  default_archived : Bytes → ValidateError

-- `seenNames`, `seenIDs`, `seenPositions` and `defaultProvider`.
pub record Seen : Type 0 where
  pub names : List Bytes
  pub ids : List ℤ
  pub positions : List ℤ
  pub default : Option Provider

abbrev pub normalized_name : Provider → Bytes
normalized_name p = to_lower (trim_space p.name)

abbrev pub guard : Bool → ValidateError → Result ValidateError (Unit {0})
guard true e = err e
guard false e = ok tt

abbrev pub has_errors : List (Bytes × Bytes) → Bool
has_errors [] = false
has_errors (_ ∷ _) = true

abbrev pub next_default : Option ℤ → Provider → Option Provider → Option Provider
next_default none p candidate = candidate
next_default (some id) p candidate = if p.id == id then some p else candidate

abbrev pub note : Option ℤ → Provider → Seen → Seen
note d p seen = record {
  names = normalized_name p ∷ seen.names;
  ids = p.id ∷ seen.ids;
  positions = p.position ∷ seen.positions;
  default = next_default d p seen.default;
}

-- One round of the loop.
pub check_provider : Option ℤ → Provider → Seen → Result ValidateError Seen
check_provider d p seen = do
  guard (p.id == pos 0) id_required
  guard (normalized_name p == []) name_required
  guard (seen_before (normalized_name p) seen.names) (duplicate_name p.name)
  guard (seen_before p.id seen.ids) (duplicate_id p.id)
  guard (not_positive p.position) (invalid_position p.name p.position)
  guard (seen_before p.position seen.positions) (duplicate_position p.position)
  guard (has_errors (validate_configuration p))
      (invalid_configuration p.name (validate_configuration p))
  ok (note d p seen)

pub check_providers : Option ℤ → List Provider → Seen → Result ValidateError Seen
unfolding check_provider
check_providers d [] seen = ok seen
check_providers d (p ∷ ps) seen = do next ← check_provider d p seen; check_providers d ps next

abbrev pub check_default : Option ℤ → Option Provider → Result ValidateError (Unit {0})
check_default none found = ok tt
check_default (some id) none = err (default_not_found id)
check_default (some id) (some p) = guard p.archived (default_archived p.name)

abbrev pub start : Seen
start = record { names = []; ids = []; positions = []; default = none }

unfoldable pub validate : RouteProfile → Result ValidateError (Unit {0})
unfolding check_providers
validate profile = do
  guard (profile.platform == []) platform_required
  seen ← check_providers profile.default_provider_id profile.providers start
  check_default profile.default_provider_id seen.default

-- A provider that stands for itself.
pub record WellFormed (p : Provider) : Type 0 where
  pub has_id : p.id ≢ pos 0
  pub has_name : normalized_name p ≢ []
  pub positive : not_positive p.position ≡ false
  pub configured : validate_configuration p ≡ []

-- The default, if there is one, is a provider of the profile that is not archived.
abbrev pub ActiveDefault : Option ℤ → List Provider → Type 0
ActiveDefault none ps = Unit
ActiveDefault (some id) ps = (p : Provider) × In p ps × (p.id ≡ id) × (p.archived ≡ false)

pub record IsValid (profile : RouteProfile) : Type 0 where
  pub has_platform : profile.platform ≢ []
  pub well_formed : All WellFormed profile.providers
  pub names : Distinct normalized_name profile.providers
  pub ids : Distinct (λ (p : Provider). p.id) profile.providers
  pub positions : Distinct (λ (p : Provider). p.position) profile.providers
  pub default : ActiveDefault profile.default_provider_id profile.providers
