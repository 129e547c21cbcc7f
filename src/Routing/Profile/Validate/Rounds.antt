-- ===== src/Routing/Profile/Validate/Rounds.antt =====
-- The rounds of the validation loop pass exactly the fresh, well-formed providers.
use coding_switch.Base.{
  false, List, [], ◌∷◌, Option, Bytes, ◌==◌, bytes_is_eq, int_is_eq, ℤ, pos, ◌≡◌, refl, arith, In,
  All, not_positive, ok, bind_ok, beq_ne, beq_false, seen_before, not_seen, seen_before-false,
  Fresh,
}
use coding_switch.Routing.Provider.{Provider, validate_configuration}
use coding_switch.Routing.Profile.Validate.{
  Seen, normalized_name, has_errors, next_default, note, check_provider, check_providers,
  WellFormed,
}

record Passes (d : Option ℤ) (p : Provider) (seen : Seen) : Type 0 where
  well_formed : WellFormed p
  new_name : ¬ In (normalized_name p) seen.names
  new_id : ¬ In p.id seen.ids
  new_position : ¬ In p.position seen.positions

-- The seven tests of a round, all false.
abbrev Tests : Provider → Seen → Type 0
Tests p seen =
    ((p.id == pos 0) ≡ false)
    × ((normalized_name p == []) ≡ false)
    × (seen_before (normalized_name p) seen.names ≡ false)
    × (seen_before p.id seen.ids ≡ false)
    × (not_positive p.position ≡ false)
    × (seen_before p.position seen.positions ≡ false)
    × (has_errors (validate_configuration p) ≡ false)

check_provider-Tests :
    (d : Option ℤ) (p : Provider) (seen next : Seen)
    → check_provider d p seen ≡ ok next
    → Tests p seen × (next ≡ note d p seen)
unfolding check_provider
check_provider-Tests d p seen next h = ground arith

no_errors : (l : List (Bytes × Bytes)) → has_errors l ≡ false → l ≡ []
no_errors [] h = refl
no_errors (_ ∷ _) h = cc

check_provider-Passes :
    (d : Option ℤ) (p : Provider) (seen next : Seen)
    → check_provider d p seen ≡ ok next
    → Passes d p seen × (next ≡ note d p seen)
check_provider-Passes d p seen next h =
    let (t, e) = check_provider-Tests d p seen next h in
    (
      record {
        well_formed = record {
          has_id = beq_ne p.id (pos 0) t.0;
          has_name = beq_ne (normalized_name p) [] t.1;
          positive = t.4;
          configured = no_errors (validate_configuration p) t.6;
        };
        new_name = not_seen (normalized_name p) seen.names t.2;
        new_id = not_seen p.id seen.ids t.3;
        new_position = not_seen p.position seen.positions t.5;
      },
      e,
    )

Passes-check_provider :
    (d : Option ℤ) (p : Provider) (seen : Seen)
    → Passes d p seen
    → check_provider d p seen ≡ ok (note d p seen)
unfolding check_provider
Passes-check_provider d p seen h = rw (
  beq_false p.id (pos 0) h.well_formed.has_id,
  beq_false (normalized_name p) [] h.well_formed.has_name,
  seen_before-false (normalized_name p) seen.names h.new_name,
  seen_before-false p.id seen.ids h.new_id,
  h.well_formed.positive,
  seen_before-false p.position seen.positions h.new_position,
  h.well_formed.configured,
)

-- The default candidate after the loop.
abbrev pub last_default : Option ℤ → List Provider → Option Provider → Option Provider
last_default d [] candidate = candidate
last_default d (p ∷ ps) candidate = last_default d ps (next_default d p candidate)

pub record PassesAll (d : Option ℤ) (ps : List Provider) (seen : Seen) : Type 0 where
  pub well_formed : All WellFormed ps
  pub names : Fresh normalized_name seen.names ps
  pub ids : Fresh (λ (p : Provider). p.id) seen.ids ps
  pub positions : Fresh (λ (p : Provider). p.position) seen.positions ps

pub check_providers-PassesAll :
    (d : Option ℤ) (ps : List Provider) (seen last : Seen)
    → check_providers d ps seen ≡ ok last
    → PassesAll d ps seen × (last.default ≡ last_default d ps seen.default)
unfolding check_providers
check_providers-PassesAll d [] seen last h =
    (record { well_formed = tt; names = tt; ids = tt; positions = tt }, cc)
check_providers-PassesAll d (p ∷ ps) seen last h =
    let (next, first, rest) = bind_ok (check_provider d p seen) (check_providers d ps) h in
    let (t, e) = check_provider-Passes d p seen next first in
    let (a, l) = check_providers-PassesAll d ps (note d p seen) last (rw e at rest) in
    (
      record {
        well_formed = (t.well_formed, a.well_formed);
        names = (t.new_name, a.names);
        ids = (t.new_id, a.ids);
        positions = (t.new_position, a.positions);
      },
      l,
    )

pub PassesAll-check_providers :
    (d : Option ℤ) (ps : List Provider) (seen : Seen)
    → PassesAll d ps seen
    → (last : Seen) × (check_providers d ps seen ≡ ok last)
      × (last.default ≡ last_default d ps seen.default)
unfolding check_providers
PassesAll-check_providers d [] seen h = (seen, refl, refl)
PassesAll-check_providers d (p ∷ ps) seen h =
    let first = Passes-check_provider d p seen (record {
      well_formed = h.well_formed.0;
      new_name = h.names.0;
      new_id = h.ids.0;
      new_position = h.positions.0;
    }) in
    let (last, q, l) = PassesAll-check_providers d ps (note d p seen) (record {
      well_formed = h.well_formed.1;
      names = h.names.1;
      ids = h.ids.1;
      positions = h.positions.1;
    }) in
    (last, rw first q, l)
