-- ===== src/PlatformProxy/State/Recoded.antt =====
-- A state through its JSON text (internal/platformproxy/infrastructure/proxy_state.go): `save` encodes
-- the kept lines with encoding/json and `load` decodes them.
use coding_switch.Base.{
  Bool, true, List, [], ◌∷◌, map, Option, none, some, Bytes, ◌==◌, bytes_is_eq, Map, lookup, insert,
  All, All-append, Bool-cases, ◌≡◌, refl, inl, inr,
}
use coding_switch.PlatformProxy.EnvEdit.{or_empty, add_lines}
use coding_switch.PlatformProxy.State.{Snapshot, StateText, broken, decoded}

-- `coerce` is what encoding/json leaves of a string that it encodes and decodes again, and `valid` is
-- `utf8.ValidString`.
module _ (valid : Bytes → Bool) (coerce : Bytes → Bytes) where
  abbrev pub recoded_fields : Map Bytes (List Bytes) → Map Bytes (List Bytes)
  recoded_fields [] = []
  recoded_fields ((key, lines) ∷ fields) = (key, map coerce lines) ∷ recoded_fields fields

  abbrev pub recoded_files : Map Bytes Snapshot → Map Bytes Snapshot
  recoded_files [] = []
  recoded_files ((name, snapshot) ∷ files) =
      (name, record snapshot { fields = recoded_fields snapshot.fields }) ∷ recoded_files files

  -- A state file with its lines as encoding/json gives them back.
  abbrev pub recoded : Option StateText → Option StateText
  recoded none = none
  recoded (some broken) = some broken
  recoded (some (decoded state)) =
      some (decoded (record state { files = recoded_files state.files }))

  -- encoding/json: "String values encode as JSON strings coerced to valid UTF-8", so a string that is
  -- valid UTF-8 comes back as it was.
  abbrev pub KeepsValid : Type 0
  KeepsValid = (s : Bytes) → valid s ≡ true → coerce s ≡ s

  abbrev pub AreValid : List Bytes → Type 0
  AreValid = All (λ s. valid s ≡ true)

  abbrev pub FieldsValid : Map Bytes (List Bytes) → Type 0
  FieldsValid = All (λ (e : Bytes × List Bytes). AreValid e.1)

  or_empty-AreValid :
      (unquote : Bytes → Option Bytes) (key : Bytes) (fields : Map Bytes (List Bytes))
      → FieldsValid fields
      → AreValid (or_empty unquote (lookup key fields))
  or_empty-AreValid unquote key [] v = tt
  or_empty-AreValid unquote key ((k, lines) ∷ fields) (v, vs) = elim (Bool-cases (k == key)) [
    | inl y ↦ rw y v
    | inr n ↦ rw n (or_empty-AreValid unquote key fields vs)
  ]

  insert-FieldsValid :
      (key : Bytes) (lines : List Bytes) (fields : Map Bytes (List Bytes))
      → AreValid lines
      → FieldsValid fields
      → FieldsValid (insert key lines fields)
  insert-FieldsValid key lines [] h v = (h, tt)
  insert-FieldsValid key lines ((k, old) ∷ fields) h (v, vs) = elim (Bool-cases (k == key)) [
    | inl y ↦ rw y (h, vs)
    | inr n ↦ rw n (v, insert-FieldsValid key lines fields h vs)
  ]

  pub add_lines-FieldsValid :
      (unquote : Bytes → Option Bytes) (key : Bytes) (lines : List Bytes)
      (fields : Map Bytes (List Bytes))
      → AreValid lines
      → FieldsValid fields
      → FieldsValid (add_lines unquote key lines fields)
  add_lines-FieldsValid unquote key [] fields h v = v
  add_lines-FieldsValid unquote key (line ∷ lines) fields (h, hs) v =
      add_lines-FieldsValid unquote key lines _ hs (
        insert-FieldsValid key _ fields
          (All-append (λ s. valid s ≡ true) (or_empty unquote (lookup key fields)) (line ∷ [])
            (or_empty-AreValid unquote key fields v) (h, tt))
          v)

  map-coerce : (lines : List Bytes) → KeepsValid → AreValid lines → map coerce lines ≡ lines
  map-coerce [] law v = refl
  map-coerce (line ∷ lines) law (v, vs) = rw (law line v, map-coerce lines law vs) refl

  pub recoded-fields :
      (fields : Map Bytes (List Bytes))
      → KeepsValid
      → FieldsValid fields
      → recoded_fields fields ≡ fields
  recoded-fields [] law v = refl
  recoded-fields ((key, lines) ∷ fields) law (v, vs) =
      rw (map-coerce lines law v, recoded-fields fields law vs) refl
