-- ===== src/PlatformProxy/JsonEdit.antt =====
-- Editing fields of a JSON file in place (internal/platformproxy/infrastructure/json_edit.go). The JSON
-- packages are parameters.
use coding_switch.Base.{
  ℕ, Bool, true, false, not, ◌&&◌, List, [], ◌∷◌, reverse, Option, none, some, Bytes, ◌==◌,
  bytes_is_eq, nat_eq, Map, lookup, insert, if◌then◌else◌, Result, ok, err, ◌>>=◌, ◌>>◌,
}

-- The root of a text that is JSON, as `json.Unmarshal` reads it into a map: an error, nil, or a number
-- of keys.
pub data Root : Type 0 where
  no_object : Root
  null : Root
  object : ℕ → Root

-- `gjson.Result`: whether it exists, its `Raw`, `IsObject`, and how many keys its `Map` has.
pub record Field : Type 0 where
  pub exists : Bool
  pub raw : Bytes
  pub is_object : Bool
  pub size : ℕ

-- The packages encoding/json, gjson and sjson. `none` is an error.
pub record JsonLibrary : Type 1 where
  pub valid : Bytes → Bool
  pub root : Bytes → Root
  pub get : Bytes → Bytes → Field
  pub set_raw : Bytes → Bytes → Bytes → Option Bytes
  pub remove : Bytes → Bytes → Option Bytes
  pub Value : Type 0
  pub decode : Bytes → Option Value
  pub deep_equal : Value → Value → Bool

pub data JsonError : Type 0 where
  damaged : JsonError
  not_object : JsonError
  bad_parent : Bytes → Bytes → JsonError
  bad_container : Bytes → JsonError
  many_values : Bytes → JsonError
  bad_value : Bytes → JsonError
  edit_failed : Bytes → JsonError

-- `jsonFieldEdit`
pub record JsonFieldEdit : Type 0 where
  pub path : Bytes
  pub raw : Bytes
  pub present : Bool

-- The texts in front of the dots of a path, the longest first.
abbrev pub fronts : Bytes → Bytes → List Bytes
fronts seen [] = []
fronts seen (c ∷ s) =
    let rest = fronts (c ∷ seen) s in if nat_eq c b'.' then reverse seen ∷ rest else rest

abbrev pub parents : Bytes → List Bytes
parents path = reverse (fronts [] path)

module _ (json : JsonLibrary) where
  abbrev pub check_root : Root → Result JsonError Unit
  check_root no_object = err not_object
  check_root null = err not_object
  check_root (object n) = ok tt

  -- `validateJSONObject`
  unfoldable pub validate_json_object : Bytes → Result JsonError Unit
  validate_json_object text =
      if not (json.valid text) then err damaged else check_root (json.root text)

  abbrev pub check_parents : Bytes → Bytes → List Bytes → Result JsonError Unit
  check_parents text path [] = ok tt
  check_parents text path (parent ∷ rest) =
      let field = json.get text parent in
      let more = check_parents text path rest in
      if field.exists && not field.is_object then err (bad_parent path parent) else more

  -- `validateJSONParents`
  unfoldable pub validate_json_parents : Bytes → Bytes → Result JsonError Unit
  validate_json_parents text path = check_parents text path (parents path)

  -- Go's nil is the empty list.
  abbrev pub raw_values : Field → List Bytes
  raw_values field = if field.exists then field.raw ∷ [] else []

  abbrev pub read_paths :
      Bytes → List Bytes → Map Bytes (List Bytes) → Result JsonError (Map Bytes (List Bytes))
  read_paths text [] values = ok values
  read_paths text (path ∷ paths) values =
      validate_json_parents text path
      >> read_paths text paths (insert path (raw_values (json.get text path)) values)

  -- `readJSONFieldValues`
  unfoldable pub read_json_field_values :
      Bytes → List Bytes → Result JsonError (Map Bytes (List Bytes))
  read_json_field_values text paths = validate_json_object text >> read_paths text paths []

  abbrev pub snapshot_edit : Bytes → List Bytes → Result JsonError JsonFieldEdit
  snapshot_edit path [] = ok (record { path = path; raw = []; present = false })
  snapshot_edit path (raw ∷ []) =
      if not (json.valid raw)
      then err (bad_value path)
      else ok (record { path = path; raw = raw; present = true })
  snapshot_edit path (raw ∷ (other ∷ rest)) = err (many_values path)

  abbrev pub values_at : Option (List Bytes) → List Bytes
  values_at none = []
  values_at (some values) = values

  -- `jsonSnapshotEdits`
  abbrev pub json_snapshot_edits :
      Map Bytes (List Bytes) → List Bytes → Result JsonError (List JsonFieldEdit)
  json_snapshot_edits fields [] = ok []
  json_snapshot_edits fields (path ∷ paths) =
      snapshot_edit path (values_at (lookup path fields)) >>= λ edit.
      json_snapshot_edits fields paths >>= λ edits. ok (edit ∷ edits)

  abbrev pub containers_at : Bytes → List Bytes → Map Bytes Bool → Result JsonError (Map Bytes Bool)
  containers_at text [] presence = ok presence
  containers_at text (path ∷ paths) presence =
      let field = json.get text path in
      let more = containers_at text paths (insert path field.exists presence) in
      if field.exists && not field.is_object then err (bad_container path) else more

  -- `jsonContainerPresence`
  unfoldable pub json_container_presence : Bytes → List Bytes → Result JsonError (Map Bytes Bool)
  json_container_presence text paths = validate_json_object text >> containers_at text paths []

  abbrev pub values_equal : Bytes → Bytes → Option json.Value → Option json.Value → Bool
  values_equal left right (some a) (some b) = json.deep_equal a b
  values_equal left right _ _ = left == right

  -- `jsonRawValuesEqual`
  abbrev pub json_raw_values_equal : Bytes → Bytes → Bool
  json_raw_values_equal left right = values_equal left right (json.decode left) (json.decode right)

  abbrev pub edited : Bytes → Option Bytes → Result JsonError Bytes
  edited path none = err (edit_failed path)
  edited path (some text) = ok text

  abbrev pub apply_edit : Bytes → JsonFieldEdit → Field → Result JsonError Bytes
  apply_edit text edit field =
      if not edit.present
      then (if field.exists then edited edit.path (json.remove text edit.path) else ok text)
      else if not (json.valid edit.raw)
      then err (bad_value edit.path)
      else if field.exists && json_raw_values_equal field.raw edit.raw
      then ok text
      else edited edit.path (json.set_raw text edit.path edit.raw)

  abbrev pub apply_edits : Bytes → List JsonFieldEdit → Result JsonError Bytes
  apply_edits text [] = ok text
  apply_edits text (edit ∷ edits) =
      validate_json_parents text edit.path
      >> (apply_edit text edit (json.get text edit.path) >>= λ next. apply_edits next edits)

  -- `applyJSONFieldEdits`
  unfoldable pub apply_json_field_edits : Bytes → List JsonFieldEdit → Result JsonError Bytes
  apply_json_field_edits text edits =
      validate_json_object text
      >> (apply_edits text edits >>= λ after. validate_json_object after >> ok after)

  abbrev pub prune_container : Bytes → Bytes → Field → Result JsonError Bytes
  prune_container text path field =
      if not field.exists
      then ok text
      else if not field.is_object
      then err (bad_container path)
      else if not (nat_eq field.size 0)
      then ok text
      else edited path (json.remove text path)

  abbrev pub prune_paths : Bytes → List Bytes → Result JsonError Bytes
  prune_paths text [] = ok text
  prune_paths text (path ∷ paths) =
      prune_container text path (json.get text path) >>= λ next. prune_paths next paths

  -- `pruneJSONContainers`
  unfoldable pub prune_json_containers : Bytes → List Bytes → Result JsonError Bytes
  prune_json_containers text paths =
      prune_paths text paths >>= λ after. validate_json_object after >> ok after

  abbrev pub root_is_empty : Root → Result JsonError Bool
  root_is_empty no_object = err not_object
  root_is_empty null = err not_object
  root_is_empty (object n) = ok (nat_eq n 0)

  -- `jsonRootIsEmpty`
  abbrev pub json_root_is_empty : Bytes → Result JsonError Bool
  json_root_is_empty text = root_is_empty (json.root text)
