-- ===== src/PlatformProxy/EnvEdit.antt =====
-- Reading, setting and restoring a variable of a dotenv file
-- (internal/platformproxy/infrastructure/env_edit.go). What `findEnvAssignments` finds is kept as one
-- place for each line, which stands for the line's index. Errors leave out the line's number.
pub mod Lines
pub mod Reparse
pub mod SetLine
pub mod Changed
pub mod Reading
pub mod Other
pub mod Both
pub mod Restore
use coding_switch.Base.{
  ℕ, suc, ◌+◌, Bool, true, false, not, ◌&&◌, ◌||◌, List, [], ◌∷◌, ◌++◌, Option, none, some, Bytes,
  ◌==◌, bytes_is_eq, codes, nat_eq, leb, length, has_suffix, contains_text, Map, lookup, insert,
  if◌then◌else◌, Result, ok, err, ◌>>=◌,
}
use coding_switch.PlatformProxy.EnvText.{
  chop, chopped, content_of, ending_of, push, split_env_lines, join, detect_env_newline,
  is_terminated, append_loop, append_env_lines, ensure_env_lines_terminated,
}
use coding_switch.PlatformProxy.EnvLine.{
  Head, before, parse_head, Value, value, unclosed, trailing, parse_value,
}

-- `envAssignment`: `front` is `line[:valueStart]` and `back` is `line[valueEnd:]`.
pub record Assignment : Type 0 where
  pub key : Bytes
  pub front : Bytes
  pub text : Bytes
  pub back : Bytes
  pub line : Bytes

pub data EnvError : Type 0 where
  unclosed_quote : Bytes → EnvError
  trailing_text : Bytes → EnvError
  invalid_snapshot : Bytes → EnvError

pub data Parsed : Type 0 where
  unmatched : Parsed
  malformed : Bytes → EnvError → Parsed
  assigned : Assignment → Parsed

module _ (unquote : Bytes → Option Bytes) where
  abbrev pub with_value : Bytes → Head → Value → Parsed
  with_value line h (value text rest) = assigned (record {
    key = h.key;
    front = before h;
    text = text;
    back = rest ++ ending_of line;
    line = line;
  })
  with_value line h unclosed = malformed h.key (unclosed_quote h.key)
  with_value line h trailing = malformed h.key (trailing_text h.key)

  abbrev pub with_head : Bytes → Option Head → Parsed
  with_head line none = unmatched
  with_head line (some h) = with_value line h (parse_value unquote h.rest)

  -- `parseEnvAssignment`
  unfoldable pub parse_env_assignment : Bytes → Parsed
  parse_env_assignment line = with_head line (parse_head (content_of line))

  abbrev pub wanted : Bytes → Parsed → Result EnvError (Option Assignment)
  wanted key unmatched = ok none
  wanted key (malformed k e) = if k == key then err e else ok none
  wanted key (assigned a) = if a.key == key then ok (some a) else ok none

  -- One round of `findEnvAssignments`.
  unfoldable pub classify : Bytes → Bytes → Result EnvError (Option Assignment)
  classify key line = wanted key (parse_env_assignment line)

  abbrev pub cons_found :
      Option Assignment
      → Result EnvError (List (Option Assignment))
      → Result EnvError (List (Option Assignment))
  cons_found a (ok found) = ok (a ∷ found)
  cons_found a (err e) = err e

  -- `findEnvAssignments`
  abbrev pub find_env_assignments : Bytes → List Bytes → Result EnvError (List (Option Assignment))
  find_env_assignments key [] = ok []
  find_env_assignments key (line ∷ lines) =
      classify key line >>= λ a. cons_found a (find_env_assignments key lines)

  -- The assignments without their places.
  abbrev pub assignments : List (Option Assignment) → List Assignment
  assignments [] = []
  assignments (none ∷ found) = assignments found
  assignments (some a ∷ found) = a ∷ assignments found

  abbrev pub lines_of : List Assignment → List Bytes
  lines_of [] = []
  lines_of (a ∷ more) = a.line ∷ lines_of more

  -- One round of `readEnvFieldValues`.
  unfoldable pub read_env_field : Bytes → Bytes → Result EnvError (List Bytes)
  read_env_field doc key =
      find_env_assignments key (split_env_lines doc) >>= λ found. ok (lines_of (assignments found))

  -- `m[key]`, where nil and no entry are an empty list.
  abbrev pub or_empty : Option (List Bytes) → List Bytes
  or_empty none = []
  or_empty (some lines) = lines

  abbrev pub add_lines : Bytes → List Bytes → Map Bytes (List Bytes) → Map Bytes (List Bytes)
  add_lines key [] values = values
  add_lines key (line ∷ lines) values =
      add_lines key lines (insert key (or_empty (lookup key values) ++ line ∷ []) values)

  abbrev pub read_fields :
      Bytes → List Bytes → Map Bytes (List Bytes) → Result EnvError (Map Bytes (List Bytes))
  read_fields doc [] values = ok values
  read_fields doc (key ∷ keys) values =
      read_env_field doc key >>= λ lines. read_fields doc keys (add_lines key lines values)

  -- `readEnvFieldValues`
  unfoldable pub read_env_field_values :
      Bytes → List Bytes → Result EnvError (Map Bytes (List Bytes))
  read_env_field_values doc keys = read_fields doc keys []

  abbrev pub last_text : List Assignment → Option Bytes
  last_text [] = none
  last_text (a ∷ []) = some a.text
  last_text (a ∷ (b ∷ more)) = last_text (b ∷ more)

  -- One round of `envEffectiveValues`: the last assignment counts.
  unfoldable pub env_effective_value : Bytes → Bytes → Result EnvError (Option Bytes)
  env_effective_value doc key =
      find_env_assignments key (split_env_lines doc) >>= λ found. ok (last_text (assignments found))

  abbrev pub add_value : Bytes → Option Bytes → Map Bytes Bytes → Map Bytes Bytes
  add_value key none values = values
  add_value key (some v) values = insert key v values

  abbrev pub effective_values :
      Bytes → List Bytes → Map Bytes Bytes → Result EnvError (Map Bytes Bytes)
  effective_values doc [] values = ok values
  effective_values doc (key ∷ keys) values =
      env_effective_value doc key >>= λ v. effective_values doc keys (add_value key v values)

  -- `envEffectiveValues`
  unfoldable pub env_effective_values : Bytes → List Bytes → Result EnvError (Map Bytes Bytes)
  env_effective_values doc keys = effective_values doc keys []

  abbrev pub set_line : Bytes → Option Assignment → Bytes → Bytes
  set_line v none line = line
  set_line v (some a) line = if a.text == v then line else a.front ++ (v ++ a.back)

  abbrev pub set_lines : Bytes → List (Option Assignment) → List Bytes → List Bytes
  set_lines v [] lines = lines
  set_lines v (a ∷ found) [] = []
  set_lines v (a ∷ found) (line ∷ lines) = set_line v a line ∷ set_lines v found lines

  abbrev pub set_assignments :
      Bytes → Bytes → Bytes → List (Option Assignment) → List Assignment → Bytes
  set_assignments doc key v found [] = append_env_lines doc ((key ++ b'=' ∷ v) ∷ [])
  set_assignments doc key v found (a ∷ more) = join (set_lines v found (split_env_lines doc))

  abbrev pub set_found : Bytes → Bytes → Bytes → List (Option Assignment) → Bytes
  set_found doc key v found = set_assignments doc key v found (assignments found)

  -- `setEnvField`
  unfoldable pub set_env_field : Bytes → Bytes → Bytes → Result EnvError Bytes
  set_env_field doc key v =
      find_env_assignments key (split_env_lines doc) >>= λ found. ok (set_found doc key v found)

  abbrev pub is_some : Option Assignment → Bool
  is_some none = false
  is_some (some a) = true

  -- A line of the snapshot is an assignment of the key.
  abbrev pub is_original : Bytes → Bytes → Bool
  is_original key line = elim (classify key line) [ ok a ↦ is_some a | err e ↦ false ]

  abbrev pub check_originals : Bytes → List Bytes → Bool
  check_originals key [] = true
  check_originals key (line ∷ lines) = is_original key line && check_originals key lines

  -- The found lines are replaced by the originals in their order.
  abbrev pub replace_lines : List (Option Assignment) → List Bytes → List Bytes → List Bytes
  replace_lines [] originals lines = lines
  replace_lines (a ∷ found) originals [] = []
  replace_lines (none ∷ found) originals (line ∷ lines) = line ∷ replace_lines found originals lines
  replace_lines (some a ∷ found) [] (line ∷ lines) = line ∷ replace_lines found [] lines
  replace_lines (some a ∷ found) (o ∷ originals) (line ∷ lines) =
      o ∷ replace_lines found originals lines

  -- The lines that were not found.
  abbrev pub other_lines : List (Option Assignment) → List Bytes → List Bytes
  other_lines [] lines = lines
  other_lines (a ∷ found) [] = []
  other_lines (none ∷ found) (line ∷ lines) = line ∷ other_lines found lines
  other_lines (some a ∷ found) (line ∷ lines) = other_lines found lines

  abbrev pub inserted : Bytes → List Bytes → List Bytes → List Bytes
  inserted doc originals [] = originals
  inserted doc originals (line ∷ lines) =
      ensure_env_lines_terminated originals (detect_env_newline doc)

  -- The first found line is replaced by all originals and the other found lines go.
  abbrev pub replace_first : Bytes → List (Option Assignment) → List Bytes → List Bytes → List Bytes
  replace_first doc [] originals lines = lines
  replace_first doc (a ∷ found) originals [] = []
  replace_first doc (none ∷ found) originals (line ∷ lines) =
      line ∷ replace_first doc found originals lines
  replace_first doc (some a ∷ found) originals (line ∷ lines) =
      let rest = other_lines found lines in inserted doc originals rest ++ rest

  abbrev pub restore_assignments :
      Bytes → List Bytes → List (Option Assignment) → List Assignment → Bytes
  restore_assignments doc originals found [] =
      if leb (length originals) 0 then doc else append_env_lines doc originals
  restore_assignments doc originals found (a ∷ more) =
      if nat_eq (length (a ∷ more)) (length originals)
      then join (replace_lines found originals (split_env_lines doc))
      else join (replace_first doc found originals (split_env_lines doc))

  abbrev pub restore_found : Bytes → List Bytes → List (Option Assignment) → Bytes
  restore_found doc originals found = restore_assignments doc originals found (assignments found)

  -- `restoreEnvField`
  unfoldable pub restore_env_field : Bytes → Bytes → List Bytes → Result EnvError Bytes
  restore_env_field doc key originals =
      if check_originals key originals
      then (find_env_assignments key (split_env_lines doc) >>= λ found.
          ok (restore_found doc originals found))
      else err (invalid_snapshot key)
