-- ===== src/Relay/Body.antt =====
-- Changing a request's body (internal/interfaces/http/relay/request_body_replacements.go, and
-- `ReplaceModelInRequestBody` of routing.go). The JSON packages are parameters.
use coding_switch.Base.{
  Bool, not, List, [], ◌∷◌, Option, none, some, Bytes, ◌==◌, bytes_is_eq, codes, trim_space,
  if◌then◌else◌, Result, ok, err, ◌>>=◌,
}
use coding_switch.Routing.Provider.{RequestBodyReplacement}

-- The packages encoding/json, gjson and sjson: `get` is the raw text of a field that exists, `text` is
-- its `String`, and `none` of a change is an error.
pub record BodyLibrary : Type 1 where
  pub valid : Bytes → Bool
  pub get : Bytes → Bytes → Option Bytes
  pub text : Bytes → Bytes → Bytes
  pub set_raw : Bytes → Bytes → Bytes → Option Bytes
  pub set : Bytes → Bytes → Bytes → Option Bytes
  pub Value : Type 0
  pub unmarshal : Bytes → Option Value
  pub deep_equal : Value → Value → Bool

pub data BodyError : Type 0 where
  bad_value : Bytes → BodyError
  bad_match : Bytes → BodyError
  set_failed : Bytes → BodyError
  no_model : BodyError

module _ (json : BodyLibrary) where
  abbrev pub literals_equal : Bytes → Bytes → Option json.Value → Option json.Value → Bool
  literals_equal raw literal (some a) (some b) = json.deep_equal a b
  literals_equal raw literal _ _ = raw == literal

  -- `jsonLiteralEqual`
  unfoldable pub json_literal_equal : Bytes → Bytes → Bool
  json_literal_equal raw literal =
      literals_equal raw literal (json.unmarshal raw) (json.unmarshal literal)

  abbrev pub changed_body : BodyError → Option Bytes → Result BodyError Bytes
  changed_body e none = err e
  changed_body e (some body) = ok body

  -- A match value that is empty matches everything.
  abbrev pub replace_field : Bytes → Bytes → Bytes → Bytes → Bytes → Result BodyError Bytes
  replace_field body path raw value match_value =
      let change = changed_body (set_failed path) (json.set_raw body path value) in
      if match_value == []
      then change
      else if not (json.valid match_value)
      then err (bad_match path)
      else if not (json_literal_equal raw match_value)
      then ok body
      else change

  abbrev pub replace_found :
      Bytes → RequestBodyReplacement → Bytes → Option Bytes → Result BodyError Bytes
  replace_found body r path none = ok body
  replace_found body r path (some raw) =
      if not (json.valid (trim_space r.value))
      then err (bad_value path)
      else replace_field body path raw (trim_space r.value) (trim_space r.match_value)

  abbrev pub replace_one : Bytes → RequestBodyReplacement → Result BodyError Bytes
  replace_one body r =
      let path = trim_space r.path in
      if path == [] then ok body else replace_found body r path (json.get body path)

  -- `applyRequestBodyReplacements`: with an error Go returns the body as it was, which the caller
  -- drops.
  abbrev pub apply_request_body_replacements :
      Bytes → List RequestBodyReplacement → Result BodyError Bytes
  apply_request_body_replacements body [] = ok body
  apply_request_body_replacements body (r ∷ replacements) =
      replace_one body r >>= λ next. apply_request_body_replacements next replacements

  abbrev pub model_field : Bytes
  model_field = codes "model"

  abbrev pub replace_found_model : Bytes → Bytes → Option Bytes → Result BodyError Bytes
  replace_found_model body model none = err no_model
  replace_found_model body model (some raw) =
      changed_body (set_failed model_field) (json.set body model_field model)

  -- `ReplaceModelInRequestBody`
  unfoldable pub replace_model_in_request_body : Bytes → Bytes → Result BodyError Bytes
  replace_model_in_request_body body model =
      replace_found_model body model (json.get body model_field)
