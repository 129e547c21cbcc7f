-- ===== src/Relay/CodexStream.antt =====
-- The outcome of a Codex response stream (internal/interfaces/http/relay/codex_stream.go).
pub mod Chunks
use coding_switch.Base.{
  ℕ, Bool, true, false, not, ◌&&◌, ◌||◌, List, [], ◌∷◌, ◌++◌, Bytes, ◌==◌, bytes_is_eq, codes,
  nat_eq, has_prefix, trim_prefix, trim_space, if◌then◌else◌,
}

pub data StreamStatus : Type 0 where
  pending completed failed : StreamStatus

pub record Outcome : Type 0 where
  pub status : StreamStatus
  pub event_type : Bytes

-- A byte in front of the first of the lines.
abbrev pub push : ℕ → List Bytes → List Bytes
push c [] = (c ∷ []) ∷ []
push c (line ∷ lines) = (c ∷ line) ∷ lines

-- `strings.Split(s, "\n")`
abbrev pub split_lines : Bytes → List Bytes
split_lines [] = [] ∷ []
split_lines (c ∷ s) = let rest = split_lines s in if nat_eq c 10 then [] ∷ rest else push c rest

abbrev pub is_pending : StreamStatus → Bool
is_pending pending = true
is_pending _ = false

-- `parse` reads a document, `get` is gjson's `Get`, `str` its `String`, and `is_null` whether a result
-- is of the type `Null`; `exists` is its `Exists`.
module _ {J : Type 0} (parse : Bytes → J) (get : J → Bytes → J) (str : J → Bytes)
    (exists is_null : J → Bool) where
  -- `missingOrNull`
  abbrev pub missing_or_null : J → Bool
  missing_or_null r = not (exists r) || is_null r

  abbrev pub is_complete : J → Bool
  is_complete response =
      (str (get response (codes "status")) == codes "completed")
      && (missing_or_null (get response (codes "error"))
          && missing_or_null (get response (codes "incomplete_details")))

  -- An event that ends the stream, or the outcome so far.
  abbrev pub observe_event : J → Bytes → Outcome → Outcome
  observe_event event type o =
      if type == codes "response.completed"
      then if is_complete (get event (codes "response"))
        then record { status = completed; event_type = type }
        else o
      else if (type == codes "response.failed") || (type == codes "response.incomplete")
      then record { status = failed; event_type = type }
      else o

  abbrev pub observe_data : Bytes → Outcome → Outcome
  observe_data payload o =
      if payload == []
      then o
      else observe_event (parse payload) (str (get (parse payload) (codes "type"))) o

  abbrev pub observe_line : Bytes → Outcome → Outcome
  observe_line line o =
      if not (has_prefix (codes "data:") line)
      then o
      else observe_data (trim_space (trim_prefix (codes "data:") line)) o

  -- The loop: an outcome that is no longer pending returns.
  abbrev pub observe_lines : List Bytes → Outcome → Outcome
  observe_lines [] o = o
  observe_lines (line ∷ lines) o =
      if is_pending o.status then observe_lines lines (observe_line (trim_space line) o) else o

  -- `Observe`
  unfoldable pub observe : Bytes → Outcome → Outcome
  observe payload o =
      if not (is_pending o.status) || payload == []
      then o
      else observe_lines (split_lines payload) o
