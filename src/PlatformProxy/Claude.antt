-- ===== src/PlatformProxy/Claude.antt =====
-- Taking over the Claude tool (internal/platformproxy/infrastructure/claude.go): fields of its JSON
-- settings are changed, and their values are kept in the state file.
pub mod Keeps
pub mod Snapshots
pub mod Usable
use coding_switch.Base.{
  Bool, true, false, not, ◌&&◌, List, [], ◌∷◌, ◌++◌, Option, none, some, Bytes, ◌==◌, bytes_is_eq,
  codes, Map, lookup, if◌then◌else◌, Result, ok, err, ◌>>=◌, ◌>>◌,
}
use coding_switch.PlatformProxy.JsonEdit.{
  JsonLibrary, JsonError, JsonFieldEdit, read_json_field_values, json_snapshot_edits,
  json_container_presence, apply_json_field_edits, prune_json_containers, json_root_is_empty,
}
use coding_switch.PlatformProxy.Address.{
  normalize_relay_base_url, equal_fold, is_managed_placeholder_token,
}
use coding_switch.PlatformProxy.State.{
  Snapshot, ProxyState, ProxyError, no_home, unreadable, no_snapshot, in_json, Disk, Faults,
  Outcome, attempt, and_then, check, load, save, inactive, read_config_file,
  write_config_file_if_changed, remove_config_file,
}

abbrev pub claude_auth_token_value : Bytes
claude_auth_token_value = codes "portico"

abbrev pub token_path : Bytes
token_path = codes "env.ANTHROPIC_AUTH_TOKEN"

abbrev pub url_path : Bytes
url_path = codes "env.ANTHROPIC_BASE_URL"

abbrev pub claude_proxy_field_paths : List Bytes
claude_proxy_field_paths = token_path ∷ url_path ∷ []

abbrev pub settings_file : Bytes
settings_file = codes "settings"

abbrev pub env_container : Bytes
env_container = codes "env"

abbrev pub empty_settings : Bytes
empty_settings = codes "{}\n"

-- The error of a function on JSON texts.
abbrev pub on_json : {A : Type 0} → Result JsonError A → Result ProxyError A
on_json (ok a) = ok a
on_json (err e) = err (in_json e)

-- `ClaudeManager`. `quote` is `strconv.Quote`, and `decode_env` is `json.Unmarshal` into
-- `claudeSettingsFile`, of which `Env` is kept.
module _ (json : JsonLibrary) (quote : Bytes → Bytes)
    (decode_env : Bytes → Option (Map Bytes Bytes)) (relay_addr : Bytes) where
  -- `claudeDesiredEdits`
  abbrev pub claude_desired_edits : List JsonFieldEdit
  claude_desired_edits =
      record { path = token_path; raw = quote claude_auth_token_value; present = true }
      ∷ record {
        path = url_path;
        raw = quote (normalize_relay_base_url relay_addr);
        present = true;
      }
      ∷ []

  abbrev pub checked_snapshot : Option Snapshot → Result ProxyError Snapshot
  checked_snapshot none = err no_snapshot
  checked_snapshot (some snapshot) =
      on_json (json_snapshot_edits json snapshot.fields claude_proxy_field_paths) >>= λ edits.
      ok snapshot

  -- `claudeSnapshot`
  abbrev pub claude_snapshot : ProxyState → Result ProxyError Snapshot
  claude_snapshot state = checked_snapshot (lookup settings_file state.files)

  abbrev pub new_state : Bool → Map Bytes (List Bytes) → Map Bytes Bool → ProxyState
  new_state existed fields containers = record {
    version = 0;
    active = true;
    files =
        (settings_file, record { existed = existed; fields = fields; containers = containers })
        ∷ [];
  }

  abbrev pub new_cycle : Bytes × Bool → Result ProxyError (Option ProxyState)
  new_cycle (text, existed) =
      on_json (read_json_field_values json text claude_proxy_field_paths) >>= λ fields.
      on_json (json_container_presence json text (env_container ∷ [])) >>= λ containers.
      ok (some (new_state existed fields containers))

  -- The state to save, if a takeover begins.
  abbrev pub next_state : Bytes × Bool → Option ProxyState → Result ProxyError (Option ProxyState)
  next_state file none = new_cycle file
  next_state file (some state) =
      if state.active then (claude_snapshot state >>= λ snapshot. ok none) else new_cycle file

  abbrev pub save_new : Faults → Option ProxyState → Disk → Outcome
  save_new faults none disk = (disk, none)
  save_new faults (some state) disk = save faults state disk

  -- `EnableProxy`
  unfoldable pub enable_proxy : Faults → Disk → Outcome
  enable_proxy faults disk = attempt disk (check faults.home no_home) λ _.
      attempt disk (read_config_file faults empty_settings disk) λ file.
        attempt disk (load faults disk) λ found. attempt disk (next_state file found) λ state.
          attempt disk (on_json (apply_json_field_edits json file.0 claude_desired_edits))
            λ updated.
              and_then (save_new faults state disk)
                (write_config_file_if_changed faults file.0 updated)

  abbrev pub has_container : Option Bool → Bool
  has_container none = false
  has_container (some b) = b

  -- The container goes again if it was not there before and is empty.
  abbrev pub pruned : Snapshot → Bytes → Result ProxyError Bytes
  pruned snapshot text =
      if not (has_container (lookup env_container snapshot.containers))
      then on_json (prune_json_containers json text (env_container ∷ []))
      else ok text

  -- Whether the file goes again.
  abbrev pub is_gone : Snapshot → Bytes → Result ProxyError Bool
  is_gone snapshot text =
      if not snapshot.existed then on_json (json_root_is_empty json text) else ok false

  abbrev pub write_back : Faults → Bytes × Bool → Bytes → Bool → Disk → Outcome
  write_back faults file updated gone disk =
      if gone
      then (if file.1 then remove_config_file faults disk else (disk, none))
      else write_config_file_if_changed faults file.0 updated disk

  abbrev pub give_back : Faults → ProxyState → Disk → Outcome
  give_back faults state disk = attempt disk (claude_snapshot state) λ snapshot.
      attempt disk (check faults.home no_home) λ _.
        attempt disk (read_config_file faults empty_settings disk) λ file.
          attempt disk (on_json (json_snapshot_edits json snapshot.fields claude_proxy_field_paths))
            λ edits. attempt disk (on_json (apply_json_field_edits json file.0 edits)) λ restored.
              attempt disk (pruned snapshot restored) λ updated.
                attempt disk (is_gone snapshot updated)
                  λ gone. and_then (write_back faults file updated gone disk) (save faults inactive)

  abbrev pub disable_loaded : Faults → Disk → Option ProxyState → Outcome
  disable_loaded faults disk none = save faults inactive disk
  disable_loaded faults disk (some state) =
      if not state.active then (disk, none) else give_back faults state disk

  -- `DisableProxy`
  unfoldable pub disable_proxy : Faults → Disk → Outcome
  disable_proxy faults disk = attempt disk (load faults disk) (disable_loaded faults disk)

  abbrev pub or_blank : Option Bytes → Bytes
  or_blank none = []
  or_blank (some v) = v

  abbrev pub env_status : Option (Map Bytes Bytes) → Bool
  env_status none = false
  env_status (some env) =
      is_managed_placeholder_token (or_blank (lookup (codes "ANTHROPIC_AUTH_TOKEN") env))
        claude_auth_token_value
      && equal_fold (or_blank (lookup (codes "ANTHROPIC_BASE_URL") env))
          (normalize_relay_base_url relay_addr)

  abbrev pub text_status : Option Bytes → Bool
  text_status none = false
  text_status (some text) = env_status (decode_env text)

  abbrev pub is_switched_off : Option ProxyState → Bool
  is_switched_off none = false
  is_switched_off (some state) = not state.active

  -- `ProxyStatus`: its `Enabled`, or an error.
  unfoldable pub proxy_status : Faults → Disk → Result ProxyError Bool
  proxy_status faults disk = load faults disk >>= λ found.
      if is_switched_off found
      then ok false
      else (check faults.home no_home >>= λ _.
          if faults.read_settings then err unreadable else ok (text_status disk.settings))
