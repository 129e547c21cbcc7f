-- ===== src/PlatformProxy/Gemini.antt =====
-- Taking over the Gemini tool (internal/platformproxy/infrastructure/gemini.go): its `.env` file is
-- changed, and the lines that were there are kept in the state file.
pub mod Keeps
pub mod Usable
pub mod Cycle
use coding_switch.Base.{
  Bool, true, false, not, ◌&&◌, ◌||◌, List, [], ◌∷◌, ◌++◌, Option, none, some, Bytes, ◌==◌,
  bytes_is_eq, codes, Map, lookup, length, leb, if◌then◌else◌, Result, ok, err, ◌>>=◌,
}
use coding_switch.PlatformProxy.EnvEdit.{
  EnvError, or_empty, check_originals, set_env_field, restore_env_field, read_env_field_values,
  env_effective_values,
}
use coding_switch.PlatformProxy.Address.{
  normalize_relay_base_url, equal_fold, is_managed_placeholder_token,
}
use coding_switch.PlatformProxy.State.{
  Snapshot, ProxyState, ProxyError, no_home, unreadable, no_snapshot, bad_snapshot, in_env, Disk,
  Faults, Outcome, attempt, and_then, check, load, save, inactive, read_config_file,
  write_config_file_if_changed, remove_config_file,
}

abbrev pub gemini_api_key_value : Bytes
gemini_api_key_value = codes "portico"

abbrev pub api_key : Bytes
api_key = codes "GEMINI_API_KEY"

abbrev pub url_key : Bytes
url_key = codes "GOOGLE_GEMINI_BASE_URL"

abbrev pub gemini_proxy_field_keys : List Bytes
gemini_proxy_field_keys = api_key ∷ url_key ∷ []

abbrev pub env_file : Bytes
env_file = codes "env"

-- The error of a function on texts.
abbrev pub on_env : {A : Type 0} → Result EnvError A → Result ProxyError A
on_env (ok a) = ok a
on_env (err e) = err (in_env e)

-- `GeminiManager`: `relay_addr` is its field `relayAddr`.
module _ (unquote : Bytes → Option Bytes) (relay_addr : Bytes) where
  -- `baseURL`
  abbrev pub base_url : Bytes
  base_url = normalize_relay_base_url relay_addr ++ codes "/gemini"

  -- `settingsPath`
  abbrev pub settings_path : Faults → Result ProxyError Unit
  settings_path faults = check faults.home no_home

  abbrev pub valid_fields : Snapshot → List Bytes → Bool
  valid_fields snapshot [] = true
  valid_fields snapshot (key ∷ keys) =
      check_originals unquote key (or_empty unquote (lookup key snapshot.fields))
      && valid_fields snapshot keys

  abbrev pub valid_snapshot : Option Snapshot → Result ProxyError Snapshot
  valid_snapshot none = err no_snapshot
  valid_snapshot (some snapshot) =
      if valid_fields snapshot gemini_proxy_field_keys then ok snapshot else err bad_snapshot

  -- `geminiSnapshot`
  abbrev pub gemini_snapshot : ProxyState → Result ProxyError Snapshot
  gemini_snapshot state = valid_snapshot (lookup env_file state.files)

  -- `applyGeminiValues`
  unfoldable pub apply_gemini_values : Bytes → Result EnvError Bytes
  apply_gemini_values text = set_env_field unquote text api_key gemini_api_key_value >>= λ updated.
      set_env_field unquote updated url_key base_url

  -- The state of a takeover that begins now.
  abbrev pub new_state : Bool → Map Bytes (List Bytes) → ProxyState
  new_state existed fields = record {
    version = 0;
    active = true;
    files = (env_file, record { existed = existed; fields = fields; containers = [] }) ∷ [];
  }

  abbrev pub new_cycle : Bytes × Bool → Result ProxyError (Option ProxyState)
  new_cycle (text, existed) =
      on_env (read_env_field_values unquote text gemini_proxy_field_keys) >>= λ fields.
      ok (some (new_state existed fields))

  -- The state to save, if a takeover begins.
  abbrev pub next_state : Bytes × Bool → Option ProxyState → Result ProxyError (Option ProxyState)
  next_state file none = new_cycle file
  next_state file (some state) =
      if state.active then (gemini_snapshot state >>= λ snapshot. ok none) else new_cycle file

  abbrev pub save_new : Faults → Option ProxyState → Disk → Outcome
  save_new faults none disk = (disk, none)
  save_new faults (some state) disk = save faults state disk

  -- `EnableProxy`
  unfoldable pub enable_proxy : Faults → Disk → Outcome
  enable_proxy faults disk = attempt disk (settings_path faults) λ _.
      attempt disk (read_config_file faults [] disk) λ file.
        attempt disk (load faults disk) λ found. attempt disk (next_state file found) λ state.
          attempt disk (on_env (apply_gemini_values file.0)) λ updated.
            and_then (save_new faults state disk)
              (write_config_file_if_changed faults file.0 updated)

  abbrev pub restore_fields : Snapshot → List Bytes → Bytes → Result EnvError Bytes
  restore_fields snapshot [] text = ok text
  restore_fields snapshot (key ∷ keys) text =
      restore_env_field unquote text key (or_empty unquote (lookup key snapshot.fields))
      >>= restore_fields snapshot keys

  -- A file that was not there before and is empty again is removed.
  abbrev pub write_back : Faults → Snapshot → Bytes × Bool → Bytes → Disk → Outcome
  write_back faults snapshot file updated disk =
      if not snapshot.existed && updated == []
      then (if file.1 then remove_config_file faults disk else (disk, none))
      else write_config_file_if_changed faults file.0 updated disk

  abbrev pub give_back : Faults → ProxyState → Disk → Outcome
  give_back faults state disk = attempt disk (gemini_snapshot state) λ snapshot.
      attempt disk (settings_path faults) λ _.
        attempt disk (read_config_file faults [] disk) λ file.
          attempt disk (on_env (restore_fields snapshot gemini_proxy_field_keys file.0)) λ updated.
            and_then (write_back faults snapshot file updated disk) (save faults inactive)

  abbrev pub disable_loaded : Faults → Disk → Option ProxyState → Outcome
  disable_loaded faults disk none = save faults inactive disk
  disable_loaded faults disk (some state) =
      if not state.active then (disk, none) else give_back faults state disk

  -- `DisableProxy`
  unfoldable pub disable_proxy : Faults → Disk → Outcome
  disable_proxy faults disk = attempt disk (load faults disk) (disable_loaded faults disk)

  abbrev pub or_blank : Option Bytes → Bytes
  or_blank none = []
  or_blank (some v) = v

  abbrev pub values_status : Map Bytes Bytes → Bool
  values_status values =
      is_managed_placeholder_token (or_blank (lookup api_key values)) gemini_api_key_value
      && equal_fold (or_blank (lookup url_key values)) base_url

  abbrev pub text_status : Option Bytes → Result ProxyError Bool
  text_status none = ok false
  text_status (some text) =
      on_env (env_effective_values unquote text gemini_proxy_field_keys) >>= λ values.
      ok (values_status values)

  abbrev pub is_switched_off : Option ProxyState → Bool
  is_switched_off none = false
  is_switched_off (some state) = not state.active

  -- `ProxyStatus`: its `Enabled`, or an error. Its `BaseURL` is `base_url` in any case.
  unfoldable pub proxy_status : Faults → Disk → Result ProxyError Bool
  proxy_status faults disk = load faults disk >>= λ found.
      if is_switched_off found
      then ok false
      else (settings_path faults >>= λ _.
          if faults.read_settings then err unreadable else text_status disk.settings)
