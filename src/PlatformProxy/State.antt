-- ===== src/PlatformProxy/State.antt =====
-- The state of a takeover (internal/platformproxy/infrastructure/proxy_state.go), and the files of one
-- tool (internal/platformproxy/infrastructure/configfile.go). A state file whose text is JSON is kept
-- as what that text decodes to, for kept lines that are valid UTF-8. What encoding/json makes of other
-- lines is in `Recoded`.
pub mod Outcomes
pub mod Recoded
pub mod Usable
use coding_switch.Base.{
  ℕ, Bool, true, false, not, ◌&&◌, List, [], ◌∷◌, Option, none, some, Bytes, ◌==◌, bytes_is_eq,
  nat_eq, Map, if◌then◌else◌, Result, ok, err,
}
use coding_switch.PlatformProxy.EnvEdit.{EnvError}
use coding_switch.PlatformProxy.JsonEdit.{JsonError}

-- `proxyFileSnapshot`
pub record Snapshot : Type 0 where
  pub existed : Bool
  pub fields : Map Bytes (List Bytes)
  pub containers : Map Bytes Bool

-- `proxyState`
pub record ProxyState : Type 0 where
  pub version : ℕ
  pub active : Bool
  pub files : Map Bytes Snapshot

pub data ProxyError : Type 0 where
  no_home : ProxyError
  no_state_path : ProxyError
  unreadable : ProxyError
  unwritable : ProxyError
  bad_json : ProxyError
  bad_version : ℕ → ProxyError
  no_files : ProxyError
  no_snapshot : ProxyError
  bad_snapshot : ProxyError
  in_env : EnvError → ProxyError
  in_json : JsonError → ProxyError

-- The text of a state file, where there is one.
pub data StateText : Type 0 where
  broken : StateText
  decoded : ProxyState → StateText

-- The tool's file and the state file.
pub record Disk : Type 0 where
  pub settings : Option Bytes
  pub state : Option StateText

-- The calls of the operating system that fail. A write that fails changes nothing, since
-- `atomicWriteFile` renames a finished file.
pub record Faults : Type 0 where
  pub home : Bool
  pub state_path : Bool
  pub read_settings : Bool
  pub write_settings : Bool
  pub remove_settings : Bool
  pub read_state : Bool
  pub write_state : Bool

abbrev pub no_faults : Faults
no_faults = record {
  home = false;
  state_path = false;
  read_settings = false;
  write_settings = false;
  remove_settings = false;
  read_state = false;
  write_state = false;
}

-- What an operation leaves behind, and its error.
abbrev pub Outcome : Type 0
Outcome = Disk × Option ProxyError

-- `if err != nil { return err }`
abbrev pub attempt : {A : Type 0} → Disk → Result ProxyError A → (A → Outcome) → Outcome
attempt disk (ok a) f = f a
attempt disk (err e) f = (disk, some e)

abbrev pub and_then : Outcome → (Disk → Outcome) → Outcome
and_then (disk, none) f = f disk
and_then (disk, some e) f = (disk, some e)

abbrev pub check : Bool → ProxyError → Result ProxyError Unit
check fails e = if fails then err e else ok tt

abbrev pub proxy_state_version : ℕ
proxy_state_version = 1

abbrev pub is_empty : Map Bytes Snapshot → Bool
is_empty [] = true
is_empty (file ∷ files) = false

abbrev pub load_decoded : ProxyState → Result ProxyError (Option ProxyState)
load_decoded state =
    if not (nat_eq state.version proxy_state_version)
    then err (bad_version state.version)
    else if state.active && is_empty state.files
    then err no_files
    else ok (some state)

abbrev pub load_text : Option StateText → Result ProxyError (Option ProxyState)
load_text none = ok none
load_text (some broken) = err bad_json
load_text (some (decoded state)) = load_decoded state

-- `load`: `none` where there is no state file.
unfoldable pub load : Faults → Disk → Result ProxyError (Option ProxyState)
load faults disk =
    if faults.state_path
    then err no_state_path
    else if faults.read_state
    then err unreadable
    else load_text disk.state

abbrev pub saved : ProxyState → ProxyState
saved state = record {
  version = proxy_state_version;
  active = state.active;
  files = if state.active then state.files else [];
}

-- `save`. The JSON text is kept as what it decodes to, see `Recoded`.
unfoldable pub save : Faults → ProxyState → Disk → Outcome
save faults state disk =
    if state.active && is_empty state.files
    then (disk, some no_files)
    else if faults.state_path
    then (disk, some no_state_path)
    else if faults.write_state
    then (disk, some unwritable)
    else (record disk { state = some (decoded (saved state)) }, none)

abbrev pub inactive : ProxyState
inactive = record { version = 0; active = false; files = [] }

abbrev pub read_existing : Bytes → Option Bytes → Bytes × Bool
read_existing missing none = (missing, false)
read_existing missing (some text) = (text, true)

-- `readConfigFile`
abbrev pub read_config_file : Faults → Bytes → Disk → Result ProxyError (Bytes × Bool)
read_config_file faults missing disk =
    if faults.read_settings then err unreadable else ok (read_existing missing disk.settings)

-- `writeConfigFileIfChanged`
unfoldable pub write_config_file_if_changed : Faults → Bytes → Bytes → Disk → Outcome
write_config_file_if_changed faults before after disk =
    if before == after
    then (disk, none)
    else if faults.write_settings
    then (disk, some unwritable)
    else (record disk { settings = some after }, none)

-- `removeConfigFile`
unfoldable pub remove_config_file : Faults → Disk → Outcome
remove_config_file faults disk =
    if faults.remove_settings
    then (disk, some unwritable)
    else (record disk { settings = none }, none)
