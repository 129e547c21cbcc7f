-- ===== src/Tests/Claude.antt =====
-- The takeover of the Claude tool with a small JSON package, whose text is `{}` or one value
-- (internal/platformproxy/infrastructure/claude.go).
use coding_switch.Base.{
  true, false, not, ◌&&◌, [], ◌++◌, if◌then◌else◌, none, some, Bytes, ◌==◌, bytes_is_eq, codes,
}
use coding_switch.PlatformProxy.JsonEdit.{JsonLibrary, object}
use coding_switch.PlatformProxy.State.{Disk, Faults, no_faults}
use coding_switch.PlatformProxy.Claude.{empty_settings, env_container, enable_proxy, disable_proxy}
use coding_switch.PlatformProxy.Claude.Snapshots.{RawValid}
use coding_switch.PlatformProxy.Claude.Usable
use coding_switch.PlatformProxy.Claude.Usable.{UsableDisk, ClaudeReached-Usable}

abbrev small_json : JsonLibrary
small_json = record {
  valid = λ s. not (s == []);
  root = λ s. object (if s == empty_settings then 0 else 1);
  get = λ s path. record {
    exists = not (path == env_container) && (not (s == empty_settings) && not (s == []));
    raw = s;
    is_object = false;
    size = 0;
  };
  set_raw = λ s path raw. some raw;
  remove = λ s path. some empty_settings;
  Value = Bytes;
  decode = λ s. some s;
  deep_equal = λ a b. a == b;
}

abbrev quote : Bytes → Bytes
quote s = codes "\"" ++ (s ++ codes "\"")

abbrev relay : Bytes
relay = codes ":18100"

law : RawValid small_json quote (λ s. none) relay
law = (λ text v h. v, λ text v h. v)

abbrev old : Disk
old = record { settings = some (codes "\"key\""); state = none }

abbrev locked : Faults
locked = record no_faults { write_settings = true }

abbrev taken : Disk
taken = (enable_proxy small_json quote (λ s. none) relay locked old).0

reached :
    Usable.ClaudeReached small_json quote
      (λ s. none)
      relay
      law
      (disable_proxy small_json quote (λ s. none) relay no_faults taken).0
reached = Usable.disables no_faults (Usable.enables locked (Usable.starts (some (codes "\"key\""))))

ClaudeReached-Usable_example :
    UsableDisk small_json quote
      (λ s. none)
      relay
      law
      (disable_proxy small_json quote (λ s. none) relay no_faults taken).0
ClaudeReached-Usable_example = ClaudeReached-Usable small_json quote (λ s. none) relay law reached
