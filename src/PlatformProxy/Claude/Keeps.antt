-- ===== src/PlatformProxy/Claude/Keeps.antt =====
-- Writing the settings back leaves the state file alone.
use coding_switch.Base.{Bool, Option, Bytes, Map, ◌≡◌, refl}
use coding_switch.PlatformProxy.JsonEdit.{JsonLibrary}
use coding_switch.PlatformProxy.State.{Disk, Faults}
use coding_switch.PlatformProxy.State.Outcomes.{if-all, write-state, remove-state}
use coding_switch.PlatformProxy.Claude.{write_back}

module _ (json : JsonLibrary) (quote : Bytes → Bytes)
    (decode_env : Bytes → Option (Map Bytes Bytes)) (relay_addr : Bytes) where
  pub write_back-state :
      (faults : Faults) (file : Bytes × Bool) (updated : Bytes) (gone : Bool) (disk : Disk)
      → (write_back json quote decode_env relay_addr faults file updated gone disk).0.state
        ≡ disk.state
  write_back-state faults file updated gone disk =
      if-all (λ o. o.0.state ≡ disk.state) gone _ _
        (if-all (λ o. o.0.state ≡ disk.state) file.1 _ _ (remove-state faults disk) refl)
        (write-state faults file.0 updated disk)
