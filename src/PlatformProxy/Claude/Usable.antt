-- ===== src/PlatformProxy/Claude/Usable.antt =====
-- The state file of the Claude tool can be used at any time.
use coding_switch.Base.{
  Bool, not, Option, none, some, Bytes, Map, Bool-cases, ok, bind_ok, ◌≡◌, refl, inl, inr,
}
use coding_switch.PlatformProxy.JsonEdit.{JsonLibrary, json_snapshot_edits, apply_json_field_edits}
use coding_switch.PlatformProxy.State.{
  ProxyState, no_home, Disk, Faults, Outcome, check, load, saved, inactive, read_config_file,
  write_config_file_if_changed,
}
use coding_switch.PlatformProxy.State.Usable.{
  UsableBy, UsableDiskBy, save-UsableBy, same-UsableBy, off-UsableBy,
}
use coding_switch.PlatformProxy.State.Outcomes.{attempt-all, and_then-all, if-all, write-state}
use coding_switch.PlatformProxy.Claude.{
  claude_proxy_field_paths, empty_settings, on_json, claude_desired_edits, claude_snapshot,
  new_cycle, next_state, save_new, enable_proxy, pruned, is_gone, write_back, give_back,
  disable_loaded, disable_proxy,
}
use coding_switch.PlatformProxy.Claude.Keeps.{write_back-state}
use coding_switch.PlatformProxy.Claude.Snapshots.{RawValid, new_cycle-snapshot}

module _ (json : JsonLibrary) (quote : Bytes → Bytes)
    (decode_env : Bytes → Option (Map Bytes Bytes)) (relay_addr : Bytes)
    (law : RawValid json quote decode_env relay_addr) where
  abbrev Usable : ProxyState → Type 0
  Usable = UsableBy (claude_snapshot json quote decode_env relay_addr)

  abbrev pub UsableDisk : Disk → Type 0
  UsableDisk = UsableDiskBy (claude_snapshot json quote decode_env relay_addr)

  new-Usable :
      (file : Bytes × Bool) (state : ProxyState)
      → new_cycle json quote decode_env relay_addr file ≡ ok (some state)
      → Usable (saved state)
  new-Usable (text, existed) state h = record {
    version = refl;
    snapshot = inr (new_cycle-snapshot json quote decode_env relay_addr text existed state law h);
  }

  next-Usable :
      (file : Bytes × Bool) (found : Option ProxyState) (state : ProxyState)
      → next_state json quote decode_env relay_addr file found ≡ ok (some state)
      → Usable (saved state)
  next-Usable file none state h = new-Usable file state h
  next-Usable file (some old) state h = elim (Bool-cases old.active) [
    | inl y ↦
        let (x, p, e) =
          bind_ok (claude_snapshot json quote decode_env relay_addr old) _ (rw y at h) in
        absurd (cc e)
    | inr n ↦ new-Usable file state (rw n at h)
  ]

  save_new-Usable :
      (faults : Faults) (file : Bytes × Bool) (found state : Option ProxyState) (disk : Disk)
      → UsableDisk disk
      → next_state json quote decode_env relay_addr file found ≡ ok state
      → UsableDisk (save_new json quote decode_env relay_addr faults state disk).0
  save_new-Usable faults file found none disk u h = u
  save_new-Usable faults file found (some state) disk u h =
      save-UsableBy (claude_snapshot json quote decode_env relay_addr) faults state disk u
        (next-Usable file found state h)

  enable_proxy-Usable :
      (faults : Faults) (disk : Disk)
      → UsableDisk disk
      → UsableDisk (enable_proxy json quote decode_env relay_addr faults disk).0
  unfolding enable_proxy
  enable_proxy-Usable faults disk u =
      let P : Outcome → Type 0 = λ o. UsableDisk o.0 in
      attempt-all P disk (check faults.home no_home) _ (λ e. u)
        λ v q1.
          attempt-all P disk (read_config_file faults empty_settings disk) _ (λ e. u)
            λ file q2.
              attempt-all P disk (load faults disk) _ (λ e. u)
                λ found q3.
                  attempt-all P disk (next_state json quote decode_env relay_addr file found) _
                    (λ e. u)
                    λ state q4.
                      attempt-all P disk
                        (on_json (
                          apply_json_field_edits json file.0
                            (claude_desired_edits json quote decode_env relay_addr)))
                        _ (λ e. u)
                        λ updated q5.
                          let o = save_new json quote decode_env relay_addr faults state disk in
                          let w = save_new-Usable faults file found state disk u q4 in
                          and_then-all P o _ (λ e q. w)
                            λ q.
                              same-UsableBy (claude_snapshot json quote decode_env relay_addr)
                                (write_config_file_if_changed faults file.0 updated o.0).0 o.0
                                (write-state faults file.0 updated o.0) w

  give_back-Usable :
      (faults : Faults) (state : ProxyState) (disk : Disk)
      → UsableDisk disk
      → UsableDisk (give_back json quote decode_env relay_addr faults state disk).0
  give_back-Usable faults state disk u =
      let P : Outcome → Type 0 = λ o. UsableDisk o.0 in
      attempt-all P disk (claude_snapshot json quote decode_env relay_addr state) _ (λ e. u)
        λ snapshot q1.
          attempt-all P disk (check faults.home no_home) _ (λ e. u)
            λ v q2.
              attempt-all P disk (read_config_file faults empty_settings disk) _ (λ e. u)
                λ file q3.
                  attempt-all P disk
                    (on_json (json_snapshot_edits json snapshot.fields claude_proxy_field_paths)) _
                    (λ e. u)
                    λ change q4.
                      attempt-all P disk (on_json (apply_json_field_edits json file.0 change)) _
                        (λ e. u)
                        λ restored q5.
                          attempt-all P disk
                            (pruned json quote decode_env relay_addr snapshot restored) _ (λ e. u)
                            λ updated q6.
                              attempt-all P disk
                                (is_gone json quote decode_env relay_addr snapshot updated) _
                                (λ e. u)
                                λ gone q7.
                                  let o =
                                    write_back json quote decode_env relay_addr faults file updated
                                      gone disk in
                                  let w =
                                    same-UsableBy (claude_snapshot json quote decode_env relay_addr)
                                      o.0 disk
                                      (write_back-state json quote decode_env relay_addr faults file
                                        updated gone disk)
                                      u in
                                  and_then-all P o _ (λ e q. w)
                                    λ q.
                                      save-UsableBy
                                        (claude_snapshot json quote decode_env relay_addr) faults
                                        inactive o.0 w
                                        (off-UsableBy
                                          (claude_snapshot json quote decode_env relay_addr))

  disable_proxy-Usable :
      (faults : Faults) (disk : Disk)
      → UsableDisk disk
      → UsableDisk (disable_proxy json quote decode_env relay_addr faults disk).0
  unfolding disable_proxy
  disable_proxy-Usable faults disk u =
      attempt-all (λ o. UsableDisk o.0) disk (load faults disk) _ (λ e. u) λ found q. loaded found
    where
      loaded :
          (found : Option ProxyState)
          → UsableDisk (disable_loaded json quote decode_env relay_addr faults disk found).0
      loaded none =
          save-UsableBy (claude_snapshot json quote decode_env relay_addr) faults inactive disk u
            (off-UsableBy (claude_snapshot json quote decode_env relay_addr))
      loaded (some state) =
          if-all (λ o. UsableDisk o.0) (not state.active) _ _ u
            (give_back-Usable faults state disk u)

  -- A disk after takeovers and returns, in any order and with any failures, while the tool or its user
  -- changes or removes the tool's file at any time.
  pub data ClaudeReached : Disk → Type 0 where
    starts :
        (settings : Option Bytes) → ClaudeReached (record { settings = settings; state = none })
    enables :
        {disk : Disk} (faults : Faults)
        → ClaudeReached disk
        → ClaudeReached (enable_proxy json quote decode_env relay_addr faults disk).0
    disables :
        {disk : Disk} (faults : Faults)
        → ClaudeReached disk
        → ClaudeReached (disable_proxy json quote decode_env relay_addr faults disk).0
    edits :
        {disk : Disk} (settings : Option Bytes)
        → ClaudeReached disk
        → ClaudeReached (record disk { settings = settings })

  -- In every disk that is reached the state file of the Claude tool is usable: where something is taken
  -- over, it has a snapshot that can be restored. In valid JSON, the raw texts that gjson gives of the
  -- two fields that are taken over are valid JSON.
  pub ClaudeReached-Usable : {disk : Disk} → ClaudeReached disk → UsableDisk disk
  ClaudeReached-Usable (starts settings) = tt
  ClaudeReached-Usable (enables {disk = disk} faults r) =
      enable_proxy-Usable faults disk (ClaudeReached-Usable r)
  ClaudeReached-Usable (disables {disk = disk} faults r) =
      disable_proxy-Usable faults disk (ClaudeReached-Usable r)
  ClaudeReached-Usable (edits settings r) = ClaudeReached-Usable r
