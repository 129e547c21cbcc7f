-- ===== src/PlatformProxy/Gemini/Keeps.antt =====
-- What an operation on the Gemini tool leaves alone when it fails.
use coding_switch.Base.{
  Bool, not, ◌&&◌, [], Option, none, some, Bytes, ◌==◌, bytes_is_eq, Bool-cases, ok, ◌≡◌, refl, inl,
  inr, subst,
}
use coding_switch.PlatformProxy.State.{
  Snapshot, ProxyState, Disk, Faults, load, read_config_file, write_config_file_if_changed,
}
use coding_switch.PlatformProxy.State.Outcomes.{
  Unspoilt, write-Unspoilt, Ended, save-Ended, load_faultless, attempt-all, and_then-all, if-all,
  save-settings, write-state, remove-state,
}
use coding_switch.PlatformProxy.Gemini.{
  gemini_proxy_field_keys, on_env, settings_path, gemini_snapshot, apply_gemini_values, next_state,
  save_new, enable_proxy, restore_fields, write_back, give_back, disable_loaded, disable_proxy,
}

module _ (unquote : Bytes → Option Bytes) (relay_addr : Bytes) where
  save_new-settings :
      (faults : Faults) (state : Option ProxyState) (disk : Disk)
      → (save_new unquote relay_addr faults state disk).0.settings ≡ disk.settings
  save_new-settings faults none disk = refl
  save_new-settings faults (some state) disk = save-settings faults state disk

  -- A takeover that fails has left the tool's file as it was, whatever fails and wherever.
  pub enable_proxy-Unspoilt :
      (faults : Faults) (disk : Disk)
      → Unspoilt disk.settings (enable_proxy unquote relay_addr faults disk)
  unfolding enable_proxy
  enable_proxy-Unspoilt faults disk =
      let P = Unspoilt disk.settings in
      attempt-all P disk (settings_path unquote relay_addr faults) _ (λ e. refl)
        λ u q1.
          attempt-all P disk (read_config_file faults [] disk) _ (λ e. refl)
            λ file q2.
              attempt-all P disk (load faults disk) _ (λ e. refl)
                λ found q3.
                  attempt-all P disk (next_state unquote relay_addr file found) _ (λ e. refl)
                    λ state q4.
                      attempt-all P disk (on_env (apply_gemini_values unquote relay_addr file.0)) _
                        (λ e. refl)
                        λ updated q5.
                          let o = save_new unquote relay_addr faults state disk in
                          and_then-all P o _ (λ e q. save_new-settings faults state disk)
                            λ q.
                              subst
                                (λ t.
                                  Unspoilt t
                                    (write_config_file_if_changed faults file.0 updated o.0))
                                (save_new-settings faults state disk)
                                (write-Unspoilt faults file.0 updated o.0)

  pub write_back-state :
      (faults : Faults) (snapshot : Snapshot) (file : Bytes × Bool) (updated : Bytes) (disk : Disk)
      → (write_back unquote relay_addr faults snapshot file updated disk).0.state ≡ disk.state
  write_back-state faults snapshot file updated disk =
      if-all (λ o. o.0.state ≡ disk.state) (not snapshot.existed && updated == []) _ _
        (if-all (λ o. o.0.state ≡ disk.state) file.1 _ _ (remove-state faults disk) refl)
        (write-state faults file.0 updated disk)

  give_back-Ended :
      (faults : Faults) (state : ProxyState) (disk : Disk)
      → Ended disk (give_back unquote relay_addr faults state disk)
  give_back-Ended faults state disk =
      let P = Ended disk in
      attempt-all P disk (gemini_snapshot unquote relay_addr state) _ (λ e. refl)
        λ snapshot q1.
          attempt-all P disk (settings_path unquote relay_addr faults) _ (λ e. refl)
            λ v q2.
              attempt-all P disk (read_config_file faults [] disk) _ (λ e. refl)
                λ file q3.
                  attempt-all P disk
                    (on_env
                      (restore_fields unquote relay_addr snapshot gemini_proxy_field_keys file.0))
                    _ (λ e. refl)
                    λ updated q4.
                      let o = write_back unquote relay_addr faults snapshot file updated disk in
                      let same = write_back-state faults snapshot file updated disk in
                      and_then-all P o _ (λ e q. same) λ q. save-Ended disk faults o.0 same

  -- Giving the tool back ends the takeover, or it fails and the snapshot is still there for another try.
  pub disable_proxy-Ended :
      (faults : Faults) (disk : Disk) → Ended disk (disable_proxy unquote relay_addr faults disk)
  unfolding disable_proxy
  disable_proxy-Ended faults disk =
      attempt-all (Ended disk) disk (load faults disk) _ (λ e. refl) loaded
    where
      loaded :
          (found : Option ProxyState)
          → load faults disk ≡ ok found
          → Ended disk (disable_loaded unquote relay_addr faults disk found)
      loaded none h = save-Ended disk faults disk refl
      loaded (some state) h = elim (Bool-cases state.active) [
        | inl y ↦ rw y (give_back-Ended faults state disk)
        | inr n ↦ rw n (state, load_faultless faults disk (some state) h, n)
      ]
