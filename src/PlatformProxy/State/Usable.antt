-- ===== src/PlatformProxy/State/Usable.antt =====
-- A state file that the operations on a tool can use, for the tool's check of its snapshot.
use coding_switch.Base.{
  false, ◌&&◌, Option, none, some, Result, ok, ◌≡◌, ◌⊎◌, refl, sym, inl, subst,
}
use coding_switch.PlatformProxy.State.{
  Snapshot, ProxyState, ProxyError, StateText, broken, decoded, Disk, Faults, is_empty, save, saved,
  inactive,
}
use coding_switch.PlatformProxy.State.Outcomes.{if-all}

module _ (snapshot_of : ProxyState → Result ProxyError Snapshot) where
  -- Either nothing is taken over, or there is a snapshot to restore.
  pub record UsableBy (state : ProxyState) : Type 0 where
    pub version : state.version ≡ 1
    pub snapshot : (state.active ≡ false) ⊎ (x : Snapshot) × (snapshot_of state ≡ ok x)

  abbrev pub UsableTextBy : Option StateText → Type 0
  UsableTextBy none = Unit
  UsableTextBy (some broken) = ⊥
  UsableTextBy (some (decoded state)) = UsableBy state

  abbrev pub UsableDiskBy : Disk → Type 0
  UsableDiskBy disk = UsableTextBy disk.state

  pub save-UsableBy :
      (faults : Faults) (state : ProxyState) (disk : Disk)
      → UsableDiskBy disk
      → UsableBy (saved state)
      → UsableDiskBy (save faults state disk).0
  unfolding save
  save-UsableBy faults state disk u v =
      if-all (λ o. UsableDiskBy o.0) (state.active && is_empty state.files) _ _ u
        (if-all (λ o. UsableDiskBy o.0) faults.state_path _ _ u
          (if-all (λ o. UsableDiskBy o.0) faults.write_state _ _ u v))

  pub same-UsableBy : (a b : Disk) → a.state ≡ b.state → UsableDiskBy b → UsableDiskBy a
  same-UsableBy a b e u = subst UsableTextBy (sym e) u

  pub off-UsableBy : UsableBy (saved inactive)
  off-UsableBy = record { version = refl; snapshot = inl refl }
