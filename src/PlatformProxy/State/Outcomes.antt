-- ===== src/PlatformProxy/State/Outcomes.antt =====
-- What holds of every outcome of a chain of calls, and what saving and writing leave alone.
use coding_switch.Base.{
  Bool, false, Option, none, some, Bytes, ◌==◌, bytes_is_eq, if◌then◌else◌, Bool-cases, Result, ok,
  err, ◌≡◌, refl, inl, inr, arith,
}
use coding_switch.PlatformProxy.State.{
  ProxyState, ProxyError, Disk, Faults, no_faults, Outcome, attempt, and_then, load, save, saved,
  inactive, write_config_file_if_changed, remove_config_file,
}

-- A property of every outcome of a chain: where it stops, and where it goes on.
pub attempt-all :
    {A : Type 0} (P : Outcome → Type 0) (disk : Disk) (r : Result ProxyError A) (f : A → Outcome)
    → ((e : ProxyError) → P (disk, some e))
    → ((a : A) → r ≡ ok a → P (f a))
    → P (attempt disk r f)
attempt-all P disk (ok a) f s k = k a refl
attempt-all P disk (err e) f s k = s e

pub and_then-all :
    (P : Outcome → Type 0) (o : Outcome) (f : Disk → Outcome)
    → ((e : ProxyError) → o.1 ≡ some e → P (o.0, some e))
    → (o.1 ≡ none → P (f o.0))
    → P (and_then o f)
and_then-all P (disk, none) f s k = k refl
and_then-all P (disk, some e) f s k = s e refl

pub if-all : (P : Outcome → Type 0) (b : Bool) (x y : Outcome) → P x → P y → P (if b then x else y)
if-all P b x y p q = elim (Bool-cases b) [ inl t ↦ rw t p | inr f ↦ rw f q ]

pub save-settings :
    (faults : Faults) (state : ProxyState) (disk : Disk)
    → (save faults state disk).0.settings ≡ disk.settings
unfolding save
save-settings faults state disk = ground arith

pub write-state :
    (faults : Faults) (before after : Bytes) (disk : Disk)
    → (write_config_file_if_changed faults before after disk).0.state ≡ disk.state
unfolding write_config_file_if_changed
write-state faults before after disk = ground arith

pub remove-state :
    (faults : Faults) (disk : Disk) → (remove_config_file faults disk).0.state ≡ disk.state
unfolding remove_config_file
remove-state faults disk = ground arith

-- The file, where the operation failed.
abbrev pub Unspoilt : Option Bytes → Outcome → Type 0
Unspoilt text (disk, none) = Unit
Unspoilt text (disk, some e) = disk.settings ≡ text

pub write-Unspoilt :
    (faults : Faults) (before after : Bytes) (disk : Disk)
    → Unspoilt disk.settings (write_config_file_if_changed faults before after disk)
unfolding write_config_file_if_changed
write-Unspoilt faults before after disk = elim (Bool-cases (before == after)) [
  | inl y ↦ rw y tt
  | inr n ↦ elim (Bool-cases faults.write_settings) [
    | inl y ↦ rw (n, y) refl
    | inr m ↦ rw (n, m) tt
  ]
]

-- An operation that says where a takeover ends: with an error the state file is as before, and
-- without one it says that nothing is taken over.
abbrev pub Ended : Disk → Outcome → Type 0
Ended before (after, some e) = after.state ≡ before.state
Ended before (after, none) =
    (state : ProxyState) × (load no_faults after ≡ ok (some state)) × (state.active ≡ false)

pub save-Ended :
    (before : Disk) (faults : Faults) (disk : Disk)
    → disk.state ≡ before.state
    → Ended before (save faults inactive disk)
unfolding save load
save-Ended before faults disk h =
    if-all (Ended before) faults.state_path _ _ h
      (if-all (Ended before) faults.write_state _ _ h (saved inactive, refl, refl))

pub load_faultless :
    (faults : Faults) (disk : Disk) (found : Option ProxyState)
    → load faults disk ≡ ok found
    → load no_faults disk ≡ ok found
unfolding load
load_faultless faults disk found h = elim (Bool-cases faults.state_path) [
  | inl y ↦ absurd (cc (rw y at h))
  | inr n ↦ elim (Bool-cases faults.read_state) [
    | inl y ↦ absurd (cc (rw (n, y) at h))
    | inr m ↦ rw (n, m) at h
  ]
]
