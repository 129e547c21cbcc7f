-- ===== src/Tests/SessionTable.antt =====
-- Two callers of one session lock, and a small session table (internal/sessions).
use coding_switch.Base.{
  ◌*◌, ◌+◌, ◌⊎◌, ◌≤◌, bytes_is_eq, true, false, List, [], ◌∷◌, none, some, codes, lookup, ok, ◌≡◌,
  refl,
}
use coding_switch.Kernel.{codex, minute, session_timeout}
use coding_switch.Sessions.Locks.{
  Key, key_is_eq, Locks, no_locks, Caller, enter, acquire, release, leave, waiting, Advance,
  Reachable, starts, enters, acquires, releases, leaves, advances, register, unregister,
}
use coding_switch.Sessions.Locks.Counting.{count}
use coding_switch.Sessions.Locks.Exclusive.{inside_key, Reachable-one, Reachable-forgotten}
use coding_switch.Sessions.Locks.Ending.{work, rests, goes, Advances-end}
use coding_switch.Sessions.Repository.{
  Row, Rows, get_session_provider, bind_session_to_provider, update_session_success,
  record_session_background, get_platform_sessions,
}
use coding_switch.Sessions.Repository.Runs
use coding_switch.Sessions.Repository.Runs.{Operation, binds, records, succeeds, run}
use coding_switch.Sessions.Repository.Visible.{runs, IsShown, IsKept, runs-IsShown}

abbrev session : Key
session = (codes "codex", codes "s1")

abbrev caller : Caller
caller = record { key = session; lock = 0; phase = waiting }

abbrev two : Locks
two = enter session (enter session no_locks)

-- The second caller is inside, the first waits for the same mutex.
abbrev one_inside : Locks
one_inside = acquire [] caller (caller ∷ []) two

one_inside_reached : Reachable one_inside
unfolding register
one_inside_reached =
    advances (acquires [] caller (caller ∷ []) refl refl) (enters session (enters session starts))

Reachable-one_example : count (inside_key session) one_inside.callers ≤ 1
Reachable-one_example = Reachable-one session one_inside_reached

-- The one inside goes on, the other still waits.
abbrev one_leaving : Locks
one_leaving = release [] caller (caller ∷ []) one_inside

Advances-end_example :
    (1 + work one_leaving.callers ≡ work one_inside.callers)
    × ((one_leaving.callers ≡ []) ⊎ ((k : Locks) × Advance one_leaving k))
Advances-end_example =
    Advances-end one_inside_reached (goes rests (releases [] caller (caller ∷ []) refl))

abbrev first_only : Locks
first_only = enter session no_locks

abbrev all_left : Locks
all_left = leave [] caller [] (release [] caller [] (acquire [] caller [] first_only))

all_left_reached : Reachable all_left
unfolding register unregister
all_left_reached = advances (leaves [] caller [] refl) (
    advances (releases [] caller [] refl)
      (advances (acquires [] caller [] refl refl) (enters session starts)))

Reachable-forgotten_example : lookup session all_left.registry.table ≡ none
Reachable-forgotten_example = Reachable-forgotten session all_left_reached refl

-- A binding is hidden until a request of the main session succeeds.
abbrev shown : Rows
shown = run (records false session false) (run (binds false 5 session (codes "p")) [])

shown_reached : Runs.Reached shown
shown_reached =
    Runs.continues (records false session false)
      (Runs.continues (binds false 5 session (codes "p")) Runs.starts)

abbrev shown_row : Row
shown_row = record { provider_name = codes "p"; last_success_at = 5; created_at = 5; hidden = 0 }

shown_found : lookup session shown ≡ some shown_row
unfolding bind_session_to_provider record_session_background
shown_found = refl

-- A request in the background, and then an hour later a success.
abbrev later : List Operation
later = records false session true ∷ (succeeds false (60 * minute) session ∷ [])

shown-IsKept : IsKept session later shown
unfolding bind_session_to_provider record_session_background update_session_success
shown-IsKept = ((_, refl), ((_, refl), tt))

runs-IsShown_example : IsShown session (runs later shown)
runs-IsShown_example =
    runs-IsShown later session shown shown_reached (shown_row, shown_found, refl) shown-IsKept

expired : (get_session_provider false false (20 * minute) session shown).1 ≡ ok []
unfolding get_session_provider session_timeout bind_session_to_provider record_session_background
expired = refl

listed : get_platform_sessions false (4 * minute) codex shown ≡ ok ((session, shown_row) ∷ [])
unfolding get_platform_sessions session_timeout bind_session_to_provider record_session_background
listed = refl
