-- ===== src/Sessions/Repository.antt =====
-- The session table (internal/sessions/infrastructure/sqlite_repository.go). The table is a map from
-- platform and session, which the schema makes unique, to the other columns, and each statement is
-- what it does to the rows. A time is in nanoseconds. `fails` says that the database cannot be opened
-- or the first statement fails, which changes nothing. The clean-up has a statement for each platform, and
-- `delete_fails` says which of them fail.
pub mod Runs
pub mod Answers
pub mod Visible
use coding_switch.Base.{
  ℕ, ◌+◌, Bool, true, false, not, ◌&&◌, ◌||◌, List, [], ◌∷◌, Option, none, some, Bytes, ◌==◌,
  bytes_is_eq, bytes_lt, nat_eq, ltb, Map, lookup, insert, delete, keep, if◌then◌else◌, Result, ok,
  err, sort_by,
}
use coding_switch.Kernel.{Platform, codex, all_platforms, session_timeout}
use coding_switch.Sessions.Locks.{Key, key_is_eq}

-- The columns beside the key.
pub record Row : Type 0 where
  pub provider_name : Bytes
  pub last_success_at : ℕ
  pub created_at : ℕ
  pub hidden : ℕ

abbrev pub Rows : Type 0
Rows = Map Key Row

-- The database failed.
pub data DbError : Type 0 where
  db_error : DbError

-- `isExpired`
abbrev pub is_expired : ℕ → Platform → ℕ → Bool
is_expired now platform last = ltb (last + session_timeout platform) now

abbrev pub found_provider : Bool → ℕ → Key → Rows → Option Row → Rows × Bytes
found_provider delete_fails now key rows none = (rows, [])
found_provider delete_fails now key rows (some row) =
    if is_expired now key.0 row.last_success_at
    then (if delete_fails then rows else delete key rows, [])
    else (rows, row.provider_name)

-- `GetSessionProvider`: no provider is the empty text. A failed removal is only logged.
unfoldable pub get_session_provider : Bool → Bool → ℕ → Key → Rows → Rows × Result DbError Bytes
get_session_provider fails delete_fails now key rows =
    if key.1 == []
    then (rows, ok [])
    else if fails
    then (rows, err db_error)
    else (let (after, provider) = found_provider delete_fails now key rows (lookup key rows) in
        (after, ok provider))

-- The upsert: a row that is there keeps its creation and its visibility.
abbrev pub bound_row : ℕ → Platform → Bytes → Option Row → Row
bound_row now platform provider none = record {
  provider_name = provider;
  last_success_at = now;
  created_at = now;
  hidden = if platform == codex then 2 else 0;
}
bound_row now platform provider (some row) = record row {
  provider_name = provider;
  last_success_at = now;
}

-- `BindSessionToProvider`
unfoldable pub bind_session_to_provider : Bool → ℕ → Key → Bytes → Rows → Rows × Result DbError Unit
bind_session_to_provider fails now key provider rows =
    if key.1 == [] || provider == []
    then (rows, ok tt)
    else if fails
    then (rows, err db_error)
    else (insert key (bound_row now key.0 provider (lookup key rows)) rows, ok tt)

-- `UPDATE … WHERE platform = ? AND session_id = ?`
abbrev pub update : Key → (Row → Row) → Rows → Rows
update key change [] = []
update key change ((k, row) ∷ rows) =
    let rest = update key change rows in
    if k == key then (k, change row) ∷ rest else (k, row) ∷ rest

-- `UpdateSessionSuccess`
unfoldable pub update_session_success : Bool → ℕ → Key → Rows → Rows × Result DbError Unit
update_session_success fails now key rows =
    if key.1 == []
    then (rows, ok tt)
    else if fails
    then (rows, err db_error)
    else (update key (λ row. record row { last_success_at = now }) rows, ok tt)

-- `CASE WHEN ? = 0 THEN 0 WHEN hidden = 0 THEN 0 ELSE 1 END`
abbrev pub visibility : Bool → ℕ → ℕ
visibility background hidden = if not background then 0 else if nat_eq hidden 0 then 0 else 1

-- `RecordSessionBackground`
unfoldable pub record_session_background : Bool → Key → Bool → Rows → Rows × Result DbError Unit
record_session_background fails key background rows =
    if key.1 == []
    then (rows, ok tt)
    else if fails
    then (rows, err db_error)
    else (update key (λ row. record row { hidden = visibility background row.hidden }) rows, ok tt)

abbrev pub is_stale : ℕ → Platform → Key × Row → Bool
is_stale now platform entry =
    entry.0.0 == platform && is_expired now platform entry.1.last_success_at

-- The loop over the platforms: the rows of those before the one whose DELETE fails are gone.
abbrev pub clean_loop : (Platform → Bool) → ℕ → List Platform → Rows → Rows × Result DbError Unit
clean_loop delete_fails now [] rows = (rows, ok tt)
clean_loop delete_fails now (platform ∷ platforms) rows =
    let rest =
      clean_loop delete_fails now platforms
        (keep (λ entry. not (is_stale now platform entry)) rows) in
    if delete_fails platform then (rows, err db_error) else rest

-- `CleanExpiredSessions`
unfoldable pub clean_expired_sessions :
    Bool → (Platform → Bool) → ℕ → Rows → Rows × Result DbError Unit
clean_expired_sessions fails delete_fails now rows =
    if fails then (rows, err db_error) else clean_loop delete_fails now all_platforms rows

-- `UnbindSession`
unfoldable pub unbind_session : Bool → Key → Rows → Rows × Result DbError Unit
unbind_session fails key rows = if fails then (rows, err db_error) else (delete key rows, ok tt)

-- `ORDER BY provider_name ASC, last_success_at DESC`
abbrev pub in_order : Key × Row → Key × Row → Bool
in_order a b =
    if a.1.provider_name == b.1.provider_name
    then ltb b.1.last_success_at a.1.last_success_at
    else bytes_lt a.1.provider_name b.1.provider_name

-- `scanActiveSessions`
abbrev pub scan_active_sessions : ℕ → Rows → Rows
scan_active_sessions now =
    keep (λ (entry : Key × Row). not (is_expired now entry.0.0 entry.1.last_success_at))

-- `GetPlatformSessions`: the columns of a binding, with the key.
unfoldable pub get_platform_sessions : Bool → ℕ → Platform → Rows → Result DbError Rows
get_platform_sessions fails now platform rows =
    if platform == []
    then ok []
    else if fails
    then err db_error
    else ok (
        scan_active_sessions now (
          sort_by in_order
            (keep (λ (entry : Key × Row). entry.0.0 == platform && nat_eq entry.1.hidden 0) rows)))

-- `GetProviderSessions`
unfoldable pub get_provider_sessions : Bool → ℕ → Platform → Bytes → Rows → Result DbError Rows
get_provider_sessions fails now platform provider rows =
    if platform == [] || provider == []
    then ok []
    else if fails
    then err db_error
    else ok (
        scan_active_sessions now (
          sort_by (λ (a : Key × Row) (b : Key × Row). ltb b.1.last_success_at a.1.last_success_at)
            (keep
              (λ (entry : Key × Row).
                entry.0.0 == platform
                && (entry.1.provider_name == provider && nat_eq entry.1.hidden 0))
              rows)))
