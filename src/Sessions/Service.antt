-- ===== src/Sessions/Service.antt =====
-- The session service (internal/sessions/application/service.go) on the session table: what its
-- operations do while they have the session's lock.
use coding_switch.Base.{
  Bool, true, false, ◌||◌, List, [], ◌∷◌, ◌++◌, map, Option, none, some, ◌==◌, bytes_is_eq, lookup,
  lookup-delete, beq_refl, if◌then◌else◌, Bool-cases, Result, ok, err, ◌≡◌, refl, ◌∙◌, inl, inr,
}
use coding_switch.Sessions.Locks.{Key, key_is_eq}
use coding_switch.Sessions.Repository.{Rows, DbError, record_session_background, unbind_session}

pub data ServiceError : Type 0 where
  empty_name : ServiceError
  in_db : DbError → ServiceError

-- `CacheInvalidator`: `invalidate` is a cache after its `InvalidateSession`.
module _ {C : Type 0} (invalidate : Key → C → C) where
  pub record SessionService : Type 0 where
    pub rows : Rows
    pub caches : List C

  -- `RegisterCache`: nil is none.
  abbrev pub register_cache : Option C → SessionService → SessionService
  register_cache none s = s
  register_cache (some cache) s = record s { caches = s.caches ++ cache ∷ [] }

  -- `invalidateCaches`
  abbrev pub invalidate_caches : Key → SessionService → SessionService
  invalidate_caches key s = record s { caches = map (invalidate key) s.caches }

  abbrev pub after_unbind :
      Key → SessionService → Rows × Result DbError Unit → SessionService × Result ServiceError Unit
  after_unbind key s (rows, err e) = (record s { rows = rows }, err (in_db e))
  after_unbind key s (rows, ok u) = (invalidate_caches key (record s { rows = rows }), ok tt)

  -- `Unbind`
  unfoldable pub unbind : Bool → Key → SessionService → SessionService × Result ServiceError Unit
  unbind fails key s =
      if key.0 == [] || key.1 == []
      then (s, err empty_name)
      else after_unbind key s (unbind_session fails key s.rows)

  abbrev pub after_record :
      SessionService → Rows × Result DbError Unit → SessionService × Result ServiceError Unit
  after_record s (rows, err e) = (record s { rows = rows }, err (in_db e))
  after_record s (rows, ok u) = (record s { rows = rows }, ok tt)

  -- `RecordSessionBackground`
  unfoldable pub record_background :
      Bool → Key → Bool → SessionService → SessionService × Result ServiceError Unit
  record_background fails key background s =
      if key.1 == []
      then (s, ok tt)
      else after_record s (record_session_background fails key background s.rows)

  -- What an `Unbind` without an error leaves, and one with an error.
  abbrev pub Unbound : Key → SessionService → SessionService × Result ServiceError Unit → Type 0
  Unbound key s (after, ok u) =
      (lookup key after.rows ≡ none) × (after.caches ≡ map (invalidate key) s.caches)
  Unbound key s (after, err e) = after ≡ s

  -- An `Unbind` that succeeds removes the row and tells every cache, and one that fails does neither.
  pub unbind-Unbound :
      (fails : Bool) (key : Key) (s : SessionService) → Unbound key s (unbind fails key s)
  unfolding unbind unbind_session
  unbind-Unbound fails key s = elim (Bool-cases (key.0 == [] || key.1 == [])) [
    | inl y ↦ rw y refl
    | inr n ↦ rw n (go fails)
  ]
    where
      go : (b : Bool) → Unbound key s (after_unbind key s (unbind_session b key s.rows))
      go true = refl
      go false = (lookup-delete key key s.rows ∙ rw (beq_refl key) refl, refl)
