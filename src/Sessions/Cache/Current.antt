-- ===== src/Sessions/Cache/Current.antt =====
-- `isCurrentGeneration` (internal/sessions/infrastructure/cache.go), for a session with an id.
use coding_switch.Base.{ℕ, false, [], Bytes, ◌==◌, bytes_is_eq, nat_eq, ◌≡◌, refl}
use coding_switch.Sessions.Cache.{
  Lru, content, LruLaws, generation_in, key, session_generation, is_current,
}

module _ {L : Type 0} (lru : Lru L) (laws : LruLaws lru) (platform session : Bytes)
    (named : (session == []) ≡ false) where
  pub is_current-content :
      (g : ℕ) (l : L)
      → (is_current lru platform session g l).0
        ≡ nat_eq (generation_in (content lru (key lru platform session) l)) g
  unfolding is_current session_generation
  is_current-content g l = rw named refl

  pub content-is_current :
      (g : ℕ) (j : Bytes) (l : L)
      → content lru j (is_current lru platform session g l).1 ≡ content lru j l
  unfolding is_current session_generation
  content-is_current g j l = rw named (laws.content-get j (key lru platform session) l)
