-- ===== src/Sessions/Repository/Answers.antt =====
-- What the session table answers: removing expired rows changes no answer, and a binding is found.
use coding_switch.Base.{ℕ, [], Option, none, some, Bytes, if◌then◌else◌}
use coding_switch.Sessions.Locks.{Key, key_is_eq}
use coding_switch.Sessions.Repository.{Row, is_expired}

-- The provider of a row that was found.
abbrev answer : ℕ → Key → Option Row → Bytes
answer now key none = []
answer now key (some row) =
    if is_expired now key.0 row.last_success_at then [] else row.provider_name
