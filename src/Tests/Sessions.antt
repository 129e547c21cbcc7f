-- ===== src/Tests/Sessions.antt =====
-- The session cache over a map that never evicts (internal/sessions/infrastructure).
use coding_switch.Base.{
  ◌*◌, true, false, [], some, Bytes, ◌==◌, bytes_is_eq, bytes_eq_iff, codes, Map, lookup, insert,
  lookup-insert, beq_refl, Bool-cases, ◌≡◌, ◌≢◌, refl, ◌∙◌, inl, inr,
}
use coding_switch.Kernel.{second, codex}
use coding_switch.Sessions.Cache.{
  Entry, Lru, content, LruLaws, cache_key, bound_entry, session_generation, is_current,
  bind_session, update_success, record_success, invalidate,
}
use coding_switch.Sessions.Cache.Generations.{stop, go, binds, late_after_invalidate}

abbrev table : Lru (Map Bytes Entry)
table = record { get = λ k l. (lookup k l, l); add = insert; change = insert }

differs : (k j : Bytes) → k ≢ j → (k == j) ≡ false
differs k j h = elim (Bool-cases (k == j)) [
  | inl y ↦ absurd (h ((bytes_eq_iff k j).0 y))
  | inr n ↦ n
]

table-LruLaws : LruLaws table
table-LruLaws = record {
  content-get = λ k j l. refl;
  content-add = λ k e l. lookup-insert k k e l ∙ rw (beq_refl k) refl;
  content-add_other = λ k j e l h. inl (lookup-insert k j e l ∙ rw (differs k j h) refl);
  content-change = λ k e f l h. lookup-insert k k e l ∙ rw (beq_refl k) refl;
  content-change_other = λ k j e l h. lookup-insert k j e l ∙ rw (differs k j h) refl;
}

abbrev before : Map Bytes Entry
before = bind_session table codex (codes "s1") (100 * second) (codes "alpha") 0 false []

abbrev gone : Map Bytes Entry
gone = invalidate table codex (codes "s1") before

current : (is_current table codex (codes "s1") 0 []).0 ≡ true
unfolding is_current session_generation
current = refl

current_before : (is_current table codex (codes "s1") 0 before).0 ≡ true
unfolding is_current session_generation bind_session
current_before = refl

-- Another request of the new generation has bound the session since.
abbrev again : Map Bytes Entry
again = bind_session table codex (codes "s1") (101 * second) (codes "gamma") 1 false gone

abbrev gamma : Entry
gamma = bound_entry table codex (codes "s1") (101 * second) (codes "gamma") 1

bound_again : content table (cache_key codex (codes "s1")) again ≡ some gamma
unfolding is_current session_generation bind_session invalidate
bound_again = refl

late_after_invalidate_example :
    ((j : Bytes)
      → content table j
          (bind_session table codex (codes "s1") (102 * second) (codes "beta") 0 false again)
        ≡ content table j again)
    × ((j : Bytes)
        → content table j (update_success table codex (codes "s1") (102 * second) 0 false again)
          ≡ content table j again)
    × ((record_success table codex (codes "s1") (102 * second) (codes "beta") 0 again).0
        ≡ (false, false))
    × ((j : Bytes)
        → content table j
            (record_success table codex (codes "s1") (102 * second) (codes "beta") 0 again).1
          ≡ content table j again)
late_after_invalidate_example =
    late_after_invalidate table table-LruLaws codex (codes "s1") refl (102 * second) 0
      (codes "beta") false before again current_before
      (go gamma stop (binds codex (codes "s1") (101 * second) 1 (codes "gamma") false refl)
        bound_again)

due :
    (record_success table codex (codes "s1") (200 * second) (codes "alpha") 0 before).0
    ≡ (true, true)
unfolding record_success is_current session_generation bind_session
due = refl
