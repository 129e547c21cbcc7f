-- ===== src/Mcp/Aggregator/Loop/Heard.antt =====
-- A server that fails is heard of: the operation that sets it to failed also notifies.
use coding_switch.Base.{
  ℕ, ◌+◌, ◌<◌, Bool, true, false, not, ◌||◌, List, [], ◌∷◌, ◌++◌, Option, some, Bytes, int_is_eq,
  int_eq_iff, ◌==◌, bytes_is_eq, nat_eq, ℤ, lookup, insert, lookup-insert, if◌then◌else◌,
  Bool-cases, Option-cases, ◌≡◌, refl, sym, ap, ◌∙◌, ◌⊎◌, inl, inr, arith,
}
use coding_switch.Mcp.Aggregator.{
  State, failed, Tool, Upstream, Call, notify_changed, Aggregator, kept_details, delete_all,
  remove_call, close_call, detach, detached_record, register_tools,
}
use coding_switch.Mcp.Aggregator.Filled.{field-register_all}
use coding_switch.Mcp.Aggregator.Sync.{close}
use coding_switch.Mcp.Aggregator.Results.{
  Outcome, established, refused, backoff, discard, connected_record, refused_record, same_session,
  settle, finish_connect, refresh_tools, failed_record, mark_failed,
}
use coding_switch.Mcp.Aggregator.Generations.{lookup-written}
use coding_switch.Mcp.Aggregator.Closed.{close-Shut}
use coding_switch.Mcp.Aggregator.Loop.{notices}

-- The server `id` is failed, and is to be tried again at `t`.
abbrev pub FailedAt : ℤ → ℕ → Aggregator → Type 0
FailedAt id t a =
    (up : Upstream) × (lookup id a.ups ≡ some up) × (up.state ≡ failed) × (up.next_retry ≡ t)

-- No server fails on the way from `a` to `b`.
abbrev pub Quiet : Aggregator → Aggregator → Type 0
Quiet a b = (id : ℤ) (t : ℕ) → FailedAt id t b → FailedAt id t a

-- Where a server fails, there is one more notice.
abbrev pub Heard : Aggregator → Aggregator → Type 0
Heard a b =
    (id : ℤ) (t : ℕ)
    → FailedAt id t b
    → FailedAt id t a ⊎ ((notices a.calls < notices b.calls) × (0 < t))

write-Quiet :
    (id : ℤ) (up : Upstream) (a b : Aggregator)
    → b.ups ≡ insert id up a.ups
    → ((t : ℕ) → up.state ≡ failed → up.next_retry ≡ t → FailedAt id t a)
    → Quiet a b
write-Quiet id up a b same old j t (new, found, f, e) = elim (Bool-cases (id == j)) [
  | inl y ↦
      let q : id ≡ j = (int_eq_iff id j).0 y in
      let p : up ≡ new = cc (rw (same, lookup-insert id j up a.ups, y) at found) in
      rw (← q) (old t (rw p f) (rw p e))
  | inr n ↦ (new, rw (same, lookup-insert id j up a.ups, n) at found, f, e)
]

notices-append : (xs ys : List Call) → notices (xs ++ ys) ≡ notices xs + notices ys
notices-append [] ys = omega arith
notices-append (notify_changed ∷ xs) ys = omega (arith, notices-append xs ys)
notices-append (Call.add_tool _ _ ∷ xs) ys = notices-append xs ys
notices-append (Call.remove_tools _ ∷ xs) ys = notices-append xs ys
notices-append (Call.close_session _ ∷ xs) ys = notices-append xs ys

over :
    {A : Type 0} (b : Bool) (x p o r : Option A)
    → o ≡ (if b then p else r)
    → (if b then x else o) ≡ (if b then x else r)
over true x p o r e = refl
over false x p o r e = e

-- A failed record is written, and a notice follows.
fail-Heard :
    (id : ℤ) (up : Upstream) (a b : Aggregator)
    → ((j : ℤ) → lookup j b.ups ≡ (if id == j then some up else lookup j a.ups))
    → notices a.calls < notices b.calls
    → 0 < up.next_retry
    → Heard a b
fail-Heard id up a b same more late j t (new, found, f, e) = elim (Bool-cases (id == j)) [
  | inl y ↦ let p : up ≡ new = cc (rw (same j, y) at found) in inr (more, rw (← e, ← p) late)
  | inr n ↦ inl (new, rw (same j, n) at found, f, e)
]

backoff_pos : (n : ℕ) → 0 < backoff n
backoff_pos n = ground arith

module _ (hash : Bytes → Bytes) where
  abbrev retry_of : Upstream → State × ℕ
  retry_of up = (up.state, up.next_retry)

  register_tools-Quiet :
      (id : ℤ) (up : Upstream) (tools : List Tool) (a : Aggregator)
      → ((t : ℕ) → up.state ≡ failed → up.next_retry ≡ t → FailedAt id t a)
      → Quiet a (register_tools hash id up tools a)
  unfolding register_tools
  register_tools-Quiet id up tools a old =
      let same =
        field-register_all (retry_of) (λ u names details. refl) hash tools
          (record { seen = []; up = up; tools = a.tools; calls = a.calls }) in
      write-Quiet id _ a (register_tools hash id up tools a) refl (λ t f e.
        old t (sym (ap (λ (p : State × ℕ). p.0) same) ∙ f)
          (sym (ap (λ (p : State × ℕ). p.1) same) ∙ e))

  discard-Quiet : (o : Outcome) (a : Aggregator) → Quiet a (discard o a)
  discard-Quiet (established session tools) a id t h = h
  discard-Quiet (refused e) a id t h = h

  settle-Heard :
      (now : ℕ) (id : ℤ) (up : Upstream) (o : Outcome) (a : Aggregator)
      → Heard a (settle hash now id up o a)
  settle-Heard now id up (refused e) a j t f =
      fail-Heard id (refused_record now up e) a (settle hash now id up (refused e) a)
        (λ j. lookup-insert id j (refused_record now up e) a.ups)
        (omega (arith, notices-append a.calls (notify_changed ∷ [])))
        (omega (arith, backoff_pos up.backoff_idx)) j t f
  settle-Heard now id up (established session tools) a j t f =
      inl
        (register_tools-Quiet id (connected_record up session) tools a (λ u e. absurd (cc e)) j t f)

  pub finish_connect-Heard :
      (now : ℕ) (id : ℤ) (generation : ℕ) (o : Outcome) (a : Aggregator)
      → Heard a (finish_connect hash now id generation o a)
  unfolding finish_connect
  finish_connect-Heard now id generation o a = elim (Option-cases (lookup id a.ups)) [
    | inl missing ↦ rw missing (λ j t f. inl (discard-Quiet o a j t f))
    | inr (up, found) ↦
        rw found (elim (Bool-cases (not (nat_eq up.generation generation) || a.closed)) [
          | inl y ↦ rw y (λ j t f. inl (discard-Quiet o a j t f))
          | inr n ↦ rw n (settle-Heard now id up o a)
        ])
  ]

  pub refresh_tools-Quiet :
      (id : ℤ) (session generation : ℕ) (tools : List Tool) (a : Aggregator)
      → Quiet a (refresh_tools hash id session generation tools a)
  unfolding refresh_tools
  refresh_tools-Quiet id session generation tools a = elim (Option-cases (lookup id a.ups)) [
    | inl missing ↦ rw missing (λ j t f. f)
    | inr (up, found) ↦
        let cleared : Upstream = record up {
          tool_names = [];
          tool_details = kept_details up.tool_names up.tool_details;
        } in
        rw found
          (elim (Bool-cases (
            not (same_session up.session session)
            || (not (nat_eq up.generation generation) || a.closed))) [
              | inl y ↦ rw y (λ j t f. f)
              | inr n ↦ rw n (λ j t f.
                  let middle : Aggregator = record a {
                    ups = insert id cleared a.ups;
                    tools = delete_all up.tool_names a.tools;
                    calls = a.calls ++ remove_call up.tool_names;
                  } in
                  write-Quiet id cleared a middle refl (λ u s e. (up, found, s, e)) j t
                    (register_tools-Quiet id cleared tools middle
                      (λ u s e. (cleared, lookup-written id cleared a.ups, s, e)) j t f))
            ])
  ]

detach_fail-Heard :
    (id : ℤ) (up new : Upstream) (a : Aggregator)
    → 0 < new.next_retry
    → Heard a (record (detach id up a) {
      ups = insert id new (detach id up a).ups;
      calls = (detach id up a).calls ++ notify_changed ∷ [];
    })
unfolding detach
detach_fail-Heard id up new a late =
    let gone : Upstream = detached_record (a.gen_seq + 1) up in
    let done : List Call = remove_call up.tool_names ++ close_call up.session in
    fail-Heard id new a
      (record (detach id up a) {
        ups = insert id new (detach id up a).ups;
        calls = (detach id up a).calls ++ notify_changed ∷ [];
      })
      (λ j.
        lookup-insert id j new (insert id gone a.ups)
        ∙ over (id == j) (some new) (some gone) (lookup j (insert id gone a.ups)) (lookup j a.ups)
            (lookup-insert id j gone a.ups))
      (omega (
        arith,
        notices-append a.calls done,
        notices-append (a.calls ++ done) (notify_changed ∷ []),
      ))
      late

pub mark_failed-Heard :
    (now : ℕ) (id : ℤ) (session : ℕ) (e : Bytes) (a : Aggregator)
    → Heard a (mark_failed now id session e a)
unfolding mark_failed
mark_failed-Heard now id session e a = elim (Option-cases (lookup id a.ups)) [
  | inl missing ↦ rw missing (λ j t f. inl f)
  | inr (up, found) ↦ rw found (elim (Bool-cases (not (same_session up.session session))) [
    | inl y ↦ rw y (λ j t f. inl f)
    | inr n ↦ rw n (
        detach_fail-Heard id up (failed_record now (detached_record (detach id up a).gen_seq up) e)
          a (omega arith))
  ])
]

pub close-Quiet : (a : Aggregator) → Quiet a (close a)
close-Quiet a id t (up, found, _, _) = absurd (cc (found, (close-Shut a).no_record id))
