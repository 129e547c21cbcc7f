-- ===== src/Mcp/Aggregator/Closed.antt =====
-- What `Close` leaves, and that it stays so.
use coding_switch.Base.{
  ◌+◌, true, false, List, [], ◌∷◌, Option, none, some, Bytes, ◌==◌, int_is_eq, int_eq_iff,
  bytes_is_eq, ℤ, Map, lookup, lookup-insert, lookup-delete, beq_refl, seen_before, if◌then◌else◌,
  Bool-cases, Option-cases, ◌≡◌, refl, ◌∙◌, inl, inr, arith,
}
use coding_switch.Mcp.Server.{McpServer}
use coding_switch.Mcp.Aggregator.{Upstream, ToolRef, Aggregator, detach, detached_record, teardown}
use coding_switch.Mcp.Aggregator.Sync.{ids_of, sync_once, teardown_all, close}
use coding_switch.Mcp.Aggregator.Results.{
  Outcome, established, refused, discard, finish_connect, refresh_tools, mark_failed,
}
use coding_switch.Mcp.Aggregator.Ownership.{owned_by}
use coding_switch.Mcp.Aggregator.Reach.{
  new_aggregator, Step, syncs, finishes, refreshes, fails, closes, Steps, stop, go,
  Steps-Registered,
}

pub lookup-teardown :
    (id j : ℤ) (a : Aggregator)
    → lookup j (teardown id a).ups ≡ (if id == j then none else lookup j a.ups)
unfolding teardown detach
lookup-teardown id j a = elim (Option-cases (lookup id a.ups)) [
  | inl missing ↦ rw missing (elim (Bool-cases (id == j)) [
    | inl y ↦ rw y (rw (← (int_eq_iff id j).0 y) missing)
    | inr n ↦ rw n refl
  ])
  | inr (up, found) ↦ rw found (
      lookup-delete id j _ ∙ elim (Bool-cases (id == j)) [
        | inl y ↦ rw y refl
        | inr n ↦ rw (n, lookup-insert id j (detached_record (a.gen_seq + 1) up) a.ups, n) refl
      ])
]

lookup-teardown_all :
    (ids : List ℤ) (j : ℤ) (a : Aggregator)
    → lookup j (teardown_all ids a).ups ≡ (if seen_before j ids then none else lookup j a.ups)
unfolding teardown_all
lookup-teardown_all [] j a = refl
lookup-teardown_all (id ∷ ids) j a =
    ground (arith, lookup-teardown_all ids j (teardown id a), lookup-teardown id j a)

unlisted :
    (j : ℤ) (ups : Map ℤ Upstream)
    → (if seen_before j (ids_of ups) then none else lookup j ups) ≡ none
unlisted j [] = refl
unlisted j ((id, up) ∷ ups) = ground (arith, unlisted j ups)

closed-teardown : (id : ℤ) (a : Aggregator) → (teardown id a).closed ≡ a.closed
unfolding teardown detach
closed-teardown id a = elim (Option-cases (lookup id a.ups)) [
  | inl missing ↦ rw missing refl
  | inr (up, found) ↦ rw found refl
]

closed-teardown_all : (ids : List ℤ) (a : Aggregator) → (teardown_all ids a).closed ≡ a.closed
unfolding teardown_all
closed-teardown_all [] a = refl
closed-teardown_all (id ∷ ids) a = closed-teardown_all ids (teardown id a) ∙ closed-teardown id a

pub record Shut (a : Aggregator) : Type 0 where
  pub is_closed : a.closed ≡ true
  pub no_record : (id : ℤ) → lookup id a.ups ≡ none

pub close-Shut : (a : Aggregator) → Shut (close a)
unfolding close
close-Shut a = record {
  is_closed = closed-teardown_all (ids_of a.ups) (record a { closed = true });
  no_record =
      λ id. lookup-teardown_all (ids_of a.ups) id (record a { closed = true }) ∙ unlisted id a.ups;
}

discard-Shut : (o : Outcome) (a : Aggregator) → Shut a → Shut (discard o a)
discard-Shut (established session tools) a h = record {
  is_closed = h.is_closed;
  no_record = h.no_record;
}
discard-Shut (refused e) a h = h

module _ (hash : Bytes → Bytes) (fingerprint : McpServer → Bytes) where
  Step-Shut : {a b : Aggregator} → Step hash fingerprint a b → Shut a → Shut b
  unfolding sync_once finish_connect refresh_tools mark_failed
  Step-Shut {a} (syncs now servers) h = simp (h.is_closed) h
  Step-Shut {a} (finishes now id g o) h = rw (h.no_record id) (discard-Shut o a h)
  Step-Shut {a} (refreshes id s g tools) h = rw (h.no_record id) h
  Step-Shut {a} (fails now id s e) h = rw (h.no_record id) h
  Step-Shut {a} closes h = close-Shut a

  Steps-Shut : {a b : Aggregator} → Steps hash fingerprint a b → Shut a → Shut b
  Steps-Shut stop h = h
  Steps-Shut (go s t) h = Step-Shut t (Steps-Shut s h)

  Steps-append :
      {a b c : Aggregator}
      → Steps hash fingerprint a b
      → Steps hash fingerprint b c
      → Steps hash fingerprint a c
  Steps-append s stop = s
  Steps-append s (go t u) = go (Steps-append s t) u

  owned_by-none : (o : Option ToolRef) → ((id : ℤ) → false ≡ owned_by o id) → o ≡ none
  owned_by-none none h = refl
  owned_by-none (some ref) h = absurd (cc (h ref.server_id, beq_refl ref.server_id))

  -- Whatever the aggregator does after `Close`, in any order: no record is there and no public name is
  -- in the registry.
  pub nothing_after_close :
      {a b : Aggregator}
      → Steps hash fingerprint new_aggregator a
      → Steps hash fingerprint (close a) b
      → ((id : ℤ) → lookup id b.ups ≡ none) × ((n : Bytes) → lookup n b.tools ≡ none)
  nothing_after_close {a} {b} s t =
      let shut = Steps-Shut t (close-Shut a) in
      let r = Steps-Registered hash fingerprint (Steps-append (go s closes) t) in
      (
        shut.no_record,
        λ n. owned_by-none (lookup n b.tools) (λ id. rw (shut.no_record id) at (r.owns id n)),
      )
