-- ===== src/Mcp/Aggregator/Converging.antt =====
-- A pass over the configuration (`syncOnce`) brings the records in line with it.
pub mod Jobs
pub mod Pass
use coding_switch.Base.{
  ℕ, ◌+◌, Bool, true, false, not, ◌&&◌, List, [], ◌∷◌, ◌++◌, Option, none, some, Bytes, ◌==◌,
  bytes_is_eq, bytes_eq_iff, int_is_eq, int_eq_iff, leb, ℤ, Map, lookup, insert, lookup-insert,
  beq_refl, In, In-append_left, In-append_right, if◌then◌else◌, Bool-cases, Option-cases, ◌≡◌, refl,
  sym, ap, ◌∙◌, ◌⊎◌, inl, inr, arith,
}
use coding_switch.Mcp.Server.{McpServer}
use coding_switch.Mcp.Aggregator.{
  State, connecting, disabled, Upstream, Aggregator, detach, detached_record, teardown,
}
use coding_switch.Mcp.Aggregator.Sync.{
  is_disabled, is_failed, servers_by_id, Job, disable, new_upstream, ids_of, start_job,
  sync_disabled, sync_found, sync_upstream, sync_upstreams, sync_server, sync_servers, sync_once,
}
use coding_switch.Mcp.Aggregator.Closed.{lookup-teardown}

-- The record is left to itself by a pass at `now`: it is neither disabled nor failed and due.
abbrev pub settled : ℕ → Upstream → Bool
settled now up = not (is_disabled up.state) && not (is_failed up.state && leb up.next_retry now)

module _ (fingerprint : McpServer → Bytes) where
  -- What the loop over the records leaves of the record `before`.
  abbrev pub Kept : Option Upstream → Option Upstream → Option McpServer → Option McpServer → Type 0
  Kept before none want off = Unit
  Kept before (some up) (some cfg) off = (before ≡ some up) × (up.fingerprint ≡ fingerprint cfg)
  Kept before (some up) none none = ⊥
  Kept before (some up) none (some _) = is_disabled up.state ≡ true

  lookup-disable :
      (id j : ℤ) (up : Upstream) (cfg : McpServer) (a : Aggregator)
      → (id == j) ≡ false
      → lookup j (disable id up cfg (fingerprint cfg) a).ups ≡ lookup j a.ups
  unfolding detach
  lookup-disable id j up cfg a n =
      lookup-insert id j _ _ ∙ rw n (lookup-insert id j _ a.ups ∙ rw n refl)

  pub sync_found-other :
      (id j : ℤ) (up : Upstream) (want off : Option McpServer) (a : Aggregator)
      → (id == j) ≡ false
      → lookup j (sync_found fingerprint id up want off a).ups ≡ lookup j a.ups
  sync_found-other id j up (some cfg) off a n =
      elim (Bool-cases (not (up.fingerprint == fingerprint cfg))) [
        | inl y ↦ rw y (lookup-teardown id j a ∙ rw n refl)
        | inr m ↦ rw m refl
      ]
  sync_found-other id j up none none a n = lookup-teardown id j a ∙ rw n refl
  sync_found-other id j up none (some cfg) a n = elim (Bool-cases (not (is_disabled up.state))) [
    | inl y ↦ rw y (lookup-disable id j up cfg a n)
    | inr m ↦ rw m refl
  ]

  torn : (id : ℤ) (a : Aggregator) → lookup id (teardown id a).ups ≡ none
  torn id a = lookup-teardown id id a ∙ rw (beq_refl id) refl

  sync_found-Kept :
      (id : ℤ) (up : Upstream) (want off : Option McpServer) (a : Aggregator)
      → lookup id a.ups ≡ some up
      → Kept (lookup id a.ups) (lookup id (sync_found fingerprint id up want off a).ups) want off
  sync_found-Kept id up (some cfg) off a found =
      elim (Bool-cases (not (up.fingerprint == fingerprint cfg))) [
        | inl y ↦ rw (y, torn id a) tt
        | inr m ↦
            rw (m, found) (refl, ground (arith, bytes_eq_iff up.fingerprint (fingerprint cfg)))
      ]
  sync_found-Kept id up none none a found = rw (torn id a) tt
  sync_found-Kept id up none (some cfg) a found = elim (Bool-cases (not (is_disabled up.state))) [
    | inl y ↦ rw (y, lookup-insert id id _ (detach id up a).ups, beq_refl id) refl
    | inr m ↦ rw (m, found) (ground arith)
  ]

  sync_found-same :
      (before : Option Upstream) (id : ℤ) (up : Upstream) (want off : Option McpServer)
      (a : Aggregator)
      → Kept before (some up) want off
      → sync_found fingerprint id up want off a ≡ a
  sync_found-same before id up (some cfg) off a (_, e) = rw (e, beq_refl (fingerprint cfg)) refl
  sync_found-same before id up none none a k = absurd k
  sync_found-same before id up none (some cfg) a k = rw k refl

  pub sync_upstreams-Kept :
      (ids : List ℤ) (desired off : Map ℤ McpServer) (a : Aggregator) (j : ℤ)
      (before : Option Upstream)
      → (In j ids × (lookup j a.ups ≡ before))
        ⊎ Kept before (lookup j a.ups) (lookup j desired) (lookup j off)
      → Kept before
          (lookup j (sync_upstreams fingerprint ids desired off a).ups)
          (lookup j desired)
          (lookup j off)
  unfolding sync_upstreams
  sync_upstreams-Kept [] desired off a j before (inl (i, e)) = absurd i
  sync_upstreams-Kept [] desired off a j before (inr k) = k
  sync_upstreams-Kept (id ∷ ids) desired off a j before h =
      sync_upstreams-Kept ids desired off _ j before
        (visit (lookup id a.ups) refl (Bool-cases (id == j)) h)
    where
      here :
          (o : Option Upstream)
          → lookup id a.ups ≡ o
          → id ≡ j
          → lookup j a.ups ≡ before
          → Kept before
              (lookup j (sync_upstream fingerprint id o desired off a).ups)
              (lookup j desired)
              (lookup j off)
      here none found e same = rw (← e, found) tt
      here (some up) found e same =
          rw (← same, ← e) (sync_found-Kept id up (lookup id desired) (lookup id off) a found)

      visit :
          (o : Option Upstream)
          → lookup id a.ups ≡ o
          → ((id == j) ≡ true) ⊎ ((id == j) ≡ false)
          → (In j (id ∷ ids) × (lookup j a.ups ≡ before))
            ⊎ Kept before (lookup j a.ups) (lookup j desired) (lookup j off)
          → (In j ids × (lookup j (sync_upstream fingerprint id o desired off a).ups ≡ before))
            ⊎ Kept before
                (lookup j (sync_upstream fingerprint id o desired off a).ups)
                (lookup j desired)
                (lookup j off)
      visit o found (inl y) (inl (_, same)) = inr (here o found ((int_eq_iff id j).0 y) same)
      visit none found (inl y) (inr k) = inr k
      visit (some up) found (inl y) (inr k) =
          let e : id ≡ j = (int_eq_iff id j).0 y in
          inr (
            rw
              (sync_found-same before id up (lookup id desired) (lookup id off) a
                (rw (← e, found) at k))
              k)
      visit none found (inr n) (inl (inl e, same)) = absurd (ground (arith, int_eq_iff id j, e))
      visit none found (inr n) (inl (inr i, same)) = inl (i, same)
      visit none found (inr n) (inr k) = inr k
      visit (some up) found (inr n) (inl (inl e, same)) =
          absurd (ground (arith, int_eq_iff id j, e))
      visit (some up) found (inr n) (inl (inr i, same)) =
          inl (i, sync_found-other id j up (lookup id desired) (lookup id off) a n ∙ same)
      visit (some up) found (inr n) (inr k) =
          inr (rw (sync_found-other id j up (lookup id desired) (lookup id off) a n) k)

  pub sync_upstreams-same :
      (ids : List ℤ) (desired off : Map ℤ McpServer) (a : Aggregator)
      → ((j : ℤ)
          → (before : Option Upstream) × Kept before
              (lookup j a.ups)
              (lookup j desired)
              (lookup j off))
      → sync_upstreams fingerprint ids desired off a ≡ a
  unfolding sync_upstreams
  sync_upstreams-same [] desired off a h = refl
  sync_upstreams-same (id ∷ ids) desired off a h = elim (Option-cases (lookup id a.ups)) [
    | inl missing ↦ rw missing (sync_upstreams-same ids desired off a h)
    | inr (up, found) ↦
        let (before, k) = h id in
        rw
          (
            found,
            sync_found-same before id up (lookup id desired) (lookup id off) a (rw found at k),
          )
          (sync_upstreams-same ids desired off a h)
  ]
