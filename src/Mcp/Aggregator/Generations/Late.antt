-- ===== src/Mcp/Aggregator/Generations/Late.antt =====
-- A record whose number was given out after a given one (internal/mcpgateway/application/aggregator.go),
-- as a pass over the configuration leaves it where it takes out the one of before.
use coding_switch.Base.{
  ℕ, ◌+◌, true, false, not, List, [], ◌∷◌, Option, none, some, Bytes, ◌==◌, bytes_is_eq, int_is_eq,
  int_eq_iff, ℤ, Map, lookup, In, beq_refl, Bool-cases, ◌≡◌, refl, ap, ◌∙◌, ◌⊎◌, inl, inr, arith,
  ◌≤◌, ◌<◌,
}
use coding_switch.Mcp.Server.{McpServer}
use coding_switch.Mcp.Aggregator.{Upstream, Aggregator, detach, teardown}
use coding_switch.Mcp.Aggregator.Sync.{
  is_disabled, disable, sync_found, sync_upstream, sync_upstreams,
}
use coding_switch.Mcp.Aggregator.Closed.{lookup-teardown}
use coding_switch.Mcp.Aggregator.Converging.{sync_found-other}
use coding_switch.Mcp.Aggregator.Generations.{
  Evolves, Evolves-refl, teardown-Evolves, lookup-written,
}
use coding_switch.Mcp.Aggregator.Generations.Operations.{detached-Evolves}

module _ (hash : Bytes → Bytes) (fingerprint : McpServer → Bytes) where
  -- A pass that reads these servers takes the record out: its server is not listed, or it is listed as
  -- disabled and the record is not, or the configuration of the record is another one.
  abbrev pub IsOutdated : Upstream → Option McpServer → Option McpServer → Type 0
  IsOutdated up (some cfg) off = (up.fingerprint == fingerprint cfg) ≡ false
  IsOutdated up none none = Unit
  IsOutdated up none (some cfg) = is_disabled up.state ≡ false

  -- The record of `id`, if there is one, has a number that was given out after `s`.
  pub record Late (id : ℤ) (s : ℕ) (a : Aggregator) : Type 0 where
    pub issued : s ≤ a.gen_seq
    pub since : (up : Upstream) → lookup id a.ups ≡ some up → s < up.generation

  pub Late-Evolves : (id : ℤ) (s : ℕ) (a b : Aggregator) → Late id s a → Evolves a b → Late id s b
  Late-Evolves id s a b l e = record {
    issued = le_trans l.issued e.grows;
    since = λ up found. elim (e.from id up found) [
      | inl (old, at, same) ↦ moved (l.since old at) same
      | inr (h, k) ↦ lt_of l.issued h
    ];
  }
    where
      le_trans : {x y z : ℕ} → x ≤ y → y ≤ z → x ≤ z
      le_trans h k = omega arith

      moved : {x y z : ℕ} → x < y → y ≡ z → x < z
      moved h k = omega arith

      lt_of : {x y z : ℕ} → x ≤ y → y < z → x < z
      lt_of h k = omega arith

  -- A record that was written with the next number.
  pub written-Late :
      (id : ℤ) (s : ℕ) (new : Upstream) (a b : Aggregator)
      → s ≤ a.gen_seq
      → b.gen_seq ≡ a.gen_seq + 1
      → lookup id b.ups ≡ some new
      → new.generation ≡ a.gen_seq + 1
      → Late id s b
  written-Late id s new a b h g at n = record {
    issued = omega arith;
    since =
        λ up found. let same : new ≡ up = cc (at, found) in below h n (ap Upstream.generation same);
  }
    where
      below : {x y u v : ℕ} → x ≤ y → u ≡ y + 1 → u ≡ v → x < v
      below h k e = omega arith

  pub gone-Late :
      (id : ℤ) (s : ℕ) (a b : Aggregator)
      → s ≤ a.gen_seq
      → Evolves a b
      → lookup id b.ups ≡ none
      → Late id s b
  gone-Late id s a b h e missing = record {
    issued = omega (arith, e.grows);
    since = λ up found. absurd (cc (missing, found));
  }

  torn-Late : (id : ℤ) (s : ℕ) (a : Aggregator) → s ≤ a.gen_seq → Late id s (teardown id a)
  torn-Late id s a h =
      gone-Late id s a (teardown id a) h (teardown-Evolves id a)
        (lookup-teardown id id a ∙ rw (beq_refl id) refl)

  found-Late :
      (id : ℤ) (s : ℕ) (up : Upstream) (want off : Option McpServer) (a : Aggregator)
      → s ≤ a.gen_seq
      → IsOutdated up want off
      → Late id s (sync_found fingerprint id up want off a)
  unfolding detach
  found-Late id s up (some cfg) off a h o = rw o (torn-Late id s a h)
  found-Late id s up none none a h o = torn-Late id s a h
  found-Late id s up none (some cfg) a h o = rw o (
      written-Late id s _ a (disable id up cfg (fingerprint cfg) a) h refl
        (lookup-written id _ (detach id up a).ups) refl)

  found-Evolves :
      (id : ℤ) (up : Upstream) (want off : Option McpServer) (a : Aggregator)
      → Evolves a (sync_found fingerprint id up want off a)
  unfolding detach
  found-Evolves id up (some cfg) off a =
      elim (Bool-cases (not (up.fingerprint == fingerprint cfg))) [
        | inl y ↦ rw y (teardown-Evolves id a)
        | inr n ↦ rw n (Evolves-refl a)
      ]
  found-Evolves id up none none a = teardown-Evolves id a
  found-Evolves id up none (some cfg) a = elim (Bool-cases (not (is_disabled up.state))) [
    | inl y ↦ rw y (
        detached-Evolves hash fingerprint id up _ a (disable id up cfg (fingerprint cfg) a) refl
          refl refl)
    | inr n ↦ rw n (Evolves-refl a)
  ]

  upstream-Evolves :
      (id : ℤ) (o : Option Upstream) (desired off : Map ℤ McpServer) (a : Aggregator)
      → Evolves a (sync_upstream fingerprint id o desired off a)
  upstream-Evolves id none desired off a = Evolves-refl a
  upstream-Evolves id (some up) desired off a =
      found-Evolves id up (lookup id desired) (lookup id off) a

  pub upstreams-Late :
      (ids : List ℤ) (desired off : Map ℤ McpServer) (j : ℤ) (s : ℕ) (up : Upstream)
      (a : Aggregator)
      → s ≤ a.gen_seq
      → IsOutdated up (lookup j desired) (lookup j off)
      → (In j ids × (lookup j a.ups ≡ some up)) ⊎ Late j s a
      → Late j s (sync_upstreams fingerprint ids desired off a)
  unfolding sync_upstreams
  upstreams-Late [] desired off j s up a h o (inl (i, e)) = absurd i
  upstreams-Late [] desired off j s up a h o (inr l) = l
  upstreams-Late (id ∷ ids) desired off j s up a h o t =
      let e = upstream-Evolves id (lookup id a.ups) desired off a in
      upstreams-Late ids desired off j s up _ (omega (arith, e.grows)) o
        (visit t (Bool-cases (id == j)))
    where
      visit :
          (In j (id ∷ ids) × (lookup j a.ups ≡ some up)) ⊎ Late j s a
          → ((id == j) ≡ true) ⊎ ((id == j) ≡ false)
          → (In j ids
              × (lookup j (sync_upstream fingerprint id (lookup id a.ups) desired off a).ups
                  ≡ some up))
            ⊎ Late j s (sync_upstream fingerprint id (lookup id a.ups) desired off a)
      visit (inr l) c =
          inr (Late-Evolves j s a _ l (upstream-Evolves id (lookup id a.ups) desired off a))
      visit (inl (i, found)) (inl y) =
          let same : id ≡ j = (int_eq_iff id j).0 y in
          inr (rw (same, found) (found-Late j s up (lookup j desired) (lookup j off) a h o))
      visit (inl (inl e, found)) (inr n) = absurd (ground (arith, int_eq_iff id j, e))
      visit (inl (inr i, found)) (inr n) = inl (i, other (lookup id a.ups) n ∙ found)
        where
          other :
              (p : Option Upstream)
              → (id == j) ≡ false
              → lookup j (sync_upstream fingerprint id p desired off a).ups ≡ lookup j a.ups
          other none n = refl
          other (some q) n =
              sync_found-other fingerprint id j q (lookup id desired) (lookup id off) a n
