-- ===== src/Mcp/Aggregator/Calls/Published.antt =====
-- A published tool reaches a session.
use coding_switch.Base.{
  ℕ, true, [], Option, none, some, Bytes, bytes_is_eq, int_is_eq, ℤ, lookup, beq_refl, seen_before,
  Option-cases, ◌≡◌, refl, ◌∙◌, inl, inr,
}
use coding_switch.Mcp.Server.{McpServer}
use coding_switch.Mcp.Aggregator.{ToolRef, Upstream, Aggregator}
use coding_switch.Mcp.Aggregator.Calls.{timeout_of, target_of, call_target}
use coding_switch.Mcp.Aggregator.Ownership.{names_of}
use coding_switch.Mcp.Aggregator.Reach.{new_aggregator, Steps, Steps-Registered}
use coding_switch.Mcp.Aggregator.Filled.{field-register_all}
use coding_switch.Mcp.Aggregator.Everywhere.{Kept, Steps-Everywhere}

-- A record without a session has no tools.
abbrev HasSession : Upstream → Type 0
HasSession up = up.session ≡ none → up.tool_names ≡ []

HasSession-Kept : Kept HasSession
HasSession-Kept = record {
  at_detach = λ g up h e. refl;
  at_disable = λ g up cfg f h e. refl;
  at_new = λ g cfg f e. refl;
  at_start = λ g up h. h;
  at_refusal = λ now up e h. h;
  at_connection = λ session up h e. absurd (cc e);
  at_clearing = λ up h e. refl;
  at_registration = λ hash tools r session has h e.
      absurd
        (cc (e, has, field-register_all (λ u. u.session) (λ u names details. refl) hash tools r));
  at_failure = λ now g up e h x. refl;
}

module _ (hash : Bytes → Bytes) (fingerprint : McpServer → Bytes) where
  target :
      (o : Option Upstream) (n : Bytes)
      → ((up : Upstream) → o ≡ some up → HasSession up)
      → seen_before n (names_of o) ≡ true
      → (session : ℕ) × (seconds : ℤ) × (target_of o ≡ some (session, seconds))
  target none n live h = absurd (cc h)
  target (some up) n live h = elim (Option-cases up.session) [
    | inl missing ↦ absurd (cc (rw (live up refl missing) at h))
    | inr (session, found) ↦ (session, timeout_of up.cfg.timeout_sec, rw found refl)
  ]

  -- In every state that the operations reach from a new aggregator, a call of any published tool finds
  -- a session of the server that the registry names.
  pub published-call_target :
      {a : Aggregator}
      → Steps hash fingerprint new_aggregator a
      → (n : Bytes) (ref : ToolRef) → lookup n a.tools ≡ some ref
      → (session : ℕ) × (seconds : ℤ) × (call_target ref.server_id a ≡ some (session, seconds))
  unfolding call_target
  published-call_target {a} s n ref found =
      let named : seen_before n (names_of (lookup ref.server_id a.ups)) ≡ true =
        (Steps-Registered hash fingerprint s).owns ref.server_id n
        ∙ rw found (beq_refl ref.server_id) in
      target (lookup ref.server_id a.ups) n
        (Steps-Everywhere HasSession HasSession-Kept hash fingerprint s ref.server_id) named
