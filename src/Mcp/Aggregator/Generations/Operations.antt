-- ===== src/Mcp/Aggregator/Generations/Operations.antt =====
-- Each operation gives a record its old number or a new one.
use coding_switch.Base.{
  ◌+◌, List, [], ◌++◌, some, Bytes, int_is_eq, ℤ, lookup, insert, ◌≡◌, refl, sym, ◌∙◌, inl, inr,
  arith,
}
use coding_switch.Mcp.Server.{McpServer}
use coding_switch.Mcp.Aggregator.{
  connecting, Tool, Upstream, Aggregator, register_tools, detach, detached_record, delete_all,
  remove_call,
}
use coding_switch.Mcp.Aggregator.Filled.{field-register_all}
use coding_switch.Mcp.Aggregator.Sync.{disable, new_upstream}
use coding_switch.Mcp.Aggregator.Results.{connected_record, refused_record}
use coding_switch.Mcp.Aggregator.Generations.{
  Evolves, Evolves-refl, Evolves-trans, write-Evolves, same-Evolves, detach-Evolves,
  teardown-Evolves, lookup-detach, lookup-written,
}
use coding_switch.Mcp.Aggregator.Keeping.{cleared, failed_state, Steady}
use coding_switch.Mcp.Aggregator.Reach.{Steps, Steps-keeps}

module _ (hash : Bytes → Bytes) (fingerprint : McpServer → Bytes) where
  register_tools-Evolves :
      (id : ℤ) (old up : Upstream) (tools : List Tool) (a : Aggregator)
      → lookup id a.ups ≡ some old
      → old.generation ≡ up.generation
      → Evolves a (register_tools hash id up tools a)
  unfolding register_tools
  register_tools-Evolves id old up tools a found same = write-Evolves id _ a _ (omega arith) refl (
      inl (
        old,
        found,
        same
            ∙ sym (
                field-register_all (λ u. u.generation) (λ u names details. refl) hash tools
                  (record { seen = []; up = up; tools = a.tools; calls = a.calls })),
      ))

  pub detached-Evolves :
      (id : ℤ) (up new : Upstream) (a b : Aggregator)
      → b.gen_seq ≡ (detach id up a).gen_seq
      → b.ups ≡ insert id new (detach id up a).ups
      → new.generation ≡ (detached_record (a.gen_seq + 1) up).generation
      → Evolves a b
  detached-Evolves id up new a b g u n = Evolves-trans (detach-Evolves id up a) (
      write-Evolves id new (detach id up a) b (omega arith) u
        (inl (detached_record (a.gen_seq + 1) up, lookup-detach id up a, sym n)))

  pub Evolves-Steady : (a0 : Aggregator) → Steady hash fingerprint (Evolves a0)
  unfolding detach
  Evolves-Steady a0 = record {
    at_teardown = λ id a h. Evolves-trans h (teardown-Evolves id a);
    at_disable = λ id up cfg a found own h.
        Evolves-trans h
          (detached-Evolves id up _ a (disable id up cfg (fingerprint cfg) a) refl refl refl);
    at_new = λ id cfg a jobs missing own h. Evolves-trans h (
        write-Evolves id
          (record (new_upstream cfg (fingerprint cfg)) { generation = a.gen_seq + 1 }) a _
          (omega arith) refl (inr (omega arith, omega arith)));
    at_start = λ id cfg up a jobs found h. Evolves-trans h (
        write-Evolves id (record up { state = connecting; error = []; generation = a.gen_seq + 1 })
          a _ (omega arith) refl (inr (omega arith, omega arith)));
    at_discard = λ session a h. Evolves-trans h (same-Evolves a _ refl refl);
    at_refusal = λ now id up e a found h.
        Evolves-trans h (
          write-Evolves id (refused_record now up e) a _ (omega arith) refl
            (inl (up, found, refl)));
    at_connection = λ id up session tools a found h.
        Evolves-trans h
          (register_tools-Evolves id up (connected_record up session) tools a found refl);
    at_refresh = λ id up session tools a found has h.
        let middle : Aggregator = record a {
          ups = insert id (cleared up) a.ups;
          tools = delete_all up.tool_names a.tools;
          calls = a.calls ++ remove_call up.tool_names;
        } in
        Evolves-trans h (
          Evolves-trans
            (write-Evolves id (cleared up) a middle (omega arith) refl (inl (up, found, refl)))
            (register_tools-Evolves id (cleared up) (cleared up) tools middle
              (lookup-written id (cleared up) a.ups) refl));
    at_failure = λ now id up e a found h.
        Evolves-trans h (detached-Evolves id up _ a (failed_state now id up e a) refl refl refl);
    at_close = λ a h. Evolves-trans h (same-Evolves a _ refl refl);
  }

  pub Steps-Evolves : {a b : Aggregator} → Steps hash fingerprint a b → Evolves a b
  Steps-Evolves {a} = Steps-keeps hash fingerprint (Evolves a) (Evolves-Steady a) (Evolves-refl a)
