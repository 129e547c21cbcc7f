-- ===== src/Mcp/Aggregator/Keeping/Operations.antt =====
-- Closing, and the results that come later, keep what their changes keep.
use coding_switch.Base.{
  ℕ, Bool, false, not, ◌||◌, List, [], ◌∷◌, Option, none, some, Bytes, int_is_eq, nat_eq, ℤ, lookup,
  Bool-cases, Option-cases, ◌≡◌, ap, inl, inr, arith,
}
use coding_switch.Mcp.Server.{McpServer}
use coding_switch.Mcp.Aggregator.{Tool, Upstream, Aggregator}
use coding_switch.Mcp.Aggregator.Sync.{ids_of, teardown_all, close}
use coding_switch.Mcp.Aggregator.Results.{
  Outcome, established, refused, discard, settle, finish_connect, same_session, refresh_tools,
  mark_failed,
}
use coding_switch.Mcp.Aggregator.Keeping.{Steady}

module _ (hash : Bytes → Bytes) (fingerprint : McpServer → Bytes) (Inv : Aggregator → Type 0)
    (k : Steady hash fingerprint Inv) where
  teardown_all-keeps : (ids : List ℤ) (a : Aggregator) → Inv a → Inv (teardown_all ids a)
  unfolding teardown_all
  teardown_all-keeps [] a h = h
  teardown_all-keeps (id ∷ ids) a h = teardown_all-keeps ids _ (k.at_teardown id a h)

  pub close-keeps : (a : Aggregator) → Inv a → Inv (close a)
  unfolding close
  close-keeps a h = teardown_all-keeps (ids_of a.ups) _ (k.at_close a h)

  discard-keeps : (o : Outcome) (a : Aggregator) → Inv a → Inv (discard o a)
  discard-keeps (established session tools) a h = k.at_discard session a h
  discard-keeps (refused e) a h = h

  settle-keeps :
      (now : ℕ) (id : ℤ) (up : Upstream) (o : Outcome) (a : Aggregator)
      → lookup id a.ups ≡ some up
      → Inv a
      → Inv (settle hash now id up o a)
  settle-keeps now id up (refused e) a found h = k.at_refusal now id up e a found h
  settle-keeps now id up (established session tools) a found h =
      k.at_connection id up session tools a found h

  pub finish_connect-keeps :
      (now : ℕ) (id : ℤ) (generation : ℕ) (o : Outcome) (a : Aggregator)
      → Inv a
      → Inv (finish_connect hash now id generation o a)
  unfolding finish_connect
  finish_connect-keeps now id generation o a h = elim (Option-cases (lookup id a.ups)) [
    | inl missing ↦ rw missing (discard-keeps o a h)
    | inr (up, found) ↦
        rw found (elim (Bool-cases (not (nat_eq up.generation generation) || a.closed)) [
          | inl y ↦ rw y (discard-keeps o a h)
          | inr n ↦ rw n (settle-keeps now id up o a found h)
        ])
  ]

  held_session :
      (o : Option ℕ) (session : ℕ) (b : Bool)
      → (not (same_session o session) || b) ≡ false
      → o ≡ some session
  held_session none session b e = cc e
  held_session (some held) session b e = ap some (ground (arith, e))

  pub refresh_tools-keeps :
      (id : ℤ) (session generation : ℕ) (tools : List Tool) (a : Aggregator)
      → Inv a
      → Inv (refresh_tools hash id session generation tools a)
  unfolding refresh_tools
  refresh_tools-keeps id session generation tools a h = elim (Option-cases (lookup id a.ups)) [
    | inl missing ↦ rw missing h
    | inr (up, found) ↦
        let stale = not (nat_eq up.generation generation) || a.closed in
        rw found (elim (Bool-cases (not (same_session up.session session) || stale)) [
          | inl y ↦ rw y h
          | inr n ↦
              rw n (
                k.at_refresh id up session tools a found (held_session up.session session stale n)
                  h)
        ])
  ]

  pub mark_failed-keeps :
      (now : ℕ) (id : ℤ) (session : ℕ) (e : Bytes) (a : Aggregator)
      → Inv a
      → Inv (mark_failed now id session e a)
  unfolding mark_failed
  mark_failed-keeps now id session e a h = elim (Option-cases (lookup id a.ups)) [
    | inl missing ↦ rw missing h
    | inr (up, found) ↦ rw found (elim (Bool-cases (not (same_session up.session session))) [
      | inl y ↦ rw y h
      | inr n ↦ rw n (k.at_failure now id up e a found h)
    ])
  ]
