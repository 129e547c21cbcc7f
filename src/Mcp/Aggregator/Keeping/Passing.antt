-- ===== src/Mcp/Aggregator/Keeping/Passing.antt =====
-- A pass over the configuration keeps what its changes keep.
use coding_switch.Base.{
  ℕ, Bool, true, false, not, ◌&&◌, List, [], ◌∷◌, Option, none, some, Bytes, ◌==◌, bytes_is_eq,
  int_is_eq, leb, ℤ, Map, lookup, insert, All, All-In, In-lookup, if◌then◌else◌, Bool-cases,
  Option-cases, ◌≡◌, refl, inl, inr,
}
use coding_switch.Mcp.Server.{McpServer}
use coding_switch.Mcp.Aggregator.{Upstream, Aggregator}
use coding_switch.Mcp.Aggregator.Sync.{
  is_disabled, is_failed, servers_by_id, Job, ids_of, sync_found, sync_upstreams, sync_server,
  sync_servers, sync_once,
}
use coding_switch.Mcp.Aggregator.Keeping.{Steady}

-- The servers stand under their ids.
abbrev pub Listed : Map ℤ McpServer → Type 0
Listed m = All (λ (e : ℤ × McpServer). e.1.id ≡ e.0) m

Listed-lookup :
    (m : Map ℤ McpServer) (id : ℤ) (cfg : McpServer)
    → Listed m
    → lookup id m ≡ some cfg
    → cfg.id ≡ id
Listed-lookup m id cfg l found =
    All-In (λ (e : ℤ × McpServer). e.1.id ≡ e.0) (id, cfg) m l (In-lookup id cfg m found)

insert-Listed : (s : McpServer) (m : Map ℤ McpServer) → Listed m → Listed (insert s.id s m)
insert-Listed s [] l = (refl, tt)
insert-Listed s ((id, cfg) ∷ m) l = elim (Bool-cases (id == s.id)) [
  | inl y ↦ rw y (refl, l.1)
  | inr n ↦ rw n (l.0, insert-Listed s m l.1)
]

pub servers-Listed :
    (b : Bool) (ss : List McpServer) (m : Map ℤ McpServer)
    → Listed m
    → Listed (servers_by_id b ss m)
servers-Listed b [] m l = l
servers-Listed b (s ∷ ss) m l = elim (Bool-cases (if s.enabled then b else not b)) [
  | inl y ↦ rw y (servers-Listed b ss _ (insert-Listed s m l))
  | inr n ↦ rw n (servers-Listed b ss m l)
]

module _ (hash : Bytes → Bytes) (fingerprint : McpServer → Bytes) (Inv : Aggregator → Type 0)
    (k : Steady hash fingerprint Inv) where
  sync_found-keeps :
      (id : ℤ) (up : Upstream) (want off : Option McpServer) (a : Aggregator)
      → lookup id a.ups ≡ some up
      → ((cfg : McpServer) → off ≡ some cfg → cfg.id ≡ id)
      → Inv a
      → Inv (sync_found fingerprint id up want off a)
  sync_found-keeps id up none none a found own h = k.at_teardown id a h
  sync_found-keeps id up none (some cfg) a found own h =
      elim (Bool-cases (not (is_disabled up.state))) [
        | inl y ↦ rw y (k.at_disable id up cfg a found (own cfg refl) h)
        | inr n ↦ rw n h
      ]
  sync_found-keeps id up (some cfg) off a found own h =
      elim (Bool-cases (not (up.fingerprint == fingerprint cfg))) [
        | inl y ↦ rw y (k.at_teardown id a h)
        | inr n ↦ rw n h
      ]

  sync_upstreams-keeps :
      (ids : List ℤ) (desired off : Map ℤ McpServer) (a : Aggregator)
      → Listed off
      → Inv a
      → Inv (sync_upstreams fingerprint ids desired off a)
  unfolding sync_upstreams
  sync_upstreams-keeps [] desired off a l h = h
  sync_upstreams-keeps (id ∷ ids) desired off a l h = elim (Option-cases (lookup id a.ups)) [
    | inl missing ↦ rw missing (sync_upstreams-keeps ids desired off a l h)
    | inr (up, found) ↦ rw found (
        sync_upstreams-keeps ids desired off _ l (
          sync_found-keeps id up (lookup id desired) (lookup id off) a found
            (λ cfg e. Listed-lookup off id cfg l e) h))
  ]

  sync_server-keeps :
      (now : ℕ) (id : ℤ) (cfg : McpServer) (a : Aggregator) (jobs : List Job)
      → cfg.id ≡ id
      → Inv a
      → Inv (sync_server fingerprint now id cfg (lookup id a.ups) (a, jobs)).0
  sync_server-keeps now id cfg a jobs own h = elim (Option-cases (lookup id a.ups)) [
    | inl missing ↦ rw missing (k.at_new id cfg a jobs missing own h)
    | inr (up, found) ↦
        rw found
          (elim (Bool-cases
            (not (is_disabled up.state) && not (is_failed up.state && leb up.next_retry now))) [
              | inl y ↦ rw y h
              | inr n ↦ rw n (k.at_start id cfg up a jobs found h)
            ])
  ]

  pub sync_servers-keeps :
      (now : ℕ) (m : Map ℤ McpServer) (s : Aggregator × List Job)
      → Listed m
      → Inv s.0
      → Inv (sync_servers fingerprint now m s).0
  unfolding sync_servers
  sync_servers-keeps now [] s l h = h
  sync_servers-keeps now ((id, cfg) ∷ m) (a, jobs) l h =
      sync_servers-keeps now m _ l.1 (sync_server-keeps now id cfg a jobs l.0 h)

  pub sync_once-keeps :
      (now : ℕ) (servers : List McpServer) (a : Aggregator)
      → Inv a
      → Inv (sync_once fingerprint now servers a).0
  unfolding sync_once
  sync_once-keeps now servers a h = elim (Bool-cases a.closed) [
    | inl y ↦ simp y h
    | inr n ↦ simp n (
        sync_servers-keeps now (servers_by_id true servers []) _ (servers-Listed true servers [] tt)
          (sync_upstreams-keeps (ids_of a.ups) (servers_by_id true servers [])
            (servers_by_id false servers []) a (servers-Listed false servers [] tt) h))
  ]
