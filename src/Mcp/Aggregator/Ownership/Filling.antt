-- ===== src/Mcp/Aggregator/Ownership/Filling.antt =====
-- Registering tools keeps the registry and the records in agreement.
use coding_switch.Base.{
  Bool, true, false, ◌||◌, List, [], ◌∷◌, ◌++◌, Option, none, some, Bytes, ◌==◌, bytes_is_eq,
  bytes_eq_iff, int_is_eq, int_eq_iff, ℤ, Map, lookup, insert, lookup-insert, seen_before,
  if◌then◌else◌, Bool-cases, ◌≡◌, ◌∙◌, inl, inr, arith,
}
use coding_switch.Mcp.Naming.{public_tool_name}
use coding_switch.Mcp.Aggregator.{
  Tool, Upstream, ToolRef, Aggregator, Registration, taken_by_other, publish, register_as,
  register_all, register_tools,
}
use coding_switch.Mcp.Aggregator.Ownership.{
  names_of, owned_by, Owns, Filed, Registered, names_of-if, insert-Filed,
}

seen_before-append :
    (n p : Bytes) (xs : List Bytes) → seen_before n (xs ++ p ∷ []) ≡ (seen_before n xs || p == n)
seen_before-append n p [] = ground arith
seen_before-append n p (x ∷ xs) = ground (arith, seen_before-append n p xs)

-- The name that is published, at the record of `j`.
new_name :
    (id j : ℤ) (o : Option ToolRef) (b c : Bool)
    → taken_by_other o id ≡ false
    → (if id == j then b else c) ≡ owned_by o j
    → (if id == j then true else c) ≡ (id == j)
new_name id j none b c free h = ground arith
new_name id j (some ref) b c free h =
    ground (arith, int_eq_iff id j, int_eq_iff ref.server_id id, int_eq_iff ref.server_id j)

publish_case :
    (id j : ℤ) (p n : Bytes) (ref : ToolRef) (tools : Map Bytes ToolRef) (b c : Bool)
    → ref.server_id ≡ id
    → taken_by_other (lookup p tools) id ≡ false
    → (if id == j then b else c) ≡ owned_by (lookup n tools) j
    → (if id == j then (b || p == n) else c)
      ≡ owned_by (if p == n then some ref else lookup n tools) j
publish_case id j p n ref tools b c own free h = elim (Bool-cases (p == n)) [
  | inl y ↦
      let same : p ≡ n = (bytes_eq_iff p n).0 y in
      rw (y, own) (or_true (id == j) b c ∙ new_name id j (lookup n tools) b c (rw same at free) h)
  | inr f ↦ rw f (or_false (id == j) b c ∙ h)
]
  where
    or_true : (t b c : Bool) → (if t then (b || true) else c) ≡ (if t then true else c)
    or_true t b c = ground arith

    or_false : (t b c : Bool) → (if t then (b || false) else c) ≡ (if t then b else c)
    or_false t b c = ground arith

module _ (id : ℤ) (ups : Map ℤ Upstream) where
  -- The agreement while the record `up` is being filled.
  abbrev OwnsWith : Upstream → Map Bytes ToolRef → Type 0
  OwnsWith up tools =
      (j : ℤ) (n : Bytes)
      → (if id == j then seen_before n up.tool_names else seen_before n (names_of (lookup j ups)))
        ≡ owned_by (lookup n tools) j

  to_Owns :
      (up : Upstream) (tools : Map Bytes ToolRef)
      → OwnsWith up tools
      → Owns (insert id up ups) tools
  to_Owns up tools h j n =
      rw (lookup-insert id j up ups, names_of-if (id == j) up (lookup j ups) n) (h j n)

  from_Owns :
      (up : Upstream) (tools : Map Bytes ToolRef)
      → Owns (insert id up ups) tools
      → OwnsWith up tools
  from_Owns up tools h j n =
      rw (lookup-insert id j up ups, names_of-if (id == j) up (lookup j ups) n) at (h j n)

  record FillingAt (r : Registration) : Type 0 where
    own_id : r.up.cfg.id ≡ id
    owns : OwnsWith r.up r.tools

  publish-FillingAt :
      (tool : Tool) (public : Bytes) (r : Registration)
      → taken_by_other (lookup public r.tools) r.up.cfg.id ≡ false
      → FillingAt r
      → FillingAt (publish tool public r)
  unfolding publish
  publish-FillingAt tool public r free f = record {
    own_id = f.own_id;
    owns = λ j n.
        let ref : ToolRef = record { server_id = r.up.cfg.id; upstream_name = tool.name } in
        rw (seen_before-append n public r.up.tool_names, lookup-insert public n ref r.tools)
          (publish_case id j public n ref r.tools (seen_before n r.up.tool_names)
            (seen_before n (names_of (lookup j ups))) f.own_id (rw f.own_id at free) (f.owns j n));
  }

  register_as-FillingAt :
      (tool : Tool) (public : Bytes) (r : Registration)
      → FillingAt r
      → FillingAt (register_as tool public r)
  unfolding register_as
  register_as-FillingAt tool public r f = elim (Bool-cases (seen_before public r.seen)) [
    | inl old ↦ rw old f
    | inr new ↦ rw new (elim (Bool-cases (taken_by_other (lookup public r.tools) r.up.cfg.id)) [
      | inl taken ↦ rw taken (record { own_id = f.own_id; owns = f.owns })
      | inr free ↦ rw free (publish-FillingAt tool public r free f)
    ])
  ]

  register_all-FillingAt :
      (hash : Bytes → Bytes) (tools : List Tool) (r : Registration)
      → FillingAt r
      → FillingAt (register_all hash tools r)
  unfolding register_all
  register_all-FillingAt hash [] r f = f
  register_all-FillingAt hash (tool ∷ tools) r f =
      register_all-FillingAt hash tools _
        (register_as-FillingAt tool (public_tool_name hash r.up.cfg.name tool.name) r f)

-- Registering tools for the record `up` keeps the agreement, if the agreement held with `up` filed.
pub register_tools-Registered :
    (hash : Bytes → Bytes) (id : ℤ) (up : Upstream) (tools : List Tool) (a : Aggregator)
    → up.cfg.id ≡ id
    → Owns (insert id up a.ups) a.tools
    → Filed a.ups
    → Registered (register_tools hash id up tools a)
unfolding register_tools
register_tools-Registered hash id up tools a own owns filed =
    let start : Registration = record { seen = []; up = up; tools = a.tools; calls = a.calls } in
    let r = register_all hash tools start in
    let f =
      register_all-FillingAt id a.ups hash tools start
        (record { own_id = own; owns = from_Owns id a.ups up a.tools owns }) in
    record {
      owns = to_Owns id a.ups r.up r.tools f.owns;
      filed = insert-Filed id r.up a.ups f.own_id filed;
    }
