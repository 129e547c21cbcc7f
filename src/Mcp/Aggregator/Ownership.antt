-- ===== src/Mcp/Aggregator/Ownership.antt =====
-- The registry and the records agree on who owns a public name.
pub mod Filling
pub mod Detaching
pub mod Operations
use coding_switch.Base.{
  ℕ, zero, suc, ◌+◌, Bool, true, false, not, ◌&&◌, ◌||◌, List, [], ◌∷◌, ◌++◌, Option, none, some,
  Bytes, ◌==◌, bytes_is_eq, bytes_eq_iff, int_is_eq, int_eq_iff, ℤ, Map, lookup, insert, delete,
  lookup-insert, lookup-delete, seen_before, if◌then◌else◌, Bool-cases, ◌≡◌, refl, sym, ap, ◌∙◌,
  inl, inr, arith,
}
use coding_switch.Mcp.Naming.{public_tool_name}
use coding_switch.Mcp.Aggregator.{
  Tool, Upstream, ToolRef, Aggregator, delete_all, detach, teardown, Registration, taken_by_other,
  publish, register_as, register_all, register_tools,
}

abbrev pub names_of : Option Upstream → List Bytes
names_of none = []
names_of (some up) = up.tool_names

abbrev pub owned_by : Option ToolRef → ℤ → Bool
owned_by none id = false
owned_by (some ref) id = ref.server_id == id

-- A name stands in the record of `id` exactly if the registry says that `id` owns it.
abbrev pub Owns : Map ℤ Upstream → Map Bytes ToolRef → Type 0
Owns ups tools =
    (id : ℤ) (n : Bytes) → seen_before n (names_of (lookup id ups)) ≡ owned_by (lookup n tools) id

-- Each record stands under the id of its configuration.
abbrev pub Filed : Map ℤ Upstream → Type 0
Filed ups = (id : ℤ) (up : Upstream) → lookup id ups ≡ some up → up.cfg.id ≡ id

pub record Registered (a : Aggregator) : Type 0 where
  pub owns : Owns a.ups a.tools
  pub filed : Filed a.ups

pub lookup-delete_all :
    (n : Bytes) (ns : List Bytes) (tools : Map Bytes ToolRef)
    → lookup n (delete_all ns tools) ≡ (if seen_before n ns then none else lookup n tools)
lookup-delete_all n [] tools = refl
lookup-delete_all n (m ∷ ns) tools =
    ground (arith, lookup-delete_all n ns (delete m tools), lookup-delete m n tools)

-- One owner less: what `detach` does to the two sides at one name.
detach_case :
    (id j : ℤ) (o : Option ToolRef) (b c : Bool)
    → b ≡ owned_by o id
    → c ≡ owned_by o j
    → (if id == j then false else c) ≡ owned_by (if b then none else o) j
detach_case id j none b c h k = ground arith
detach_case id j (some ref) b c h k =
    ground (arith, int_eq_iff id j, int_eq_iff ref.server_id id, int_eq_iff ref.server_id j)

pub names_of-if :
    (b : Bool) (up : Upstream) (o : Option Upstream) (n : Bytes)
    → seen_before n (names_of (if b then some up else o))
      ≡ (if b then seen_before n up.tool_names else seen_before n (names_of o))
names_of-if true up o n = refl
names_of-if false up o n = refl

-- A record whose names are taken out of the registry, and which keeps none of them.
pub cleared-Owns :
    (id : ℤ) (old new : Upstream) (ups : Map ℤ Upstream) (tools : Map Bytes ToolRef)
    → lookup id ups ≡ some old
    → new.tool_names ≡ []
    → Owns ups tools
    → Owns (insert id new ups) (delete_all old.tool_names tools)
cleared-Owns id old new ups tools found empty h j n =
    rw
      (
        lookup-insert id j new ups,
        lookup-delete_all n old.tool_names tools,
        names_of-if (id == j) new (lookup j ups) n,
        empty,
      )
      (detach_case id j (lookup n tools) (seen_before n old.tool_names)
        (seen_before n (names_of (lookup j ups))) (rw found at (h id n)) (h j n))

pub insert-Filed :
    (id : ℤ) (new : Upstream) (ups : Map ℤ Upstream)
    → new.cfg.id ≡ id
    → Filed ups
    → Filed (insert id new ups)
insert-Filed id new ups e h j up found = elim (Bool-cases (id == j)) [
  | inl y ↦
      let same : new ≡ up = cc (rw (lookup-insert id j new ups, y) at found) in
      rw (← same) (e ∙ (int_eq_iff id j).0 y)
  | inr n ↦ h j up (rw (lookup-insert id j new ups, n) at found)
]

no_names :
    (b : Bool) (o : Option Upstream) (n : Bytes) (r : Bool)
    → (b ≡ true → r ≡ false)
    → seen_before n (names_of o) ≡ r
    → seen_before n (names_of (if b then none else o)) ≡ r
no_names true o n r e h = sym (e refl)
no_names false o n r e h = h

-- A record without names is deleted.
pub dropped-Owns :
    (id : ℤ) (ups : Map ℤ Upstream) (tools : Map Bytes ToolRef)
    → names_of (lookup id ups) ≡ []
    → Owns ups tools
    → Owns (delete id ups) tools
dropped-Owns id ups tools empty h j n = rw (lookup-delete id j ups) (
    no_names (id == j) (lookup j ups) n (owned_by (lookup n tools) j)
      (λ y. rw (← (int_eq_iff id j).0 y) (sym (h id n) ∙ rw empty)) (h j n))

-- A record that is replaced by one with the same names.
pub renewed-Owns :
    (id : ℤ) (new : Upstream) (ups : Map ℤ Upstream) (tools : Map Bytes ToolRef)
    → names_of (lookup id ups) ≡ new.tool_names
    → Owns ups tools
    → Owns (insert id new ups) tools
renewed-Owns id new ups tools same h j n =
    rw (lookup-insert id j new ups, names_of-if (id == j) new (lookup j ups) n)
      (elim (Bool-cases (id == j)) [
        | inl y ↦ let e : id ≡ j = (int_eq_iff id j).0 y in rw (y, ← same, ← e) (h id n)
        | inr f ↦ rw f (h j n)
      ])

pub delete-Filed : (id : ℤ) (ups : Map ℤ Upstream) → Filed ups → Filed (delete id ups)
delete-Filed id ups h j up found = elim (Bool-cases (id == j)) [
  | inl y ↦ absurd (cc (rw (lookup-delete id j ups, y) at found))
  | inr n ↦ h j up (rw (lookup-delete id j ups, n) at found)
]
