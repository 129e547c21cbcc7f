-- ===== src/Mcp/Aggregator/Views/Catalog.antt =====
-- The catalog for the user interface and the registry list the same tools.
use coding_switch.Base.{
  Bool, true, false, List, [], ◌∷◌, ◌++◌, map, Option, none, some, Bytes, bytes_is_eq, int_is_eq, ℤ,
  Map, lookup, In, In-append, In-append_left, In-append_right, In-sort_by, In-of_sort_by, All,
  All-In, All-append, seen_before, seen_before-In, seen_before_of_In, if◌then◌else◌, ◌≡◌, ◌↔◌, refl,
  sym, ap, ◌∙◌, inl, inr,
}
use coding_switch.Mcp.Server.{McpServer}
use coding_switch.Mcp.Naming.{public_tool_name}
use coding_switch.Mcp.Aggregator.{
  Tool, ToolInfo, Upstream, Aggregator, Registration, kept_details, taken_by_other, new_tool_info,
  publish, register_as, register_all,
}
use coding_switch.Mcp.Aggregator.Sync.{ids_of}
use coding_switch.Mcp.Aggregator.Ownership.{names_of, owned_by, Registered}
use coding_switch.Mcp.Aggregator.Reach.{new_aggregator, Steps, Steps-Registered}
use coding_switch.Mcp.Aggregator.Everywhere.{Kept, Steps-Everywhere}
use coding_switch.Mcp.Aggregator.Converging.Pass.{In-ids_of}
use coding_switch.Mcp.Aggregator.Views.{details_of, all_details, catalog_less, tool_catalog}

abbrev public : ToolInfo → Bytes
public i = i.public_name

-- The details of a record are of its names and its server.
abbrev Detailed : Upstream → Type 0
Detailed up =
    (map public up.tool_details ≡ up.tool_names)
    × All (λ (i : ToolInfo). i.server_id ≡ up.cfg.id) up.tool_details

emptied :
    (names : List Bytes) (details : List ToolInfo)
    → map public details ≡ names
    → kept_details names details ≡ []
emptied (n ∷ names) details h = refl
emptied [] [] h = refl
emptied [] (i ∷ details) h = absurd (cc h)

map-snoc :
    (details : List ToolInfo) (i : ToolInfo)
    → map public (details ++ i ∷ []) ≡ map public details ++ public i ∷ []
map-snoc [] i = refl
map-snoc (j ∷ details) i = ap (◌∷◌ (public j)) (map-snoc details i)

publish-Detailed :
    (tool : Tool) (p : Bytes) (r : Registration) → Detailed r.up → Detailed (publish tool p r).up
unfolding publish
publish-Detailed tool p r (m, o) = (
  map-snoc r.up.tool_details (new_tool_info r.up tool p) ∙ rw m refl,
  All-append (λ (i : ToolInfo). i.server_id ≡ r.up.cfg.id) r.up.tool_details
      (new_tool_info r.up tool p ∷ []) o (refl, tt),
)

register_as-Detailed :
    (tool : Tool) (p : Bytes) (r : Registration)
    → Detailed r.up
    → Detailed (register_as tool p r).up
unfolding register_as
register_as-Detailed tool p r h =
    seen_or (seen_before p r.seen) (taken_by_other (lookup p r.tools) r.up.cfg.id)
  where
    seen_or :
        (b c : Bool)
        → Detailed
            (if b then r else if c then record r { seen = p ∷ r.seen } else publish tool p r).up
    seen_or true c = h
    seen_or false true = h
    seen_or false false = publish-Detailed tool p r h

register_all-Detailed :
    (hash : Bytes → Bytes) (tools : List Tool) (r : Registration)
    → Detailed r.up
    → Detailed (register_all hash tools r).up
unfolding register_all
register_all-Detailed hash [] r h = h
register_all-Detailed hash (tool ∷ tools) r h =
    register_all-Detailed hash tools _
      (register_as-Detailed tool (public_tool_name hash r.up.cfg.name tool.name) r h)

bare :
    (up : Upstream) (id : ℤ)
    → Detailed up
    → let left = kept_details up.tool_names up.tool_details in
      (map public left ≡ []) × All (λ (i : ToolInfo). i.server_id ≡ id) left
bare up id (m, o) = rw (emptied up.tool_names up.tool_details m) (refl, tt)

Detailed-Kept : Kept Detailed
Detailed-Kept = record {
  at_detach = λ g up h. bare up up.cfg.id h;
  at_disable = λ g up cfg f h. bare up cfg.id h;
  at_new = λ g cfg f. (refl, tt);
  at_start = λ g up h. h;
  at_refusal = λ now up e h. h;
  at_connection = λ session up h. h;
  at_clearing = λ up h. bare up up.cfg.id h;
  at_registration = λ hash tools r session has h. register_all-Detailed hash tools r h;
  at_failure = λ now g up e h. bare up up.cfg.id h;
}

-- Where an entry of the catalog comes from.
In-all_details :
    (info : ToolInfo) (ids : List ℤ) (ups : Map ℤ Upstream)
    → In info (all_details ids ups)
    → (id : ℤ) × In info (details_of (lookup id ups))
In-all_details info [] ups i = absurd i
In-all_details info (id ∷ ids) ups i =
    elim (In-append info (details_of (lookup id ups)) (all_details ids ups) i) [
      | inl h ↦ (id, h)
      | inr t ↦ In-all_details info ids ups t
    ]

all_details-In :
    (info : ToolInfo) (id : ℤ) (ids : List ℤ) (ups : Map ℤ Upstream)
    → In id ids
    → In info (details_of (lookup id ups))
    → In info (all_details ids ups)
all_details-In info id [] ups i h = absurd i
all_details-In info id (j ∷ ids) ups (inl e) h =
    In-append_left info (details_of (lookup j ups)) (all_details ids ups) (rw e at h)
all_details-In info id (j ∷ ids) ups (inr i) h =
    In-append_right info (details_of (lookup j ups)) (all_details ids ups)
      (all_details-In info id ids ups i h)

map-In :
    (info : ToolInfo) (details : List ToolInfo)
    → In info details
    → In (public info) (map public details)
map-In info (j ∷ details) (inl e) = inl (ap public e)
map-In info (j ∷ details) (inr i) = inr (map-In info details i)
map-In info [] i = absurd i

In-map :
    (n : Bytes) (details : List ToolInfo)
    → In n (map public details)
    → (info : ToolInfo) × In info details × (public info ≡ n)
In-map n [] i = absurd i
In-map n (j ∷ details) (inl e) = (j, inl refl, sym e)
In-map n (j ∷ details) (inr i) = let (info, k, e) = In-map n details i in (info, inr k, e)

module _ (hash : Bytes → Bytes) (fingerprint : McpServer → Bytes) where
  listed :
      (a : Aggregator) (id : ℤ) (n : Bytes) (info : ToolInfo) (o : Option Upstream)
      → Registered a
      → lookup id a.ups ≡ o
      → ((up : Upstream) → o ≡ some up → Detailed up)
      → In info (details_of o)
      → (seen_before (public info) (names_of o) ≡ true) × (info.server_id ≡ id)
  listed a id n info none reg at det i = absurd i
  listed a id n info (some up) reg at det i =
      let d = det up refl in
      (
        seen_before_of_In (public info) up.tool_names (rw d.0 at (map-In info up.tool_details i)),
        All-In (λ (j : ToolInfo). j.server_id ≡ up.cfg.id) info up.tool_details d.1 i
            ∙ reg.filed id up at,
      )

  shown :
      (a : Aggregator) (id : ℤ) (n : Bytes) (o : Option Upstream)
      → Registered a
      → lookup id a.ups ≡ o
      → ((up : Upstream) → o ≡ some up → Detailed up)
      → seen_before n (names_of o) ≡ true
      → (info : ToolInfo) × In info (tool_catalog a)
        × (info.public_name ≡ n)
        × (info.server_id ≡ id)
  unfolding tool_catalog
  shown a id n none reg at det h = absurd (cc h)
  shown a id n (some up) reg at det h =
      let d = det up refl in
      let (info, i, e) =
        In-map n up.tool_details (rw (← d.0) at (seen_before-In n up.tool_names h)) in
      (
        info,
        In-sort_by catalog_less info _ (
            all_details-In info id (ids_of a.ups) a.ups (In-ids_of fingerprint id a.ups up at)
              (rw at i)),
        e,
        All-In (λ (j : ToolInfo). j.server_id ≡ up.cfg.id) info up.tool_details d.1 i
            ∙ reg.filed id up at,
      )

  -- In every state that the operations reach from a new aggregator, a server stands in the catalog with a
  -- public name exactly if the registry gives that name to that server.
  pub tool_catalog-owned :
      {a : Aggregator}
      → Steps hash fingerprint new_aggregator a
      → (n : Bytes) (id : ℤ)
      → ((info : ToolInfo) × In info (tool_catalog a)
          × (info.public_name ≡ n)
          × (info.server_id ≡ id))
        ↔ (owned_by (lookup n a.tools) id ≡ true)
  unfolding tool_catalog
  tool_catalog-owned {a} s n id =
      let reg = Steps-Registered hash fingerprint s in
      let det = Steps-Everywhere Detailed Detailed-Kept hash fingerprint s in
      (
        λ (info, i, e, q).
            let (j, k) =
              In-all_details info (ids_of a.ups) a.ups
                (In-of_sort_by catalog_less info (all_details (ids_of a.ups) a.ups) i) in
            let (seen, own) = listed a j n info (lookup j a.ups) reg refl (det j) k in
            rw (← e, ← q, own) (sym (reg.owns j (public info)) ∙ seen),
        λ h. shown a id n (lookup id a.ups) reg refl (det id) (reg.owns id n ∙ h),
      )
