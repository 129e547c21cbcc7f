-- ===== src/Mcp/Aggregator/Filled.antt =====
-- Registering tools changes nothing in a record but its list of tools.
use coding_switch.Base.{
  List, [], ◌∷◌, Bytes, ◌≡◌, refl, ◌∙◌, inl, inr, lookup, bytes_is_eq, int_is_eq, seen_before,
  Bool-cases,
}
use coding_switch.Mcp.Naming.{public_tool_name}
use coding_switch.Mcp.Aggregator.{
  Tool, ToolInfo, Upstream, Registration, taken_by_other, publish, register_as, register_all,
}

module _ {X : Type 0} (field : Upstream → X)
    (apart : (up : Upstream) (names : List Bytes) (details : List ToolInfo)
      → field (record up { tool_names = names; tool_details = details }) ≡ field up) where
  field-register_as :
      (tool : Tool) (p : Bytes) (r : Registration) → field (register_as tool p r).up ≡ field r.up
  unfolding register_as publish
  field-register_as tool p r = elim (Bool-cases (seen_before p r.seen)) [
    | inl old ↦ rw old refl
    | inr new ↦ rw new (elim (Bool-cases (taken_by_other (lookup p r.tools) r.up.cfg.id)) [
      | inl y ↦ rw y refl
      | inr n ↦ rw n (apart r.up _ _)
    ])
  ]

  pub field-register_all :
      (hash : Bytes → Bytes) (tools : List Tool) (r : Registration)
      → field (register_all hash tools r).up ≡ field r.up
  unfolding register_all
  field-register_all hash [] r = refl
  field-register_all hash (tool ∷ tools) r =
      field-register_all hash tools _
      ∙ field-register_as tool (public_tool_name hash r.up.cfg.name tool.name) r
