-- ===== src/PlatformProxy/Claude/Snapshots.antt =====
-- The snapshot that a takeover of the Claude tool saves can be restored.
use coding_switch.Base.{
  Bool, true, List, [], ◌∷◌, Option, some, Bytes, bytes_is_eq, Map, Bool-cases, Result, ok, err,
  bind_ok, ◌>>=◌, ◌≡◌, refl, sym, ap, ◌∙◌, inl, inr,
}
use coding_switch.PlatformProxy.JsonEdit.{
  JsonLibrary, JsonError, JsonFieldEdit, validate_json_object, validate_json_parents, raw_values,
  read_json_field_values, snapshot_edit, json_snapshot_edits, json_container_presence,
}
use coding_switch.PlatformProxy.State.{Snapshot, ProxyState, ProxyError, saved}
use coding_switch.PlatformProxy.Claude.{
  token_path, url_path, claude_proxy_field_paths, env_container, on_json, claude_snapshot,
  new_state, new_cycle,
}

module _ (json : JsonLibrary) (quote : Bytes → Bytes)
    (decode_env : Bytes → Option (Map Bytes Bytes)) (relay_addr : Bytes) where
  -- gjson, for a path of names between dots: in a text that is valid JSON, the `Raw` of a field that is
  -- there is valid JSON.
  abbrev pub RawValidAt : Bytes → Type 0
  RawValidAt path =
      (text : Bytes)
      → json.valid text ≡ true
      → (json.get text path).exists ≡ true
      → json.valid (json.get text path).raw ≡ true

  -- This is so for the two fields that are taken over.
  abbrev pub RawValid : Type 0
  RawValid = RawValidAt token_path × RawValidAt url_path

  on_json_ok : {A : Type 0} (r : Result JsonError A) (a : A) → on_json r ≡ ok a → r ≡ ok a
  on_json_ok (ok b) a h = ap ok (cc h)
  on_json_ok (err e) a h = absurd (cc h)

  is_valid :
      (text : Bytes) (u : Unit) → validate_json_object json text ≡ ok u → json.valid text ≡ true
  unfolding validate_json_object
  is_valid text u h = elim (Bool-cases (json.valid text)) [
    | inl y ↦ y
    | inr n ↦ absurd (cc (rw n at h))
  ]

  field_edit :
      (text path : Bytes)
      → RawValidAt path
      → json.valid text ≡ true
      → (e : JsonFieldEdit) × (snapshot_edit json path (raw_values json (json.get text path))
          ≡ ok e)
  field_edit text path law v = elim (Bool-cases (json.get text path).exists) [
    | inl y ↦ rw (y, law text v y) (_, refl)
    | inr n ↦ rw n (_, refl)
  ]

  abbrev both : List Bytes → List Bytes → Map Bytes (List Bytes)
  both token url = (token_path, token) ∷ (url_path, url) ∷ []

  some_state :
      (a b : ProxyState)
      → ◌≡◌ {A = Result ProxyError (Option ProxyState)} (ok (some a)) (ok (some b))
      → a ≡ b
  some_state a b h = cc h

  -- The snapshot of a takeover that begins can be restored.
  pub new_cycle-snapshot :
      (text : Bytes) (existed : Bool) (state : ProxyState)
      → RawValid
      → new_cycle json quote decode_env relay_addr (text, existed) ≡ ok (some state)
      → (x : Snapshot) × (claude_snapshot json quote decode_env relay_addr (saved state) ≡ ok x)
  unfolding read_json_field_values
  new_cycle-snapshot text existed state law h =
      let (fields, p, h2) =
        bind_ok (on_json (read_json_field_values json text claude_proxy_field_paths)) _ h in
      let (containers, q, h3) =
        bind_ok (on_json (json_container_presence json text (env_container ∷ []))) _ h2 in
      let r = on_json_ok (read_json_field_values json text claude_proxy_field_paths) fields p in
      let (u, v, r2) = bind_ok (validate_json_object json text) _ r in
      let (u2, v2, r3) = bind_ok (validate_json_parents json text token_path) _ r2 in
      let (u3, v3, r4) = bind_ok (validate_json_parents json text url_path) _ r3 in
      let valid = is_valid text u v in
      let (e, d) = field_edit text token_path law.0 valid in
      let (f, g) = field_edit text url_path law.1 valid in
      let token = raw_values json (json.get text token_path) in
      let url = raw_values json (json.get text url_path) in
      let same : both token url ≡ fields = cc r4 in
      let made : new_state json quote decode_env relay_addr existed fields containers ≡ state =
        some_state _ state h3 in
      let snapshot : Snapshot = record {
        existed = existed;
        fields = both token url;
        containers = containers;
      } in
      let checked : json_snapshot_edits json (both token url) claude_proxy_field_paths
          ≡ ok (e ∷ (f ∷ [])) =
        ap
          (λ m. m >>= λ x.
            (snapshot_edit json url_path url >>= λ y. ok (y ∷ [])) >>= λ rest. ok (x ∷ rest))
          d
        ∙ ap (λ m. (m >>= λ y. ok (y ∷ [])) >>= λ rest. ok (e ∷ rest)) g in
      (
        snapshot,
        ap (λ x. claude_snapshot json quote decode_env relay_addr (saved x))
              (sym made
                ∙ ap (λ x. new_state json quote decode_env relay_addr existed x containers)
                    (sym same))
            ∙ ap (λ m. on_json m >>= λ edits. ok snapshot) checked,
      )
