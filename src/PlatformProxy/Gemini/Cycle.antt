-- ===== src/PlatformProxy/Gemini/Cycle.antt =====
-- A takeover of the Gemini tool and its end: the tool's file is as before.
use coding_switch.Base.{
  Bool, true, false, List, [], ◌∷◌, Option, none, some, Bytes, ◌==◌, bytes_is_eq, bytes_eq_iff,
  lookup, Bool-cases, ok, ◌>>=◌, ◌≡◌, refl, ap, ◌∙◌, inl, inr, codes, bind_ok,
}
use coding_switch.PlatformProxy.EnvEdit.{
  or_empty, add_lines, read_env_field, read_env_field_values, restore_env_field,
}
use coding_switch.PlatformProxy.EnvEdit.Reparse.{IsPlain}
use coding_switch.PlatformProxy.EnvEdit.Both.{restore-both}
use coding_switch.PlatformProxy.State.{
  Snapshot, ProxyState, StateText, decoded, Disk, no_faults, attempt, and_then, load, save, saved,
  inactive, write_config_file_if_changed,
}
use coding_switch.PlatformProxy.State.Recoded.{
  recoded, KeepsValid, AreValid, add_lines-FieldsValid, recoded-fields,
}
use coding_switch.PlatformProxy.Gemini.{
  gemini_proxy_field_keys, gemini_api_key_value, api_key, url_key, on_env, base_url,
  apply_gemini_values, new_state, new_cycle, next_state, enable_proxy, restore_fields, write_back,
  disable_proxy,
}
use coding_switch.PlatformProxy.Gemini.Usable.{
  both_fields, fields-key, fields-url, both_fields-valid,
}

write-some :
    (before after : Bytes) (state : Option StateText)
    → write_config_file_if_changed no_faults before after
        (record { settings = some before; state = state })
      ≡ (record { settings = some after; state = state }, none)
unfolding write_config_file_if_changed
write-some before after state = elim (Bool-cases (before == after)) [
  | inl y ↦ rw y (
      ap (λ t. (record { settings = some t; state = state }, none))
        ((bytes_eq_iff before after).0 y))
  | inr n ↦ rw n refl
]

module _ (unquote : Bytes → Option Bytes) (relay_addr : Bytes) where
  -- Nothing is taken over.
  abbrev pub IsOff : Option ProxyState → Type 0
  IsOff none = Unit
  IsOff (some state) = state.active ≡ false

  next_off :
      (file : Bytes × Bool) (found : Option ProxyState)
      → IsOff found
      → next_state unquote relay_addr file found ≡ new_cycle unquote relay_addr file
  next_off file none h = refl
  next_off file (some state) h = rw h refl

  abbrev taken : List Bytes → List Bytes → Option StateText
  taken key url =
      some (
        decoded
          (saved (new_state unquote relay_addr true (both_fields unquote relay_addr key url))))

  enabled :
      (text new : Bytes) (state : Option StateText) (found : Option ProxyState)
      (key url : List Bytes)
      → load no_faults (record { settings = some text; state = state }) ≡ ok found
      → IsOff found
      → read_env_field unquote text api_key ≡ ok key
      → read_env_field unquote text url_key ≡ ok url
      → apply_gemini_values unquote relay_addr text ≡ ok new
      → enable_proxy unquote relay_addr no_faults (record { settings = some text; state = state })
        ≡ (record { settings = some new; state = taken key url }, none)
  unfolding enable_proxy read_env_field_values save
  enabled text new state found key url l f p q a =
      rw (l, next_off (text, true) found f, p, q, a) (write-some text new (taken key url))

  abbrev kept : List Bytes → List Bytes → Snapshot
  kept key url = record {
    existed = true;
    fields = both_fields unquote relay_addr key url;
    containers = [];
  }

  restored :
      (text new : Bytes) (key url : List Bytes)
      → (restore_env_field unquote new api_key key >>= λ x. restore_env_field unquote x url_key url)
        ≡ ok text
      → restore_fields unquote relay_addr (kept key url) gemini_proxy_field_keys new ≡ ok text
  restored text new key url r =
      let (mid, a, b) = bind_ok (restore_env_field unquote new api_key key) _ r in
      let first : restore_env_field unquote new api_key
            (or_empty unquote (lookup api_key (kept key url).fields))
          ≡ ok mid =
        ap (restore_env_field unquote new api_key) (fields-key unquote relay_addr key url) ∙ a in
      let second : restore_env_field unquote mid url_key
            (or_empty unquote (lookup url_key (kept key url).fields))
          ≡ ok text =
        ap (restore_env_field unquote mid url_key) (fields-url unquote relay_addr key url) ∙ b in
      ap (λ m. m >>= restore_fields unquote relay_addr (kept key url) (url_key ∷ [])) first
      ∙ ap (λ m. m >>= restore_fields unquote relay_addr (kept key url) []) second

  disabled :
      (text new : Bytes) (key url : List Bytes)
      → read_env_field unquote text api_key ≡ ok key
      → read_env_field unquote text url_key ≡ ok url
      → (restore_env_field unquote new api_key key >>= λ x. restore_env_field unquote x url_key url)
        ≡ ok text
      → disable_proxy unquote relay_addr no_faults
          (record { settings = some new; state = taken key url })
        ≡ (record { settings = some text; state = some (decoded (saved inactive)) }, none)
  unfolding disable_proxy load save
  disabled text new key url p q r =
      let disk : Disk = record { settings = some new; state = taken key url } in
      let given = λ (x : Snapshot).
        attempt disk (on_env (restore_fields unquote relay_addr x gemini_proxy_field_keys new))
          λ updated.
            and_then (write_back unquote relay_addr no_faults x (new, true) updated disk)
              (save no_faults inactive) in
      ap (λ m. attempt disk m given) (both_fields-valid unquote relay_addr text key url true p q)
      ∙ ap
          (λ m. attempt disk (on_env m) λ updated.
            and_then
              (write_back unquote relay_addr no_faults (kept key url) (new, true) updated disk)
              (save no_faults inactive))
          (restored text new key url r)
      ∙ ap (λ o. and_then o (save no_faults inactive)) (write-some new text (taken key url))

  -- The lines that a takeover keeps come back from the JSON text of the state file, if they are valid
  -- UTF-8.
  recoded-taken :
      (valid : Bytes → Bool) (coerce : Bytes → Bytes) (key url : List Bytes)
      → KeepsValid valid coerce
      → AreValid valid coerce key
      → AreValid valid coerce url
      → recoded valid coerce (taken key url) ≡ taken key url
  recoded-taken valid coerce key url law v w =
      let fields_valid =
        add_lines-FieldsValid valid coerce unquote url_key url (add_lines unquote api_key key []) w
          (add_lines-FieldsValid valid coerce unquote api_key key [] v tt) in
      ap (λ fields. some (decoded (saved (new_state unquote relay_addr true fields))))
        (recoded-fields valid coerce (both_fields unquote relay_addr key url) law fields_valid)

  -- A takeover of a file that has both keys, when nothing is taken over, and then its end: neither
  -- fails, and the file is byte for byte as before. The relay's address is a plain value. The lines of
  -- the two keys are valid UTF-8, so that the text of the state file gives them back as they were, and
  -- the state file and the tool's file are not changed by others in between.
  pub enable-disable :
      (valid : Bytes → Bool) (coerce : Bytes → Bytes) (text first second : Bytes)
      (firsts seconds : List Bytes) (state : Option StateText) (found : Option ProxyState)
      → KeepsValid valid coerce
      → IsPlain unquote (base_url unquote relay_addr)
      → load no_faults (record { settings = some text; state = state }) ≡ ok found
      → IsOff found
      → read_env_field unquote text api_key ≡ ok (first ∷ firsts)
      → read_env_field unquote text url_key ≡ ok (second ∷ seconds)
      → AreValid valid coerce (first ∷ firsts)
      → AreValid valid coerce (second ∷ seconds)
      → (on : Disk) × (enable_proxy unquote relay_addr no_faults
            (record { settings = some text; state = state })
          ≡ (on, none))
        × (disable_proxy unquote relay_addr no_faults
              (record on { state = recoded valid coerce on.state })
            ≡ (record { settings = some text; state = some (decoded (saved inactive)) }, none))
  unfolding apply_gemini_values
  enable-disable valid coerce text first second firsts seconds state found law plain l f p q v w =
      let token : IsPlain unquote gemini_api_key_value = record {
        first = b'p';
        others = codes "ortico";
        same = refl;
        no_quote = refl;
        no_space = refl;
        no_return = refl;
        no_break = (refl, (refl, (refl, (refl, (refl, (refl, (refl, tt)))))));
      } in
      let (new, a, r) =
        restore-both unquote api_key url_key gemini_api_key_value (base_url unquote relay_addr) text
          first second firsts seconds refl refl token plain p q in
      (
        record { settings = some new; state = taken (first ∷ firsts) (second ∷ seconds) },
        enabled text new state found (first ∷ firsts) (second ∷ seconds) l f p q a,
        ap
              (λ x.
                disable_proxy unquote relay_addr no_faults
                  (record { settings = some new; state = x }))
              (recoded-taken valid coerce (first ∷ firsts) (second ∷ seconds) law v w)
            ∙ disabled text new (first ∷ firsts) (second ∷ seconds) p q r,
      )
