-- ===== src/PlatformProxy/Gemini/Usable.antt =====
-- The state file of the Gemini tool can be used at any time.
use coding_switch.Base.{
  Bool, true, not, ◌&&◌, List, [], ◌++◌, Option, none, some, Bytes, bytes_is_eq, Map, lookup,
  if◌then◌else◌, Bool-cases, Result, ok, err, bind_ok, ◌≡◌, refl, sym, ap, ◌∙◌, inl, inr, subst,
}
use coding_switch.PlatformProxy.EnvEdit.{
  EnvError, or_empty, check_originals, read_env_field, read_env_field_values, add_lines,
}
use coding_switch.PlatformProxy.EnvEdit.Reading.{read-originals, lookup-add_lines}
use coding_switch.PlatformProxy.State.{
  Snapshot, ProxyState, ProxyError, bad_snapshot, Disk, Faults, Outcome, load, saved, inactive,
  read_config_file, write_config_file_if_changed,
}
use coding_switch.PlatformProxy.Gemini.{
  gemini_proxy_field_keys, api_key, url_key, on_env, settings_path, gemini_snapshot,
  apply_gemini_values, new_state, new_cycle, next_state, save_new, enable_proxy, restore_fields,
  write_back, give_back, disable_loaded, disable_proxy,
}
use coding_switch.PlatformProxy.State.Usable.{
  UsableBy, UsableDiskBy, save-UsableBy, same-UsableBy, off-UsableBy,
}
use coding_switch.PlatformProxy.State.Outcomes.{attempt-all, and_then-all, if-all, write-state}
use coding_switch.PlatformProxy.Gemini.Keeps.{write_back-state}

module _ (unquote : Bytes → Option Bytes) (relay_addr : Bytes) where
  -- A state file that the operations can use.
  abbrev Usable : ProxyState → Type 0
  Usable = UsableBy (gemini_snapshot unquote relay_addr)

  abbrev pub UsableDisk : Disk → Type 0
  UsableDisk = UsableDiskBy (gemini_snapshot unquote relay_addr)

  -- What is kept of the lines of both keys.
  abbrev pub both_fields : List Bytes → List Bytes → Map Bytes (List Bytes)
  both_fields key url = add_lines unquote url_key url (add_lines unquote api_key key [])

  pub fields-key :
      (key url : List Bytes) → or_empty unquote (lookup api_key (both_fields key url)) ≡ key
  fields-key key url =
      lookup-add_lines unquote url_key api_key url (add_lines unquote api_key key [])
      ∙ lookup-add_lines unquote api_key api_key key []

  pub fields-url :
      (key url : List Bytes) → or_empty unquote (lookup url_key (both_fields key url)) ≡ url
  fields-url key url =
      lookup-add_lines unquote url_key url_key url (add_lines unquote api_key key [])
      ∙ ap (λ lines. lines ++ url) (lookup-add_lines unquote api_key url_key key [])

  pub both_fields-valid :
      (text : Bytes) (key url : List Bytes) (existed : Bool)
      → read_env_field unquote text api_key ≡ ok key
      → read_env_field unquote text url_key ≡ ok url
      → gemini_snapshot unquote relay_addr
          (new_state unquote relay_addr existed (both_fields key url))
        ≡ ok (record { existed = existed; fields = both_fields key url; containers = [] })
  both_fields-valid text key url existed p q =
      let key_valid =
        ap (check_originals unquote api_key) (fields-key key url)
        ∙ read-originals unquote text api_key key p in
      let url_valid =
        ap (check_originals unquote url_key) (fields-url key url)
        ∙ read-originals unquote text url_key url q in
      ap
        (λ b.
          if b
          then ok (record { existed = existed; fields = both_fields key url; containers = [] })
          else err bad_snapshot)
        (ap
            (λ b.
              b
              && (check_originals unquote url_key
                    (or_empty unquote (lookup url_key (both_fields key url)))
                  && true))
            key_valid
          ∙ ap (λ b. b && true) url_valid)

  two_fields :
      (text : Bytes) (fields : Map Bytes (List Bytes)) (existed : Bool)
      → read_env_field_values unquote text gemini_proxy_field_keys ≡ ok fields
      → (x : Snapshot) × (gemini_snapshot unquote relay_addr
            (new_state unquote relay_addr existed fields)
          ≡ ok x)
  unfolding read_env_field_values
  two_fields text fields existed h =
      let (key, p, h2) = bind_ok (read_env_field unquote text api_key) _ h in
      let (url, q, h3) = bind_ok (read_env_field unquote text url_key) _ h2 in
      let same : both_fields key url ≡ fields = cc h3 in
      (
        record { existed = existed; fields = both_fields key url; containers = [] },
        ap (λ x. gemini_snapshot unquote relay_addr (new_state unquote relay_addr existed x))
              (sym same)
            ∙ both_fields-valid text key url existed p q,
      )

  on_env_ok : {A : Type 0} (r : Result EnvError A) (a : A) → on_env r ≡ ok a → r ≡ ok a
  on_env_ok (ok b) a h = ap ok (cc h)
  on_env_ok (err e) a h = absurd (cc h)

  some_state :
      (a b : ProxyState)
      → ◌≡◌ {A = Result ProxyError (Option ProxyState)} (ok (some a)) (ok (some b))
      → a ≡ b
  some_state a b h = cc h

  new-Usable :
      (file : Bytes × Bool) (state : ProxyState)
      → new_cycle unquote relay_addr file ≡ ok (some state)
      → Usable (saved state)
  new-Usable (text, existed) state h =
      let (fields, p, e) =
        bind_ok (on_env (read_env_field_values unquote text gemini_proxy_field_keys)) _ h in
      let snapshot =
        two_fields text fields existed
          (on_env_ok (read_env_field_values unquote text gemini_proxy_field_keys) fields p) in
      subst (λ x. Usable (saved x))
        (some_state (new_state unquote relay_addr existed fields) state e)
        (record { version = refl; snapshot = inr snapshot })

  next-Usable :
      (file : Bytes × Bool) (found : Option ProxyState) (state : ProxyState)
      → next_state unquote relay_addr file found ≡ ok (some state)
      → Usable (saved state)
  next-Usable file none state h = new-Usable file state h
  next-Usable file (some old) state h = elim (Bool-cases old.active) [
    | inl y ↦
        let (x, p, e) = bind_ok (gemini_snapshot unquote relay_addr old) _ (rw y at h) in
        absurd (cc e)
    | inr n ↦ new-Usable file state (rw n at h)
  ]

  save_new-Usable :
      (faults : Faults) (file : Bytes × Bool) (found state : Option ProxyState) (disk : Disk)
      → UsableDisk disk
      → next_state unquote relay_addr file found ≡ ok state
      → UsableDisk (save_new unquote relay_addr faults state disk).0
  save_new-Usable faults file found none disk u h = u
  save_new-Usable faults file found (some state) disk u h =
      save-UsableBy (gemini_snapshot unquote relay_addr) faults state disk u
        (next-Usable file found state h)

  enable_proxy-Usable :
      (faults : Faults) (disk : Disk)
      → UsableDisk disk
      → UsableDisk (enable_proxy unquote relay_addr faults disk).0
  unfolding enable_proxy
  enable_proxy-Usable faults disk u =
      let P : Outcome → Type 0 = λ o. UsableDisk o.0 in
      attempt-all P disk (settings_path unquote relay_addr faults) _ (λ e. u)
        λ v q1.
          attempt-all P disk (read_config_file faults [] disk) _ (λ e. u)
            λ file q2.
              attempt-all P disk (load faults disk) _ (λ e. u)
                λ found q3.
                  attempt-all P disk (next_state unquote relay_addr file found) _ (λ e. u)
                    λ state q4.
                      attempt-all P disk (on_env (apply_gemini_values unquote relay_addr file.0)) _
                        (λ e. u)
                        λ updated q5.
                          let o = save_new unquote relay_addr faults state disk in
                          let w = save_new-Usable faults file found state disk u q4 in
                          and_then-all P o _ (λ e q. w)
                            λ q.
                              same-UsableBy (gemini_snapshot unquote relay_addr)
                                (write_config_file_if_changed faults file.0 updated o.0).0 o.0
                                (write-state faults file.0 updated o.0) w

  give_back-Usable :
      (faults : Faults) (state : ProxyState) (disk : Disk)
      → UsableDisk disk
      → UsableDisk (give_back unquote relay_addr faults state disk).0
  give_back-Usable faults state disk u =
      let P : Outcome → Type 0 = λ o. UsableDisk o.0 in
      attempt-all P disk (gemini_snapshot unquote relay_addr state) _ (λ e. u)
        λ snapshot q1.
          attempt-all P disk (settings_path unquote relay_addr faults) _ (λ e. u)
            λ v q2.
              attempt-all P disk (read_config_file faults [] disk) _ (λ e. u)
                λ file q3.
                  attempt-all P disk
                    (on_env
                      (restore_fields unquote relay_addr snapshot gemini_proxy_field_keys file.0))
                    _ (λ e. u)
                    λ updated q4.
                      let o = write_back unquote relay_addr faults snapshot file updated disk in
                      let w =
                        same-UsableBy (gemini_snapshot unquote relay_addr) o.0 disk
                          (write_back-state unquote relay_addr faults snapshot file updated disk)
                          u in
                      and_then-all P o _ (λ e q. w)
                        λ q.
                          save-UsableBy (gemini_snapshot unquote relay_addr) faults inactive o.0 w
                            (off-UsableBy (gemini_snapshot unquote relay_addr))

  disable_proxy-Usable :
      (faults : Faults) (disk : Disk)
      → UsableDisk disk
      → UsableDisk (disable_proxy unquote relay_addr faults disk).0
  unfolding disable_proxy
  disable_proxy-Usable faults disk u =
      attempt-all (λ o. UsableDisk o.0) disk (load faults disk) _ (λ e. u) λ found q. loaded found
    where
      loaded :
          (found : Option ProxyState)
          → UsableDisk (disable_loaded unquote relay_addr faults disk found).0
      loaded none =
          save-UsableBy (gemini_snapshot unquote relay_addr) faults inactive disk u
            (off-UsableBy (gemini_snapshot unquote relay_addr))
      loaded (some state) =
          if-all (λ o. UsableDisk o.0) (not state.active) _ _ u
            (give_back-Usable faults state disk u)

  -- A disk after takeovers and returns, in any order and with any failures, while the tool or its user
  -- changes or removes the tool's file at any time.
  pub data Reached : Disk → Type 0 where
    starts : (settings : Option Bytes) → Reached (record { settings = settings; state = none })
    enables :
        {disk : Disk} (faults : Faults)
        → Reached disk
        → Reached (enable_proxy unquote relay_addr faults disk).0
    disables :
        {disk : Disk} (faults : Faults)
        → Reached disk
        → Reached (disable_proxy unquote relay_addr faults disk).0
    edits :
        {disk : Disk} (settings : Option Bytes)
        → Reached disk
        → Reached (record disk { settings = settings })

  -- In every disk that is reached the state file is usable: where something is taken over, it has a
  -- snapshot whose lines are assignments of their keys.
  pub Reached-Usable : {disk : Disk} → Reached disk → UsableDisk disk
  Reached-Usable (starts settings) = tt
  Reached-Usable (enables {disk = disk} faults r) =
      enable_proxy-Usable faults disk (Reached-Usable r)
  Reached-Usable (disables {disk = disk} faults r) =
      disable_proxy-Usable faults disk (Reached-Usable r)
  Reached-Usable (edits settings r) = Reached-Usable r
