-- ===== src/PlatformProxy/EnvEdit/Reading.antt =====
-- Reading several variables: the lines read are assignments of their key.
use coding_switch.Base.{
  true, List, [], ◌∷◌, ◌++◌, append_assoc, append-nil, Option, some, Bytes, ◌==◌, bytes_is_eq,
  bytes_eq_iff, Map, lookup, insert, lookup-insert, if◌then◌else◌, Bool-cases, ok, bind_ok, ◌≡◌,
  refl, sym, ap, ◌∙◌, inl, inr,
}
use coding_switch.PlatformProxy.EnvText.{split_env_lines}
use coding_switch.PlatformProxy.EnvEdit.{
  assignments, lines_of, find_env_assignments, read_env_field, or_empty, add_lines, check_originals,
}
use coding_switch.PlatformProxy.EnvEdit.Changed.{find-originals}

module _ (unquote : Bytes → Option Bytes) where
  pub read-originals :
      (doc key : Bytes) (lines : List Bytes)
      → read_env_field unquote doc key ≡ ok lines
      → check_originals unquote key lines ≡ true
  unfolding read_env_field
  read-originals doc key lines h =
      let (found, p, e) =
        bind_ok (find_env_assignments unquote key (split_env_lines doc))
          (λ found. ok (lines_of unquote (assignments unquote found))) h in
      let same : lines_of unquote (assignments unquote found) ≡ lines = cc e in
      rw (sym same) (find-originals unquote key (split_env_lines doc) found p)

  pub lookup-add_lines :
      (key k : Bytes) (lines : List Bytes) (values : Map Bytes (List Bytes))
      → or_empty unquote (lookup k (add_lines unquote key lines values)) ≡ (
          if key == k
          then or_empty unquote (lookup k values) ++ lines
          else or_empty unquote (lookup k values))
  lookup-add_lines key k [] values = elim (Bool-cases (key == k)) [
    | inl y ↦ rw y (sym (append-nil (or_empty unquote (lookup k values))))
    | inr n ↦ rw n refl
  ]
  lookup-add_lines key k (line ∷ lines) values =
      let more = or_empty unquote (lookup key values) ++ line ∷ [] in
      let written : or_empty unquote (lookup k (insert key more values))
          ≡ or_empty unquote (if key == k then some more else lookup k values) =
        ap (or_empty unquote) (lookup-insert key k more values) in
      lookup-add_lines key k lines (insert key more values) ∙ elim (Bool-cases (key == k)) [
        | inl y ↦
            let here : or_empty unquote (lookup k (insert key more values)) ≡ more =
              written ∙ rw y refl in
            rw (y, here)
              (append_assoc (or_empty unquote (lookup key values)) (line ∷ []) lines
                ∙ ap (λ x. or_empty unquote (lookup x values) ++ (line ∷ lines))
                    ((bytes_eq_iff key k).0 y))
        | inr n ↦
            let here : or_empty unquote (lookup k (insert key more values))
                ≡ or_empty unquote (lookup k values) =
              written ∙ rw n refl in
            rw (n, here) refl
      ]
