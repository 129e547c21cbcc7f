-- ===== src/PlatformProxy/EnvEdit/Restore.antt =====
-- A changed file is restored: the lines with the key come back, and with them the whole text.
use coding_switch.Base.{
  ℕ, suc, List, [], ◌∷◌, Option, Bytes, bytes_is_eq, nat_eq_iff, length, if◌then◌else◌, ok, err,
  ◌>>=◌, ◌≡◌, refl, sym, ap, ◌∙◌, arith, bind_ok,
}
use coding_switch.PlatformProxy.EnvText.{split_env_lines, join}
use coding_switch.PlatformProxy.EnvEdit.{
  Assignment, invalid_snapshot, find_env_assignments, assignments, lines_of, read_env_field,
  set_lines, set_assignments, set_found, set_env_field, replace_lines, restore_assignments,
  restore_found, restore_env_field,
}
use coding_switch.PlatformProxy.EnvEdit.Lines.{split-Lines, join-split, split-join}
use coding_switch.PlatformProxy.EnvEdit.Changed.{Changed, find-Changed, find-originals}
use coding_switch.PlatformProxy.EnvEdit.Reparse.{IsPlain}

module _ (unquote : Bytes → Option Bytes) where
  pub length-lines_of : (found : List Assignment) → length (lines_of unquote found) ≡ length found
  length-lines_of [] = refl
  length-lines_of (a ∷ found) = ap suc (length-lines_of found)

  -- As many lines as before, and at least one: each is replaced.
  pub restore-equal :
      (doc : Bytes) (originals : List Bytes) (found : List (Option Assignment)) (n : ℕ)
      (as_found : List Assignment)
      → length as_found ≡ suc n
      → length originals ≡ suc n
      → restore_assignments unquote doc originals found as_found
        ≡ join (replace_lines unquote found originals (split_env_lines doc))
  restore-equal doc originals found n [] p q = absurd (omega arith)
  restore-equal doc originals found n (a ∷ more) p q =
      rw ((nat_eq_iff (length (a ∷ more)) (length originals)).1 (p ∙ sym q)) refl

  pub set-some :
      (doc key v : Bytes) (found : List (Option Assignment)) (n : ℕ) (as_found : List Assignment)
      → length as_found ≡ suc n
      → set_assignments unquote doc key v found as_found
        ≡ join (set_lines unquote v found (split_env_lines doc))
  set-some doc key v found n [] p = absurd (omega arith)
  set-some doc key v found n (a ∷ more) p = refl

  pub found_ok :
      (key : Bytes) (lines : List Bytes) (B : Type 0) (f : List (Option Assignment) → B) (b : B)
      → (find_env_assignments unquote key lines >>= λ found. ok (f found)) ≡ ok b
      → (found : List (Option Assignment)) × (find_env_assignments unquote key lines ≡ ok found)
        × (f found ≡ b)
  found_ok key lines B f b h =
      let (found, p, e) =
        bind_ok (find_env_assignments unquote key lines) (λ found. ok (f found)) h in
      (found, p, cc e)

  pub restore-Changed :
      (doc key v : Bytes) (found : List (Option Assignment)) (n : ℕ)
      → find_env_assignments unquote key (split_env_lines doc) ≡ ok found
      → Changed unquote key v (split_env_lines doc) found
      → length (assignments unquote found) ≡ suc n
      → restore_env_field unquote
          (join (set_lines unquote v found (split_env_lines doc)))
          key
          (lines_of unquote (assignments unquote found))
        ≡ ok doc
  unfolding restore_env_field
  restore-Changed doc key v found n h c count =
      let originals = lines_of unquote (assignments unquote found) in
      let new = set_lines unquote v found (split_env_lines doc) in
      let split : split_env_lines (join new) ≡ new = split-join new c.as_lines in
      let same : restore_found unquote (join new) originals c.again ≡ doc =
        restore-equal (join new) originals c.again n (assignments unquote c.again)
          (c.as_many ∙ count) (length-lines_of (assignments unquote found) ∙ count)
        ∙ ap (λ l. join (replace_lines unquote c.again originals l)) split
        ∙ ap join c.restored
        ∙ join-split doc in
      ap
        (λ b.
          if b
          then (find_env_assignments unquote key (split_env_lines (join new)) >>= λ x.
              ok (restore_found unquote (join new) originals x))
          else err (invalid_snapshot key))
        (find-originals unquote key (split_env_lines doc) found h)
      ∙ ap
          (λ l. find_env_assignments unquote key l >>= λ x.
            ok (restore_found unquote (join new) originals x))
          split
      ∙ ap (λ r. r >>= λ x. ok (restore_found unquote (join new) originals x)) c.found_again
      ∙ ap ok same

  -- Restoring the lines of a changed variable gives back the file as it was: where a file had at
  -- least one assignment of the key, and the lines read from it are kept while the key is set to a
  -- plain value.
  pub restore-set :
      (doc key v original : Bytes) (originals : List Bytes)
      → IsPlain unquote v
      → read_env_field unquote doc key ≡ ok (original ∷ originals)
      → (new : Bytes) × (set_env_field unquote doc key v ≡ ok new)
        × (restore_env_field unquote new key (original ∷ originals) ≡ ok doc)
  unfolding read_env_field set_env_field restore_env_field
  restore-set doc key v original originals plain r =
      let (found, p, e) =
        found_ok key (split_env_lines doc) (List Bytes)
          (λ f. lines_of unquote (assignments unquote f)) (original ∷ originals) r in
      let c = find-Changed unquote key v (split_env_lines doc) found plain (split-Lines doc) p in
      let count : length (assignments unquote found) ≡ suc (length originals) =
        sym (length-lines_of (assignments unquote found)) ∙ ap length e in
      (
        join (set_lines unquote v found (split_env_lines doc)),
        ap (λ r. r >>= λ f. ok (set_found unquote doc key v f)) p
            ∙ ap ok (set-some doc key v found (length originals) (assignments unquote found) count),
        ap (restore_env_field unquote (join (set_lines unquote v found (split_env_lines doc))) key)
              (sym e)
            ∙ restore-Changed doc key v found (length originals) p c count,
      )
