-- ===== src/PlatformProxy/EnvEdit/Both.antt =====
-- Two variables are set one after the other, and then restored in the same order.
use coding_switch.Base.{
  ℕ, suc, true, false, List, ◌∷◌, Option, Bytes, ◌==◌, bytes_is_eq, length, if◌then◌else◌, ok, err,
  ◌>>=◌, ◌≡◌, sym, ap, ◌∙◌,
}
use coding_switch.PlatformProxy.EnvText.{split_env_lines, join}
use coding_switch.PlatformProxy.EnvEdit.{
  Assignment, invalid_snapshot, find_env_assignments, assignments, lines_of, read_env_field,
  set_lines, set_found, set_env_field, check_originals, replace_lines, restore_found,
  restore_env_field,
}
use coding_switch.PlatformProxy.EnvEdit.Lines.{Lines, split-Lines, split-join}
use coding_switch.PlatformProxy.EnvEdit.Reparse.{IsPlain}
use coding_switch.PlatformProxy.EnvEdit.Changed.{find-Changed, find-originals}
use coding_switch.PlatformProxy.EnvEdit.Restore.{
  restore-equal, set-some, length-lines_of, found_ok, restore-Changed,
}
use coding_switch.PlatformProxy.EnvEdit.Other.{find-other, find-Disjoint, replace_lines-set_lines}

module _ (unquote : Bytes → Option Bytes) where
  -- What the text of a file has to do with a key.
  pub record Has (key doc original : Bytes) (originals : List Bytes) : Type 0 where
    pub found : List (Option Assignment)
    pub finds : find_env_assignments unquote key (split_env_lines doc) ≡ ok found
    pub of_found : lines_of unquote (assignments unquote found) ≡ original ∷ originals
    pub count : length (assignments unquote found) ≡ suc (length originals)

  pub read-Has :
      (key doc original : Bytes) (originals : List Bytes)
      → read_env_field unquote doc key ≡ ok (original ∷ originals)
      → Has key doc original originals
  unfolding read_env_field
  read-Has key doc original originals r =
      let (found, p, o) =
        found_ok unquote key (split_env_lines doc) (List Bytes)
          (λ f. lines_of unquote (assignments unquote f)) (original ∷ originals) r in
      record {
        found = found;
        finds = p;
        of_found = o;
        count = sym (length-lines_of unquote (assignments unquote found)) ∙ ap length o;
      }

  -- Setting the key in lines where it is found.
  set-lines :
      (key v doc : Bytes) (found : List (Option Assignment)) (n : ℕ)
      → find_env_assignments unquote key (split_env_lines doc) ≡ ok found
      → length (assignments unquote found) ≡ suc n
      → set_env_field unquote doc key v
        ≡ ok (join (set_lines unquote v found (split_env_lines doc)))
  unfolding set_env_field
  set-lines key v doc found n p count =
      ap (λ r. r >>= λ f. ok (set_found unquote doc key v f)) p
      ∙ ap ok (set-some unquote doc key v found n (assignments unquote found) count)

  -- Restoring the key in lines where it is found.
  restore-join :
      (key : Bytes) (originals lines : List Bytes) (again : List (Option Assignment)) (n : ℕ)
      → Lines lines
      → check_originals unquote key originals ≡ true
      → find_env_assignments unquote key lines ≡ ok again
      → length (assignments unquote again) ≡ suc n
      → length originals ≡ suc n
      → restore_env_field unquote (join lines) key originals
        ≡ ok (join (replace_lines unquote again originals lines))
  unfolding restore_env_field
  restore-join key originals lines again n l c f p q =
      let split = split-join lines l in
      ap
        (λ b.
          if b
          then (find_env_assignments unquote key (split_env_lines (join lines)) >>= λ x.
              ok (restore_found unquote (join lines) originals x))
          else err (invalid_snapshot key))
        c
      ∙ ap
          (λ x. find_env_assignments unquote key x >>= λ y.
            ok (restore_found unquote (join lines) originals y))
          split
      ∙ ap (λ r. r >>= λ y. ok (restore_found unquote (join lines) originals y)) f
      ∙ ap ok (
          restore-equal unquote (join lines) originals again n (assignments unquote again) p q
          ∙ ap (λ x. join (replace_lines unquote again originals x)) split)

  -- Setting two variables that a file has and restoring both gives back the file.
  pub restore-both :
      (key other v w doc first second : Bytes) (firsts seconds : List Bytes)
      → (key == other) ≡ false
      → (other == key) ≡ false
      → IsPlain unquote v
      → IsPlain unquote w
      → read_env_field unquote doc key ≡ ok (first ∷ firsts)
      → read_env_field unquote doc other ≡ ok (second ∷ seconds)
      → (new : Bytes) × ((set_env_field unquote doc key v >>= λ x. set_env_field unquote x other w)
          ≡ ok new)
        × ((restore_env_field unquote new key (first ∷ firsts) >>= λ x.
              restore_env_field unquote x other (second ∷ seconds))
            ≡ ok doc)
  restore-both key other v w doc first second firsts seconds d d2 pv pw r s =
      let lines = split_env_lines doc in
      let k = read-Has key doc first firsts r in
      let o = read-Has other doc second seconds s in
      let c = find-Changed unquote key v lines k.found pv (split-Lines doc) k.finds in
      let mid = set_lines unquote v k.found lines in
      let other_found : find_env_assignments unquote other mid ≡ ok o.found =
        find-other unquote key other d v lines k.found pv k.finds ∙ o.finds in
      let c2 = find-Changed unquote other w mid o.found pw c.as_lines other_found in
      let last = set_lines unquote w o.found mid in
      let key_found : find_env_assignments unquote key last ≡ ok c.again =
        find-other unquote other key d2 w mid o.found pw other_found ∙ c.found_again in
      let mid_split = split-join mid c.as_lines in
      let second_set =
        set-lines other w (join mid) o.found (length seconds)
          (ap (find_env_assignments unquote other) mid_split ∙ other_found) o.count in
      let set_both =
        ap (λ m. m >>= λ x. set_env_field unquote x other w)
          (set-lines key v doc k.found (length firsts) k.finds k.count)
        ∙ second_set
        ∙ ap (λ x. ok (join (set_lines unquote w o.found x))) mid_split in
      let originals = lines_of unquote (assignments unquote k.found) in
      let first_restored =
        restore-join key originals last c.again (length firsts) c2.as_lines
          (find-originals unquote key lines k.found k.finds) key_found (c.as_many ∙ k.count)
          (length-lines_of unquote (assignments unquote k.found) ∙ k.count) in
      let only_other =
        replace_lines-set_lines unquote key other d w c.again o.found originals mid
          (find-Disjoint unquote key other d mid c.again o.found c.found_again other_found)
        ∙ ap (set_lines unquote w o.found) c.restored in
      let co = find-Changed unquote other w lines o.found pw (split-Lines doc) o.finds in
      let second_restored =
        restore-Changed unquote doc other w o.found (length seconds) o.finds co o.count in
      (
        join last,
        set_both,
        ap
              (λ (x : List Bytes × List Bytes).
                restore_env_field unquote (join last) key x.0 >>= λ t.
                restore_env_field unquote t other x.1)
              {x = (first ∷ firsts, second ∷ seconds)}
              {y = (originals, lines_of unquote (assignments unquote o.found))}
              (ap (λ a. (a, second ∷ seconds)) (sym k.of_found)
                ∙ ap (λ b. (originals, b)) (sym o.of_found))
            ∙ ap
                (λ m. m >>= λ t.
                  restore_env_field unquote t other
                    (lines_of unquote (assignments unquote o.found)))
                (first_restored ∙ ap (λ x. ok (join x)) only_other)
            ∙ second_restored,
      )
