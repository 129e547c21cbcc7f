-- ===== src/PlatformProxy/EnvEdit/Other.antt =====
-- Two variables in one file: setting one leaves the other's lines alone, and restoring one undoes only
-- its own change.
use coding_switch.Base.{
  suc, false, List, [], ◌∷◌, Option, none, some, Bytes, ◌==◌, bytes_is_eq, bytes_eq_iff, length,
  Bool-cases, Result, ok, ◌>>=◌, ◌≡◌, refl, sym, ap, ◌∙◌, inl, inr, subst,
}
use coding_switch.PlatformProxy.EnvText.{split_env_lines, join}
use coding_switch.PlatformProxy.EnvEdit.{
  Assignment, EnvError, Parsed, unmatched, malformed, assigned, parse_env_assignment, wanted,
  classify, cons_found, find_env_assignments, assignments, lines_of, read_env_field, set_line,
  set_lines, set_found, set_env_field, replace_lines,
}
use coding_switch.PlatformProxy.EnvEdit.Lines.{split-Lines, split-join}
use coding_switch.PlatformProxy.EnvEdit.Reparse.{IsPlain, classify-set_line}
use coding_switch.PlatformProxy.EnvEdit.Changed.{find-cons, find-Changed}
use coding_switch.PlatformProxy.EnvEdit.Restore.{set-some, length-lines_of, found_ok}

module _ (unquote : Bytes → Option Bytes) (key other : Bytes)
    (distinct : (key == other) ≡ false) where
  -- An assignment of one key is none of the other.
  not_other :
      (p : Parsed) (a : Assignment)
      → wanted unquote key p ≡ ok (some a)
      → wanted unquote other p ≡ ok none
  not_other unmatched a h = refl
  not_other (malformed k e) a h = elim (Bool-cases (k == key)) [
    | inl y ↦ absurd (cc (rw y at h))
    | inr n ↦ absurd (cc (rw n at h))
  ]
  not_other (assigned b) a h = elim (Bool-cases (b.key == key)) [
    | inl y ↦ rw ((bytes_eq_iff b.key key).0 y, distinct) refl
    | inr n ↦ absurd (cc (rw n at h))
  ]

  classify-other :
      (line : Bytes) (a : Assignment)
      → classify unquote key line ≡ ok (some a)
      → classify unquote other line ≡ ok none
  unfolding classify
  classify-other line a h = not_other (parse_env_assignment unquote line) a h

  set_line-other :
      (v line : Bytes) (a : Option Assignment)
      → IsPlain unquote v
      → classify unquote key line ≡ ok a
      → classify unquote other (set_line unquote v a line) ≡ classify unquote other line
  set_line-other v line none plain h = refl
  set_line-other v line (some a) plain h =
      let (b, e) = classify-set_line unquote key v line a plain h in
      classify-other (set_line unquote v (some a) line) b e ∙ sym (classify-other line a h)

  pub find-other :
      (v : Bytes) (lines : List Bytes) (found : List (Option Assignment))
      → IsPlain unquote v
      → find_env_assignments unquote key lines ≡ ok found
      → find_env_assignments unquote other (set_lines unquote v found lines)
        ≡ find_env_assignments unquote other lines
  find-other v [] found plain h = ap (find_env_assignments unquote other) (nothing found)
    where
      nothing : (f : List (Option Assignment)) → set_lines unquote v f [] ≡ []
      nothing [] = refl
      nothing (a ∷ f) = refl
  find-other v (line ∷ lines) found plain h =
      let f = find-cons unquote key line lines found h in
      ap (λ x. find_env_assignments unquote other (set_lines unquote v x (line ∷ lines))) f.same
      ∙ ap
          (λ r. r >>= λ a.
            cons_found unquote a
              (find_env_assignments unquote other (set_lines unquote v f.others lines)))
          (set_line-other v line f.first plain f.at_first)
      ∙ ap (λ r. classify unquote other line >>= λ a. cons_found unquote a r)
          (find-other v lines f.others plain f.at_others)

  -- Setting a variable that a file already has to a plain value leaves what is read of every other
  -- variable as it was.
  pub set_env_field-other :
      (doc v original new : Bytes) (originals : List Bytes)
      → IsPlain unquote v
      → read_env_field unquote doc key ≡ ok (original ∷ originals)
      → set_env_field unquote doc key v ≡ ok new
      → read_env_field unquote new other ≡ read_env_field unquote doc other
  unfolding read_env_field set_env_field
  set_env_field-other doc v original new originals plain r e =
      let (found, p, o) =
        found_ok unquote key (split_env_lines doc) (List Bytes)
          (λ f. lines_of unquote (assignments unquote f)) (original ∷ originals) r in
      let c = find-Changed unquote key v (split_env_lines doc) found plain (split-Lines doc) p in
      let count : length (assignments unquote found) ≡ suc (length originals) =
        sym (length-lines_of unquote (assignments unquote found)) ∙ ap length o in
      let lines = set_lines unquote v found (split_env_lines doc) in
      let written : ok (join lines) ≡ ok new =
        sym (
          ap (λ r. r >>= λ f. ok (set_found unquote doc key v f)) p
          ∙ ap ok (
              set-some unquote doc key v found (length originals) (assignments unquote found)
                count))
        ∙ e in
      let same : join lines ≡ new = cc written in
      ap
        (λ t. find_env_assignments unquote other (split_env_lines t) >>= λ found.
          ok (lines_of unquote (assignments unquote found)))
        (sym same)
      ∙ ap
          (λ l. find_env_assignments unquote other l >>= λ found.
            ok (lines_of unquote (assignments unquote found)))
          (split-join lines c.as_lines ∙ refl)
      ∙ ap (λ r. r >>= λ found. ok (lines_of unquote (assignments unquote found)))
          (find-other v (split_env_lines doc) found plain p)

  -- At every line at most one of the two keys is found.
  abbrev pub Disjoint : List (Option Assignment) → List (Option Assignment) → Type 0
  Disjoint [] found = Unit
  Disjoint (a ∷ again) [] = Unit
  Disjoint (none ∷ again) (b ∷ found) = Disjoint again found
  Disjoint (some a ∷ again) (none ∷ found) = Disjoint again found
  Disjoint (some a ∷ again) (some b ∷ found) = ⊥

  pub find-Disjoint :
      (lines : List Bytes) (again found : List (Option Assignment))
      → find_env_assignments unquote key lines ≡ ok again
      → find_env_assignments unquote other lines ≡ ok found
      → Disjoint again found
  find-Disjoint [] again found h k = subst (λ x. Disjoint x found) (nothing again h) tt
    where
      nothing :
          (f : List (Option Assignment))
          → ◌≡◌ {A = Result EnvError (List (Option Assignment))} (ok []) (ok f)
          → [] ≡ f
      nothing f e = cc e
  find-Disjoint (line ∷ lines) again found h k =
      let f = find-cons unquote key line lines again h in
      let g = find-cons unquote other line lines found k in
      rw (f.same, g.same)
        (step f.first g.first f.others g.others f.at_first g.at_first
          (find-Disjoint lines f.others g.others f.at_others g.at_others))
    where
      step :
          (a b : Option Assignment) (again found : List (Option Assignment))
          → classify unquote key line ≡ ok a
          → classify unquote other line ≡ ok b
          → Disjoint again found
          → Disjoint (a ∷ again) (b ∷ found)
      step none b again found p q d = d
      step (some a) none again found p q d = d
      step (some a) (some b) again found p q d = absurd (cc (sym q ∙ classify-other line a p))

  pub replace_lines-set_lines :
      (v : Bytes) (again found : List (Option Assignment)) (originals lines : List Bytes)
      → Disjoint again found
      → replace_lines unquote again originals (set_lines unquote v found lines)
        ≡ set_lines unquote v found (replace_lines unquote again originals lines)
  replace_lines-set_lines v [] found originals lines d = refl
  replace_lines-set_lines v (a ∷ again) [] originals lines d = refl
  replace_lines-set_lines v (a ∷ again) (b ∷ found) originals [] d = refl
  replace_lines-set_lines v (none ∷ again) (b ∷ found) originals (line ∷ lines) d =
      ap (◌∷◌ (set_line unquote v b line)) (replace_lines-set_lines v again found originals lines d)
  replace_lines-set_lines v (some a ∷ again) (none ∷ found) [] (line ∷ lines) d =
      ap (◌∷◌ line) (replace_lines-set_lines v again found [] lines d)
  replace_lines-set_lines v (some a ∷ again) (none ∷ found) (o ∷ originals) (line ∷ lines) d =
      ap (◌∷◌ o) (replace_lines-set_lines v again found originals lines d)
  replace_lines-set_lines v (some a ∷ again) (some b ∷ found) originals (line ∷ lines) d = absurd d
