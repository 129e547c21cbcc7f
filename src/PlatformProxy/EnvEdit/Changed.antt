-- ===== src/PlatformProxy/EnvEdit/Changed.antt =====
-- What setting a variable does to the lines of a file: they are lines again, with assignments at the
-- same places, and replacing those gives back the old lines.
use coding_switch.Base.{
  suc, Bool, true, false, ◌&&◌, List, [], ◌∷◌, Option, none, some, Bytes, bytes_is_eq, length,
  Result, ok, err, ◌>>=◌, ◌≡◌, refl, sym, ap, ◌∙◌, inl, inr, subst,
}
use coding_switch.PlatformProxy.EnvEdit.{
  Assignment, EnvError, classify, cons_found, find_env_assignments, assignments, lines_of, set_line,
  set_lines, is_some, is_original, check_originals, replace_lines,
}
use coding_switch.PlatformProxy.EnvEdit.Lines.{Ended, Open, Lines}
use coding_switch.PlatformProxy.EnvEdit.Reparse.{IsPlain, classify-Source, classify-set_line}
use coding_switch.PlatformProxy.EnvEdit.SetLine.{set_line-Ended, set_line-Open}

module _ (unquote : Bytes → Option Bytes) where
  -- The lines found, one by one.
  pub record FirstFound (key line : Bytes) (lines : List Bytes) (found : List (Option Assignment))
      : Type 0 where
    pub first : Option Assignment
    pub others : List (Option Assignment)
    pub at_first : classify unquote key line ≡ ok first
    pub at_others : find_env_assignments unquote key lines ≡ ok others
    pub same : found ≡ first ∷ others

  pub find-cons :
      (key line : Bytes) (lines : List Bytes) (found : List (Option Assignment))
      → find_env_assignments unquote key (line ∷ lines) ≡ ok found
      → FirstFound key line lines found
  find-cons key line lines found h = outer (classify unquote key line) refl h
    where
      inner :
          (a : Option Assignment) (r : Result EnvError (List (Option Assignment)))
          → classify unquote key line ≡ ok a
          → find_env_assignments unquote key lines ≡ r
          → cons_found unquote a r ≡ ok found
          → FirstFound key line lines found
      inner a (ok others) p q e = record {
        first = a;
        others = others;
        at_first = p;
        at_others = q;
        same = sym (cc e);
      }
      inner a (err x) p q e = absurd (cc e)

      outer :
          (r : Result EnvError (Option Assignment))
          → classify unquote key line ≡ r
          → (r >>= λ a. cons_found unquote a (find_env_assignments unquote key lines)) ≡ ok found
          → FirstFound key line lines found
      outer (ok a) p e = inner a (find_env_assignments unquote key lines) p refl e
      outer (err x) p e = absurd (cc e)

  is_original-classify :
      (key line : Bytes) (a : Assignment)
      → classify unquote key line ≡ ok (some a)
      → is_original unquote key line ≡ true
  is_original-classify key line a h =
      ap
        (λ (r : Result EnvError (Option Assignment)). elim r as (λ _. Bool) [
          | ok x ↦ is_some unquote x
          | err e ↦ false
        ])
        h

  -- The lines found are assignments of the key.
  pub find-originals :
      (key : Bytes) (lines : List Bytes) (found : List (Option Assignment))
      → find_env_assignments unquote key lines ≡ ok found
      → check_originals unquote key (lines_of unquote (assignments unquote found)) ≡ true
  find-originals key [] found h =
      ap (λ (r : Result EnvError (List (Option Assignment))). checked r) (sym h)
    where
      checked : Result EnvError (List (Option Assignment)) → Bool
      checked (ok f) = check_originals unquote key (lines_of unquote (assignments unquote f))
      checked (err e) = true
  find-originals key (line ∷ lines) found h =
      let f = find-cons key line lines found h in
      rw f.same (step f.first f.others f.at_first (find-originals key lines f.others f.at_others))
    where
      step :
          (a : Option Assignment) (others : List (Option Assignment))
          → classify unquote key line ≡ ok a
          → check_originals unquote key (lines_of unquote (assignments unquote others)) ≡ true
          → check_originals unquote key (lines_of unquote (assignments unquote (a ∷ others))) ≡ true
      step none others p c = c
      step (some a) others p c =
          ap (λ t. t && check_originals unquote key (lines_of unquote (assignments unquote others)))
            (ap (is_original unquote key) (classify-Source unquote key line a p).0.in_line
              ∙ is_original-classify key line a p)
          ∙ c

  -- What the change does to the lines of a file.
  pub record Changed (key v : Bytes) (lines : List Bytes) (found : List (Option Assignment))
      : Type 0 where
    pub again : List (Option Assignment)
    pub found_again : find_env_assignments unquote key (set_lines unquote v found lines) ≡ ok again
    pub as_lines : Lines (set_lines unquote v found lines)
    pub as_many : length (assignments unquote again) ≡ length (assignments unquote found)
    pub restored :
        replace_lines unquote again
          (lines_of unquote (assignments unquote found))
          (set_lines unquote v found lines)
        ≡ lines

  none-Changed :
      (key v line : Bytes) (lines : List Bytes) (found : List (Option Assignment))
      → classify unquote key line ≡ ok none
      → (Lines (set_lines unquote v found lines) → Lines (line ∷ set_lines unquote v found lines))
      → Changed key v lines found
      → Changed key v (line ∷ lines) (none ∷ found)
  none-Changed key v line lines found h shape c = record {
    again = none ∷ c.again;
    found_again = rw (h, c.found_again) refl;
    as_lines = shape c.as_lines;
    as_many = c.as_many;
    restored = ap (◌∷◌ line) c.restored;
  }

  some-Changed :
      (key v line : Bytes) (a : Assignment) (lines : List Bytes) (found : List (Option Assignment))
      → IsPlain unquote v
      → classify unquote key line ≡ ok (some a)
      → (Lines (set_lines unquote v found lines)
          → Lines (set_line unquote v (some a) line ∷ set_lines unquote v found lines))
      → Changed key v lines found
      → Changed key v (line ∷ lines) (some a ∷ found)
  some-Changed key v line a lines found plain h shape c =
      let (b, e) = classify-set_line unquote key v line a plain h in
      let s : a.line ≡ line = (classify-Source unquote key line a h).0.in_line in
      record {
        again = some b ∷ c.again;
        found_again =
            ap
              (λ r. r >>= λ x.
                cons_found unquote x
                  (find_env_assignments unquote key (set_lines unquote v found lines)))
              e
            ∙ ap (cons_found unquote (some b)) c.found_again;
        as_lines = shape c.as_lines;
        as_many = ap suc c.as_many;
        restored = ap (◌∷◌ a.line) c.restored ∙ ap (λ l. l ∷ lines) s;
      }

  pub find-Changed :
      (key v : Bytes) (lines : List Bytes) (found : List (Option Assignment))
      → IsPlain unquote v
      → Lines lines
      → find_env_assignments unquote key lines ≡ ok found
      → Changed key v lines found
  find-Changed key v [] found plain l h =
      subst (Changed key v []) (ok_same found h)
        (record { again = []; found_again = refl; as_lines = tt; as_many = refl; restored = refl })
    where
      ok_same :
          (f : List (Option Assignment))
          → ◌≡◌ {A = Result EnvError (List (Option Assignment))} (ok []) (ok f)
          → [] ≡ f
      ok_same f e = cc e
  find-Changed key v (line ∷ lines) found plain l h =
      let f = find-cons key line lines found h in
      subst (Changed key v (line ∷ lines)) (sym f.same) (
        step f.first f.others f.at_first
          (find-Changed key v lines f.others plain (rest l) f.at_others) l)
    where
      rest : Lines (line ∷ lines) → Lines lines
      rest (inl (e, m)) = m
      rest (inr (o, e)) = subst Lines (sym e) tt

      shaped :
          (x : Bytes) (others : List (Option Assignment))
          → (Ended line → Ended x)
          → (Open line → Open x)
          → Lines (line ∷ lines)
          → Lines (set_lines unquote v others lines)
          → Lines (x ∷ set_lines unquote v others lines)
      shaped x others g k (inl (e, m)) n = inl (g e, n)
      shaped x others g k (inr (o, e)) n =
          inr (k o, ap (set_lines unquote v others) e ∙ nothing others)
        where
          nothing : (f : List (Option Assignment)) → set_lines unquote v f [] ≡ []
          nothing [] = refl
          nothing (a ∷ f) = refl

      step :
          (a : Option Assignment) (others : List (Option Assignment))
          → classify unquote key line ≡ ok a
          → Changed key v lines others
          → Lines (line ∷ lines)
          → Changed key v (line ∷ lines) (a ∷ others)
      step none others p c m =
          none-Changed key v line lines others p (shaped line others (λ e. e) (λ o. o) m) c
      step (some a) others p c m =
          some-Changed key v line a lines others plain p
            (shaped (set_line unquote v (some a) line) others
              (set_line-Ended unquote key v line a plain p)
              (set_line-Open unquote key v line a plain p) m)
            c
