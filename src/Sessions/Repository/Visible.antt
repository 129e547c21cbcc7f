-- ===== src/Sessions/Repository/Visible.antt =====
-- A session that is shown stays shown while its row is there: a request in the background does not hide
-- it again.
use coding_switch.Base.{
  ℕ, Bool, true, false, not, List, [], ◌∷◌, Option, none, some, Bytes, ◌==◌, bytes_is_eq, lookup,
  insert, delete, lookup-insert, lookup-delete, keep, if◌then◌else◌, Bool-cases, ◌≡◌, refl, sym, ap,
  ◌∙◌, inl, inr, subst,
}
use coding_switch.Kernel.{Platform, all_platforms}
use coding_switch.Sessions.Locks.{Key, key_is_eq}
use coding_switch.Sessions.Repository.{
  Row, Rows, visibility, bound_row, update, is_stale, clean_loop,
}
use coding_switch.Sessions.Repository.Runs.{
  Operation, run, Reached, continues, Single, passing, lookup-keep, keep-Single, if_first, changed,
  lookup-update, run-all, Reached-Single,
}

-- A row is gone, or it is shown.
abbrev pub ShownOrGone : Option Row → Type 0
ShownOrGone none = Unit
ShownOrGone (some row) = row.hidden ≡ 0

passing-shown :
    (p : Key × Row → Bool) (key : Key) (o : Option Row)
    → ShownOrGone o
    → ShownOrGone (passing p key o)
passing-shown p key none h = tt
passing-shown p key (some row) h = elim (Bool-cases (p (key, row))) [
  | inl y ↦ rw y h
  | inr n ↦ rw n tt
]

clean-shown :
    (delete_fails : Platform → Bool) (now : ℕ) (platforms : List Platform) (key : Key) (rows : Rows)
    → Single rows
    → ShownOrGone (lookup key rows)
    → ShownOrGone (lookup key (clean_loop delete_fails now platforms rows).0)
clean-shown delete_fails now [] key rows s h = h
clean-shown delete_fails now (platform ∷ platforms) key rows s h =
    let p : Key × Row → Bool = λ entry. not (is_stale now platform entry) in
    if_first (λ x. ShownOrGone (lookup key x)) (delete_fails platform) _ _ h
      (clean-shown delete_fails now platforms key (keep p rows) (keep-Single p rows s) (
        subst ShownOrGone (sym (lookup-keep p key rows s))
          (passing-shown p key (lookup key rows) h)))

changed-shown :
    (k key : Key) (change : Row → Row) (o : Option Row)
    → ((row : Row) → row.hidden ≡ 0 → (change row).hidden ≡ 0)
    → ShownOrGone o
    → ShownOrGone (changed k key change o)
changed-shown k key change none f h = tt
changed-shown k key change (some row) f h = elim (Bool-cases (k == key)) [
  | inl y ↦ rw y (f row h)
  | inr n ↦ rw n h
]

update-shown :
    (k key : Key) (change : Row → Row) (rows : Rows)
    → ((row : Row) → row.hidden ≡ 0 → (change row).hidden ≡ 0)
    → ShownOrGone (lookup key rows)
    → ShownOrGone (lookup key (update k change rows))
update-shown k key change rows f h =
    subst ShownOrGone (sym (lookup-update k key change rows))
      (changed-shown k key change (lookup key rows) f h)

delete-shown :
    (k key : Key) (rows : Rows)
    → ShownOrGone (lookup key rows)
    → ShownOrGone (lookup key (delete k rows))
delete-shown k key rows h = subst ShownOrGone (sym (lookup-delete k key rows)) (go (k == key))
  where
    go : (b : Bool) → ShownOrGone (if b then none else lookup key rows)
    go true = tt
    go false = h

-- A binding keeps the visibility of a row that is there.
bind-shown :
    (now : ℕ) (k key : Key) (provider : Bytes) (rows : Rows) (row : Row)
    → lookup key rows ≡ some row
    → row.hidden ≡ 0
    → ShownOrGone (lookup key (insert k (bound_row now k.0 provider (lookup k rows)) rows))
bind-shown now k key provider rows row found h =
    subst ShownOrGone (sym (lookup-insert k key _ rows)) (elim (Bool-cases (k == key)) [
      | inl y ↦
          let same : lookup k rows ≡ some row =
            ap (λ x. lookup x rows) ((key_is_eq.same_iff k key).0 y) ∙ found in
          rw (y, same) h
      | inr n ↦ rw (n, found) h
    ])

run-ShownOrGone :
    (operation : Operation) (key : Key) (row : Row) (rows : Rows)
    → Reached rows
    → lookup key rows ≡ some row
    → row.hidden ≡ 0
    → ShownOrGone (lookup key (run operation rows))
run-ShownOrGone operation key row rows r found h =
    let shown : ShownOrGone (lookup key rows) = rw found h in
    run-all (λ x. ShownOrGone (lookup key x)) operation rows
      (record {
        nothing = shown;
        deletes = λ k. delete-shown k key rows shown;
        upserts = λ now k provider. bind-shown now k key provider rows row found h;
        succeeded = λ now k.
            update-shown k key (λ x. record x { last_success_at = now }) rows (λ x z. z) shown;
        recorded = λ k background.
            update-shown k key (λ x. record x { hidden = visibility background x.hidden }) rows
              (stays background) shown;
        cleaned = λ delete_fails now.
            clean-shown delete_fails now all_platforms key rows (Reached-Single r) shown;
      })
  where
    stays : (background : Bool) (x : Row) → x.hidden ≡ 0 → visibility background x.hidden ≡ 0
    stays true x z = rw z refl
    stays false x z = refl

abbrev pub runs : List Operation → Rows → Rows
runs [] rows = rows
runs (operation ∷ operations) rows = runs operations (run operation rows)

abbrev pub IsShown : Key → Rows → Type 0
IsShown key rows = (row : Row) × (lookup key rows ≡ some row) × (row.hidden ≡ 0)

-- The row is there after each of the operations.
abbrev pub IsKept : Key → List Operation → Rows → Type 0
IsKept key [] rows = Unit
IsKept key (operation ∷ operations) rows =
    ((row : Row) × (lookup key (run operation rows) ≡ some row))
    × IsKept key operations (run operation rows)

-- From every table that the operations reach, a session that is shown is shown after any further
-- operations, if its row is there after each of them.
pub runs-IsShown :
    (operations : List Operation) (key : Key) (rows : Rows)
    → Reached rows
    → IsShown key rows
    → IsKept key operations rows
    → IsShown key (runs operations rows)
runs-IsShown [] key rows r shown kept = shown
runs-IsShown (operation ∷ operations) key rows r (row, found, h) ((next, there), kept) =
    let still : next.hidden ≡ 0 = rw there at (run-ShownOrGone operation key row rows r found h) in
    runs-IsShown operations key (run operation rows) (continues operation r) (next, there, still)
      kept
