-- ===== src/Sessions/Repository/Runs.antt =====
-- The session table after any sequence of the repository's operations: each key stands once.
use coding_switch.Base.{
  ℕ, Bool, true, false, not, ◌||◌, List, [], ◌∷◌, Option, none, some, Bytes, ◌==◌, bytes_is_eq,
  lookup, insert, delete, lookup-insert, lookup-delete, keep, if◌then◌else◌, Bool-cases, ◌≡◌, ◌⊎◌,
  refl, sym, ap, ◌∙◌, inl, inr,
}
use coding_switch.Kernel.{Platform, all_platforms}
use coding_switch.Sessions.Locks.{Key, key_is_eq}
use coding_switch.Sessions.Repository.{
  Row, Rows, found_provider, get_session_provider, visibility, is_expired, bound_row,
  bind_session_to_provider, update, update_session_success, record_session_background, is_stale,
  clean_loop, clean_expired_sessions, unbind_session,
}

pub data Operation : Type 0 where
  gets : Bool → Bool → ℕ → Key → Operation
  binds : Bool → ℕ → Key → Bytes → Operation
  succeeds : Bool → ℕ → Key → Operation
  records : Bool → Key → Bool → Operation
  cleans : Bool → (Platform → Bool) → ℕ → Operation
  unbinds : Bool → Key → Operation

-- The rows after an operation.
abbrev pub run : Operation → Rows → Rows
run (gets fails delete_fails now key) rows =
    (get_session_provider fails delete_fails now key rows).0
run (binds fails now key provider) rows = (bind_session_to_provider fails now key provider rows).0
run (succeeds fails now key) rows = (update_session_success fails now key rows).0
run (records fails key background) rows = (record_session_background fails key background rows).0
run (cleans fails delete_fails now) rows = (clean_expired_sessions fails delete_fails now rows).0
run (unbinds fails key) rows = (unbind_session fails key rows).0

pub data Reached : Rows → Type 0 where
  starts : Reached []
  continues : {rows : Rows} (operation : Operation) → Reached rows → Reached (run operation rows)

pub key_sym : (a b : Key) → (a == b) ≡ (b == a)
key_sym a b = elim (Bool-cases (a == b)) [
  | inl y ↦ y ∙ sym ((key_is_eq.same_iff b a).1 (sym ((key_is_eq.same_iff a b).0 y)))
  | inr n ↦
      n
      ∙ sym (
          not_true (b == a)
            (λ t. cc (sym n ∙ (key_is_eq.same_iff a b).1 (sym ((key_is_eq.same_iff b a).0 t)))))
]
  where
    not_true : (b : Bool) → (b ≡ true → ⊥) → b ≡ false
    not_true true h = absurd (h refl)
    not_true false h = refl

-- Each key stands once.
abbrev pub Single : Rows → Type 0
Single [] = Unit
Single ((key, row) ∷ rows) = (lookup key rows ≡ none) × Single rows

-- A row of a key among those that are kept.
abbrev pub passing : (Key × Row → Bool) → Key → Option Row → Option Row
passing p key none = none
passing p key (some row) = if p (key, row) then some row else none

pub lookup-keep :
    (p : Key × Row → Bool) (key : Key) (rows : Rows)
    → Single rows
    → lookup key (keep p rows) ≡ passing p key (lookup key rows)
lookup-keep p key [] s = refl
lookup-keep p key ((k, row) ∷ rows) s = elim (Bool-cases (k == key)) [
  | inl y ↦
      let same = (key_is_eq.same_iff k key).0 y in
      let gone : lookup key (keep p rows) ≡ none =
        lookup-keep p key rows s.1
        ∙ ap (passing p key) (ap (λ x. lookup x rows) (sym same) ∙ s.0) in
      let here : p (key, row) ≡ p (k, row) = ap (λ x. p (x, row)) (sym same) in
      elim (Bool-cases (p (k, row))) [
        | inl t ↦ rw (y, here, t, y) refl
        | inr f ↦ rw (y, here, f, gone) refl
      ]
  | inr n ↦ elim (Bool-cases (p (k, row))) [
    | inl t ↦ rw (n, t, n) (lookup-keep p key rows s.1)
    | inr f ↦ rw (n, f) (lookup-keep p key rows s.1)
  ]
]

pub keep-Single : (p : Key × Row → Bool) (rows : Rows) → Single rows → Single (keep p rows)
keep-Single p [] s = tt
keep-Single p ((k, row) ∷ rows) s = elim (Bool-cases (p (k, row))) [
  | inl t ↦ rw t (lookup-keep p k rows s.1 ∙ ap (passing p k) s.0, keep-Single p rows s.1)
  | inr f ↦ rw f (keep-Single p rows s.1)
]

abbrev pub changed : Key → Key → (Row → Row) → Option Row → Option Row
changed key k change none = none
changed key k change (some row) = some (if key == k then change row else row)

pub lookup-update :
    (key k : Key) (change : Row → Row) (rows : Rows)
    → lookup k (update key change rows) ≡ changed key k change (lookup k rows)
lookup-update key k change [] = refl
lookup-update key k change ((j, row) ∷ rows) = elim (Bool-cases (j == key)) [
  | inl y ↦
      first (lookup-update key k change rows) ((key_is_eq.same_iff j key).0 y) (Bool-cases (j == k))
        y
  | inr n ↦ other (lookup-update key k change rows) n (Bool-cases (j == k))
]
  where
    first :
        lookup k (update key change rows) ≡ changed key k change (lookup k rows)
        → j ≡ key
        → ((j == k) ≡ true) ⊎ ((j == k) ≡ false)
        → (j == key) ≡ true
        → lookup k (update key change ((j, row) ∷ rows))
          ≡ changed key k change (lookup k ((j, row) ∷ rows))
    first r e (inl t) y = rw (y, t, ap (λ x. x == k) (sym e) ∙ t) refl
    first r e (inr f) y = rw (y, f) r

    other :
        lookup k (update key change rows) ≡ changed key k change (lookup k rows)
        → (j == key) ≡ false
        → ((j == k) ≡ true) ⊎ ((j == k) ≡ false)
        → lookup k (update key change ((j, row) ∷ rows))
          ≡ changed key k change (lookup k ((j, row) ∷ rows))
    other r n (inl t) =
        let apart : (key == k) ≡ false =
          key_sym key k ∙ ap (λ x. x == key) (sym ((key_is_eq.same_iff j k).0 t)) ∙ n in
        rw (n, t, apart) refl
    other r n (inr f) = rw (n, f) r

update-Single :
    (key : Key) (change : Row → Row) (rows : Rows) → Single rows → Single (update key change rows)
update-Single key change [] s = tt
update-Single key change ((j, row) ∷ rows) s = elim (Bool-cases (j == key)) [
  | inl t ↦ rw t (
    lookup-update key j change rows ∙ ap (changed key j change) s.0,
    update-Single key change rows s.1,
  )
  | inr f ↦ rw f (
    lookup-update key j change rows ∙ ap (changed key j change) s.0,
    update-Single key change rows s.1,
  )
]

insert-Single : (key : Key) (row : Row) (rows : Rows) → Single rows → Single (insert key row rows)
insert-Single key row [] s = (refl, tt)
insert-Single key row ((j, old) ∷ rows) s = elim (Bool-cases (j == key)) [
  | inl t ↦ rw t (ap (λ x. lookup x rows) (sym ((key_is_eq.same_iff j key).0 t)) ∙ s.0, s.1)
  | inr f ↦
      rw f
        (lookup-insert key j row rows ∙ rw (key_sym key j ∙ f) s.0, insert-Single key row rows s.1)
]

delete-Single : (key : Key) (rows : Rows) → Single rows → Single (delete key rows)
delete-Single key [] s = tt
delete-Single key ((j, row) ∷ rows) s = elim (Bool-cases (j == key)) [
  | inl t ↦ rw t (delete-Single key rows s.1)
  | inr f ↦ rw f (lookup-delete key j rows ∙ rw (key_sym key j ∙ f) s.0, delete-Single key rows s.1)
]

pub if_first :
    {A : Type 0} (P : Rows → Type 0) (b : Bool) (x y : Rows × A)
    → P x.0
    → P y.0
    → P (if b then x else y).0
if_first P true x y p q = p
if_first P false x y p q = q

pub clean-Single :
    (delete_fails : Platform → Bool) (now : ℕ) (platforms : List Platform) (rows : Rows)
    → Single rows
    → Single (clean_loop delete_fails now platforms rows).0
clean-Single delete_fails now [] rows s = s
clean-Single delete_fails now (platform ∷ platforms) rows s =
    if_first Single (delete_fails platform) _ _ s (
      clean-Single delete_fails now platforms _
        (keep-Single (λ entry. not (is_stale now platform entry)) rows s))

-- What holds after every change that an operation can make holds after the operation.
found_first :
    (P : Rows → Type 0) (delete_fails : Bool) (now : ℕ) (key : Key) (rows : Rows) (o : Option Row)
    → P rows
    → P (delete key rows)
    → P (found_provider delete_fails now key rows o).0
found_first P delete_fails now key rows none p q = p
found_first P delete_fails now key rows (some row) p q =
    if_first P (is_expired now key.0 row.last_success_at) _ _ (if_rows delete_fails) p
  where
    if_rows : (b : Bool) → P (if b then rows else delete key rows)
    if_rows true = p
    if_rows false = q

-- What each statement of the repository makes of the rows.
pub record AfterEach (P : Rows → Type 0) (rows : Rows) : Type 0 where
  pub nothing : P rows
  pub deletes : (key : Key) → P (delete key rows)
  pub upserts :
      (now : ℕ) (key : Key) (provider : Bytes)
      → P (insert key (bound_row now key.0 provider (lookup key rows)) rows)
  pub succeeded :
      (now : ℕ) (key : Key) → P (update key (λ row. record row { last_success_at = now }) rows)
  pub recorded :
      (key : Key) (background : Bool)
      → P (update key (λ row. record row { hidden = visibility background row.hidden }) rows)
  pub cleaned :
      (delete_fails : Platform → Bool) (now : ℕ)
      → P (clean_loop delete_fails now all_platforms rows).0

pub run-all :
    (P : Rows → Type 0) (operation : Operation) (rows : Rows)
    → AfterEach P rows
    → P (run operation rows)
unfolding get_session_provider bind_session_to_provider update_session_success
    record_session_background clean_expired_sessions unbind_session
run-all P (gets fails delete_fails now key) rows a = if_first P (key.1 == []) _ _ a.nothing (
    if_first P fails _ _ a.nothing
      (found_first P delete_fails now key rows (lookup key rows) a.nothing (a.deletes key)))
run-all P (binds fails now key provider) rows a =
    if_first P (key.1 == [] || provider == []) _ _ a.nothing
      (if_first P fails _ _ a.nothing (a.upserts now key provider))
run-all P (succeeds fails now key) rows a =
    if_first P (key.1 == []) _ _ a.nothing (if_first P fails _ _ a.nothing (a.succeeded now key))
run-all P (records fails key background) rows a =
    if_first P (key.1 == []) _ _ a.nothing
      (if_first P fails _ _ a.nothing (a.recorded key background))
run-all P (cleans fails delete_fails now) rows a =
    if_first P fails _ _ a.nothing (a.cleaned delete_fails now)
run-all P (unbinds fails key) rows a = if_first P fails _ _ a.nothing (a.deletes key)

pub Reached-Single : {rows : Rows} → Reached rows → Single rows
Reached-Single starts = tt
Reached-Single (continues {rows = rows} operation r) =
    let s = Reached-Single r in
    run-all Single operation rows (record {
      nothing = s;
      deletes = λ key. delete-Single key rows s;
      upserts = λ now key provider. insert-Single key _ rows s;
      succeeded = λ now key. update-Single key _ rows s;
      recorded = λ key background. update-Single key _ rows s;
      cleaned = λ delete_fails now. clean-Single delete_fails now all_platforms rows s;
    })
