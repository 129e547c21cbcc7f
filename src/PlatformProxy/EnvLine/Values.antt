-- ===== src/PlatformProxy/EnvLine/Values.antt =====
-- A value is a part of its content, and a value without a quote is always read.
use coding_switch.Base.{
  ℕ, Bool, false, not, ◌&&◌, ◌||◌, [], ◌∷◌, ◌++◌, Option, none, some, Bytes, nat_eq, if◌then◌else◌,
  Bool-cases, ◌≡◌, refl, sym, ap, ◌∙◌, inl, inr,
}
use coding_switch.PlatformProxy.EnvLine.{
  is_env_space, cons_front, span, cons_inside, find_quote, until_comment, keep_byte, trim_end,
  value, inner_value, is_trailing, closed_value, plain_value, is_quote, parse_value,
}

until_comment-split :
    (prev : ℕ) (s : Bytes) → (until_comment prev s).0 ++ (until_comment prev s).1 ≡ s
until_comment-split prev [] = refl
until_comment-split prev (c ∷ s) = elim (Bool-cases (nat_eq c b'#' && is_env_space prev)) [
  | inl y ↦ rw y refl
  | inr n ↦ rw n (ap (◌∷◌ c) (until_comment-split c s))
]

keep_byte-split :
    (c : ℕ) (p : Bytes × Bytes) → (keep_byte c p).0 ++ (keep_byte c p).1 ≡ c ∷ (p.0 ++ p.1)
keep_byte-split c ([], more) = elim (Bool-cases (is_env_space c)) [
  | inl y ↦ rw y refl
  | inr n ↦ rw n refl
]
keep_byte-split c (d ∷ kept, more) = refl

trim_end-split : (s rest : Bytes) → (trim_end s rest).0 ++ (trim_end s rest).1 ≡ s ++ rest
trim_end-split [] rest = refl
trim_end-split (c ∷ s) rest =
    keep_byte-split c (trim_end s rest) ∙ ap (◌∷◌ c) (trim_end-split s rest)

find_quote-split :
    (quote : ℕ) (escaped : Bool) (s : Bytes) (f : Bytes × Bytes)
    → find_quote quote escaped s ≡ some f
    → (mid : Bytes) × (s ≡ mid ++ f.1)
find_quote-split quote escaped [] f h = absurd (cc h)
find_quote-split quote escaped (c ∷ s) f h =
    elim (Bool-cases (nat_eq c quote && (nat_eq quote b'\'' || not escaped))) [
      | inl y ↦
          let same : ◌≡◌ {A = Bytes × Bytes} ([], s) f = cc (rw y at h) in
          (c ∷ [], ap (λ (x : Bytes × Bytes). c ∷ x.1) same)
      | inr n ↦
          inner (find_quote quote (if nat_eq c b'\\' then not escaped else false) s)
            (find_quote-split quote (if nat_eq c b'\\' then not escaped else false) s) (rw n at h)
    ]
  where
    inner :
        (o : Option (Bytes × Bytes))
        → ((g : Bytes × Bytes) → o ≡ some g → (mid : Bytes) × (s ≡ mid ++ g.1))
        → cons_inside c o ≡ some f
        → (mid : Bytes) × (c ∷ s ≡ mid ++ f.1)
    inner none ih k = absurd (cc k)
    inner (some (inside, rest)) ih k =
        let (mid, e) = ih (inside, rest) refl in
        let same : ◌≡◌ {A = Bytes × Bytes} (c ∷ inside, rest) f = cc k in
        (c ∷ mid, ap (◌∷◌ c) e ∙ ap (λ (x : Bytes × Bytes). (c ∷ mid) ++ x.1) same)

module _ (unquote : Bytes → Option Bytes) where
  closed_value-split :
      (quote : ℕ) (o : Option (Bytes × Bytes)) (v rest : Bytes)
      → closed_value unquote quote o ≡ value v rest
      → (inside : Bytes) × (o ≡ some (inside, rest))
  closed_value-split quote none v rest h = absurd (cc h)
  closed_value-split quote (some (inside, more)) v rest h =
      elim (Bool-cases (is_trailing unquote (span is_env_space more))) [
        | inl y ↦ absurd (cc (rw y at h))
        | inr n ↦
            let k : value (inner_value unquote quote inside) more ≡ value v rest = rw n at h in
            (inside, ap (λ x. some (inside, x)) (cc k))
      ]

  -- What follows a value is an end of the text that the value was read from.
  pub parse_value-split :
      (s v rest : Bytes) → parse_value unquote s ≡ value v rest → (mid : Bytes) × (s ≡ mid ++ rest)
  unfolding parse_value
  parse_value-split [] v rest h = ([], cc h)
  parse_value-split (c ∷ s) v rest h = elim (Bool-cases (is_quote unquote c)) [
    | inl y ↦
        let (inside, o) = closed_value-split c (find_quote c false s) v rest (rw y at h) in
        let (mid, e) = find_quote-split c false s (inside, rest) o in (c ∷ mid, ap (◌∷◌ c) e)
    | inr n ↦
        let p = cons_front c (until_comment c s) in
        let k : plain_value unquote p ≡ value v rest = rw n at h in
        let same : (trim_end p.0 p.1).1 ≡ rest = cc k in
        (
          (trim_end p.0 p.1).0,
          ap (◌∷◌ c) (sym (until_comment-split c s))
              ∙ sym (trim_end-split p.0 p.1)
              ∙ ap (λ x. (trim_end p.0 p.1).0 ++ x) same,
        )
  ]

  -- A value that starts with no quote is read without an error.
  pub parse_value-plain :
      (c : ℕ) (s : Bytes)
      → is_quote unquote c ≡ false
      → (v : Bytes) × (rest : Bytes) × (parse_value unquote (c ∷ s) ≡ value v rest)
  unfolding parse_value
  parse_value-plain c s n =
      let p = cons_front c (until_comment c s) in
      ((trim_end p.0 p.1).0, (trim_end p.0 p.1).1, rw n refl)
