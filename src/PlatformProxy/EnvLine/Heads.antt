-- ===== src/PlatformProxy/EnvLine/Heads.antt =====
-- Exactly which contents have a head, and that the head does not depend on what comes after it.
use coding_switch.Base.{
  ℕ, Bool, true, false, ◌&&◌, [], ◌∷◌, ◌++◌, some, Bytes, nat_eq, nat_eq_iff, Bool-cases, All, ◌≡◌,
  ◌⊎◌, refl, sym, ap, ◌∙◌, inl, inr, arith,
}
use coding_switch.PlatformProxy.EnvLine.{
  is_env_space, is_env_key_start, is_env_key_part, span, starts, follows, Head, export_word,
  split_key, at_key, after_export, after_lead, parse_head,
}

-- All bytes pass the test.
abbrev pub Passes : (ℕ → Bool) → Bytes → Type 0
Passes test = All (λ c. test c ≡ true)

module _ (test : ℕ → Bool) where
  pub span-Passes :
      (s : Bytes)
      → Passes test (span test s).0
        × (starts test (span test s).1 ≡ false)
        × (s ≡ (span test s).0 ++ (span test s).1)
  span-Passes [] = (tt, refl, refl)
  span-Passes (c ∷ s) = elim (Bool-cases (test c)) [
    | inl y ↦ let (p, n, e) = span-Passes s in rw y ((y, p), n, ap (◌∷◌ c) e)
    | inr f ↦ rw f (tt, f, refl)
  ]

  span_all : (p s : Bytes) → Passes test p → starts test s ≡ false → span test (p ++ s) ≡ (p, s)
  span_all [] [] h n = refl
  span_all [] (c ∷ s) h n = rw n refl
  span_all (c ∷ p) s h n = rw (h.0, span_all p s h.1 n) refl

-- The test of `follows` looks no further than `=`.
pub follows_same :
    (p u x y : Bytes)
    → All (λ c. nat_eq c b'=' ≡ false) p
    → follows is_env_space p (u ++ b'=' ∷ x) ≡ follows is_env_space p (u ++ b'=' ∷ y)
follows_same [] [] x y h = refl
follows_same [] (d ∷ u) x y h = refl
follows_same (c ∷ p) [] x y h = rw h.0 refl
follows_same (c ∷ p) (d ∷ u) x y h = ap (λ b. nat_eq c d && b) (follows_same p u x y h.1)

follows_word :
    (p : Bytes) (c : ℕ) (s x : Bytes)
    → is_env_space c ≡ true
    → follows is_env_space p (p ++ ((c ∷ s) ++ x)) ≡ true
follows_word [] c s x h = h
follows_word (d ∷ p) c s x h = rw ((nat_eq_iff d d).1 refl, follows_word p c s x h) refl

pub follows_split :
    (p s : Bytes)
    → follows is_env_space p s ≡ true
    → (rest : Bytes) × (s ≡ p ++ rest) × (starts is_env_space rest ≡ true)
follows_split [] s h = (s, refl, h)
follows_split (c ∷ p) [] h = absurd (cc h)
follows_split (c ∷ p) (d ∷ s) h = elim (Bool-cases (nat_eq c d)) [
  | inl y ↦
      let (rest, e, n) = follows_split p s (rw y at h) in
      (rest, ap (◌∷◌ d) e ∙ ap (λ k. k ∷ (p ++ rest)) (sym ((nat_eq_iff c d).0 y)), n)
  | inr f ↦ absurd (cc (rw f at h))
]

-- A byte that starts a key and bytes that go on with it.
abbrev pub IsKey : Bytes → Type 0
IsKey [] = ⊥
IsKey (c ∷ s) = (is_env_key_start c ≡ true) × Passes is_env_key_part s

-- `export` and at least one space.
abbrev pub IsExport : Bytes → Bytes → Type 0
IsExport export text =
    ((export ≡ []) × (follows is_env_space export_word text ≡ false))
    ⊎ ((c : ℕ) × (s : Bytes) × (export ≡ export_word ++ (c ∷ s)) × Passes is_env_space (c ∷ s))

-- What comes after `export`.
abbrev pub tail_of : Head → Bytes
tail_of h = h.key ++ (h.gap ++ b'=' ∷ (h.pad ++ h.rest))

pub record IsHead (h : Head) : Type 0 where
  pub lead : Passes is_env_space h.lead
  pub export : IsExport h.export (tail_of h)
  pub key : IsKey h.key
  pub gap : Passes is_env_space h.gap
  pub pad : Passes is_env_space h.pad
  pub rest : starts is_env_space h.rest ≡ false

abbrev pub whole : Head → Bytes
whole h = h.lead ++ (h.export ++ tail_of h)

key_not_space :
    (c : ℕ) → is_env_key_start c ≡ true → (is_env_space c ≡ false) × (nat_eq c b'#' ≡ false)
key_not_space c h = (ground arith, ground arith)

part_not_gap :
    (gap x : Bytes) → Passes is_env_space gap → starts is_env_key_part (gap ++ b'=' ∷ x) ≡ false
part_not_gap [] x h = refl
part_not_gap (c ∷ gap) x h = ground (arith, h.0)

split_key_all :
    (key x : Bytes)
    → IsKey key
    → starts is_env_key_part x ≡ false
    → split_key (key ++ x) ≡ some (key, x)
split_key_all [] x h n = absurd h
split_key_all (c ∷ s) x h n = rw (h.0, span_all is_env_key_part s x h.1 n) refl

at_key_all :
    (h : Head)
    → IsHead h
    → (lead export : Bytes)
    → at_key lead export (split_key (tail_of h)) ≡ some (record h { lead = lead; export = export })
at_key_all h i lead export =
    rw
      (split_key_all h.key (h.gap ++ b'=' ∷ (h.pad ++ h.rest)) i.key
        (part_not_gap h.gap (h.pad ++ h.rest) i.gap))
      (rw
        (
          span_all is_env_space h.gap (b'=' ∷ (h.pad ++ h.rest)) i.gap refl,
          span_all is_env_space h.pad h.rest i.pad i.rest,
        )
        refl)

-- A key is not empty, so it decides what the text starts with.
starts_key :
    (key x : Bytes)
    → IsKey key
    → (starts is_env_space (key ++ x) ≡ false) × (starts (λ c. nat_eq c b'#') (key ++ x) ≡ false)
starts_key [] x h = absurd h
starts_key (c ∷ s) x h = key_not_space c h.0

pub export_branch :
    (lead x : Bytes)
    → follows is_env_space export_word (export_word ++ x) ≡ true
    → after_lead (lead, export_word ++ x) ≡ after_export lead (span is_env_space x)
export_branch lead x y = rw y refl

after_lead_all :
    (h : Head)
    → IsHead h
    → IsExport h.export (tail_of h)
    → after_lead (h.lead, h.export ++ tail_of h) ≡ some h
after_lead_all h i (inl (e, n)) =
    rw e (rw ((starts_key h.key _ i.key).1, n) (at_key_all h i h.lead []))
after_lead_all h i (inr (c, s, e, p)) =
    let spaces = c ∷ s in
    ap (λ x. after_lead (h.lead, x ++ tail_of h)) e
    ∙ export_branch h.lead (spaces ++ tail_of h) (follows_word export_word c s (tail_of h) p.0)
    ∙ ap (after_export h.lead)
        (span_all is_env_space spaces (tail_of h) p (starts_key h.key _ i.key).0)
    ∙ at_key_all h i h.lead (export_word ++ spaces)
    ∙ ap (λ x. some (record h { export = x })) (sym e)

after_lead_starts : (h : Head) → IsHead h → starts is_env_space (h.export ++ tail_of h) ≡ false
after_lead_starts h i = go i.export
  where
    go : IsExport h.export (tail_of h) → starts is_env_space (h.export ++ tail_of h) ≡ false
    go (inl (e, n)) = rw e (starts_key h.key _ i.key).0
    go (inr (c, s, e, p)) = rw e refl

-- A content that is put together from the parts of a head has that head.
pub parse_head-whole : (h : Head) → IsHead h → parse_head (whole h) ≡ some h
unfolding parse_head
parse_head-whole h i =
    ap after_lead
      (span_all is_env_space h.lead (h.export ++ tail_of h) i.lead (after_lead_starts h i))
    ∙ after_lead_all h i i.export
