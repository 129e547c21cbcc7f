-- ===== src/PlatformProxy/EnvLine/Parsed.antt =====
-- A content with a head is put together from its parts, and the value behind a head may change.
use coding_switch.Base.{
  ℕ, true, false, [], ◌∷◌, ◌++◌, append_assoc, Option, none, some, Bytes, nat_eq, nat_eq_iff,
  Bool-cases, ◌≡◌, refl, sym, ap, ◌∙◌, inl, inr,
}
use coding_switch.PlatformProxy.EnvLine.{
  is_env_space, is_env_key_start, is_env_key_part, cons_front, span, starts, follows, Head, before,
  export_word, split_key, after_equals, at_equals, at_key, after_lead, parse_head,
}
use coding_switch.PlatformProxy.EnvLine.Heads.{
  span-Passes, IsExport, IsHead, IsKey, Passes, export_branch, follows_same, follows_split, tail_of,
  whole,
}

key_split : (s : Bytes) (k : Bytes × Bytes) → split_key s ≡ some k → IsKey k.0 × (s ≡ k.0 ++ k.1)
key_split [] k e = absurd (cc e)
key_split (c ∷ s) k e = elim (Bool-cases (is_env_key_start c)) [
  | inl y ↦
      let same : cons_front c (span is_env_key_part s) ≡ k = cc (rw y at e) in
      let (p, n, at) = span-Passes is_env_key_part s in rw (← same) ((y, p), ap (◌∷◌ c) at)
  | inr f ↦ absurd (cc (rw f at e))
]

-- What is known of a head that was found behind `lead` and `export` in the text `s`.
abbrev Found : Bytes → Bytes → Bytes → Head → Type 0
Found lead export s h =
    (h.lead ≡ lead)
    × (h.export ≡ export)
    × (s ≡ tail_of h)
    × IsKey h.key
    × Passes is_env_space h.gap
    × Passes is_env_space h.pad
    × (starts is_env_space h.rest ≡ false)

equals-Found :
    (lead export key s : Bytes) (g : Bytes × Bytes) (h : Head)
    → IsKey key
    → Passes is_env_space g.0
    → s ≡ g.0 ++ g.1
    → at_equals lead export key g ≡ some h
    → Found lead export (key ++ s) h
equals-Found lead export key s (gap, []) h k p at e = absurd (cc e)
equals-Found lead export key s (gap, c ∷ t) h k p at e = elim (Bool-cases (nat_eq c b'=')) [
  | inr f ↦ absurd (cc (rw f at e))
  | inl y ↦
      let same : after_equals lead export key gap (span is_env_space t) ≡ h = cc (rw y at e) in
      let (q, n, split) = span-Passes is_env_space t in
      rw (← same) (
        refl,
        refl,
        ap (λ x. key ++ x)
            (at
              ∙ ap (λ x. gap ++ x)
                  (ap (λ x. x ∷ t) ((nat_eq_iff c b'=').0 y) ∙ ap (◌∷◌ b'=') split)),
        k,
        p,
        q,
        n,
      )
]

key-Found :
    (lead export s : Bytes) (o : Option (Bytes × Bytes)) (h : Head)
    → split_key s ≡ o
    → at_key lead export o ≡ some h
    → Found lead export s h
key-Found lead export s none h o e = absurd (cc e)
key-Found lead export s (some (key, t)) h o e =
    let (k, at) = key_split s (key, t) o in
    let (p, n, split) = span-Passes is_env_space t in
    rw at (equals-Found lead export key t (span is_env_space t) h k p split e)

-- A front of spaces is not empty where the text starts with a space.
nonempty_front :
    (rest : Bytes) (g : Bytes × Bytes)
    → Passes is_env_space g.0
    → rest ≡ g.0 ++ g.1
    → starts is_env_space rest ≡ true
    → g ≡ span is_env_space rest
    → (c : ℕ) × (t : Bytes) × (export_word ++ (span is_env_space rest).0 ≡ export_word ++ (c ∷ t))
      × Passes is_env_space (c ∷ t)
nonempty_front rest ([], more) p split first e = absurd (stuck rest first e)
  where
    stuck :
        (rest : Bytes)
        → starts is_env_space rest ≡ true
        → ◌≡◌ {A = Bytes × Bytes} ([], more) (span is_env_space rest)
        → ⊥
    stuck [] f q = cc (f)
    stuck (c ∷ s) f q = cc (ap (λ (x : Bytes × Bytes). x.0) (rw f at q))
nonempty_front rest (c ∷ t, more) p split first e =
    (c, t, ap (λ (x : Bytes × Bytes). export_word ++ x.0) (sym e), p)

-- The other direction: a content with a head is put together from its parts.
pub parse_head-IsHead :
    (content : Bytes) (h : Head) → parse_head content ≡ some h → IsHead h × (content ≡ whole h)
unfolding parse_head
parse_head-IsHead content h e = go (span is_env_space content) (span-Passes is_env_space content) e
  where
    build :
        (lead s export x : Bytes)
        → Passes is_env_space lead
        → content ≡ lead ++ s
        → s ≡ export ++ x
        → Found lead export x h
        → IsExport export (tail_of h)
        → IsHead h × (content ≡ whole h)
    build lead s export x p at cut (el, ee, t, k, g, d, r) i = (
      record { lead = rw el p; export = rw ee i; key = k; gap = g; pad = d; rest = r },
      at ∙ ap (λ y. lead ++ y) (cut ∙ ap (λ y. export ++ y) t) ∙ rw (el, ee) refl,
    )

    go :
        (l : Bytes × Bytes)
        → Passes is_env_space l.0 × (starts is_env_space l.1 ≡ false) × (content ≡ l.0 ++ l.1)
        → after_lead l ≡ some h
        → IsHead h × (content ≡ whole h)
    go (lead, s) (p, n, at) q = elim (Bool-cases (starts (λ c. nat_eq c b'#') s)) [
      | inl y ↦ absurd (cc (rw y at q))
      | inr f ↦ elim (Bool-cases (follows is_env_space export_word s)) [
        | inr g ↦
            let w = key-Found lead [] s (split_key s) h refl (rw (f, g) at q) in
            build lead s [] s p at refl w (inl (refl, rw w.2 at g))
        | inl y ↦
            let (rest, cut, first) = follows_split export_word s y in
            let (g, n2, split) = span-Passes is_env_space rest in
            let q2 : after_lead (lead, export_word ++ rest) ≡ some h = rw cut at q in
            let q3 = sym (export_branch lead rest (rw cut at y)) ∙ q2 in
            let w =
              key-Found lead (export_word ++ (span is_env_space rest).0) (span is_env_space rest).1
                (split_key (span is_env_space rest).1) h refl q3 in
            build lead s (export_word ++ (span is_env_space rest).0) (span is_env_space rest).1 p at
              (cut ∙ ap (λ x. export_word ++ x) split) w
              (inr (nonempty_front rest (span is_env_space rest) g split first refl))
      ]
    ]

pub before-append : (h : Head) (r : Bytes) → before h ++ r ≡ whole (record h { rest = r })
before-append h r =
    append_assoc h.lead (h.export ++ (h.key ++ (h.gap ++ b'=' ∷ h.pad))) r
    ∙ ap (λ x. h.lead ++ x)
        (append_assoc h.export (h.key ++ (h.gap ++ b'=' ∷ h.pad)) r
          ∙ ap (λ x. h.export ++ x)
              (append_assoc h.key (h.gap ++ b'=' ∷ h.pad) r
                ∙ ap (λ x. h.key ++ x) (append_assoc h.gap (b'=' ∷ h.pad) r)))

export_rest :
    (h : Head) (r : Bytes)
    → IsExport h.export (tail_of h)
    → IsExport h.export (tail_of (record h { rest = r }))
export_rest h r (inl (e, n)) =
    let u = h.key ++ h.gap in
    inl (
      e,
      ap (follows is_env_space export_word) (sym (append_assoc h.key h.gap (b'=' ∷ (h.pad ++ r))))
          ∙ follows_same export_word u (h.pad ++ r) (h.pad ++ h.rest)
              (refl, (refl, (refl, (refl, (refl, (refl, tt))))))
          ∙ ap (follows is_env_space export_word)
              (append_assoc h.key h.gap (b'=' ∷ (h.pad ++ h.rest)))
          ∙ n,
    )
export_rest h r (inr x) = inr x

-- Another text behind the same head, if it starts with no space.
pub IsHead-rest :
    (h : Head) (r : Bytes)
    → IsHead h
    → starts is_env_space r ≡ false
    → IsHead (record h { rest = r }) × (before h ++ r ≡ whole (record h { rest = r }))
IsHead-rest h r i n = (
  record {
    lead = i.lead;
    export = export_rest h r i.export;
    key = i.key;
    gap = i.gap;
    pad = i.pad;
    rest = n;
  },
  before-append h r,
)
