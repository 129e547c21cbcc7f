-- ===== src/PlatformProxy/EnvEdit/Reparse.antt =====
-- An assignment whose value was replaced is still an assignment of its key.
use coding_switch.Base.{
  ℕ, false, ◌∷◌, ◌++◌, Option, none, some, Bytes, ◌==◌, bytes_is_eq, bytes_eq_iff, nat_eq,
  Bool-cases, ok, ◌≡◌, refl, sym, ap, ◌∙◌, inl, inr, subst,
}
use coding_switch.PlatformProxy.EnvLine.{
  is_env_space, Head, before, parse_head, Value, value, unclosed, trailing, is_quote, parse_value,
}
use coding_switch.PlatformProxy.EnvLine.Parsed.{IsHead-rest, parse_head-IsHead}
use coding_switch.PlatformProxy.EnvLine.Heads.{IsHead, whole, parse_head-whole}
use coding_switch.PlatformProxy.EnvLine.Values.{parse_value-split, parse_value-plain}
use coding_switch.PlatformProxy.EnvText.{content_of, ending_of}
use coding_switch.PlatformProxy.EnvEdit.{
  Assignment, Parsed, unmatched, malformed, assigned, with_value, with_head, parse_env_assignment,
  wanted, classify, set_line,
}
use coding_switch.PlatformProxy.EnvEdit.Lines.{NoBreak, chop-keeps}

module _ (unquote : Bytes → Option Bytes) where
  -- A value that may be written without quotes: its first byte is no quote, no space and no line
  -- break, and it has no line feed.
  pub record IsPlain (v : Bytes) : Type 0 where
    pub first : ℕ
    pub others : Bytes
    pub same : v ≡ first ∷ others
    pub no_quote : is_quote unquote first ≡ false
    pub no_space : is_env_space first ≡ false
    pub no_return : nat_eq first b'\r' ≡ false
    pub no_break : NoBreak v

  -- Where an assignment comes from.
  pub record Source (a : Assignment) (line : Bytes) : Type 0 where
    pub head : Head
    pub is_head : IsHead head
    pub content : content_of line ≡ whole head
    pub at_key : a.key ≡ head.key
    pub front : a.front ≡ before head
    pub mid : Bytes
    pub rest : Bytes
    pub cut : head.rest ≡ mid ++ rest
    pub back : a.back ≡ rest ++ ending_of line
    pub in_line : a.line ≡ line

  assigned_eq : (b a : Assignment) → assigned b ≡ assigned a → b ≡ a
  assigned_eq b a e = cc e

  value-Source :
      (line : Bytes) (h : Head) (v : Value) (a : Assignment)
      → IsHead h
      → content_of line ≡ whole h
      → parse_value unquote h.rest ≡ v
      → with_value unquote line h v ≡ assigned a
      → Source a line
  value-Source line h (value text rest) a i c p e =
      let (mid, cut) = parse_value-split unquote h.rest text rest p in
      let b : Assignment = record {
        key = h.key;
        front = before h;
        text = text;
        back = rest ++ ending_of line;
        line = line;
      } in
      let same : b ≡ a = assigned_eq b a e in
      subst (λ x. Source x line) same
        (record {
          head = h;
          is_head = i;
          content = c;
          at_key = refl;
          front = refl;
          mid = mid;
          rest = rest;
          cut = cut;
          back = refl;
          in_line = refl;
        })
  value-Source line h unclosed a i c p e = absurd (cc e)
  value-Source line h trailing a i c p e = absurd (cc e)

  head-Source :
      (line : Bytes) (o : Option Head) (a : Assignment)
      → parse_head (content_of line) ≡ o
      → with_head unquote line o ≡ assigned a
      → Source a line
  head-Source line none a p e = absurd (cc e)
  head-Source line (some h) a p e =
      let (i, c) = parse_head-IsHead (content_of line) h p in
      value-Source line h (parse_value unquote h.rest) a i c refl e

  parsed_source :
      (key line : Bytes) (p : Parsed) (a : Assignment)
      → wanted unquote key p ≡ ok (some a)
      → (p ≡ assigned a) × (a.key ≡ key)
  parsed_source key line unmatched a h = absurd (cc h)
  parsed_source key line (malformed k e) a h = elim (Bool-cases (k == key)) [
    | inl y ↦ absurd (cc (rw y at h))
    | inr n ↦ absurd (cc (rw n at h))
  ]
  parsed_source key line (assigned b) a h = elim (Bool-cases (b.key == key)) [
    | inl y ↦
        let same : b ≡ a = cc (rw y at h) in
        (ap assigned same, ap Assignment.key (sym same) ∙ (bytes_eq_iff b.key key).0 y)
    | inr n ↦ absurd (cc (rw n at h))
  ]

  pub classify-Source :
      (key line : Bytes) (a : Assignment)
      → classify unquote key line ≡ ok (some a)
      → Source a line × (a.key ≡ key)
  unfolding classify parse_env_assignment
  classify-Source key line a h =
      let (p, k) = parsed_source key line (parse_env_assignment unquote line) a h in
      (head-Source line (parse_head (content_of line)) a refl p, k)

  -- Whatever stands behind a head, if it starts like a plain value, the line is an assignment.
  reparsed :
      (key : Bytes) (h : Head) (c : ℕ) (r : Bytes)
      → IsHead h
      → h.key ≡ key
      → is_quote unquote c ≡ false
      → is_env_space c ≡ false
      → nat_eq c b'\r' ≡ false
      → nat_eq c b'\n' ≡ false
      → (a : Assignment) × (classify unquote key (before h ++ c ∷ r) ≡ ok (some a))
  unfolding classify parse_env_assignment
  reparsed key h c r i k q s cr lf =
      let (x, first) = chop-keeps b'\n' c (before h) r lf in
      let (y, second) = chop-keeps b'\r' c (before h) x cr in
      let here : content_of (before h ++ c ∷ r) ≡ before h ++ c ∷ y = rw first second in
      let (ig, same) = IsHead-rest h (c ∷ y) i s in
      let (text, rest, p) = parse_value-plain unquote c y q in
      let line = before h ++ c ∷ r in
      let a : Assignment = record {
        key = h.key;
        front = before h;
        text = text;
        back = rest ++ ending_of line;
        line = line;
      } in
      (
        a,
        ap (λ t. wanted unquote key (with_head unquote line (parse_head t))) (here ∙ same)
            ∙ ap (λ o. wanted unquote key (with_head unquote line o))
                (parse_head-whole (record h { rest = c ∷ y }) ig)
            ∙ ap (λ v. wanted unquote key (with_value unquote line (record h { rest = c ∷ y }) v)) p
            ∙ rw (k, (bytes_eq_iff key key).1 refl) refl,
      )

  -- The line after the change is an assignment of the key.
  pub classify-set_line :
      (key v line : Bytes) (a : Assignment)
      → IsPlain v
      → classify unquote key line ≡ ok (some a)
      → (b : Assignment) × (classify unquote key (set_line unquote v (some a) line) ≡ ok (some b))
  classify-set_line key v line a plain h = elim (Bool-cases (a.text == v)) [
    | inl y ↦ rw y (a, h)
    | inr n ↦
        let (s, k) = classify-Source key line a h in
        let (b, e) =
          reparsed key s.head plain.first (plain.others ++ a.back) s.is_head (sym s.at_key ∙ k)
            plain.no_quote plain.no_space plain.no_return (first_break plain) in
        rw n (
          b,
          ap (λ t. classify unquote key t)
                (ap (λ t. t ++ (v ++ a.back)) s.front
                  ∙ ap (λ t. before s.head ++ (t ++ a.back)) plain.same)
              ∙ e,
        )
  ]
    where
      first_break : (q : IsPlain v) → nat_eq q.first b'\n' ≡ false
      first_break q = (rw q.same at (q.no_break)).0
