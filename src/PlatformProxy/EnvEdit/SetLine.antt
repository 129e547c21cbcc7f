-- ===== src/PlatformProxy/EnvEdit/SetLine.antt =====
-- A line that is changed is a line again.
use coding_switch.Base.{
  ℕ, false, [], ◌∷◌, ◌++◌, append_assoc, Option, some, Bytes, ◌==◌, bytes_is_eq, nat_eq, Bool-cases,
  All-append, ok, ◌≡◌, refl, sym, ap, ◌∙◌, inl, inr, subst,
}
use coding_switch.PlatformProxy.EnvLine.{before}
use coding_switch.PlatformProxy.EnvLine.Parsed.{before-append}
use coding_switch.PlatformProxy.EnvText.{content_of, ending_of}
use coding_switch.PlatformProxy.EnvEdit.{Assignment, classify, set_line}
use coding_switch.PlatformProxy.EnvEdit.Lines.{
  NoBreak, Ended, Open, NoBreak-parts, ending-Ended, ending-Open,
}
use coding_switch.PlatformProxy.EnvEdit.Reparse.{IsPlain, Source, classify-Source}

pub NoBreak-append : (a b : Bytes) → NoBreak a → NoBreak b → NoBreak (a ++ b)
NoBreak-append = All-append (λ c. nat_eq c b'\n' ≡ false)

Open-NoBreak : (line : Bytes) → Open line → NoBreak line
Open-NoBreak [] h = absurd h
Open-NoBreak (c ∷ s) h = h

NoBreak-Open : (line : Bytes) (c : ℕ) (s : Bytes) → line ≡ c ∷ s → NoBreak line → Open line
NoBreak-Open [] c s e h = absurd (cc e)
NoBreak-Open (d ∷ t) c s e h = h

module _ (unquote : Bytes → Option Bytes) where
  pub Source-NoBreak :
      (a : Assignment) (line : Bytes) (s : Source unquote a line)
      → NoBreak (content_of line)
      → NoBreak a.front × NoBreak s.rest
  Source-NoBreak a line s h =
      let parts =
        NoBreak-parts (before s.head) s.head.rest
          (subst NoBreak (s.content ∙ sym (before-append s.head s.head.rest)) h) in
      (
        subst NoBreak (sym s.front) parts.0,
        (NoBreak-parts s.mid s.rest (subst NoBreak s.cut parts.1)).1,
      )

  pub set_line-Ended :
      (key v line : Bytes) (a : Assignment)
      → IsPlain unquote v
      → classify unquote key line ≡ ok (some a)
      → Ended line
      → Ended (set_line unquote v (some a) line)
  set_line-Ended key v line a plain h e = elim (Bool-cases (a.text == v)) [
    | inl y ↦ rw y e
    | inr n ↦
        let (s, k) = classify-Source unquote key line a h in
        let (r, c, nr, q) = ending-Ended line e in
        let (nf, ns) = Source-NoBreak a line s c in
        rw n (record {
          body = a.front ++ (v ++ (s.rest ++ r));
          no_break =
              NoBreak-append a.front (v ++ (s.rest ++ r)) nf
                (NoBreak-append v (s.rest ++ r) plain.no_break (NoBreak-append s.rest r ns nr));
          same =
              ap (λ t. a.front ++ (v ++ t)) (s.back ∙ ap (λ t. s.rest ++ t) q)
              ∙ ap (λ t. a.front ++ (v ++ t)) (sym (append_assoc s.rest r (b'\n' ∷ [])))
              ∙ ap (λ t. a.front ++ t) (sym (append_assoc v (s.rest ++ r) (b'\n' ∷ [])))
              ∙ sym (append_assoc a.front (v ++ (s.rest ++ r)) (b'\n' ∷ []));
        })
  ]

  plain_start :
      (v front back : Bytes)
      → IsPlain unquote v
      → (c : ℕ) × (s : Bytes) × (front ++ (v ++ back) ≡ c ∷ s)
  plain_start v [] back plain = (plain.first, plain.others ++ back, ap (λ t. t ++ back) plain.same)
  plain_start v (d ∷ front) back plain = (d, front ++ (v ++ back), refl)

  pub set_line-Open :
      (key v line : Bytes) (a : Assignment)
      → IsPlain unquote v
      → classify unquote key line ≡ ok (some a)
      → Open line
      → Open (set_line unquote v (some a) line)
  set_line-Open key v line a plain h o = elim (Bool-cases (a.text == v)) [
    | inl y ↦ rw y o
    | inr n ↦
        let (s, k) = classify-Source unquote key line a h in
        let (c, ne) = ending-Open line (Open-NoBreak line o) in
        let (nf, ns) = Source-NoBreak a line s c in
        let (d, t, q) = plain_start v a.front a.back plain in
        rw n (
          NoBreak-Open (a.front ++ (v ++ a.back)) d t q (
            NoBreak-append a.front (v ++ a.back) nf (
              NoBreak-append v a.back plain.no_break
                (subst NoBreak (sym s.back) (NoBreak-append s.rest (ending_of line) ns ne)))))
  ]
