-- ===== src/PlatformProxy/EnvEdit/Lines.antt =====
-- Lines and texts: splitting and joining undo each other.
use coding_switch.Base.{
  any, ℕ, false, List, [], ◌∷◌, ◌++◌, append-nil, Bytes, nat_eq, nat_eq_iff, Bool-cases, All, ◌≡◌,
  ◌⊎◌, refl, sym, ap, ◌∙◌, inl, inr,
}
use coding_switch.PlatformProxy.EnvText.{
  chop, chopped, content_of, ending_of, push, split_env_lines, join,
}

-- No line break.
abbrev pub NoBreak : Bytes → Type 0
NoBreak = All (λ c. nat_eq c b'\n' ≡ false)

-- A line with its line break at the end, and a last line without one.
pub record Ended (line : Bytes) : Type 0 where
  pub body : Bytes
  pub no_break : NoBreak body
  pub same : line ≡ body ++ b'\n' ∷ []

abbrev pub Open : Bytes → Type 0
Open [] = ⊥
Open (c ∷ s) = NoBreak (c ∷ s)

abbrev pub Lines : List Bytes → Type 0
Lines [] = Unit
Lines (line ∷ lines) = (Ended line × Lines lines) ⊎ (Open line × (lines ≡ []))

pub NoBreak-parts : (a b : Bytes) → NoBreak (a ++ b) → NoBreak a × NoBreak b
NoBreak-parts [] b h = (tt, h)
NoBreak-parts (x ∷ a) b h = let (p, q) = NoBreak-parts a b h.1 in ((h.0, p), q)

push-Lines :
    (c : ℕ) (lines : List Bytes) → nat_eq c b'\n' ≡ false → Lines lines → Lines (push c lines)
push-Lines c [] n h = inr ((n, tt), refl)
push-Lines c (line ∷ lines) n (inl (e, h)) =
    inl (record { body = c ∷ e.body; no_break = (n, e.no_break); same = ap (◌∷◌ c) e.same }, h)
push-Lines c ([] ∷ lines) n (inr (o, h)) = absurd o
push-Lines c ((d ∷ line) ∷ lines) n (inr (o, h)) = inr ((n, o), h)

pub split-Lines : (s : Bytes) → Lines (split_env_lines s)
unfolding split_env_lines
split-Lines [] = tt
split-Lines (c ∷ s) = elim (Bool-cases (nat_eq c b'\n')) [
  | inl y ↦ rw y (
      inl (
        record { body = []; no_break = tt; same = ap (λ d. d ∷ []) ((nat_eq_iff c b'\n').0 y) },
        split-Lines s,
      ))
  | inr n ↦ rw n (push-Lines c (split_env_lines s) n (split-Lines s))
]

join-push : (c : ℕ) (lines : List Bytes) → join (push c lines) ≡ c ∷ join lines
join-push c [] = refl
join-push c (line ∷ lines) = refl

pub join-split : (s : Bytes) → join (split_env_lines s) ≡ s
unfolding split_env_lines
join-split [] = refl
join-split (c ∷ s) = elim (Bool-cases (nat_eq c b'\n')) [
  | inl y ↦ rw y (ap (◌∷◌ c) (join-split s))
  | inr n ↦ rw n (join-push c (split_env_lines s) ∙ ap (◌∷◌ c) (join-split s))
]

split-ended :
    (b rest : Bytes)
    → NoBreak b
    → split_env_lines ((b ++ b'\n' ∷ []) ++ rest) ≡ (b ++ b'\n' ∷ []) ∷ split_env_lines rest
unfolding split_env_lines
split-ended [] rest h = refl
split-ended (c ∷ b) rest h = rw h.0 (ap (push c) (split-ended b rest h.1))

split-open : (c : ℕ) (s : Bytes) → NoBreak (c ∷ s) → split_env_lines (c ∷ s) ≡ (c ∷ s) ∷ []
unfolding split_env_lines
split-open c [] h = rw h.0 refl
split-open c (d ∷ s) h = rw h.0 (ap (push c) (split-open d s h.1))

pub split-join : (lines : List Bytes) → Lines lines → split_env_lines (join lines) ≡ lines
unfolding split_env_lines
split-join [] h = refl
split-join (line ∷ lines) (inl (e, h)) =
    ap (λ l. split_env_lines (l ++ join lines)) e.same
    ∙ split-ended e.body (join lines) e.no_break
    ∙ ap (λ l. l ∷ split_env_lines (join lines)) (sym e.same)
    ∙ ap (◌∷◌ line) (split-join lines h)
split-join ([] ∷ lines) (inr (o, h)) = absurd o
split-join ((c ∷ s) ∷ lines) (inr (o, h)) = rw h (rw (append-nil s) (split-open c s o))

-- A byte that the suffix does not have stays.
pub chop-keeps :
    (b c : ℕ) (u r : Bytes) → nat_eq c b ≡ false → (x : Bytes) × (chop b (u ++ c ∷ r) ≡ u ++ c ∷ x)
chop-keeps b c [] [] n = ([], rw n refl)
chop-keeps b c [] (d ∷ r) n = (chop b (d ∷ r), refl)
chop-keeps b c (e ∷ []) r n = let (x, q) = chop-keeps b c [] r n in (x, ap (◌∷◌ e) q)
chop-keeps b c (e ∷ (f ∷ u)) r n = let (x, q) = chop-keeps b c (f ∷ u) r n in (x, ap (◌∷◌ e) q)

chop-chopped : (b : ℕ) (s : Bytes) → chop b s ++ chopped b s ≡ s
chop-chopped b [] = refl
chop-chopped b (c ∷ []) = elim (Bool-cases (nat_eq c b)) [ inl y ↦ rw y refl | inr n ↦ rw n refl ]
chop-chopped b (c ∷ (d ∷ s)) = ap (◌∷◌ c) (chop-chopped b (d ∷ s))

chop-last : (b : ℕ) (u : Bytes) → (chop b (u ++ b ∷ []) ≡ u) × (chopped b (u ++ b ∷ []) ≡ b ∷ [])
chop-last b [] = (rw ((nat_eq_iff b b).1 refl) refl, rw ((nat_eq_iff b b).1 refl) refl)
chop-last b (c ∷ []) = let (p, q) = chop-last b [] in (ap (◌∷◌ c) p, q)
chop-last b (c ∷ (d ∷ u)) = let (p, q) = chop-last b (d ∷ u) in (ap (◌∷◌ c) p, q)

chop-NoBreak : (s : Bytes) → NoBreak s → (chop b'\n' s ≡ s) × (chopped b'\n' s ≡ [])
chop-NoBreak [] h = (refl, refl)
chop-NoBreak (c ∷ []) h = (rw h.0 refl, rw h.0 refl)
chop-NoBreak (c ∷ (d ∷ s)) h = let (p, q) = chop-NoBreak (d ∷ s) h.1 in (ap (◌∷◌ c) p, q)

-- The end of a line that ends in a line break, or of a last line, without that line break.
pub ending-Ended :
    (line : Bytes)
    → Ended line
    → (r : Bytes) × NoBreak (content_of line) × NoBreak r × (ending_of line ≡ r ++ b'\n' ∷ [])
ending-Ended line e =
    let (p, q) = chop-last b'\n' e.body in
    let cut : chop b'\n' line ≡ e.body = ap (chop b'\n') e.same ∙ p in
    let both =
      NoBreak-parts (chop b'\r' e.body) (chopped b'\r' e.body)
        (rw (chop-chopped b'\r' e.body) e.no_break) in
    (
      chopped b'\r' e.body,
      rw cut both.0,
      both.1,
      ap (λ s. chopped b'\r' s ++ chopped b'\n' line) cut
          ∙ ap (λ s. chopped b'\r' e.body ++ s) (ap (chopped b'\n') e.same ∙ q),
    )

pub ending-Open :
    (line : Bytes) → NoBreak line → NoBreak (content_of line) × NoBreak (ending_of line)
ending-Open line h =
    let (p, q) = chop-NoBreak line h in
    let both =
      NoBreak-parts (chop b'\r' line) (chopped b'\r' line) (rw (chop-chopped b'\r' line) h) in
    (rw p both.0, rw (p, q, append-nil (chopped b'\r' line)) both.1)

pub any-NoBreak : (s : Bytes) → any (λ c. nat_eq c b'\n') s ≡ false → NoBreak s
any-NoBreak [] h = tt
any-NoBreak (c ∷ s) h = elim (Bool-cases (nat_eq c b'\n')) [
  | inl y ↦ absurd (cc (rw y at h))
  | inr n ↦ (n, any-NoBreak s (rw n at h))
]
