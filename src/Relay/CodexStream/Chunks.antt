-- ===== src/Relay/CodexStream/Chunks.antt =====
-- The outcome does not depend on how the stream is cut into chunks of whole lines.
use coding_switch.Base.{
  ℕ, Bool, false, List, [], ◌∷◌, ◌++◌, Bytes, bytes_is_eq, nat_eq, trim_space, Bool-cases, ◌≡◌,
  refl, sym, ap, ◌∙◌, inl, inr,
}
use coding_switch.Relay.CodexStream.{
  Outcome, is_pending, push, split_lines, observe_line, observe_lines, observe,
}

push-append :
    (c : ℕ) (b : Bytes) (a : Bytes)
    → push c (split_lines a ++ split_lines b) ≡ push c (split_lines a) ++ split_lines b
push-append c b [] = refl
push-append c b (d ∷ a) = elim (Bool-cases (nat_eq d 10)) [
  | inl y ↦ rw y refl
  | inr n ↦ rw n (at_front (split_lines a))
]
  where
    at_front :
        (ls : List Bytes)
        → push c (push d ls ++ split_lines b) ≡ push c (push d ls) ++ split_lines b
    at_front [] = refl
    at_front (l ∷ ls) = refl

split_lines-append : (a b : Bytes) → split_lines (a ++ 10 ∷ b) ≡ split_lines a ++ split_lines b
split_lines-append [] b = refl
split_lines-append (c ∷ a) b = elim (Bool-cases (nat_eq c 10)) [
  | inl y ↦ rw y (ap (◌∷◌ []) (split_lines-append a b))
  | inr n ↦ rw n (ap (push c) (split_lines-append a b) ∙ push-append c b a)
]

module _ {J : Type 0} (parse : Bytes → J) (get : J → Bytes → J) (str : J → Bytes)
    (exists is_null : J → Bool) where
  abbrev lines_from : List Bytes → Outcome → Outcome
  lines_from = observe_lines parse get str exists is_null

  settled : (ls : List Bytes) (o : Outcome) → is_pending o.status ≡ false → lines_from ls o ≡ o
  settled [] o h = refl
  settled (l ∷ ls) o h = rw h refl

  lines_from-append :
      (ls ms : List Bytes) (o : Outcome) → lines_from (ls ++ ms) o ≡ lines_from ms (lines_from ls o)
  lines_from-append [] ms o = refl
  lines_from-append (l ∷ ls) ms o = elim (Bool-cases (is_pending o.status)) [
    | inl y ↦
        rw y (lines_from-append ls ms (observe_line parse get str exists is_null (trim_space l) o))
    | inr n ↦ rw n (sym (settled ms o n))
  ]

  observe-lines :
      (a : Bytes) (o : Outcome)
      → observe parse get str exists is_null a o ≡ lines_from (split_lines a) o
  unfolding observe trim_space
  observe-lines [] o = elim (Bool-cases (is_pending o.status)) [
    | inl y ↦ rw y refl
    | inr n ↦ rw n refl
  ]
  observe-lines (c ∷ a) o = elim (Bool-cases (is_pending o.status)) [
    | inl y ↦ rw y refl
    | inr n ↦ rw n (sym (settled (split_lines (c ∷ a)) o n))
  ]

  -- Whatever the documents in it say: observing two chunks one after the other gives the outcome of
  -- the two joined by a line break.
  pub observe-append :
      (a b : Bytes) (o : Outcome)
      → observe parse get str exists is_null (a ++ 10 ∷ b) o
        ≡ observe parse get str exists is_null b (observe parse get str exists is_null a o)
  observe-append a b o =
      observe-lines (a ++ 10 ∷ b) o
      ∙ ap (λ ls. lines_from ls o) (split_lines-append a b)
      ∙ lines_from-append (split_lines a) (split_lines b) o
      ∙ sym (observe-lines b (lines_from (split_lines a) o))
      ∙ ap (observe parse get str exists is_null b) (sym (observe-lines a o))
