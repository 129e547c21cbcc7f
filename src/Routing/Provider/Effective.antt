-- ===== src/Routing/Provider/Effective.antt =====
-- The model mapping does not depend on the order in which Go visits the map.
use coding_switch.Base.{
  true, not, [], ◌∷◌, Option, none, some, Bytes, ◌≡◌, refl, ap, ◌⊎◌, inl, inr, Map, lookup, In,
  bytes_is_eq, lookup-SameEntries, UniqueKeys, SameEntries, if◌then◌else◌, Bool-cases,
}
use coding_switch.Routing.Wildcard.{match_wildcard, wildcard_more_specific}
use coding_switch.Routing.Wildcard.Order.{
  more_specific_asymm, more_specific_trans, more_specific_total,
}
use coding_switch.Routing.Provider.{
  Best, better, scan_patterns, apply_best, mapped_model, get_effective_model, Provider,
}

-- `best` is at least as specific as the pattern `q`.
abbrev Dominates : Best → Bytes → Type 0
Dominates none q = ⊥
Dominates (some (p, _)) q = (p ≡ q) ⊎ (wildcard_more_specific p q ≡ true)

better-Dominates : (p r q : Bytes) (best : Best) → Dominates best q → Dominates (better p r best) q
unfolding better
better-Dominates p r q none h = absurd h
better-Dominates p r q (some (b, s)) h = elim (Bool-cases (wildcard_more_specific p b)) [
  | inl more ↦
      rw more
        (elim h [ inl e ↦ inr (rw (← e) more) | inr m ↦ inr (more_specific_trans p b q more m) ])
  | inr less ↦ rw less h
]

better-Dominates_self : (p r : Bytes) (best : Best) → Dominates (better p r best) p
unfolding better
better-Dominates_self p r none = inl refl
better-Dominates_self p r (some (b, s)) = elim (Bool-cases (wildcard_more_specific p b)) [
  | inl more ↦ rw more (inl refl)
  | inr less ↦ rw less (elim (Bool-cases (wildcard_more_specific b p)) [
    | inl m ↦ inr m
    | inr l ↦ inl (more_specific_total b p l less)
  ])
]

better_from :
    (p r : Bytes) (best : Best) {e : Bytes × Bytes}
    → better p r best ≡ some e
    → (best ≡ some e) ⊎ (e ≡ (p, r))
unfolding better
better_from p r none h = inr (cc)
better_from p r (some (b, s)) h = elim (Bool-cases (wildcard_more_specific p b)) [
  | inl more ↦ inr (cc (rw more at h))
  | inr less ↦ inl (rw less at h)
]

abbrev step : Bytes → Bytes → Bytes → Best → Best
step model p r best = if not (match_wildcard p model) then best else better p r best

step-Dominates :
    (model p r q : Bytes) (best : Best) → Dominates best q → Dominates (step model p r best) q
step-Dominates model p r q best h = elim (Bool-cases (match_wildcard p model)) [
  | inl m ↦ rw m (better-Dominates p r q best h)
  | inr n ↦ rw n h
]

scan-Dominates_start :
    (model q : Bytes) (m : Map Bytes Bytes) (best : Best)
    → Dominates best q
    → Dominates (scan_patterns model m best) q
unfolding scan_patterns
scan-Dominates_start model q [] best h = h
scan-Dominates_start model q ((p, r) ∷ m) best h =
    scan-Dominates_start model q m _ (step-Dominates model p r q best h)

-- The result is at least as specific as every matching pattern.
scan-Dominates :
    (model q s : Bytes) (m : Map Bytes Bytes) (best : Best)
    → In (q, s) m
    → match_wildcard q model ≡ true
    → Dominates (scan_patterns model m best) q
unfolding scan_patterns
scan-Dominates model q s [] best i h = absurd i
scan-Dominates model q s ((p, r) ∷ m) best (inl e) h =
    let same : q ≡ p = ap (λ (x : Bytes × Bytes). x.0) e in
    let matches : match_wildcard p model ≡ true = rw (← same) h in
    rw (same, matches) (scan-Dominates_start model p m _ (better-Dominates_self p r best))
scan-Dominates model q s ((p, r) ∷ m) best (inr i) h = scan-Dominates model q s m _ i h

-- The result is the start, or a matching entry.
scan_from :
    (model : Bytes) (m : Map Bytes Bytes) (best : Best) {e : Bytes × Bytes}
    → scan_patterns model m best ≡ some e
    → (best ≡ some e) ⊎ (In e m × (match_wildcard e.0 model ≡ true))
unfolding scan_patterns
scan_from model [] best h = inl h
scan_from model ((p, r) ∷ m) best h = elim (scan_from model m _ h) [
  | inr (i, k) ↦ inr (inr i, k)
  | inl from ↦ elim (Bool-cases (match_wildcard p model)) [
    | inr n ↦ inl (rw n at from)
    | inl y ↦ elim (better_from p r best (rw y at from)) [
      | inl old ↦ inl old
      | inr new ↦ inr (inl new, rw new y)
    ]
  ]
]

mutual_best :
    (m : Map Bytes Bytes)
    → UniqueKeys m
    → (p r q s : Bytes) → In (p, r) m
    → In (q, s) m
    → Dominates (some (p, r)) q
    → Dominates (some (q, s)) p
    → (◌≡◌ {A = Best} (some (p, r)) (some (q, s)))
mutual_best m u p r q s i j (inl e) d = let w : r ≡ s = u p r s i (rw e j) in cc (e, w)
mutual_best m u p r q s i j (inr a) (inl e) = let w : r ≡ s = u q r s (rw e i) j in cc (e, w)
mutual_best m u p r q s i j (inr a) (inr b) = cc (more_specific_asymm p q a)

-- Two choices over the same entries that dominate each other are one entry.
best_unique :
    (model : Bytes) (m n : Map Bytes Bytes)
    → UniqueKeys m
    → SameEntries m n
    → scan_patterns model m none ≡ scan_patterns model n none
best_unique model m n u same =
    go (scan_patterns model m none) (scan_patterns model n none) refl refl
  where
    matched :
        (l : Map Bytes Bytes) (e : Bytes × Bytes)
        → scan_patterns model l none ≡ some e
        → In e l × (match_wildcard e.0 model ≡ true)
    matched l e h = elim (scan_from model l none h) [ inl no_start ↦ cc | inr i ↦ i ]

    go : (b c : Best) → scan_patterns model m none ≡ b → scan_patterns model n none ≡ c → b ≡ c
    go none none hb hc = refl
    go none (some (q, s)) hb hc =
        let (i, k) = matched n (q, s) hc in
        absurd (rw hb at (scan-Dominates model q s m none ((same (q, s)).1 i) k))
    go (some (p, r)) none hb hc =
        let (i, k) = matched m (p, r) hb in
        absurd (rw hc at (scan-Dominates model p r n none ((same (p, r)).0 i) k))
    go (some (p, r)) (some (q, s)) hb hc =
        let (i, k) = matched m (p, r) hb in
        let (j, l) = matched n (q, s) hc in
        mutual_best m u p r q s i ((same (q, s)).1 j)
          (rw hb at (scan-Dominates model q s m none ((same (q, s)).1 j) l))
          (rw hc at (scan-Dominates model p r n none ((same (p, r)).0 i) k))

-- The effective model, or the panic, is the same whatever the order in which the entries of the
-- mapping are visited.
pub effective_model-SameEntries :
    (p : Provider) (m n : Map Bytes Bytes) (model : Bytes)
    → UniqueKeys m
    → SameEntries m n
    → get_effective_model (record p { model_mapping = some m }) model
      ≡ get_effective_model (record p { model_mapping = some n }) model
unfolding get_effective_model
effective_model-SameEntries p m n model u same =
    rw (lookup-SameEntries model m n u same)
      (choice (lookup model n) (best_unique model m n u same))
  where
    choice :
        (o : Option Bytes)
        → scan_patterns model m none ≡ scan_patterns model n none
        → mapped_model o m model ≡ mapped_model o n model
    choice none h = ap (λ b. apply_best b model) h
    choice (some mapped) h = refl
