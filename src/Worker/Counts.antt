-- ===== src/Worker/Counts.antt =====
-- What the outputs of the worker add up to.
use coding_switch.Base.{
  ℕ, ◌+◌, true, false, List, [], ◌∷◌, ◌++◌, map, append_assoc, ◌≡◌, refl, sym, ap, ◌∙◌, arith,
}
use coding_switch.Worker.{Output, processed, retried, direct, logged}

module _ {T : Type 0} where
  -- The items that the worker's goroutine delivered: in a batch that did not fail, or one by one.
  abbrev pub delivered : List (Output T) → List T
  delivered [] = []
  delivered (processed items false ∷ os) = items ++ delivered os
  delivered (processed items true ∷ os) = delivered os
  delivered (retried x ∷ os) = x ∷ delivered os
  delivered (direct x ∷ os) = delivered os
  delivered (logged n ∷ os) = delivered os

  -- The items that were processed for their caller.
  abbrev pub directs : List (Output T) → List T
  directs [] = []
  directs (direct x ∷ os) = x ∷ directs os
  directs (processed items b ∷ os) = directs os
  directs (retried x ∷ os) = directs os
  directs (logged n ∷ os) = directs os

  -- The drops that log lines named.
  abbrev pub total_logged : List (Output T) → ℕ
  total_logged [] = 0
  total_logged (logged n ∷ os) = n + total_logged os
  total_logged (processed items b ∷ os) = total_logged os
  total_logged (retried x ∷ os) = total_logged os
  total_logged (direct x ∷ os) = total_logged os

  pub delivered-append :
      (os ps : List (Output T)) → delivered (os ++ ps) ≡ delivered os ++ delivered ps
  delivered-append [] ps = refl
  delivered-append (processed items false ∷ os) ps =
      ap (λ t. items ++ t) (delivered-append os ps)
      ∙ sym (append_assoc items (delivered os) (delivered ps))
  delivered-append (processed items true ∷ os) ps = delivered-append os ps
  delivered-append (retried x ∷ os) ps = ap (◌∷◌ x) (delivered-append os ps)
  delivered-append (direct x ∷ os) ps = delivered-append os ps
  delivered-append (logged n ∷ os) ps = delivered-append os ps

  pub directs-append : (os ps : List (Output T)) → directs (os ++ ps) ≡ directs os ++ directs ps
  directs-append [] ps = refl
  directs-append (direct x ∷ os) ps = ap (◌∷◌ x) (directs-append os ps)
  directs-append (processed items b ∷ os) ps = directs-append os ps
  directs-append (retried x ∷ os) ps = directs-append os ps
  directs-append (logged n ∷ os) ps = directs-append os ps

  pub total_logged-append :
      (os ps : List (Output T)) → total_logged (os ++ ps) ≡ total_logged os + total_logged ps
  total_logged-append [] ps = omega arith
  total_logged-append (logged n ∷ os) ps = omega (arith, total_logged-append os ps)
  total_logged-append (processed items b ∷ os) ps = total_logged-append os ps
  total_logged-append (retried x ∷ os) ps = total_logged-append os ps
  total_logged-append (direct x ∷ os) ps = total_logged-append os ps

  pub retries :
      (xs : List T)
      → (delivered (map retried xs) ≡ xs)
        × (directs (map retried xs) ≡ [])
        × (total_logged (map retried xs) ≡ 0)
  retries [] = (refl, refl, refl)
  retries (x ∷ xs) = let (d, r, l) = retries xs in (ap (◌∷◌ x) d, r, l)
