-- ===== src/Sessions/Locks/Counting.antt =====
-- Counting the callers of the session service's locks.
use coding_switch.Base.{
  ℕ, suc, Bool, true, false, ◌&&◌, List, [], ◌∷◌, ◌++◌, some, nat_eq, Map, lookup, All, ◌≡◌, refl,
  ap, ◌∙◌,
}
use coding_switch.Sessions.Locks.{Key, key_is_eq, Phase, holding, Caller}

abbrev pub tally : Bool → ℕ → ℕ
tally true n = suc n
tally false n = n

abbrev pub count : (Caller → Bool) → List Caller → ℕ
count p [] = 0
count p (c ∷ callers) = tally (p c) (count p callers)

abbrev pub has : ℕ → Caller → Bool
has i c = nat_eq c.lock i

abbrev pub is_holding : Phase → Bool
is_holding holding = true
is_holding _ = false

abbrev pub holds : ℕ → Caller → Bool
holds i c = nat_eq c.lock i && is_holding c.phase

pub count-middle :
    (p : Caller → Bool) (front : List Caller) (c : Caller) (back : List Caller)
    → count p (front ++ c ∷ back) ≡ tally (p c) (count p (front ++ back))
count-middle p [] c back = refl
count-middle p (d ∷ front) c back =
    ap (tally (p d)) (count-middle p front c back) ∙ swap (p d) (p c) (count p (front ++ back))
  where
    swap : (a b : Bool) (n : ℕ) → tally a (tally b n) ≡ tally b (tally a n)
    swap true true n = refl
    swap true false n = refl
    swap false b n = refl

pub All-middle :
    (P : Caller → Type 0) (front : List Caller) (c : Caller) (back : List Caller)
    → All P (front ++ c ∷ back)
    → P c × All P (front ++ back)
All-middle P [] c back h = h
All-middle P (d ∷ front) c back h = let (p, q) = All-middle P front c back h.1 in (p, (h.0, q))

pub All-insert :
    (P : Caller → Type 0) (front : List Caller) (c : Caller) (back : List Caller)
    → P c
    → All P (front ++ back)
    → All P (front ++ c ∷ back)
All-insert P [] c back p h = (p, h)
All-insert P (d ∷ front) c back p h = (h.0, All-insert P front c back p h.1)

abbrev pub AtKey : Map Key ℕ → Caller → Type 0
AtKey table c = lookup c.key table ≡ some c.lock
