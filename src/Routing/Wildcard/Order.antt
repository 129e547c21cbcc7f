-- ===== src/Routing/Wildcard/Order.antt =====
-- `wildcardMoreSpecific` is a strict total order.
use coding_switch.Base.{
  true, false, Bytes, ◌≡◌, arith, bytes_lt_asymm, bytes_lt_trans, bytes_lt_total,
}
use coding_switch.Routing.Wildcard.{wildcard_more_specific}

pub more_specific_asymm :
    (a b : Bytes) → wildcard_more_specific a b ≡ true → wildcard_more_specific b a ≡ false
unfolding wildcard_more_specific
more_specific_asymm a b h = ground (arith, bytes_lt_asymm a b)

pub more_specific_trans :
    (a b c : Bytes)
    → wildcard_more_specific a b ≡ true
    → wildcard_more_specific b c ≡ true
    → wildcard_more_specific a c ≡ true
unfolding wildcard_more_specific
more_specific_trans a b c h k = ground (arith, bytes_lt_trans a b c)

pub more_specific_total :
    (a b : Bytes) → wildcard_more_specific a b ≡ false → wildcard_more_specific b a ≡ false → a ≡ b
unfolding wildcard_more_specific
more_specific_total a b h k = ground (arith, bytes_lt_total a b)
