-- ===== src/Mcp/Server/Collision.antt =====
-- The check of server names leaves room for two servers to publish one name.
use coding_switch.Base.{
  ℕ, Bool, nat_eq, ◌<◌, true, false, List, [], ◌∷◌, ◌++◌, Bytes, ◌≡◌, ◌≢◌, refl, ap, arith,
  contains_text, length, length-append, bytes_is_eq, append_assoc,
}
use coding_switch.Mcp.Naming.{sanitize_tool_segment, full_name, public_tool_name}
use coding_switch.Mcp.Server.{name_pattern, all_tool}

abbrev pub separator : Bytes
separator = b'_' ∷ b'_' ∷ []

abbrev pub ends_underscore : Bytes → Bool
ends_underscore [] = false
ends_underscore (c ∷ []) = nat_eq c b'_'
ends_underscore (c ∷ d ∷ s) = ends_underscore (d ∷ s)

all_tool_snoc : (s : Bytes) → all_tool s ≡ true → all_tool (s ++ b'_' ∷ []) ≡ true
all_tool_snoc [] h = refl
all_tool_snoc (c ∷ s) h = ground (arith, all_tool_snoc s)

-- One more underscore keeps a name accepted.
name_pattern_snoc :
    (s : Bytes) → name_pattern s ≡ true → length s < 32 → name_pattern (s ++ b'_' ∷ []) ≡ true
name_pattern_snoc [] h l = cc
name_pattern_snoc (c ∷ s) h l = ground (arith, all_tool_snoc s, length-append s (b'_' ∷ []))

separator_snoc :
    (s : Bytes)
    → contains_text separator s ≡ false
    → ends_underscore s ≡ false
    → contains_text separator (s ++ b'_' ∷ []) ≡ false
separator_snoc [] h e = refl
separator_snoc (c ∷ []) h e = ground arith
separator_snoc (c ∷ d ∷ s) h e = ground (arith, separator_snoc (d ∷ s))

full_name_shift :
    (s : Bytes) (t : ℕ) (ts : List ℕ)
    → full_name (s ++ b'_' ∷ []) (t ∷ ts) ≡ full_name s (b'_' ∷ t ∷ ts)
unfolding sanitize_tool_segment
full_name_shift s t ts = append_assoc s (b'_' ∷ []) _

snoc_longer : (s : Bytes) (c : ℕ) → s ++ c ∷ [] ≢ s
snoc_longer s c e = absurd (omega (arith, length-append s (c ∷ []), ap (length {A = ℕ}) e))

-- Every accepted name below the greatest length that has no underscore at its end has an accepted
-- neighbour, itself and one underscore, and each tool `t` of the neighbour has the public name of
-- the tool `_t` of the first.
pub accepted_names_collide :
    (hash : Bytes → Bytes) (s : Bytes) (t : ℕ) (ts : List ℕ)
    → name_pattern s ≡ true
    → contains_text separator s ≡ false
    → ends_underscore s ≡ false
    → length s < 32
    → (name_pattern (s ++ b'_' ∷ []) ≡ true)
      × (contains_text separator (s ++ b'_' ∷ []) ≡ false)
      × (s ++ b'_' ∷ [] ≢ s)
      × (public_tool_name hash (s ++ b'_' ∷ []) (t ∷ ts) ≡ public_tool_name hash s (b'_' ∷ t ∷ ts))
unfolding public_tool_name
accepted_names_collide hash s t ts n d e l =
    (name_pattern_snoc s n l, separator_snoc s d e, snoc_longer s b'_', rw (full_name_shift s t ts))
