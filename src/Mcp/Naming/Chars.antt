-- ===== src/Mcp/Naming/Chars.antt =====
-- Sanitising is idempotent, and public names keep to the length and the characters that clients accept.
use coding_switch.Base.{
  ℕ, zero, suc, ◌≤◌, Bool, true, ◌&&◌, ◌||◌, List, [], ◌∷◌, map, Bytes, ◌≡◌, refl, ap, ◌∙◌, arith,
  All, All-append, Bool-cases, inl, inr, length, length-append, length-take, take, leb, leb→le,
}
use coding_switch.Mcp.Naming.{
  is_tool_char, sanitize_char, sanitize_tool_segment, or_x, full_name, public_tool_name,
}

abbrev pub IsToolText : Bytes → Type 0
IsToolText s = All (λ c. is_tool_char c ≡ true) s

sanitize_char-tool : (r : ℕ) → is_tool_char (sanitize_char r) ≡ true
sanitize_char-tool r = elim (Bool-cases (is_tool_char r)) [ inl y ↦ rw y y | inr n ↦ rw n ]

sanitize_char_same : (r : ℕ) → is_tool_char r ≡ true → sanitize_char r ≡ r
sanitize_char_same r h = rw h

map-tool : (s : List ℕ) → IsToolText (map sanitize_char s)
map-tool [] = tt
map-tool (r ∷ s) = (sanitize_char-tool r, map-tool s)

map_same : (s : Bytes) → IsToolText s → map sanitize_char s ≡ s
map_same [] h = refl
map_same (r ∷ s) h = rw (sanitize_char_same r h.0, map_same s h.1)

or_x-tool : (s : Bytes) → IsToolText s → IsToolText (or_x s)
or_x-tool [] h = (refl, tt)
or_x-tool (c ∷ s) h = h

or_x_idem : (s : Bytes) → or_x (or_x s) ≡ or_x s
or_x_idem [] = refl
or_x_idem (c ∷ s) = refl

-- A sanitised segment holds tool characters only, and sanitising it again changes nothing.
pub sanitize_idem :
    (s : List ℕ)
    → IsToolText (sanitize_tool_segment s)
      × (sanitize_tool_segment (sanitize_tool_segment s) ≡ sanitize_tool_segment s)
unfolding sanitize_tool_segment
sanitize_idem s =
    let t = or_x-tool (map sanitize_char s) (map-tool s) in
    (t, ap or_x (map_same (or_x (map sanitize_char s)) t) ∙ or_x_idem (map sanitize_char s))

take-tool : (n : ℕ) (s : Bytes) → IsToolText s → IsToolText (take n s)
take-tool zero s h = tt
take-tool (suc n) [] h = tt
take-tool (suc n) (c ∷ s) h = (h.0, take-tool n s h.1)

full-tool :
    (server : Bytes) (tool : List ℕ) → IsToolText server → IsToolText (full_name server tool)
full-tool server tool h =
    All-append (λ c. is_tool_char c ≡ true) server _ h (refl, (refl, (sanitize_idem tool).0))

abbrev pub is_hex_digit : ℕ → Bool
is_hex_digit c = (leb b'0' c && leb c b'9') || (leb b'a' c && leb c b'f')

abbrev pub IsHex : Bytes → Type 0
IsHex s = All (λ c. is_hex_digit c ≡ true) s

hex-tool : (s : Bytes) → IsHex s → IsToolText s
hex-tool [] h = tt
hex-tool (c ∷ s) h = (ground arith, hex-tool s h.1)

module _ (hash : Bytes → Bytes) (digits : (s : Bytes) → length (hash s) ≡ 64) where
  -- A public name has at most 64 bytes, all of them tool characters where the server's name and the
  -- digest have no others.
  pub public_name_bounded :
      ((s : Bytes) → IsHex (hash s))
      → (server : Bytes) (tool : List ℕ) → IsToolText server
      → (length (public_tool_name hash server tool) ≤ 64)
        × IsToolText (public_tool_name hash server tool)
  unfolding public_tool_name
  public_name_bounded hex server tool h =
      elim (Bool-cases (leb (length (full_name server tool)) 64)) [
        | inl short ↦
            rw short (leb→le (length (full_name server tool)) 64 short, full-tool server tool h)
        | inr long ↦
            let full = full_name server tool in
            let b = length-take 55 full (ground arith) in
            let t = length-take 8 (hash full) (rw (digits full) (omega arith)) in
            rw long (
              omega (arith, length-append (take 55 full) (b'_' ∷ take 8 (hash full))),
              All-append (λ c. is_tool_char c ≡ true) (take 55 full) (b'_' ∷ take 8 (hash full))
                  (take-tool 55 full (full-tool server tool h))
                  (refl, take-tool 8 (hash full) (hex-tool (hash full) (hex full))),
            )
      ]
