-- ===== src/Text/Ascii.antt =====
-- About `trim_space` and `to_lower` on ASCII text.
use crm_beginner.Base.{ℕ, ◌≡◌, refl, sym, ap, ◌∙◌, [], ◌∷◌, ◌++◌, map, all-append, arith}
use crm_beginner.Text.Trim.{
  IsAscii, IsBlank, trim_ascii, trim_space-trim_ascii, trim_ascii_idem, trim_ascii-pad,
  trim_ascii-lower, trim_ascii-IsAscii,
}
use crm_beginner.Text.{Bytes, is_ascii, is_space, trim_space, lower_byte, to_lower}

lower_byte_idem : (c : ℕ) → lower_byte (lower_byte c) ≡ lower_byte c
unfolding lower_byte
lower_byte_idem c = ground arith

map-lower_byte_idem : (s : Bytes) → map lower_byte (map lower_byte s) ≡ map lower_byte s
map-lower_byte_idem [] = refl
map-lower_byte_idem (c ∷ s) = cc (lower_byte_idem c, map-lower_byte_idem s)

lower-IsAscii : (s : Bytes) → IsAscii s → IsAscii (map lower_byte s)
unfolding lower_byte
lower-IsAscii [] h = refl
lower-IsAscii (c ∷ s) h = ground (arith, lower-IsAscii s)

blank-IsAscii : (s : Bytes) → IsBlank s → IsAscii s
unfolding is_space
blank-IsAscii [] h = refl
blank-IsAscii (c ∷ s) h = ground (arith, blank-IsAscii s)

pad-IsAscii : (p s q : Bytes) → IsBlank p → IsBlank q → IsAscii s → IsAscii (p ++ s ++ q)
pad-IsAscii p s q hp hq hs = rw (
  all-append is_ascii (p ++ s) q,
  all-append is_ascii p s,
  blank-IsAscii p hp,
  blank-IsAscii q hq,
  hs,
)

module _ (map_lower : Bytes → Bytes) where
  -- `strings.ToLower(strings.TrimSpace(s))`.
  abbrev pub normal : Bytes → Bytes
  normal s = to_lower map_lower (trim_space s)

  normal-ascii : (s : Bytes) → IsAscii s → normal s ≡ trim_ascii (map lower_byte s)
  unfolding to_lower
  normal-ascii s h =
      rw (trim_space-trim_ascii s h, trim_ascii-IsAscii s h) (sym (trim_ascii-lower s))

  normal-IsAscii : (s : Bytes) → IsAscii s → IsAscii (normal s)
  normal-IsAscii s h =
      rw (normal-ascii s h) (trim_ascii-IsAscii (map lower_byte s) (lower-IsAscii s h))

  pub normal_idem : (s : Bytes) → IsAscii s → normal (normal s) ≡ normal s
  normal_idem s h =
      normal-ascii (normal s) (normal-IsAscii s h)
      ∙ rw (normal-ascii s h, ← trim_ascii-lower (map lower_byte s), map-lower_byte_idem s)
          (trim_ascii_idem (map lower_byte s))

  -- Spaces around the text and the case of its letters are forgotten.
  pub normal-pad_case :
      (p s t q : Bytes)
      → IsBlank p
      → IsBlank q
      → IsAscii s
      → IsAscii t
      → map lower_byte s ≡ map lower_byte t
      → normal (p ++ s ++ q) ≡ normal t
  normal-pad_case p s t q hp hq hs ht e =
      normal-ascii (p ++ s ++ q) (pad-IsAscii p s q hp hq hs)
      ∙ trim_ascii-lower (p ++ s ++ q)
      ∙ ap (map lower_byte) (trim_ascii-pad p s q hp hq)
      ∙ sym (trim_ascii-lower s)
      ∙ ap trim_ascii e
      ∙ sym (normal-ascii t ht)
