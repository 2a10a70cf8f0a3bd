-- ===== src/Text.antt =====
-- The functions of Go's package strings that the program calls. A string is the list of its bytes.
pub mod Ascii
pub mod Search
pub mod Trim
pub mod Decimal
pub mod Dict
pub mod Pieces
use Prim.Native.Char.{code}
use Prim.Native.String.{String}
use crm_beginner.Base.{
  ℕ, zero, suc, ◌+◌, Bool, true, false, ◌&&◌, ◌||◌, Option, none, some, List, [], ◌∷◌, map, reverse,
  leb, ltb, ◌==◌, if◌then◌else◌, all,
}
use mathlib.Core.Option

abbrev pub Bytes : Type 0
Bytes = List ℕ

-- The bytes of an ASCII literal.
abbrev pub bytes : String → Bytes
bytes String.[] = []
bytes (String.◌∷◌ c s) = code c ∷ bytes s

unfoldable pub equal : Bytes → Bytes → Bool
equal [] [] = true
equal (a ∷ s) (b ∷ t) = a == b && equal s t
equal _ _ = false

abbrev pub is_empty : Bytes → Bool
is_empty [] = true
is_empty (c ∷ s) = false

-- `strings.IndexByte`, with `none` for -1.
unfoldable pub index_byte : Bytes → ℕ → Option ℕ
index_byte [] b = none
index_byte (c ∷ s) b = if c == b then some 0 else Option.map suc (index_byte s b)

abbrev pub has_byte : Bytes → ℕ → Bool
has_byte [] c = false
has_byte (d ∷ ds) c = c == d || has_byte ds c

-- `strings.ContainsAny`, for a set of ASCII bytes.
unfoldable pub contains_any : Bytes → Bytes → Bool
contains_any [] chars = false
contains_any (c ∷ s) chars = has_byte chars c || contains_any s chars

unfoldable pub has_prefix : Bytes → Bytes → Bool
has_prefix s [] = true
has_prefix [] (p ∷ ps) = false
has_prefix (c ∷ s) (p ∷ ps) = c == p && has_prefix s ps

-- `strings.Contains`.
unfoldable pub contains : Bytes → Bytes → Bool
unfolding has_prefix
contains [] sub = has_prefix [] sub
contains (c ∷ s) sub = has_prefix (c ∷ s) sub || contains s sub

-- What stands before and behind the first `sep`.
unfoldable pub cut : ℕ → Bytes → Option (Bytes × Bytes)
cut sep [] = none
cut sep (c ∷ s) = if c == sep then some ([], s) else Option.map (λ p. (c ∷ p.0, p.1)) (cut sep s)

-- `strings.SplitN` by one byte, for a positive count: the last piece keeps the rest.
unfoldable pub split_n : ℕ → ℕ → Bytes → List Bytes
unfolding cut
split_n sep zero s = s ∷ []
split_n sep (suc zero) s = s ∷ []
split_n sep (suc (suc n)) s = elim (cut sep s) [
  | none ↦ s ∷ []
  | some (piece, rest) ↦ piece ∷ split_n sep (suc n) rest
]

onto_first : ℕ → List Bytes → List Bytes
onto_first c [] = (c ∷ []) ∷ []
onto_first c (piece ∷ pieces) = (c ∷ piece) ∷ pieces

-- `strings.Split` by one byte.
unfoldable pub split : ℕ → Bytes → List Bytes
unfolding onto_first
split sep [] = [] ∷ []
split sep (c ∷ s) = let rest = split sep s in if c == sep then [] ∷ rest else onto_first c rest

-- `strings.LastIndex` of one byte, with `none` for -1.
unfoldable pub last_index : Bytes → ℕ → Option ℕ
last_index [] b = none
last_index (c ∷ s) b = elim (last_index s b) [
  | some i ↦ some (suc i)
  | none ↦ if c == b then some 0 else none
]

-- `strings.CutSuffix`, with `none` where the suffix is not there.
unfoldable pub cut_suffix : Bytes → Bytes → Option Bytes
unfolding equal
cut_suffix [] suffix = if equal [] suffix then some [] else none
cut_suffix (c ∷ s) suffix =
    if equal (c ∷ s) suffix then some [] else Option.map (◌∷◌ c) (cut_suffix s suffix)

-- `strings.TrimSuffix`.
unfoldable pub trim_suffix : Bytes → Bytes → Bytes
unfolding cut_suffix
trim_suffix s suffix = elim (cut_suffix s suffix) [ none ↦ s | some t ↦ t ]

abbrev pub is_ascii : ℕ → Bool
is_ascii c = ltb c 128

-- `unicode.IsSpace` below 128: tab, line feed, vertical tab, form feed, carriage return, space.
unfoldable pub is_space : ℕ → Bool
is_space c = leb 9 c && leb c 13 || c == 32

-- U+0085 and U+00A0 in UTF-8.
is_space_pair : ℕ → ℕ → Bool
is_space_pair a b = a == 0xC2 && (b == 0x85 || b == 0xA0)

-- U+1680, U+2000 to U+200A, U+2028, U+2029, U+202F, U+205F and U+3000 in UTF-8.
is_space_triple : ℕ → ℕ → ℕ → Bool
is_space_triple a b c =
    a == 0xE1 && b == 0x9A && c == 0x80
    || a == 0xE2
      && (b == 0x80 && (leb 0x80 c && leb c 0x8A || c == 0xA8 || c == 0xA9 || c == 0xAF)
          || b == 0x81 && c == 0x9F)
    || a == 0xE3 && b == 0x80 && c == 0x80

-- How many bytes the white space character takes that a string begins with, 0 if none does.
leading_space : Bytes → ℕ
unfolding is_space is_space_pair is_space_triple
leading_space [] = 0
leading_space (a ∷ []) = if is_space a then 1 else 0
leading_space (a ∷ b ∷ []) = if is_space a then 1 else if is_space_pair a b then 2 else 0
leading_space (a ∷ b ∷ c ∷ s) =
    if is_space a
    then 1
    else if is_space_pair a b
    then 2
    else if is_space_triple a b c
    then 3
    else 0

-- The same for the end of a string that is given backwards.
trailing_space : Bytes → ℕ
unfolding is_space is_space_pair is_space_triple
trailing_space [] = 0
trailing_space (c ∷ []) = if is_space c then 1 else 0
trailing_space (c ∷ b ∷ []) = if is_space c then 1 else if is_space_pair b c then 2 else 0
trailing_space (c ∷ b ∷ a ∷ s) =
    if is_space c
    then 1
    else if is_space_pair b c
    then 2
    else if is_space_triple a b c
    then 3
    else 0

-- Drops `skip` bytes, and then white space as `width` finds it.
trim_by : (Bytes → ℕ) → ℕ → Bytes → Bytes
trim_by width skip [] = []
trim_by width (suc skip) (c ∷ s) = trim_by width skip s
trim_by width zero (c ∷ s) = elim (width (c ∷ s)) [ zero ↦ c ∷ s | suc w ↦ trim_by width w s ]

-- `strings.TrimSpace`.
unfoldable pub trim_space : Bytes → Bytes
unfolding leading_space trailing_space trim_by
trim_space s = reverse (trim_by trailing_space 0 (reverse (trim_by leading_space 0 s)))

unfoldable pub lower_byte : ℕ → ℕ
lower_byte c = if leb b'A' c && leb c b'Z' then c + 32 else c

-- `strings.ToLower`: ASCII is mapped here, other text by `strings.Map(unicode.ToLower, s)`, which
-- is the parameter `map_lower`.
unfoldable pub to_lower : (Bytes → Bytes) → Bytes → Bytes
unfolding lower_byte
to_lower map_lower s = if all is_ascii s then map lower_byte s else map_lower s
