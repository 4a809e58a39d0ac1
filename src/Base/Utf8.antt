-- ===== src/Base/Utf8.antt =====
-- UTF-8 as package unicode/utf8 and the `range` of a string read it, and white space as
-- unicode.IsSpace knows it.
pub mod Ascii
pub mod RoundTrip
use Prim.Native.Nat.{ℕ, zero, suc, ◌+◌, ◌-◌, ◌*◌, ◌/◌, ◌%◌}
use mathlib.Core.Bool.{Bool, true, false, ◌&&◌, ◌||◌}
use mathlib.Core.List.{List, [], ◌∷◌, ◌++◌}
use wrap.Base.Tests.{◌==◌, ltb, leb, if◌then◌else◌}
use wrap.Base.Lists.{length, drop}
use wrap.Base.Text.{Bytes}

-- One turn of the decoder: the code point and the size of a well-formed sequence, or one bad byte.
pub data Decoded : Type 0 where
  rune : ℕ → ℕ → Decoded
  bad : Decoded

abbrev within : ℕ → ℕ → ℕ → Bool
within lo hi c = leb lo c && leb c hi

decode_two : ℕ → Bytes → Decoded
decode_two a (b ∷ _) = if within 0x80 0xbf b then rune ((a - 0xc0) * 64 + (b - 0x80)) 2 else bad
decode_two a _ = bad

decode_three : ℕ → ℕ → ℕ → Bytes → Decoded
decode_three lo hi a (b ∷ c ∷ _) =
    if within lo hi b && within 0x80 0xbf c
    then rune (((a - 0xe0) * 64 + (b - 0x80)) * 64 + (c - 0x80)) 3
    else bad
decode_three lo hi a _ = bad

decode_four : ℕ → ℕ → ℕ → Bytes → Decoded
decode_four lo hi a (b ∷ c ∷ d ∷ _) =
    if within lo hi b && within 0x80 0xbf c && within 0x80 0xbf d
    then rune ((((a - 0xf0) * 64 + (b - 0x80)) * 64 + (c - 0x80)) * 64 + (d - 0x80)) 4
    else bad
decode_four lo hi a _ = bad

decode_at : ℕ → Bytes → Decoded
unfolding decode_two decode_three decode_four
decode_at a rest =
    if ltb a 0x80
    then rune a 1
    else if within 0xc2 0xdf a
    then decode_two a rest
    else if within 0xe0 0xef a
    then decode_three (if a == 0xe0 then 0xa0 else 0x80) (if a == 0xed then 0x9f else 0xbf) a rest
    else if within 0xf0 0xf4 a
    then decode_four (if a == 0xf0 then 0x90 else 0x80) (if a == 0xf4 then 0x8f else 0xbf) a rest
    else bad

-- A bad byte is skipped alone. The fuel is at least the length of the text.
decode_from : ℕ → Bytes → List Decoded
decode_from zero s = []
decode_from (suc fuel) [] = []
decode_from (suc fuel) (a ∷ rest) = elim (decode_at a rest) [
  | bad ↦ bad ∷ decode_from fuel rest
  | rune r size ↦ rune r size ∷ decode_from fuel (drop (size - 1) rest)
]

-- What `range` goes through.
unfoldable pub decode_all : Bytes → List Decoded
unfolding decode_from decode_at
decode_all s = decode_from (length s) s

-- The code point that `range` gives; utf8.RuneError for a bad byte.
abbrev pub code_point : Decoded → ℕ
code_point (rune r _) = r
code_point bad = 0xfffd

abbrev pub is_well_formed : Decoded → Bool
is_well_formed (rune _ _) = true
is_well_formed bad = false

-- utf8.AppendRune on a Unicode scalar value.
pub encode_rune : ℕ → Bytes
encode_rune r =
    if ltb r 0x80
    then r ∷ []
    else if ltb r 0x800
    then (0xc0 + r / 64) ∷ (0x80 + r % 64) ∷ []
    else if ltb r 0x10000
    then (0xe0 + r / 4096) ∷ (0x80 + r / 64 % 64) ∷ (0x80 + r % 64) ∷ []
    else (0xf0 + r / 262144) ∷ (0x80 + r / 4096 % 64) ∷ (0x80 + r / 64 % 64) ∷ (0x80 + r % 64) ∷ []

pub encode_all : List ℕ → Bytes
encode_all [] = []
encode_all (r ∷ rs) = encode_rune r ++ encode_all rs

-- unicode.IsSpace
unfoldable pub is_space : ℕ → Bool
is_space r =
    within 9 13 r
    || r == 0x20
    || r == 0x85
    || r == 0xa0
    || r == 0x1680
    || within 0x2000 0x200a r
    || r == 0x2028
    || r == 0x2029
    || r == 0x202f
    || r == 0x205f
    || r == 0x3000
