-- ===== src/Base/Decimal.antt =====
-- strconv.Itoa on numbers that are not negative, and strconv.Atoi.
pub mod RoundTrip
use Prim.Native.Nat.{ℕ, zero, suc, ◌+◌, ◌-◌, ◌*◌, ◌/◌, ◌%◌, ◌^◌}
use mathlib.Core.Bool.{Bool, true, false, ◌&&◌}
use mathlib.Core.List.{[], ◌∷◌}
use mathlib.Core.Option
use mathlib.Core.Option.{Option, none, some}
use wrap.Base.Tests.{◌==◌, ltb, leb, if◌then◌else◌}
use wrap.Base.Text.{Bytes}
use wrap.Base.Int.{ℤ, pos, negate}

-- The digits of `n` in front of `rest`. The fuel `n + 1` is enough, since `n / 10` is below `n`.
itoa_onto : ℕ → ℕ → Bytes → Bytes
itoa_onto zero n rest = rest
itoa_onto (suc f) n rest =
    let more = itoa_onto f (n / 10) ((n % 10 + b'0') ∷ rest) in
    if ltb n 10 then (n + b'0') ∷ rest else more

pub itoa : ℕ → Bytes
itoa n = itoa_onto (suc n) n []

abbrev is_digit : ℕ → Bool
is_digit c = leb b'0' c && leb c b'9'

-- Digits only, with the value read so far.
unfoldable pub digits : ℕ → Bytes → Option ℕ
digits v [] = some v
digits v (c ∷ cs) = let rest = digits (v * 10 + (c - b'0')) cs in if is_digit c then rest else none

-- At least one digit.
unsigned : Bytes → Option ℕ
unsigned [] = none
unsigned (c ∷ cs) = digits 0 (c ∷ cs)

-- An `int` has 64 bits.
to_int : Bool → ℕ → Option ℤ
to_int negative n =
    if negative
    then (if leb n (2 ^ 63) then some (negate n) else none)
    else if ltb n (2 ^ 63)
    then some (pos n)
    else none

unfoldable pub atoi : Bytes → Option ℤ
unfolding unsigned to_int digits Option.bind
atoi [] = none
atoi (c ∷ cs) =
    if c == b'-'
    then Option.bind (unsigned cs) (to_int true)
    else if c == b'+'
    then Option.bind (unsigned cs) (to_int false)
    else Option.bind (unsigned (c ∷ cs)) (to_int false)

-- strconv.ParseUint(s, 10, 16)
unfoldable pub parse_uint16 : Bytes → Option ℕ
unfolding digits
parse_uint16 [] = none
parse_uint16 (c ∷ cs) = elim (digits 0 (c ∷ cs)) [
  | none ↦ none
  | some v ↦ if ltb v (2 ^ 16) then some v else none
]
