-- ===== src/Target/Fields.antt =====
-- Fields behind their lengths, as the format `#{n:x}:#{x}` of tmux prints them.
use wrap.Base.{
  ℕ, suc, ◌+◌, ◌^◌, ◌<◌, ◌≡◌, refl, inr, false, some, List, [], ◌∷◌, ◌++◌, arith, ltb, ◌==◌, length,
  drop, length-append, take-append, drop-append, All, Bytes, pos, itoa, atoi, Without,
  index_byte-append,
}
use wrap.Base.Decimal.RoundTrip.{atoi-itoa, StartsWithDigit, itoa-StartsWithDigit, itoa-Without}
use wrap.Target.{parse_length_prefixed_fields, ok, parse_field}

-- `#{n:x}:#{x}`: the length in bytes, a colon and the field.
abbrev pub print_field : Bytes → Bytes
print_field f = itoa (length f) ++ (b':' ∷ f)

abbrev pub print_fields : List Bytes → Bytes
print_fields [] = []
print_fields (f ∷ fs) = itoa (length f) ++ (b':' ∷ (f ++ print_fields fs))

-- A field that an `int` can measure.
abbrev pub Measurable : Bytes → Type 0
Measurable f = length f < 2 ^ 63

pub itoa-nonempty : (n : ℕ) → 0 < length (itoa n)
itoa-nonempty n = go (itoa n) (itoa-StartsWithDigit n)
  where
    go : (s : Bytes) → StartsWithDigit s → 0 < length s
    go [] h = absurd h
    go (c ∷ cs) h = omega arith

pub drop_past {ℓ} :
    {A : Type ℓ} (xs : List A) (b : A) (ys : List A) → drop (length xs + 1) (xs ++ (b ∷ ys)) ≡ ys
drop_past [] b ys = refl
drop_past (x ∷ xs) b ys =
    let e : length (x ∷ xs) + 1 ≡ suc (length xs + 1) = omega arith in rw e (drop_past xs b ys)

-- A decimal length in any spelling that strconv.Atoi reads.
parse_field-append :
    (number f rest : Bytes)
    → 0 < length number
    → Without b':' number
    → atoi number ≡ some (pos (length f))
    → parse_field (number ++ (b':' ∷ (f ++ rest))) ≡ ok (f, rest)
unfolding parse_field
parse_field-append number f rest ne w e =
    let nonzero : (length number == 0) ≡ false = ground arith in
    let fits : ltb (length (f ++ rest)) (length f) ≡ false = ground (arith, length-append f rest) in
    rw (
      index_byte-append b':' number (f ++ rest) w,
      nonzero,
      take-append number (b':' ∷ (f ++ rest)),
      e,
      drop_past number b':' (f ++ rest),
      fits,
      take-append f rest,
      drop-append f rest,
    )

-- Fields printed with their lengths are parsed back, whatever bytes they hold: colons, digits and
-- newlines inside a field do not shift the ones behind it.
pub parse_length_prefixed_fields-print_fields :
    (fs : List Bytes)
    → All Measurable fs
    → parse_length_prefixed_fields (print_fields fs) (length fs) ≡ ok fs
unfolding parse_length_prefixed_fields
parse_length_prefixed_fields-print_fields [] h = refl
parse_length_prefixed_fields-print_fields (f ∷ fs) h = rw (
  parse_field-append (itoa (length f)) f (print_fields fs) (itoa-nonempty (length f))
      (itoa-Without b':' (length f) (inr (omega arith))) (atoi-itoa (length f) h.0),
  parse_length_prefixed_fields-print_fields fs h.1,
)
