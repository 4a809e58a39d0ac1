-- ===== src/Base/Decimal/RoundTrip.antt =====
-- Reading back what strconv.Itoa writes.
use Prim.Native.Nat.{ℕ, zero, suc, ◌+◌, ◌*◌, ◌/◌, ◌%◌, ◌^◌, ◌<◌, ◌≤◌}
use mathlib.Core.Path.{◌≡◌, refl, ◌∙◌, ap}
use mathlib.Core.List.{[], ◌∷◌}
use mathlib.Core.Option.{some}
use mathlib.Core.Logic.{inl, inr}
use native.Mathlib.Omega.{arith}
use wrap.Base.Tests.{ltb, Bool-cases, ltb→lt}
use wrap.Base.Text.{Bytes}
use wrap.Base.Int.{pos}
use wrap.Base.Strings.{Without}
use mathlib.Core.Logic.{◌⊎◌}
use wrap.Base.Decimal.{itoa_onto, itoa, digits, atoi}

digits-digit :
    (v d : ℕ) (rest : Bytes) → d < 10 → digits v ((d + b'0') ∷ rest) ≡ digits (v * 10 + d) rest
unfolding digits
digits-digit v d rest h = ground arith

digits-itoa_onto : (f n : ℕ) (rest : Bytes) → n < f → digits 0 (itoa_onto f n rest) ≡ digits n rest
unfolding itoa_onto
digits-itoa_onto zero n rest h = elim h [ ]
digits-itoa_onto (suc f) n rest h = elim (Bool-cases (ltb n 10)) [
  | inl small ↦
      rw small
        (digits-digit 0 n rest (ltb→lt n 10 small) ∙ ap (λ (k : ℕ). digits k rest) (omega arith))
  | inr large ↦ rw large (
      digits-itoa_onto f (n / 10) ((n % 10 + b'0') ∷ rest) (ground arith)
      ∙ digits-digit (n / 10) (n % 10) rest (omega arith)
      ∙ ap (λ (k : ℕ). digits k rest) (omega arith))
]

-- The first byte of a printed number is a digit.
abbrev pub StartsWithDigit : Bytes → Type 0
StartsWithDigit [] = ⊥
StartsWithDigit (c ∷ cs) = (b'0' ≤ c) × (c ≤ b'9')

itoa_onto-StartsWithDigit : (f n : ℕ) (rest : Bytes) → n < f → StartsWithDigit (itoa_onto f n rest)
unfolding itoa_onto
itoa_onto-StartsWithDigit zero n rest h = elim h [ ]
itoa_onto-StartsWithDigit (suc f) n rest h = elim (Bool-cases (ltb n 10)) [
  | inl small ↦ rw small (ground arith)
  | inr large ↦ rw large (itoa_onto-StartsWithDigit f (n / 10) _ (ground arith))
]

pub itoa-StartsWithDigit : (n : ℕ) → StartsWithDigit (itoa n)
unfolding itoa
itoa-StartsWithDigit n = itoa_onto-StartsWithDigit (suc n) n [] (omega arith)

pub digits-itoa : (n : ℕ) → digits 0 (itoa n) ≡ some n
unfolding itoa digits
digits-itoa n = digits-itoa_onto (suc n) n [] (omega arith)

atoi_of_digits :
    (n : ℕ) (s : Bytes)
    → StartsWithDigit s
    → digits 0 s ≡ some n
    → n < 2 ^ 63
    → atoi s ≡ some (pos n)
unfolding atoi
atoi_of_digits n [] st e h = absurd st
atoi_of_digits n (c ∷ cs) st e h = ground arith

-- strconv.Atoi reads back what strconv.Itoa writes.
pub atoi-itoa : (n : ℕ) → n < 2 ^ 63 → atoi (itoa n) ≡ some (pos n)
atoi-itoa n h = atoi_of_digits n (itoa n) (itoa-StartsWithDigit n) (digits-itoa n) h

-- Two numbers that print alike are one.
pub itoa_injective : {m n : ℕ} → itoa m ≡ itoa n → m ≡ n
itoa_injective {m} {n} e = cc (digits-itoa m, digits-itoa n, ap (digits 0) e)

itoa_onto-Without :
    (b f n : ℕ) (rest : Bytes)
    → (b < b'0') ⊎ (b'9' < b)
    → n < f
    → Without b rest
    → Without b (itoa_onto f n rest)
unfolding itoa_onto
itoa_onto-Without b zero n rest out h w = elim h [ ]
itoa_onto-Without b (suc f) n rest out h w = elim (Bool-cases (ltb n 10)) [
  | inl small ↦ rw small (ground arith)
  | inr large ↦ rw large (itoa_onto-Without b f (n / 10) _ out (ground arith) (ground arith))
]

-- A printed number holds digits only.
pub itoa-Without : (b n : ℕ) → (b < b'0') ⊎ (b'9' < b) → Without b (itoa n)
unfolding itoa
itoa-Without b n out = itoa_onto-Without b (suc n) n [] out (omega arith) tt

pub itoa-zero : itoa 0 ≡ b'0' ∷ []
unfolding itoa itoa_onto
itoa-zero = refl
