-- ===== src/Base/Utf8/RoundTrip.antt =====
-- What is encoded is decoded again.
use Prim.Native.Nat.{ℕ, zero, suc, ◌-◌, ◌≤◌, ◌<◌}
use mathlib.Core.Path.{◌≡◌, refl, ap, ◌∙◌}
use mathlib.Core.Logic.{◌⊎◌, inl, inr}
use mathlib.Core.List.{List, [], ◌∷◌, ◌++◌}
use native.Mathlib.Omega.{arith}
use wrap.Base.Lists.{length, drop, All, length-append}
use wrap.Base.Text.{Bytes}
use wrap.Base.Utf8.{
  code_point, Decoded, rune, bad, decode_at, decode_from, decode_all, encode_rune, encode_all,
}

-- A Unicode scalar value: no surrogate.
abbrev pub IsScalar : ℕ → Type 0
IsScalar r = (r < 0xd800) ⊎ ((0xe000 ≤ r) × (r < 0x110000))

abbrev size : ℕ → ℕ
size r = length (encode_rune r)

decode-encode_rune :
    (fuel r : ℕ) (rest : Bytes)
    → IsScalar r
    → decode_from (suc fuel) (encode_rune r ++ rest)
      ≡ rune r (length (encode_rune r)) ∷ decode_from fuel rest
unfolding decode_from decode_at encode_rune
decode-encode_rune fuel r rest (inl h) = ground arith
decode-encode_rune fuel r rest (inr h) = ground arith

encode_rune-nonempty : (r : ℕ) → 1 ≤ length (encode_rune r)
unfolding encode_rune
encode_rune-nonempty r = ground arith

-- The code points that are encoded are those that are decoded, all well formed.
abbrev pub well_formed : List ℕ → List Decoded
well_formed [] = []
well_formed (r ∷ rs) = rune r (length (encode_rune r)) ∷ well_formed rs

decode_from-encode_all :
    (fuel : ℕ) (rs : List ℕ)
    → length (encode_all rs) ≤ fuel
    → All IsScalar rs
    → decode_from fuel (encode_all rs) ≡ well_formed rs
unfolding encode_all
decode_from-encode_all zero [] h v = unfold decode_from in refl
decode_from-encode_all (suc fuel) [] h v = unfold decode_from in refl
decode_from-encode_all zero (r ∷ rs) h v =
    absurd (omega (arith, encode_rune-nonempty r, length-append (encode_rune r) (encode_all rs)))
decode_from-encode_all (suc fuel) (r ∷ rs) h v =
    decode-encode_rune fuel r (encode_all rs) v.0
    ∙ ap (◌∷◌ (rune r (length (encode_rune r)))) (
        decode_from-encode_all fuel rs
          (omega (arith, encode_rune-nonempty r, length-append (encode_rune r) (encode_all rs)))
          v.1)

pub decode_all-encode_all :
    (rs : List ℕ) → All IsScalar rs → decode_all (encode_all rs) ≡ well_formed rs
unfolding decode_all
decode_all-encode_all rs v = decode_from-encode_all (length (encode_all rs)) rs (omega arith) v

abbrev Scalar : Decoded → Type 0
Scalar (rune r _) = IsScalar r
Scalar bad = Unit

decode_at-Scalar : (a : ℕ) (rest : Bytes) → Scalar (decode_at a rest)
unfolding decode_at
decode_at-Scalar a [] = ground arith
decode_at-Scalar a (b ∷ []) = ground arith
decode_at-Scalar a (b ∷ c ∷ []) = ground arith
decode_at-Scalar a (b ∷ c ∷ d ∷ rest) = ground arith

code_point-IsScalar : (d : Decoded) → Scalar d → IsScalar (code_point d)
code_point-IsScalar (rune r n) h = h
code_point-IsScalar bad h = inr (omega arith)

decode_from-IsScalar :
    (fuel : ℕ) (s : Bytes) → All (λ d. IsScalar (code_point d)) (decode_from fuel s)
unfolding decode_from
decode_from-IsScalar zero s = tt
decode_from-IsScalar (suc fuel) [] = tt
decode_from-IsScalar (suc fuel) (a ∷ rest) =
    go (decode_at a rest) (decode_at-Scalar a rest) (decode_from-IsScalar fuel)
  where
    go :
        (d : Decoded)
        → Scalar d
        → ((t : Bytes) → All (λ d'. IsScalar (code_point d')) (decode_from fuel t))
        → All
            (λ d'. IsScalar (code_point d'))
            (elim d [
              | bad ↦ bad ∷ decode_from fuel rest
              | rune r n ↦ rune r n ∷ decode_from fuel (drop (n - 1) rest)
            ])
    go bad h ih = (inr (omega arith), ih rest)
    go (rune r n) h ih = (h, ih (drop (n - 1) rest))

-- Whatever the bytes, `range` gives Unicode scalar values.
pub decode_all-IsScalar : (s : Bytes) → All (λ d. IsScalar (code_point d)) (decode_all s)
unfolding decode_all
decode_all-IsScalar s = decode_from-IsScalar (length s) s
