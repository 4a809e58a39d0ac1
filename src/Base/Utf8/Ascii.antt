-- ===== src/Base/Utf8/Ascii.antt =====
-- The bytes of a text whose code points are known.
use Prim.Native.Nat.{ℕ, zero, suc, ◌-◌, ◌≤◌, ◌<◌}
use mathlib.Core.Path.{◌≡◌, refl, sym, subst}
use mathlib.Core.Logic.{◌⊎◌, inl, inr}
use mathlib.Core.List.{[], ◌∷◌}
use native.Mathlib.Omega.{arith}
use wrap.Base.Lists.{length, take, drop, All, length-drop}
use wrap.Base.Text.{Bytes}
use wrap.Base.Utf8.{Decoded, rune, bad, decode_at, decode_from, decode_all}

abbrev High : Bytes → Type 0
High s = All (λ c. 0x80 ≤ c) s

-- A code point is one byte below 0x80, or all its bytes are from there on.
abbrev Parts : Decoded → ℕ → Bytes → Type 0
Parts (rune r n) a rest = ((r ≡ a) × (n ≡ 1)) ⊎ ((0x80 ≤ a) × High (take (n - 1) rest))
Parts bad a rest = 0x80 ≤ a

decode_at-Parts : (a : ℕ) (rest : Bytes) → Parts (decode_at a rest) a rest
unfolding decode_at
decode_at-Parts a [] = ground arith
decode_at-Parts a (b ∷ []) = ground arith
decode_at-Parts a (b ∷ c ∷ []) = ground arith
decode_at-Parts a (b ∷ c ∷ d ∷ rest) = ground arith

module _ (P : Decoded → Type 0) (Q : ℕ → Type 0) (high : (c : ℕ) → 0x80 ≤ c → Q c) where
  All-High : (s : Bytes) → High s → All Q s
  All-High [] h = tt
  All-High (c ∷ cs) h = (high c h.0, All-High cs h.1)

  All-drop : (n : ℕ) (s : Bytes) → All Q (take n s) → All Q (drop n s) → All Q s
  All-drop zero s t d = d
  All-drop (suc n) [] t d = tt
  All-drop (suc n) (c ∷ cs) t d = (t.0, All-drop n cs t.1 d)

  module _ (low : (c : ℕ) → P (rune c 1) → Q c) (none_bad : P bad → ⊥) where
    decode_from-All :
        (fuel : ℕ) (s : Bytes) → length s ≤ fuel → All P (decode_from fuel s) → All Q s
    unfolding decode_from
    decode_from-All fuel [] l h = tt
    decode_from-All zero (a ∷ rest) l h = absurd (omega (arith, l))
    decode_from-All (suc fuel) (a ∷ rest) l h =
        go (decode_at a rest) (decode_at-Parts a rest) h (λ n k.
          decode_from-All fuel (drop n rest)
            (subst (λ m. m ≤ fuel) (sym (length-drop n rest)) (omega (arith, l))) k)
      where
        go :
            (d : Decoded)
            → Parts d a rest
            → All P (elim d [
              | bad ↦ bad ∷ decode_from fuel rest
              | rune r n ↦ rune r n ∷ decode_from fuel (drop (n - 1) rest)
            ])
            → ((n : ℕ) → All P (decode_from fuel (drop n rest)) → All Q (drop n rest))
            → All Q (a ∷ rest)
        go bad p h next = absurd (none_bad h.0)
        go (rune r n) (inl (same, one)) h next = (
          subst Q same (low r (subst (λ m. P (rune r m)) one h.0)),
          subst (λ m. All Q (drop (m - 1) rest) → All Q rest) (sym one) (λ k. k) (next (n - 1) h.1),
        )
        go (rune r n) (inr (above, rest_high)) h next =
            (high a above, All-drop (n - 1) rest (All-High _ rest_high) (next (n - 1) h.1))

    -- What holds of the code points of a text, and of bytes above ASCII, holds of its bytes.
    pub decode_all-All : (s : Bytes) → All P (decode_all s) → All Q s
    unfolding decode_all
    decode_all-All s h = decode_from-All (length s) s (omega arith) h

decode_at-ascii : (c : ℕ) (cs : Bytes) → c < 0x80 → decode_at c cs ≡ rune c 1
unfolding decode_at
decode_at-ascii c cs h = ground arith

pub decode_all-ascii :
    (c : ℕ) (cs : Bytes) → c < 0x80 → decode_all (c ∷ cs) ≡ rune c 1 ∷ decode_all cs
unfolding decode_all decode_from
decode_all-ascii c cs h = rw (decode_all, decode_from, decode_at-ascii c cs h) refl
