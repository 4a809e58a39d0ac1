-- ===== src/Mirror/Protocol/Chunks.antt =====
-- ChunkOutput loses nothing, and cuts only where a frame is full.
use wrap.Base.{
  leb, leb→le, Bool-cases, ℕ, zero, suc, ◌≤◌, min, ◌≡◌, refl, ap, ◌∙◌, ◌⊎◌, inl, inr, List, [], ◌∷◌,
  ◌++◌, arith, length, take, drop, take-append-drop, length-take, length-drop, Bytes,
}
use wrap.Mirror.Protocol.{chunk_by, chunk_output, max_plain_payload}

abbrev pub flatten : List Bytes → Bytes
flatten [] = []
flatten (c ∷ cs) = c ++ flatten cs

-- No chunk is empty or above `size`, and all but the last are full.
abbrev pub Cut : ℕ → List Bytes → Type 0
Cut size [] = Unit
Cut size (c ∷ []) = (1 ≤ length c) × (length c ≤ size)
Cut size (c ∷ d ∷ cs) = (length c ≡ size) × Cut size (d ∷ cs)

flatten-chunk_by :
    (size fuel : ℕ) (output : Bytes)
    → 1 ≤ size
    → length output ≤ fuel
    → flatten (chunk_by size fuel output) ≡ output
unfolding chunk_by
flatten-chunk_by size zero [] s h = refl
flatten-chunk_by size zero (c ∷ cs) s h = absurd (omega arith)
flatten-chunk_by size (suc fuel) [] s h = refl
flatten-chunk_by size (suc fuel) (c ∷ cs) s h =
    let n : ℕ = min (length (c ∷ cs)) size in
    ap (◌++◌ (take n (c ∷ cs)))
      (flatten-chunk_by size fuel (drop n (c ∷ cs)) s (omega (arith, length-drop n (c ∷ cs))))
    ∙ take-append-drop n (c ∷ cs)

Cut-cons :
    (size : ℕ) (c : Bytes) (cs : List Bytes)
    → (1 ≤ length c) × (length c ≤ size)
    → ((cs ≡ []) ⊎ (length c ≡ size))
    → Cut size cs
    → Cut size (c ∷ cs)
Cut-cons size c [] h e k = h
Cut-cons size c (d ∷ ds) h (inl e) k = cc
Cut-cons size c (d ∷ ds) h (inr e) k = (e, k)

chunk_by-nil : (size fuel : ℕ) (output : Bytes) → length output ≡ 0 → chunk_by size fuel output ≡ []
unfolding chunk_by
chunk_by-nil size zero output e = refl
chunk_by-nil size (suc fuel) [] e = refl
chunk_by-nil size (suc fuel) (c ∷ cs) e = absurd (omega arith)

full_or_last :
    (size fuel : ℕ) (output : Bytes)
    → let n = min (length output) size in
      (chunk_by size fuel (drop n output) ≡ []) ⊎ (length (take n output) ≡ size)
full_or_last size fuel output = elim (Bool-cases (leb size (length output))) [
  | inl full ↦ inr (
      omega
        (arith, length-take (min (length output) size) output, leb→le size (length output) full))
  | inr short ↦
      inl (chunk_by-nil size fuel _ (ground (arith, length-drop (min (length output) size) output)))
]

chunk_by-Cut : (size fuel : ℕ) (output : Bytes) → 1 ≤ size → Cut size (chunk_by size fuel output)
unfolding chunk_by
chunk_by-Cut size zero output s = tt
chunk_by-Cut size (suc fuel) [] s = tt
chunk_by-Cut size (suc fuel) (c ∷ cs) s =
    let n : ℕ = min (length (c ∷ cs)) size in
    Cut-cons size (take n (c ∷ cs)) (chunk_by size fuel (drop n (c ∷ cs)))
      (omega (arith, length-take n (c ∷ cs)), omega (arith, length-take n (c ∷ cs)))
      (full_or_last size fuel (c ∷ cs)) (chunk_by-Cut size fuel (drop n (c ∷ cs)) s)

-- The chunks of an output, joined, are the output; none is empty or above the wire limit, and all
-- but the last are full.
pub chunk_output_lossless :
    (output : Bytes)
    → (flatten (chunk_output output) ≡ output) × Cut max_plain_payload (chunk_output output)
unfolding chunk_output
chunk_output_lossless output = (
  flatten-chunk_by max_plain_payload (length output) output (omega arith) (omega arith),
  chunk_by-Cut max_plain_payload (length output) output (omega arith),
)
