-- ===== src/Base/Spaces/Joined.antt =====
-- Parts joined by a separator, as strings.Join writes them, are what strings.Split finds.
use Prim.Native.Nat.{ℕ}
use mathlib.Core.Path.{◌≡◌, ap, sym, ◌∙◌}
use mathlib.Core.Bool.{true, false}
use mathlib.Core.List.{List, [], ◌∷◌, ◌++◌, reverse, reverse-cons, append-nil, append_assoc}
use native.Mathlib.Omega.{arith}
use wrap.Base.Lists.{All}
use wrap.Base.Spaces.{split_from, split}
use wrap.Base.Strings.{Without}
use wrap.Base.Tests.{◌==◌}
use wrap.Base.Text.{Bytes}

unfoldable pub join : ℕ → List Bytes → Bytes
join b [] = []
join b (p ∷ []) = p
join b (p ∷ q ∷ ps) = p ++ (b ∷ join b (q ∷ ps))

other-byte : (b c : ℕ) → (c ≡ b → ⊥) → (c == b) ≡ false
other-byte b c h = ground arith

same-byte : (b : ℕ) → (b == b) ≡ true
same-byte b = ground arith

longer : (part : Bytes) (c : ℕ) (cs : Bytes) → reverse (c ∷ part) ++ cs ≡ reverse part ++ (c ∷ cs)
longer part c cs = rw (reverse-cons c part) (append_assoc (reverse part) (c ∷ []) cs)

split_from-last :
    (b : ℕ) (part p : Bytes) → Without b p → split_from b part p ≡ (reverse part ++ p) ∷ []
unfolding split_from
split_from-last b part [] h = ap (λ q. q ∷ []) (sym (append-nil (reverse part)))
split_from-last b part (c ∷ cs) h =
    rw (other-byte b c h.0)
      (split_from-last b (c ∷ part) cs h.1 ∙ ap (λ q. q ∷ []) (longer part c cs))

split_from-part :
    (b : ℕ) (part p rest : Bytes)
    → Without b p
    → split_from b part (p ++ (b ∷ rest)) ≡ (reverse part ++ p) ∷ split_from b [] rest
unfolding split_from
split_from-part b part [] rest h =
    rw (same-byte b) (ap (λ q. q ∷ split_from b [] rest) (sym (append-nil (reverse part))))
split_from-part b part (c ∷ cs) rest h = rw (other-byte b c h.0) (
    split_from-part b (c ∷ part) cs rest h.1
    ∙ ap (λ q. q ∷ split_from b [] rest) (longer part c cs))

-- Parts that hold no separator.
pub split-join :
    (b : ℕ) (p : Bytes) (ps : List Bytes)
    → All (Without b) (p ∷ ps)
    → split b (join b (p ∷ ps)) ≡ p ∷ ps
unfolding split join
split-join b p [] h = split_from-last b [] p h.0
split-join b p (q ∷ ps) h =
    split_from-part b [] p (join b (q ∷ ps)) h.0 ∙ ap (◌∷◌ p) (split-join b q ps h.1)

pub Without-append : (b : ℕ) (s t : Bytes) → Without b s → Without b t → Without b (s ++ t)
Without-append b [] t h k = k
Without-append b (c ∷ s) t h k = (h.0, Without-append b s t h.1 k)

-- The parts hold no `c` and nor does what joins them.
pub join-Without :
    (b c : ℕ) → (b ≡ c → ⊥) → (ps : List Bytes) → All (Without c) ps → Without c (join b ps)
unfolding join
join-Without b c n [] h = tt
join-Without b c n (p ∷ []) h = h.0
join-Without b c n (p ∷ q ∷ ps) h =
    Without-append c p (b ∷ join b (q ∷ ps)) h.0 (n, join-Without b c n (q ∷ ps) h.1)
