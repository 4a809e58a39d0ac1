-- ===== src/Mirror/Tunnel/Tail.antt =====
-- The bounded tail of a process's output is the end of all of it.
use wrap.Base.{
  ℕ, zero, suc, ◌+◌, ◌-◌, ◌≤◌, ◌≡◌, refl, sym, ap, subst, ◌∙◌, inl, inr, List, [], ◌∷◌, ◌++◌,
  append-nil, append_assoc, arith, leb, Bool-cases, length, drop, length-append, length-drop, Bytes,
}
use wrap.Mirror.Tunnel.{push_tail}

-- The last `n` bytes.
abbrev pub last : ℕ → Bytes → Bytes
last n s = drop (length s - n) s

abbrev pub push_all : ℕ → Bytes → List Bytes → Bytes
push_all n tail [] = tail
push_all n tail (p ∷ ps) = push_all n (push_tail n tail p) ps

abbrev pub joined : List Bytes → Bytes
joined [] = []
joined (p ∷ ps) = p ++ joined ps

drop_within : (n : ℕ) (xs ys : Bytes) → n ≤ length xs → drop n (xs ++ ys) ≡ drop n xs ++ ys
drop_within zero xs ys h = refl
drop_within (suc n) [] ys h = absurd (omega (arith, h))
drop_within (suc n) (x ∷ xs) ys h = drop_within n xs ys (omega (arith, h))

drop_past : (n k : ℕ) (xs ys : Bytes) → n ≡ length xs + k → drop n (xs ++ ys) ≡ drop k ys
drop_past n k [] ys h = let e : n ≡ k = omega (arith, h) in ap (λ m. drop m ys) e
drop_past zero k (x ∷ xs) ys h = absurd (omega (arith, h))
drop_past (suc n) k (x ∷ xs) ys h = drop_past n k xs ys (omega (arith, h))

drop_nil : (n : ℕ) → drop {A = ℕ} n [] ≡ []
drop_nil zero = refl
drop_nil (suc n) = refl

drop-drop : (m k j : ℕ) (s : Bytes) → j ≡ k + m → drop m (drop k s) ≡ drop j s
drop-drop m zero j s h = let e : m ≡ j = omega (arith, h) in ap (λ i. drop i s) e
drop-drop m (suc k) j [] h = drop_nil m ∙ sym (drop_nil j)
drop-drop m (suc k) zero (c ∷ s) h = absurd (omega (arith, h))
drop-drop m (suc k) (suc j) (c ∷ s) h = drop-drop m k j s (omega (arith, h))

-- What the last bytes do not reach may be dropped.
last-drop : (n k : ℕ) (s : Bytes) → k ≤ length s - n → last n (drop k s) ≡ last n s
last-drop n k s h =
    drop-drop (length (drop k s) - n) k (length s - n) s (omega (arith, length-drop k s))

length-last : (n : ℕ) (s : Bytes) → length (last n s) ≤ n
length-last n s = omega (arith, length-drop (length s - n) s)

last-append : (n : ℕ) (s t : Bytes) → last n (last n s ++ t) ≡ last n (s ++ t)
last-append n s t =
    ap (last n) (sym (drop_within (length s - n) s t (omega arith)))
    ∙ last-drop n (length s - n) (s ++ t) (omega (arith, length-append s t))

-- A write keeps the last bytes of what there was and what is written.
push_tail-last :
    (n : ℕ) (tail p : Bytes) → length tail ≤ n → push_tail n tail p ≡ last n (tail ++ p)
unfolding push_tail
push_tail-last n tail p h =
    let size : length (tail ++ p) ≡ length tail + length p = length-append tail p in
    elim (Bool-cases (leb n (length p))) [
      | inl long ↦ rw long (
          sym
            (drop_past (length (tail ++ p) - n) (length p - n) tail p (ground (arith, size, long))))
      | inr short ↦ rw short (
          ground (
            arith,
            size,
            drop_within (length (tail ++ p) - n) tail p (ground (arith, size, short)),
          ))
    ]

push_all-last :
    (n : ℕ) (s : Bytes) (ps : List Bytes) → push_all n (last n s) ps ≡ last n (s ++ joined ps)
push_all-last n s [] = ap (last n) (sym (append-nil s))
push_all-last n s (p ∷ ps) =
    ap (λ t. push_all n t ps) (push_tail-last n (last n s) p (length-last n s) ∙ last-append n s p)
    ∙ push_all-last n (s ++ p) ps
    ∙ ap (last n) (append_assoc s p (joined ps))

-- However its output is cut into writes, the tail is the last bytes of all of it, at most the limit.
pub push_all_refines :
    (n : ℕ) (ps : List Bytes)
    → (push_all n [] ps ≡ last n (joined ps)) × (length (push_all n [] ps) ≤ n)
push_all_refines n ps =
    let same : push_all n [] ps ≡ last n (joined ps) =
      sym (ap (λ t. push_all n t ps) (drop_nil (0 - n))) ∙ push_all-last n [] ps in
    (same, subst (λ t. length t ≤ n) (sym same) (length-last n (joined ps)))
