-- ===== src/Mirror/Cipher/Freshness.antt =====
-- The counter of a sealer: what it stands at after a run, and the nonces that the run used.
use wrap.Base.{
  ℕ, zero, suc, ◌+◌, ◌^◌, ◌≤◌, ◌<◌, ◌≡◌, ap, subst, ◌∙◌, ◌≢◌, List, [], ◌∷◌, arith, length, Bytes,
}
use wrap.Mirror.Cipher.{Aead, Sealer, ok, seal, counter_nonce}
use wrap.Mirror.Cipher.Channel.{and_then-ok, seal_all, sealer_at}
use wrap.Mirror.Cipher.Nonce.{counter_nonce_injective}

-- The nonces of `k` frames from counter `n` on.
abbrev pub nonces : ℕ → ℕ → List Bytes
nonces n zero = []
nonces n (suc k) = counter_nonce n ∷ nonces (n + 1) k

abbrev pub NotIn : Bytes → List Bytes → Type 0
NotIn x [] = Unit
NotIn x (y ∷ ys) = (x ≢ y) × NotIn x ys

abbrev pub Distinct : List Bytes → Type 0
Distinct [] = Unit
Distinct (x ∷ xs) = NotIn x xs × Distinct xs

nonces-NotIn : (m n k : ℕ) → m < n → n + k ≤ 2 ^ 64 → NotIn (counter_nonce m) (nonces n k)
nonces-NotIn m n zero l h = tt
nonces-NotIn m n (suc k) l h = (
  λ e. absurd (omega (arith, counter_nonce_injective m n (omega arith) (omega arith) e)),
  nonces-NotIn m (n + 1) k (omega arith) (omega arith),
)

nonces-Distinct : (n k : ℕ) → n + k ≤ 2 ^ 64 → Distinct (nonces n k)
nonces-Distinct n zero h = tt
nonces-Distinct n (suc k) h =
    (nonces-NotIn n (n + 1) k (omega arith) (omega arith), nonces-Distinct (n + 1) k (omega arith))

-- The ciphertexts that plain encryption makes of the frames, one nonce to each.
abbrev pub texts : Aead → List Bytes → List (ℕ × Bytes) → List Bytes
texts a [] ms = []
texts a (x ∷ xs) [] = []
texts a (x ∷ xs) ((tag, payload) ∷ ms) = a.seal_plain x (tag ∷ payload) ∷ texts a xs ms

module _ (a : Aead) where
  seal-at :
      (n tag : ℕ) (payload : Bytes) {s : Sealer} {c : Bytes}
      → n < 2 ^ 64
      → seal (sealer_at a n) tag payload ≡ (s, ok c)
      → (n + 1 < 2 ^ 64)
        × (s ≡ sealer_at a (n + 1))
        × (c ≡ a.seal_plain (counter_nonce n) (tag ∷ payload))
  unfolding seal
  seal-at n tag payload l h = (ground arith, ground arith, ground arith)

  seal_all-texts :
      (n : ℕ) (ms : List (ℕ × Bytes)) {s : Sealer} {cs : List Bytes}
      → n < 2 ^ 64
      → seal_all (sealer_at a n) ms ≡ (s, ok cs)
      → (n + length ms < 2 ^ 64)
        × (s ≡ sealer_at a (n + length ms))
        × (cs ≡ texts a (nonces n (length ms)) ms)
  unfolding seal_all
  seal_all-texts n [] {s} l h =
      let at : s ≡ sealer_at a n = cc in (omega arith, at ∙ ap (sealer_at a) (omega arith), cc)
  seal_all-texts n ((tag, payload) ∷ ms) {s} {cs} l h =
      and_then-ok (seal (sealer_at a n) tag payload) _ h λ s' c sealed later.
        and_then-ok (seal_all s' ms) _ later λ t ds sealed' last.
          let (l', e, text) = seal-at n tag payload l sealed in
          let (l'', e', texts') =
            seal_all-texts (n + 1) ms l' (subst (λ q. seal_all q ms ≡ (t, ok ds)) e sealed') in
          let same : s ≡ t = cc in (omega arith, same ∙ e' ∙ ap (sealer_at a) (omega arith), cc)

  -- A run of `Seal` that does not fail encrypts the frames in order under the counters that follow
  -- one another, never past the last, so that no two frames of a key share a nonce.
  pub seal_all_fresh :
      (n : ℕ) (ms : List (ℕ × Bytes)) {s : Sealer} {cs : List Bytes}
      → n < 2 ^ 64
      → seal_all (sealer_at a n) ms ≡ (s, ok cs)
      → (s.counter ≡ n + length ms)
        × (n + length ms < 2 ^ 64)
        × (cs ≡ texts a (nonces n (length ms)) ms)
        × Distinct (nonces n (length ms))
  seal_all_fresh n ms l h =
      let (l', e, t) = seal_all-texts n ms l h in
      (ap (λ (q : Sealer). q.counter) e, l', t, nonces-Distinct n (length ms) (omega arith))
