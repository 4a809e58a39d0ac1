-- ===== src/Mirror/Cipher/Channel.antt =====
-- A direction of the connection: what one end seals and the other end opens, message by message.
use wrap.Base.{ℕ, ◌+◌, ◌%◌, ◌^◌, ◌≡◌, refl, subst, false, List, [], ◌∷◌, arith, Bytes}
use wrap.Mirror.Cipher.{
  Aead, IsGcm, Sealer, Opener, Result, ok, err, seal, open_frame, counter_nonce,
}

module _ {S A B : Type 0} where
  -- The next call on the same object, unless this one failed.
  abbrev pub and_then : S × Result A → (S → A → S × Result B) → S × Result B
  and_then (s, ok a) f = f s a
  and_then (s, err e) f = (s, err e)

  pub and_then-ok {ℓ} :
      {P : Type ℓ} (r : S × Result A) (f : S → A → S × Result B) {t : S} {b : B}
      → and_then r f ≡ (t, ok b)
      → ((s : S) (a : A) → r ≡ (s, ok a) → f s a ≡ (t, ok b) → P)
      → P
  and_then-ok (s, ok a) f h k = k s a refl h
  and_then-ok (s, err e) f h k = cc

-- Frames sealed one after the other, as long as none fails.
unfoldable pub seal_all : Sealer → List (ℕ × Bytes) → Sealer × Result (List Bytes)
seal_all s [] = (s, ok [])
seal_all s ((tag, payload) ∷ ms) =
    and_then (seal s tag payload) λ s' c. and_then (seal_all s' ms) λ t cs. (t, ok (c ∷ cs))

-- Ciphertexts opened one after the other, as long as none is refused.
pub open_all : Opener → List Bytes → Opener × Result (List (ℕ × Bytes))
open_all o [] = (o, ok [])
open_all o (c ∷ cs) =
    and_then (open_frame o c) λ o' m. and_then (open_all o' cs) λ t ms. (t, ok (m ∷ ms))

-- The two ends of a direction that has carried `n` frames.
abbrev pub sealer_at : Aead → ℕ → Sealer
sealer_at a n = record { aead = a; counter = n; is_poisoned = false }

abbrev pub opener_at : Aead → ℕ → Opener
opener_at a n = record { aead = a; counter = n; is_poisoned = false }

abbrev next : ℕ → ℕ
next n = (n + 1) % 2 ^ 64

module _ {a : Aead} (gcm : IsGcm a) where
  open-seal :
      (n tag : ℕ) (payload : Bytes) {s : Sealer} {c : Bytes}
      → seal (sealer_at a n) tag payload ≡ (s, ok c)
      → (s ≡ sealer_at a (next n))
        × (open_frame (opener_at a n) c ≡ (opener_at a (next n), ok (tag, payload)))
  unfolding seal open_frame
  open-seal n tag payload {s} {c} h = (
    ground arith,
    ground (
      arith,
      gcm.opens_sealed (counter_nonce n) (tag ∷ payload),
      gcm.lengthens (counter_nonce n) (tag ∷ payload),
    ),
  )

  seal-open :
      (n tag : ℕ) (payload c : Bytes) {o : Opener}
      → open_frame (opener_at a n) c ≡ (o, ok (tag, payload))
      → (o ≡ opener_at a (next n))
        × (seal (sealer_at a n) tag payload ≡ (sealer_at a (next n), ok c))
  unfolding seal open_frame
  seal-open n tag payload c {o} h = (
    ground arith,
    ground (
      arith,
      gcm.seals_opened (counter_nonce n) c (tag ∷ payload),
      gcm.lengthens (counter_nonce n) (tag ∷ payload),
    ),
  )

  open_all-seal_all :
      (n : ℕ) (ms : List (ℕ × Bytes)) {s : Sealer} {cs : List Bytes}
      → seal_all (sealer_at a n) ms ≡ (s, ok cs)
      → (m : ℕ) × (s ≡ sealer_at a m) × (open_all (opener_at a n) cs ≡ (opener_at a m, ok ms))
  unfolding seal_all open_all
  open_all-seal_all n [] {s} {cs} h = let e : cs ≡ [] = cc in (n, cc, rw e)
  open_all-seal_all n ((tag, payload) ∷ ms) {s} {cs} h =
      and_then-ok (seal (sealer_at a n) tag payload) _ h λ s' c sealed later.
        and_then-ok (seal_all s' ms) _ later λ t ds sealed' last.
          let (e, opened) = open-seal n tag payload sealed in
          let (m, e', opened') =
            open_all-seal_all (next n) ms (subst (λ q. seal_all q ms ≡ (t, ok ds)) e sealed') in
          let split : cs ≡ c ∷ ds = cc in (m, cc, rw (split, opened, opened'))

  seal_all-open_all :
      (n : ℕ) (cs : List Bytes) (ms : List (ℕ × Bytes)) {o : Opener}
      → open_all (opener_at a n) cs ≡ (o, ok ms)
      → (m : ℕ) × (o ≡ opener_at a m) × (seal_all (sealer_at a n) ms ≡ (sealer_at a m, ok cs))
  unfolding seal_all open_all
  seal_all-open_all n [] ms {o} h = let e : ms ≡ [] = cc in (n, cc, rw e)
  seal_all-open_all n (c ∷ cs) ms {o} h =
      and_then-ok (open_frame (opener_at a n) c) _ h λ o' (tag, payload) opened later.
        and_then-ok (open_all o' cs) _ later λ t ns opened' last.
          let (e, sealed) = seal-open n tag payload c opened in
          let (m, e', sealed') =
            seal_all-open_all (next n) cs ns (subst (λ q. open_all q cs ≡ (t, ok ns)) e opened') in
          let split : ms ≡ (tag, payload) ∷ ns = cc in (m, cc, rw (split, sealed, sealed'))

  -- Whatever one end seals without an error, an opener with the same cipher and counter opens in
  -- full, and the two counters agree again afterwards.
  pub open_seal_stream :
      (n : ℕ) (ms : List (ℕ × Bytes)) {s : Sealer} {cs : List Bytes}
      → seal_all (sealer_at a n) ms ≡ (s, ok cs)
      → open_all (opener_at a n) cs ≡ (opener_at a s.counter, ok ms)
  open_seal_stream n ms h = let (m, e, opened) = open_all-seal_all n ms h in rw e opened

  -- An opener accepts nothing else: the ciphertexts that it takes in a row are those that a sealer
  -- with the same cipher and counter makes of the messages that it returns, in that order.
  pub seal_open_stream :
      (n : ℕ) (cs : List Bytes) (ms : List (ℕ × Bytes)) {o : Opener}
      → open_all (opener_at a n) cs ≡ (o, ok ms)
      → seal_all (sealer_at a n) ms ≡ (sealer_at a o.counter, ok cs)
  seal_open_stream n cs ms h = let (m, e, sealed) = seal_all-open_all n cs ms h in rw e sealed
