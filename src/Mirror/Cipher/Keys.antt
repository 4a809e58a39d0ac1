-- ===== src/Mirror/Cipher/Keys.antt =====
-- When DeriveKeys gives keys.
use wrap.Base.{
  ℕ, zero, suc, ◌≡◌, refl, ap, ◌↔◌, Option, none, some, List, [], ◌∷◌, ◌++◌, arith, length, take,
  Bytes,
}
use wrap.Mirror.Cipher.{copy_keys, Hkdf, ok, derive_keys, c2s_label, s2c_label}

-- hkdf.Key returns as many bytes as it is asked for.
pub record IsHkdf (hkdf : Hkdf) : Type 0 where
  pub sized :
      (secret salt label : Bytes) (n : ℕ) {key : Bytes}
      → hkdf secret salt label n ≡ some key
      → length key ≡ n

take_all {ℓ} : {A : Type ℓ} (n : ℕ) (xs : List A) → length xs ≡ n → take n xs ≡ xs
take_all zero [] h = refl
take_all zero (x ∷ xs) h = absurd (omega arith)
take_all (suc n) [] h = absurd (omega arith)
take_all (suc n) (x ∷ xs) h = ap (◌∷◌ x) (take_all n xs (omega arith))

copy_keys_iff :
    (x y : Option Bytes) (c2s s2c : Bytes)
    → ((k : Bytes) → x ≡ some k → length k ≡ 32)
    → ((k : Bytes) → y ≡ some k → length k ≡ 32)
    → (copy_keys x y ≡ ok (c2s, s2c)) ↔ ((x ≡ some c2s) × (y ≡ some s2c))
unfolding copy_keys
copy_keys_iff none _ c2s s2c p q = ground arith
copy_keys_iff (some k) none c2s s2c p q = ground arith
copy_keys_iff (some k) (some l) c2s s2c p q =
    ground (arith, take_all 32 k (p k refl), take_all 32 l (q l refl))

-- Keys come of a secret of 32 bytes and two nonces of 16, and then they are the two whole keys of
-- 32 bytes that HKDF derives under the two labels.
pub derive_keys_iff :
    (hkdf : Hkdf) (secret server_nonce client_nonce c2s s2c : Bytes)
    → IsHkdf hkdf
    → (derive_keys hkdf secret server_nonce client_nonce ≡ ok (c2s, s2c)) ↔ (
        (length secret ≡ 32)
        × (length server_nonce ≡ 16)
        × (length client_nonce ≡ 16)
        × (hkdf secret (server_nonce ++ client_nonce) c2s_label 32 ≡ some c2s)
        × (hkdf secret (server_nonce ++ client_nonce) s2c_label 32 ≡ some s2c))
unfolding derive_keys
derive_keys_iff hkdf secret sn cn c2s s2c law = ground (
  arith,
  copy_keys_iff (hkdf secret (sn ++ cn) c2s_label 32) (hkdf secret (sn ++ cn) s2c_label 32) c2s s2c
      (λ k. law.sized secret (sn ++ cn) c2s_label 32 {key = k})
      (λ k. law.sized secret (sn ++ cn) s2c_label 32 {key = k}),
)
