-- ===== src/Mirror/Cipher/Tests.antt =====
-- The theorems on cipher.go, with a cipher that only tags a text and a derivation that repeats a byte.
use wrap.Base.{
  ℕ, zero, suc, ◌+◌, ◌-◌, ◌^◌, ◌<◌, ◌≡◌, refl, sym, subst, ◌↔◌, inl, inr, true, none, some, List,
  [], ◌∷◌, ◌++◌, arith, if◌then◌else◌, Bool-cases, length, take, drop, length-append,
  take-append-drop, length-take, take-append, drop-append, Bytes, codes, equal, equal_iff,
}
use wrap.Mirror.Cipher.{
  Aead, IsGcm, Sealer, Opener, Hkdf, ok, err, unauthentic, counter_exhausted, seal, open_frame,
  counter_nonce, derive_keys, c2s_label, s2c_label,
}
use wrap.Mirror.Cipher.Channel.{
  seal_all, open_all, sealer_at, opener_at, open_seal_stream, seal_open_stream,
}
use wrap.Mirror.Cipher.Freshness.{nonces, texts, Distinct, seal_all_fresh}
use wrap.Mirror.Cipher.Keys.{IsHkdf, derive_keys_iff}

zeros : Bytes
zeros = 0 ∷ 0 ∷ 0 ∷ 0 ∷ 0 ∷ 0 ∷ 0 ∷ 0 ∷ 0 ∷ 0 ∷ 0 ∷ 0 ∷ 0 ∷ 0 ∷ 0 ∷ 0 ∷ []

-- The authentication tag: the nonce, padded to sixteen bytes.
auth_tag : Bytes → Bytes
unfolding zeros
auth_tag nonce = take 16 (nonce ++ zeros)

length-auth_tag : (nonce : Bytes) → length (auth_tag nonce) ≡ 16
unfolding auth_tag
length-auth_tag nonce = omega (arith, length-take 16 (nonce ++ zeros), length-append nonce zeros)

abbrev tagging : Aead
tagging = record {
  seal_plain = λ nonce plain. auth_tag nonce ++ plain;
  open_sealed =
      λ nonce text. if equal (take 16 text) (auth_tag nonce) then some (drop 16 text) else none;
  overhead = 16;
}

take-tag : (nonce plain : Bytes) → take 16 (auth_tag nonce ++ plain) ≡ auth_tag nonce
take-tag nonce plain =
    subst (λ n. take n (auth_tag nonce ++ plain) ≡ auth_tag nonce) (length-auth_tag nonce)
      (take-append (auth_tag nonce) plain)

drop-tag : (nonce plain : Bytes) → drop 16 (auth_tag nonce ++ plain) ≡ plain
drop-tag nonce plain =
    subst (λ n. drop n (auth_tag nonce ++ plain) ≡ plain) (length-auth_tag nonce)
      (drop-append (auth_tag nonce) plain)

equal_refl : (a : Bytes) → equal a a ≡ true
equal_refl a = (equal_iff a a).1 refl

opened_text :
    (nonce text plain : Bytes)
    → tagging.open_sealed nonce text ≡ some plain
    → auth_tag nonce ++ plain ≡ text
opened_text nonce text plain h = elim (Bool-cases (equal (take 16 text) (auth_tag nonce))) [
  | inl e ↦
      let tagged : take 16 text ≡ auth_tag nonce = (equal_iff _ _).0 e in
      let rest : drop 16 text ≡ plain = ground (arith, h, e) in
      rw (sym tagged, sym rest) (take-append-drop 16 text)
  | inr e ↦ absurd (ground (arith, h, e))
]

tagging-IsGcm : IsGcm tagging
tagging-IsGcm = record {
  opens_sealed = λ nonce plain.
      rw (take-tag nonce plain, drop-tag nonce plain, equal_refl (auth_tag nonce)) refl;
  seals_opened = opened_text;
  lengthens =
      λ nonce plain. omega (arith, length-append (auth_tag nonce) plain, length-auth_tag nonce);
  overhead_is = refl;
}

abbrev some_frames : List (ℕ × Bytes)
some_frames = (6, codes "ls") ∷ (6, codes "pwd") ∷ []

abbrev sealed_frames : List Bytes
sealed_frames =
    (auth_tag (counter_nonce 0) ++ (6 ∷ codes "ls"))
    ∷ (auth_tag (counter_nonce 1) ++ (6 ∷ codes "pwd"))
    ∷ []

some_frames_sealed :
    seal_all (sealer_at tagging 0) some_frames ≡ (sealer_at tagging 2, ok sealed_frames)
unfolding seal_all seal auth_tag zeros counter_nonce
some_frames_sealed = refl

open_seal_stream_example :
    open_all (opener_at tagging 0) sealed_frames ≡ (opener_at tagging 2, ok some_frames)
open_seal_stream_example = open_seal_stream tagging-IsGcm 0 some_frames some_frames_sealed

seal_open_stream_example :
    seal_all (sealer_at tagging 0) some_frames ≡ (sealer_at tagging 2, ok sealed_frames)
seal_open_stream_example =
    seal_open_stream tagging-IsGcm 0 sealed_frames some_frames
      (open_seal_stream tagging-IsGcm 0 some_frames some_frames_sealed)

seal_all_fresh_example :
    (2 ≡ 0 + 2)
    × (0 + 2 < 2 ^ 64)
    × (sealed_frames ≡ texts tagging (nonces 0 2) some_frames)
    × Distinct (nonces 0 2)
seal_all_fresh_example = seal_all_fresh tagging 0 some_frames (omega arith) some_frames_sealed

abbrev last_sealer : Sealer
last_sealer = sealer_at tagging (2 ^ 64 - 1)

last_sealer_fails :
    seal last_sealer 6 (codes "ls")
    ≡ (record last_sealer { is_poisoned = true }, err counter_exhausted)
unfolding seal
last_sealer_fails = refl

abbrev fresh_opener : Opener
fresh_opener = opener_at tagging 0

forgery_fails :
    open_frame fresh_opener (1 ∷ []) ≡ (record fresh_opener { is_poisoned = true }, err unauthentic)
unfolding open_frame auth_tag zeros counter_nonce equal
forgery_fails = refl

repeated : ℕ → ℕ → Bytes
repeated b zero = []
repeated b (suc n) = b ∷ repeated b n

length-repeated : (b n : ℕ) → length (repeated b n) ≡ n
unfolding repeated
length-repeated b zero = refl
length-repeated b (suc n) = omega (arith, length-repeated b n)

abbrev repeating : Hkdf
repeating secret salt label n = some (repeated (length label) n)

repeating-IsHkdf : IsHkdf repeating
repeating-IsHkdf = record {
  sized = λ secret salt label n {key} h. ground (arith, h, length-repeated (length label) n);
}

abbrev some_key : Bytes
some_key = repeated 18 32

derive_keys_iff_example :
    (derive_keys repeating (repeated 1 32) (repeated 2 16) (repeated 3 16)
      ≡ ok (some_key, some_key))
    ↔ ((length (repeated 1 32) ≡ 32)
        × (length (repeated 2 16) ≡ 16)
        × (length (repeated 3 16) ≡ 16)
        × (repeating (repeated 1 32) (repeated 2 16 ++ repeated 3 16) c2s_label 32 ≡ some some_key)
        × (repeating (repeated 1 32) (repeated 2 16 ++ repeated 3 16) s2c_label 32 ≡ some some_key))
derive_keys_iff_example =
    derive_keys_iff repeating (repeated 1 32) (repeated 2 16) (repeated 3 16) some_key some_key
      repeating-IsHkdf
