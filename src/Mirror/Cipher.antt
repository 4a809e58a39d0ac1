-- ===== src/Mirror/Cipher.antt =====
-- internal/mirror/cipher.go: key derivation, and the two ends of an encrypted direction.
-- The AES-GCM cipher and HKDF are not in the repository: they are parameters, with their laws as
-- records that a theorem takes as hypotheses.
pub mod Nonce
pub mod Channel
pub mod Poison
pub mod Freshness
pub mod Keys
mod Tests
use wrap.Base.{
  ℕ, ◌+◌, ◌-◌, ◌/◌, ◌%◌, ◌^◌, ◌≡◌, Bool, true, false, not, ◌||◌, Option, none, some, [], ◌∷◌, ◌++◌,
  ltb, ◌==◌, if◌then◌else◌, length, take, Bytes, codes,
}
use wrap.Mirror.Protocol.{max_wire_message}

-- cipher.AEAD of one key, with no additional data.
pub record Aead : Type 0 where
  pub seal_plain : Bytes → Bytes → Bytes
  pub open_sealed : Bytes → Bytes → Option Bytes
  pub overhead : ℕ

-- AES-GCM decrypts what it encrypted under the same nonce, accepts nothing else (what it accepts is
-- the encryption of what it returns), and lengthens a text by its overhead.
pub record IsGcm (a : Aead) : Type 0 where
  pub opens_sealed :
      (nonce plain : Bytes) → a.open_sealed nonce (a.seal_plain nonce plain) ≡ some plain
  pub seals_opened :
      (nonce text plain : Bytes)
      → a.open_sealed nonce text ≡ some plain
      → a.seal_plain nonce plain ≡ text
  pub lengthens :
      (nonce plain : Bytes) → length (a.seal_plain nonce plain) ≡ length plain + a.overhead
  pub overhead_is : a.overhead ≡ 16

pub data CipherError : Type 0 where
  poisoned counter_exhausted wire_limit unauthentic no_tag : CipherError
  bad_secret bad_nonces derive_failed : CipherError

pub data Result {ℓ} (A : Type ℓ) : Type ℓ where
  ok : A → Result A
  err : CipherError → Result A

pub record Sealer : Type 0 where
  pub aead : Aead
  pub counter : ℕ
  pub is_poisoned : Bool

pub record Opener : Type 0 where
  pub aead : Aead
  pub counter : ℕ
  pub is_poisoned : Bool

-- math.MaxUint64
abbrev pub max_uint64 : ℕ
max_uint64 = 2 ^ 64 - 1

-- binary.BigEndian.PutUint64
put_uint64 : ℕ → Bytes
put_uint64 v =
    (v / 2 ^ 56 % 256)
    ∷ (v / 2 ^ 48 % 256)
    ∷ (v / 2 ^ 40 % 256)
    ∷ (v / 2 ^ 32 % 256)
    ∷ (v / 2 ^ 24 % 256)
    ∷ (v / 2 ^ 16 % 256)
    ∷ (v / 2 ^ 8 % 256)
    ∷ (v % 256)
    ∷ []

pub counter_nonce : ℕ → Bytes
unfolding put_uint64
counter_nonce counter = 0 ∷ 0 ∷ 0 ∷ 0 ∷ put_uint64 counter

module _ (new_gcm : Bytes → Option Aead) where
  unfoldable pub new_sealer : Bytes → Option Sealer
  new_sealer key = elim (new_gcm key) [
    | none ↦ none
    | some a ↦ some (record { aead = a; counter = 0; is_poisoned = false })
  ]

  unfoldable pub new_opener : Bytes → Option Opener
  new_opener key = elim (new_gcm key) [
    | none ↦ none
    | some a ↦ some (record { aead = a; counter = 0; is_poisoned = false })
  ]

abbrev poison_sealer : Sealer → Sealer
poison_sealer s = record s { is_poisoned = true }

-- A method returns the new state of its receiver.
pub seal : Sealer → ℕ → Bytes → Sealer × Result Bytes
seal s tag payload =
    if s.is_poisoned
    then (s, err poisoned)
    else if s.counter == max_uint64
    then (poison_sealer s, err counter_exhausted)
    else if ltb max_wire_message (length payload + 1 + s.aead.overhead)
    then (poison_sealer s, err wire_limit)
    else (
      record s { counter = (s.counter + 1) % 2 ^ 64 },
      ok (s.aead.seal_plain (counter_nonce s.counter) (tag ∷ payload)),
    )

abbrev poison_opener : Opener → Opener
poison_opener o = record o { is_poisoned = true }

-- After the decryption: the tag and the payload, or a poisoned opener.
accept_plain : Opener → Option Bytes → Opener × Result (ℕ × Bytes)
accept_plain o none = (poison_opener o, err unauthentic)
accept_plain o (some []) = (poison_opener o, err no_tag)
accept_plain o (some (tag ∷ payload)) =
    (record o { counter = (o.counter + 1) % 2 ^ 64 }, ok (tag, payload))

unfoldable pub open_frame : Opener → Bytes → Opener × Result (ℕ × Bytes)
unfolding accept_plain
open_frame o text =
    if o.is_poisoned
    then (o, err poisoned)
    else if o.counter == max_uint64
    then (poison_opener o, err counter_exhausted)
    else if ltb max_wire_message (length text)
    then (poison_opener o, err wire_limit)
    else accept_plain o (o.aead.open_sealed (counter_nonce o.counter) text)

-- hkdf.Key with SHA-256: the secret, the salt, the label and the length wanted.
abbrev pub Hkdf : Type 0
Hkdf = Bytes → Bytes → Bytes → ℕ → Option Bytes

abbrev pub c2s_label : Bytes
c2s_label = codes "wrap-mirror/v3/c2s"

abbrev pub s2c_label : Bytes
s2c_label = codes "wrap-mirror/v3/s2c"

-- `copy` into a [32]byte keeps at most 32 bytes of a derived key.
copy_keys : Option Bytes → Option Bytes → Result (Bytes × Bytes)
copy_keys none _ = err derive_failed
copy_keys (some c2s) none = err derive_failed
copy_keys (some c2s) (some s2c) = ok (take 32 c2s, take 32 s2c)

-- The client-to-server key and the server-to-client key.
unfoldable pub derive_keys : Hkdf → Bytes → Bytes → Bytes → Result (Bytes × Bytes)
unfolding copy_keys
derive_keys hkdf secret server_nonce client_nonce =
    let salt = server_nonce ++ client_nonce in
    if not (length secret == 32)
    then err bad_secret
    else if not (length server_nonce == 16) || not (length client_nonce == 16)
    then err bad_nonces
    else copy_keys (hkdf secret salt c2s_label 32) (hkdf secret salt s2c_label 32)
