-- ===== src/Mirror/Client/Handshaking.antt =====
-- What a client that has passed the handshake has shown.
use wrap.Base.{
  ℕ, ◌≡◌, refl, sym, ap, inl, inr, true, not, ◌||◌, Option, none, some, arith, ◌==◌, Bool-cases,
  length, Bytes,
}
use wrap.Base.Json.{Json}
use wrap.Mirror.Cipher
use wrap.Mirror.Cipher.{Aead, Hkdf, Opener, Sealer, derive_keys, new_opener, new_sealer, open_frame}
use wrap.Mirror.Client.{
  authenticated, Message, check_hello, decode_hello, read_hello, with_ciphers, with_keys,
  authenticate_client,
}
use wrap.Mirror.Protocol
use wrap.Mirror.Protocol.{
  ClientHello, FrameError, hello, decode_control, validate_client_frame, protocol_version,
  tag_client_hello,
}

module _ (json : Json ClientHello) where
  -- The message opens to a hello that the server accepts.
  pub record Greets (first o : Opener) (message : Message) : Type 0 where
    pub payload : Bytes
    pub greeting : ClientHello
    pub is_binary : message.binary ≡ true
    pub opened : open_frame first message.body ≡ (o, Cipher.ok (tag_client_hello, payload))
    pub decoded : decode_control json tag_client_hello payload ≡ Protocol.ok greeting
    pub accepted : validate_client_frame tag_client_hello (hello greeting) ≡ none

  check_hello-authenticated :
      (o s : _) (e : Option FrameError) {o' : Opener} {s' : Sealer}
      → check_hello o s e ≡ authenticated o' s'
      → (e ≡ none) × (o ≡ o') × (s ≡ s')
  unfolding check_hello
  check_hello-authenticated o s none h = ground (arith, h)
  check_hello-authenticated o s (some e) h = ground (arith, h)

  decode_hello-authenticated :
      (o : Opener) (s : Sealer) (y : Protocol.Result ClientHello) {o' : Opener} {s' : Sealer}
      → decode_hello json o s y ≡ authenticated o' s'
      → (g : ClientHello) × (y ≡ Protocol.ok g)
        × (validate_client_frame tag_client_hello (hello g) ≡ none)
        × (o ≡ o')
        × (s ≡ s')
  unfolding decode_hello
  decode_hello-authenticated o s (Protocol.err e) h = absurd (ground (arith, h))
  decode_hello-authenticated o s (Protocol.ok g) h =
      let (v, a, b) = check_hello-authenticated o s _ h in (g, refl, v, a, b)

  tagged_hello :
      (s : Sealer) (o : Opener) (tag : ℕ) (payload : Bytes) {o' : Opener} {s' : Sealer}
      → read_hello json s (o, Cipher.ok (tag, payload)) ≡ authenticated o' s'
      → (tag ≡ tag_client_hello)
        × (decode_hello json o s (decode_control json tag payload) ≡ authenticated o' s')
  unfolding read_hello
  tagged_hello s o tag payload h = elim (Bool-cases (tag == tag_client_hello)) [
    | inl e ↦ (ground (arith, e), rw e at h)
    | inr e ↦ absurd (ground (arith, h, e))
  ]

  read_hello-authenticated :
      (first : Opener) (s : Sealer) (message : Message) (x : Opener × Cipher.Result (ℕ × Bytes))
      {o' : Opener} {s' : Sealer}
      → message.binary ≡ true
      → open_frame first message.body ≡ x
      → read_hello json s x ≡ authenticated o' s'
      → Greets first o' message × (s ≡ s')
  unfolding read_hello
  read_hello-authenticated first s message (o, Cipher.err e) b p h = absurd (ground (arith, h))
  read_hello-authenticated first s message (o, Cipher.ok (tag, payload)) b p h =
      let (t, d) = tagged_hello s o tag payload h in
      let (g, y, v, a, e) = decode_hello-authenticated o s _ d in
      (
        record {
          payload = payload;
          greeting = g;
          is_binary = b;
          opened = rw (sym t, sym a) p;
          decoded = rw (sym t) y;
          accepted = v;
        },
        e,
      )

  with_ciphers-authenticated :
      (message : Message) (x : Option Opener) (y : Option Sealer) {o' : Opener} {s' : Sealer}
      → with_ciphers json message x y ≡ authenticated o' s'
      → (first : Opener) × (x ≡ some first) × (y ≡ some s') × Greets first o' message
  unfolding with_ciphers
  with_ciphers-authenticated message none y h = absurd (ground (arith, h))
  with_ciphers-authenticated message (some o) none h = absurd (ground (arith, h))
  with_ciphers-authenticated message (some o) (some s) h = elim (Bool-cases message.binary) [
    | inl b ↦
        let (g, e) =
          read_hello-authenticated o s message (open_frame o message.body) b refl
            (ground (arith, b, h)) in
        (o, refl, ap some e, g)
    | inr b ↦ absurd (ground (arith, h, b))
  ]

  module _ (new_gcm : Bytes → Option Aead) where
    with_keys-authenticated :
        (message : Message) (k : Cipher.Result (Bytes × Bytes)) {o' : Opener} {s' : Sealer}
        → with_keys json new_gcm message k ≡ authenticated o' s'
        → (c2s : Bytes) × (s2c : Bytes) × (first : Opener) × (k ≡ Cipher.ok (c2s, s2c))
          × (new_opener new_gcm c2s ≡ some first)
          × (new_sealer new_gcm s2c ≡ some s')
          × Greets first o' message
    unfolding with_keys
    with_keys-authenticated message (Cipher.err e) h = absurd (ground (arith, h))
    with_keys-authenticated message (Cipher.ok (c2s, s2c)) h =
        let (first, x, y, g) = with_ciphers-authenticated message _ _ h in
        (c2s, s2c, first, refl, x, y, g)

  module _ (hkdf : Hkdf) (new_gcm : Bytes → Option Aead) where
    -- A client that `authenticateClient` lets in answered with a binary nonce of 16 bytes, and then
    -- sent a binary message that opens, as the first of its direction under the key derived for that direction,
    -- to a hello that `ValidateClientFrame` accepts; the server seals under the other key, from the start.
    pub authenticate_client_sound :
        (secret server_nonce : Bytes) (client_nonce message : Message) {o : Opener} {s : Sealer}
        → authenticate_client json hkdf new_gcm secret server_nonce client_nonce message
          ≡ authenticated o s
        → (client_nonce.binary ≡ true)
          × (length client_nonce.body ≡ 16)
          × ((c2s : Bytes) × (s2c : Bytes) × (first : Opener) × (derive_keys hkdf secret
                  server_nonce client_nonce.body
                ≡ Cipher.ok (c2s, s2c))
              × (new_opener new_gcm c2s ≡ some first)
              × (new_sealer new_gcm s2c ≡ some s)
              × Greets first o message)
    unfolding authenticate_client
    authenticate_client_sound secret server_nonce client_nonce message h =
        elim (Bool-cases (not client_nonce.binary || not (length client_nonce.body == 16))) [
          | inl b ↦ absurd (ground (arith, h, b))
          | inr b ↦ (
            ground (arith, b),
            ground (arith, b),
            with_keys-authenticated new_gcm message _ (rw b at h),
          )
        ]
