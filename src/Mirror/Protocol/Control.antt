-- ===== src/Mirror/Protocol/Control.antt =====
-- EncodeControl and DecodeControl.
use wrap.Base.{ℕ, ◌+◌, ◌≤◌, ◌≡◌, ◌⊎◌, true, some, arith, length, Bytes}
use wrap.Base.Json.{Json}
use wrap.Mirror.Protocol.{
  err, no_control_tag, encode_control, decode_control, is_control_tag, frame_overhead,
  max_wire_message, tag_close, tag_input, tag_output,
}

module _ {ℓ} {A : Type ℓ} (json : Json A) where
  -- The text that JSON makes of a value, under a tag of JSON frames, within the wire limit.
  abbrev pub Sendable : ℕ → A → Bytes → Type 0
  Sendable tag v text =
      (is_control_tag tag ≡ true)
      × (json.marshal v ≡ some text)
      × (length text + frame_overhead ≤ max_wire_message)

  -- Input, output and close frames never carry JSON, in either direction.
  pub raw_tags_carry_no_json :
      (tag : ℕ)
      → (tag ≡ tag_close) ⊎ (tag ≡ tag_input) ⊎ (tag ≡ tag_output)
      → (v : A) (text : Bytes)
      → (encode_control json tag v ≡ err no_control_tag)
        × (decode_control json tag text ≡ err no_control_tag)
  unfolding encode_control decode_control is_control_tag
  raw_tags_carry_no_json tag h v text = ground arith
