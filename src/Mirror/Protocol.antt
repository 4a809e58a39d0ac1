-- ===== src/Mirror/Protocol.antt =====
-- internal/mirror/protocol.go: frame tags, the checks on each frame, and the cutting of output.
-- An error is a value of `FrameError`, one constructor for each message; `none` is the nil error.
pub mod Chunks
pub mod Control
pub mod Frames
mod Tests
use wrap.Base.{
  ℕ, zero, suc, ◌+◌, ◌-◌, min, Bool, not, ◌||◌, Option, none, some, List, [], ◌∷◌, ltb, leb, ◌==◌,
  if◌then◌else◌, length, take, drop, is_empty, Bytes, ℤ, is_nat,
}
use wrap.Base.Json.{Json, Trailing, eof, value, malformed}

abbrev pub protocol_version : ℕ
protocol_version = 3

abbrev pub tag_client_hello : ℕ
tag_client_hello = 0x01

abbrev pub tag_close : ℕ
tag_close = 0x05

abbrev pub tag_input : ℕ
tag_input = 0x06

abbrev pub tag_output : ℕ
tag_output = 0x07

abbrev pub tag_ready : ℕ
tag_ready = 0x08

abbrev pub tag_shutdown : ℕ
tag_shutdown = 0x0a

abbrev pub tag_error : ℕ
tag_error = 0x0b

-- 128 << 10
abbrev pub max_wire_message : ℕ
max_wire_message = 131072

-- 1 << 20
abbrev pub max_client_queue_bytes : ℕ
max_client_queue_bytes = 1048576

-- One byte of tag and the sixteen of the authentication tag.
abbrev pub frame_overhead : ℕ
frame_overhead = 1 + 16

pub record ClientHello : Type 0 where
  pub version : ℤ

pub record Ready : Type 0 where
  pub id : Bytes
  pub generation : Bytes
  pub columns : ℕ
  pub rows : ℕ

pub record Shutdown : Type 0 where
  pub reason : Bytes
  pub retry : Bool

pub record ProtocolError : Type 0 where
  pub error_code : Bytes
  pub message : Bytes
  pub retry : Bool

-- The dynamic types that the code passes as `any`.
pub data FrameValue : Type 0 where
  nil : FrameValue
  bytes : Bytes → FrameValue
  hello : ClientHello → FrameValue
  ready : Ready → FrameValue
  shutdown : Shutdown → FrameValue
  protocol_error : ProtocolError → FrameValue

pub data FrameError : Type 0 where
  no_control_tag encode_failed wire_limit decode_failed trailing_value trailing_malformed :
      FrameError
  invalid_payload unsupported_version payload_not_empty tag_not_valid : FrameError
  no_id no_generation bad_columns bad_rows : FrameError

pub data Result {ℓ} (A : Type ℓ) : Type ℓ where
  ok : A → Result A
  err : FrameError → Result A

pub is_control_tag : ℕ → Bool
is_control_tag tag =
    tag == tag_client_hello || tag == tag_ready || tag == tag_shutdown || tag == tag_error

abbrev pub fits_wire : Bytes → Bool
fits_wire payload = leb (length payload + frame_overhead) max_wire_message

module _ {ℓ} {A : Type ℓ} (json : Json A) where
  pub encode_payload : Option Bytes → Result Bytes
  encode_payload none = err encode_failed
  encode_payload (some payload) = if fits_wire payload then ok payload else err wire_limit

  pub encode_control : ℕ → A → Result Bytes
  unfolding encode_payload is_control_tag
  encode_control tag v =
      if not (is_control_tag tag) then err no_control_tag else encode_payload (json.marshal v)

  pub check_trailing : A → Trailing → Result A
  check_trailing v eof = ok v
  check_trailing v value = err trailing_value
  check_trailing v malformed = err trailing_malformed

  pub decode_payload : Option (A × Bytes) → Result A
  decode_payload none = err decode_failed
  decode_payload (some (v, rest)) = check_trailing v (json.trailing rest)

  unfoldable pub decode_control : ℕ → Bytes → Result A
  unfolding decode_payload check_trailing is_control_tag
  decode_control tag payload =
      if not (is_control_tag tag)
      then err no_control_tag
      else if not (fits_wire payload)
      then err wire_limit
      else decode_payload (json.decode payload)

pub validate_identity : Bytes → Bytes → Option FrameError
validate_identity id generation =
    if is_empty id then some no_id else if is_empty generation then some no_generation else none

unfoldable pub validate_dimensions : ℕ → ℕ → Option FrameError
validate_dimensions columns rows =
    if ltb columns 2 || ltb 500 columns
    then some bad_columns
    else if ltb rows 2 || ltb 300 rows
    then some bad_rows
    else none

check_hello : FrameValue → Option FrameError
check_hello (hello h) = if is_nat h.version protocol_version then none else some unsupported_version
check_hello _ = some invalid_payload

check_close : FrameValue → Option FrameError
check_close nil = none
check_close (bytes payload) = if is_empty payload then none else some payload_not_empty
check_close _ = some invalid_payload

-- The payload of `TagInput` and of `TagOutput`.
check_raw : FrameValue → Option FrameError
check_raw (bytes payload) = if fits_wire payload then none else some wire_limit
check_raw _ = some invalid_payload

check_ready : FrameValue → Option FrameError
unfolding validate_identity validate_dimensions
check_ready (ready r) = elim (validate_identity r.id r.generation) [
  | some e ↦ some e
  | none ↦ validate_dimensions r.columns r.rows
]
check_ready _ = some invalid_payload

check_shutdown : FrameValue → Option FrameError
check_shutdown (shutdown s) = none
check_shutdown _ = some invalid_payload

check_error : FrameValue → Option FrameError
check_error (protocol_error e) =
    if is_empty e.error_code || is_empty e.message then some invalid_payload else none
check_error _ = some invalid_payload

unfoldable pub validate_client_frame : ℕ → FrameValue → Option FrameError
unfolding check_hello check_close check_raw
validate_client_frame tag v =
    if tag == tag_client_hello
    then check_hello v
    else if tag == tag_close
    then check_close v
    else if tag == tag_input
    then check_raw v
    else some tag_not_valid

pub validate_server_frame : ℕ → FrameValue → Option FrameError
unfolding check_close check_raw check_ready check_shutdown check_error
validate_server_frame tag v =
    if tag == tag_close
    then check_close v
    else if tag == tag_output
    then check_raw v
    else if tag == tag_ready
    then check_ready v
    else if tag == tag_shutdown
    then check_shutdown v
    else if tag == tag_error
    then check_error v
    else some tag_not_valid

abbrev pub max_plain_payload : ℕ
max_plain_payload = max_wire_message - 1 - 16

-- The loop of `ChunkOutput` at a chunk size; the fuel is at least the length of `output`.
unfoldable pub chunk_by : ℕ → ℕ → Bytes → List Bytes
chunk_by size zero output = []
chunk_by size (suc fuel) [] = []
chunk_by size (suc fuel) (c ∷ cs) =
    let n = min (length (c ∷ cs)) size in
    let rest = chunk_by size fuel (drop n (c ∷ cs)) in take n (c ∷ cs) ∷ rest

unfoldable pub chunk_output : Bytes → List Bytes
chunk_output output = chunk_by max_plain_payload (length output) output
