-- ===== src/Mirror/Protocol/Frames.antt =====
-- ValidateClientFrame and ValidateServerFrame against the frames that protocol v3 names.
use wrap.Base.{
  ℕ, ◌+◌, ◌≤◌, ◌≡◌, refl, ◌≢◌, ◌↔◌, inl, inr, true, none, List, [], ◌∷◌, arith, ◌==◌, Bool-cases,
  length, is_empty, All, Bytes, ℤ, pos, negsuc, is_nat,
}
use wrap.Mirror.Protocol.{
  FrameValue, nil, bytes, hello, ready, shutdown, protocol_error, ClientHello, Ready, ProtocolError,
  Shutdown, validate_client_frame, validate_server_frame, chunk_output, frame_overhead,
  max_wire_message, protocol_version, tag_client_hello, tag_close, tag_input, tag_output, tag_ready,
  tag_shutdown, tag_error, max_plain_payload,
}
use wrap.Mirror.Protocol.Chunks.{Cut, chunk_output_lossless}

-- The frames that a client may send.
pub data ClientFrame : ℕ → FrameValue → Type 0 where
  hello_frame :
      {tag : ℕ} {h : ClientHello}
      → tag ≡ tag_client_hello
      → h.version ≡ pos protocol_version
      → ClientFrame tag (hello h)
  close_nil : {tag : ℕ} → tag ≡ tag_close → ClientFrame tag nil
  close_empty :
      {tag : ℕ} {payload : Bytes} → tag ≡ tag_close → payload ≡ [] → ClientFrame tag (bytes payload)
  input_frame :
      {tag : ℕ} {payload : Bytes}
      → tag ≡ tag_input
      → length payload + frame_overhead ≤ max_wire_message
      → ClientFrame tag (bytes payload)

-- The frames that the server may send.
pub data ServerFrame : ℕ → FrameValue → Type 0 where
  close_nil : {tag : ℕ} → tag ≡ tag_close → ServerFrame tag nil
  close_empty :
      {tag : ℕ} {payload : Bytes} → tag ≡ tag_close → payload ≡ [] → ServerFrame tag (bytes payload)
  output_frame :
      {tag : ℕ} {payload : Bytes}
      → tag ≡ tag_output
      → length payload + frame_overhead ≤ max_wire_message
      → ServerFrame tag (bytes payload)
  ready_frame :
      {tag : ℕ} {r : Ready}
      → tag ≡ tag_ready
      → r.id ≢ []
      → r.generation ≢ []
      → (2 ≤ r.columns) × (r.columns ≤ 500)
      → (2 ≤ r.rows) × (r.rows ≤ 300)
      → ServerFrame tag (ready r)
  shutdown_frame : {tag : ℕ} {s : Shutdown} → tag ≡ tag_shutdown → ServerFrame tag (shutdown s)
  error_frame :
      {tag : ℕ} {e : ProtocolError}
      → tag ≡ tag_error
      → e.error_code ≢ []
      → e.message ≢ []
      → ServerFrame tag (protocol_error e)

client_complete :
    {tag : ℕ} {v : FrameValue} → ClientFrame tag v → validate_client_frame tag v ≡ none
unfolding validate_client_frame
client_complete (hello_frame t h) = ground arith
client_complete (close_nil t) = ground arith
client_complete (close_empty t h) = ground arith
client_complete (input_frame t h) = ground arith

is_nat-eq : (a : ℤ) (n : ℕ) → is_nat a n ≡ true → a ≡ pos n
is_nat-eq (pos m) n h = ground arith
is_nat-eq (negsuc m) n h = ground arith

is_empty-eq {ℓ} : {A : Type ℓ} (l : List A) → is_empty l ≡ true → l ≡ []
is_empty-eq [] h = refl
is_empty-eq (x ∷ l) h = cc

client_sound : (tag : ℕ) (v : FrameValue) → validate_client_frame tag v ≡ none → ClientFrame tag v
unfolding validate_client_frame
client_sound tag nil h = close_nil (ground arith)
client_sound tag (bytes payload) h = elim (Bool-cases (tag == tag_close)) [
  | inl e ↦ close_empty (ground arith) (ground arith)
  | inr e ↦ input_frame (ground arith) (ground arith)
]
client_sound tag (hello c) h =
    hello_frame (ground arith) (ground (arith, is_nat-eq c.version protocol_version))
client_sound tag (ready r) h = absurd (ground arith)
client_sound tag (shutdown s) h = absurd (ground arith)
client_sound tag (protocol_error e) h = absurd (ground arith)

-- `ValidateClientFrame` accepts exactly the frames of the protocol: a hello of version 3, an empty
-- close, and input within the wire limit.
pub validate_client_frame_iff :
    (tag : ℕ) (v : FrameValue) → (validate_client_frame tag v ≡ none) ↔ ClientFrame tag v
validate_client_frame_iff tag v = (client_sound tag v, client_complete)

server_complete :
    {tag : ℕ} {v : FrameValue} → ServerFrame tag v → validate_server_frame tag v ≡ none
unfolding validate_server_frame
server_complete (close_nil t) = ground arith
server_complete (close_empty t h) = ground arith
server_complete (output_frame t h) = ground arith
server_complete (ready_frame t i g c r) = ground arith
server_complete (shutdown_frame t) = ground arith
server_complete (error_frame t c m) = ground arith

server_sound : (tag : ℕ) (v : FrameValue) → validate_server_frame tag v ≡ none → ServerFrame tag v
unfolding validate_server_frame
server_sound tag nil h = close_nil (ground arith)
server_sound tag (bytes payload) h = elim (Bool-cases (tag == tag_close)) [
  | inl e ↦ close_empty (ground arith) (ground arith)
  | inr e ↦ output_frame (ground arith) (ground arith)
]
server_sound tag (hello c) h = absurd (ground arith)
server_sound tag (ready r) h =
    ready_frame (ground arith) (ground arith) (ground arith) (ground arith, ground arith)
      (ground arith, ground arith)
server_sound tag (shutdown s) h = shutdown_frame (ground arith)
server_sound tag (protocol_error e) h = error_frame (ground arith) (ground arith) (ground arith)

-- `ValidateServerFrame` accepts exactly the frames of the protocol: an empty close, output within
-- the wire limit, a ready frame with an identity and a geometry of 2..500 columns and 2..300 rows,
-- a shutdown, and an error with a code and a message.
pub validate_server_frame_iff :
    (tag : ℕ) (v : FrameValue) → (validate_server_frame tag v ≡ none) ↔ ServerFrame tag v
validate_server_frame_iff tag v = (server_sound tag v, server_complete)

-- Each chunk is a frame that the server may send.
chunks_valid :
    (cs : List Bytes)
    → Cut max_plain_payload cs
    → All (λ c. validate_server_frame tag_output (bytes c) ≡ none) cs
chunks_valid [] h = tt
chunks_valid (c ∷ []) h = (server_complete (output_frame refl (omega arith)), tt)
chunks_valid (c ∷ d ∷ cs) h =
    (server_complete (output_frame refl (omega arith)), chunks_valid (d ∷ cs) h.1)

-- Every chunk that `ChunkOutput` cuts passes `ValidateServerFrame` as an output frame.
pub chunk_output_valid :
    (output : Bytes)
    → All (λ c. validate_server_frame tag_output (bytes c) ≡ none) (chunk_output output)
chunk_output_valid output = chunks_valid _ (chunk_output_lossless output).1
