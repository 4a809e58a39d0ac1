-- ===== src/Mirror/Client.antt =====
-- internal/mirror/client.go: the outbound queue of a client, the handshake, and the dispatch of its
-- frames. Goroutines meet in the queue only under its mutex, so each method is one function.
pub mod Queue
pub mod Output
pub mod Handshaking
mod Tests
use wrap.Base.{
  zero, suc, ℕ, ◌+◌, ◌-◌, Bool, true, false, not, ◌||◌, Option, none, some, List, [], ◌∷◌, ◌++◌,
  ltb, ◌==◌, if◌then◌else◌, length, Bytes,
}
use wrap.Base.Json.{Json}
use wrap.Mirror.Cipher
use wrap.Mirror.Cipher.{Aead, Hkdf, Opener, Sealer, derive_keys, new_opener, new_sealer, open_frame}
use wrap.Mirror.Protocol
use wrap.Mirror.Protocol.{
  ClientHello, FrameError, bytes, hello, chunk_output, decode_control, validate_client_frame,
  frame_overhead, tag_client_hello, tag_close, tag_input, tag_output,
}

-- `result` tells whether the frame carries a channel for its outcome.
pub record OutboundFrame : Type 0 where
  pub tag : ℕ
  pub payload : Bytes
  pub result : Bool

pub record OutboundQueue : Type 0 where
  pub frames : List OutboundFrame
  pub queued_bytes : ℕ
  pub max_bytes : ℕ
  pub closed : Bool

pub data QueueError : Type 0 where
  client_closed queue_full canceled : QueueError

pub new_outbound_queue : ℕ → OutboundQueue
new_outbound_queue max_bytes = record {
  frames = [];
  queued_bytes = 0;
  max_bytes = max_bytes;
  closed = false;
}

abbrev pub frame_size : OutboundFrame → ℕ
frame_size f = length f.payload + frame_overhead

-- The frames that wait for a result are told the error; they are returned.
with_result : List OutboundFrame → List OutboundFrame
with_result [] = []
with_result (f ∷ fs) = if f.result then f ∷ with_result fs else with_result fs

pub close_locked : OutboundQueue → OutboundQueue × List OutboundFrame
unfolding with_result
close_locked q =
    if q.closed
    then (q, [])
    else (record q { closed = true; frames = []; queued_bytes = 0 }, with_result q.frames)

pub push : OutboundFrame → OutboundQueue → OutboundQueue × Option QueueError
unfolding close_locked
push f q =
    if q.closed
    then (q, some client_closed)
    else if ltb q.max_bytes (frame_size f) || ltb q.max_bytes (q.queued_bytes + frame_size f)
    then ((close_locked q).0, some queue_full)
    else (
      record q { frames = q.frames ++ (f ∷ []); queued_bytes = q.queued_bytes + frame_size f },
      none,
    )

-- What `pop` finds: the queue closed, a frame, or nothing yet.
pub data Popped : Type 0 where
  gone waiting : Popped
  frame : OutboundFrame → Popped

pop_first : List OutboundFrame → OutboundQueue → OutboundQueue × Popped
pop_first [] q = (q, waiting)
pop_first (f ∷ fs) q =
    (record q { frames = fs; queued_bytes = q.queued_bytes - frame_size f }, frame f)

pub pop : OutboundQueue → OutboundQueue × Popped
unfolding pop_first
pop q = if q.closed then (q, gone) else pop_first q.frames q

-- `send` with `done` for a context that has ended; `closeNow` closes the queue after an error of `push`.
close_after : OutboundQueue × Option QueueError → OutboundQueue × Option QueueError
close_after (q, none) = (q, none)
close_after (q, some e) = ((close_locked q).0, some e)

pub send : Bool → ℕ → Bytes → OutboundQueue → OutboundQueue × Option QueueError
unfolding close_after
send done tag payload q =
    if done
    then (q, some canceled)
    else close_after (push (record { tag = tag; payload = payload; result = false }) q)

pub taken : Popped → List OutboundFrame → List OutboundFrame
taken (frame f) fs = f ∷ fs
taken _ fs = fs

-- What the writer takes out of the queue, with so many calls of `pop`.
pub write_some : ℕ → OutboundQueue → OutboundQueue × List OutboundFrame
unfolding taken
write_some zero q = (q, [])
write_some (suc n) q = let rest = write_some n (pop q).0 in (rest.0, taken (pop q).1 rest.1)

-- The queue behind a run of `SendOutput`, what the writer took out in its course, and the error.
abbrev pub Sent : Type 0
Sent = OutboundQueue × List OutboundFrame × Option QueueError

-- The loop of `SendOutput`; each round looks at the context anew, and takes the lock of the queue anew: the
-- writer calls `pop` so often before it. No other goroutine sends in between.
send_chunks : (ℕ → Bool) → (ℕ → ℕ) → ℕ → List Bytes → OutboundQueue → Sent
unfolding write_some
send_chunks done writes i [] q = (q, [], none)
send_chunks done writes i (c ∷ cs) q =
    let (before, written) = write_some (writes i) q in
    let (behind, refused) = send (done i) tag_output c before in
    let rest = send_chunks done writes (i + 1) cs behind in
    elim refused [ some e ↦ (behind, written, some e) | none ↦ (rest.0, written ++ rest.1, rest.2) ]

pub send_output : (ℕ → Bool) → (ℕ → ℕ) → Bytes → OutboundQueue → Sent
unfolding send_chunks
send_output done writes output q = send_chunks done writes 0 (chunk_output output) q

-- What the client's handler answers to one frame, and the flag `viewerOpen` when the code looks again.
pub record Answers : Type 0 where
  pub viewer_open : Bool
  pub close_fails : Bool
  pub input_fails : Bool
  pub open_after : Bool

pub data Dispatched : Type 0 where
  acknowledged ignored handler_failed invalid_tag : Dispatched
  input_written : Bytes → Dispatched
  invalid_frame : FrameError → Dispatched

dispatch_close : Answers → Option FrameError → Dispatched
dispatch_close a (some e) = invalid_frame e
dispatch_close a none =
    if not a.viewer_open
    then acknowledged
    else if a.close_fails
    then (if not a.open_after then acknowledged else handler_failed)
    else acknowledged

dispatch_input : Answers → Bytes → Option FrameError → Dispatched
dispatch_input a payload (some e) = invalid_frame e
dispatch_input a payload none =
    if not a.viewer_open
    then ignored
    else if a.input_fails
    then (if not a.open_after then ignored else handler_failed)
    else input_written payload

pub dispatch : Answers → ℕ → Bytes → Dispatched
unfolding dispatch_close dispatch_input
dispatch a tag payload =
    if tag == tag_close
    then dispatch_close a (validate_client_frame tag (bytes payload))
    else if tag == tag_input
    then dispatch_input a payload (validate_client_frame tag (bytes payload))
    else invalid_tag

pub data HandshakeError : Type 0 where
  no_server_nonce invalid_client_nonce no_keys no_cipher hello_not_binary invalid_hello :
      HandshakeError
  invalid_control : FrameError → HandshakeError

pub data Handshake : Type 0 where
  authenticated : Opener → Sealer → Handshake
  rejected : HandshakeError → Handshake

-- One message of the web socket.
pub record Message : Type 0 where
  pub binary : Bool
  pub body : Bytes

check_hello : Opener → Sealer → Option FrameError → Handshake
check_hello o s none = authenticated o s
check_hello o s (some e) = rejected (invalid_control e)

module _ (json : Json ClientHello) where
  decode_hello : Opener → Sealer → Protocol.Result ClientHello → Handshake
  unfolding check_hello
  decode_hello o s (Protocol.err e) = rejected (invalid_control e)
  decode_hello o s (Protocol.ok h) =
      check_hello o s (validate_client_frame tag_client_hello (hello h))

  read_hello : Sealer → Opener × Cipher.Result (ℕ × Bytes) → Handshake
  unfolding decode_hello
  read_hello s (o, Cipher.err e) = rejected invalid_hello
  read_hello s (o, Cipher.ok (tag, payload)) =
      if not (tag == tag_client_hello)
      then rejected invalid_hello
      else decode_hello o s (decode_control json tag payload)

  with_ciphers : Message → Option Opener → Option Sealer → Handshake
  unfolding read_hello
  with_ciphers message (some o) (some s) =
      if not message.binary
      then rejected hello_not_binary
      else read_hello s (open_frame o message.body)
  with_ciphers message _ _ = rejected no_cipher

  with_keys : (Bytes → Option Aead) → Message → Cipher.Result (Bytes × Bytes) → Handshake
  unfolding with_ciphers
  with_keys new_gcm message (Cipher.err e) = rejected no_keys
  with_keys new_gcm message (Cipher.ok (c2s, s2c)) =
      with_ciphers message (new_opener new_gcm c2s) (new_sealer new_gcm s2c)

  -- The messages are those that the socket yields; a read or a write that fails ends the handshake.
  pub authenticate_client :
      Hkdf → (Bytes → Option Aead) → Bytes → Bytes → Message → Message → Handshake
  unfolding with_keys
  authenticate_client hkdf new_gcm secret server_nonce client_nonce encrypted_hello =
      if not client_nonce.binary || not (length client_nonce.body == 16)
      then rejected invalid_client_nonce
      else with_keys new_gcm encrypted_hello
          (derive_keys hkdf secret server_nonce client_nonce.body)
