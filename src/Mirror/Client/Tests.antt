-- ===== src/Mirror/Client/Tests.antt =====
-- The theorem on the outbound queue at concrete calls.
use wrap.Base.{
  ℕ, zero, suc, ◌≡◌, refl, true, false, Option, none, some, List, [], ◌∷◌, ◌++◌, length, Bytes,
  codes, pos,
}
use wrap.Base.Json.{Json, eof}
use wrap.Mirror.Cipher
use wrap.Mirror.Cipher.{Aead, Hkdf, Opener, Sealer, derive_keys, new_opener, new_sealer, open_frame}
use wrap.Mirror.Client.Handshaking.{Greets, authenticate_client_sound}
use wrap.Mirror.Client.{
  Message, authenticated, authenticate_client, new_outbound_queue, OutboundQueue, send_output,
  send_chunks, write_some, taken, pop, pop_first, send, push, close_after, close_locked,
}
use wrap.Mirror.Client.Output.{output_frames, send_output-frames}
use wrap.Mirror.Protocol.{
  ClientHello, decode_control, validate_client_frame, chunk_output, chunk_by,
}
use wrap.Mirror.Protocol.Chunks.{flatten}
use wrap.Mirror.Client.Queue.{
  Call, pushes, pops, closes, IsBounded, IsFifo, run_calls, queue-IsBounded-IsFifo,
}

abbrev some_calls : List Call
some_calls =
    pushes (record { tag = 7; payload = codes "a"; result = false })
    ∷ pushes (record { tag = 7; payload = codes "bc"; result = false })
    ∷ pops
    ∷ pushes (record { tag = 5; payload = []; result = true })
    ∷ closes
    ∷ pops
    ∷ []

queue-IsBounded-IsFifo_example :
    IsBounded (run_calls some_calls (new_outbound_queue 64, ([], []))).0
    × IsFifo (run_calls some_calls (new_outbound_queue 64, ([], [])))
queue-IsBounded-IsFifo_example = queue-IsBounded-IsFifo 64 some_calls

-- A frame waits; the writer takes it out before the first push, and the output is one chunk.
abbrev busy_queue : OutboundQueue
busy_queue = record {
  frames = record { tag = 8; payload = codes "r"; result = false } ∷ [];
  queued_bytes = 18;
  max_bytes = 64;
  closed = false;
}

some_output_sent : (send_output (λ i. false) (λ i. 1) (codes "ls") busy_queue).2 ≡ none
unfolding send_output send_chunks chunk_output chunk_by send push close_after close_locked
    write_some taken pop pop_first
some_output_sent = refl

send_output-frames_example :
    let r = send_output (λ i. false) (λ i. 1) (codes "ls") busy_queue in
    (r.1 ++ r.0.frames ≡ busy_queue.frames ++ output_frames (chunk_output (codes "ls")))
    × (flatten (chunk_output (codes "ls")) ≡ codes "ls")
send_output-frames_example =
    send_output-frames (λ i. false) (λ i. 1) (codes "ls") busy_queue some_output_sent

-- A cipher that hides nothing, and keys of zeros.
abbrev plain_cipher : Aead
plain_cipher = record {
  seal_plain = λ nonce plain. plain;
  open_sealed = λ nonce text. some text;
  overhead = 16;
}

abbrev plain_gcm : Bytes → Option Aead
plain_gcm key = some plain_cipher

zeros : ℕ → Bytes
zeros zero = []
zeros (suc n) = 0 ∷ zeros n

abbrev zero_keys : Hkdf
zero_keys secret salt label n = some (zeros n)

abbrev hello_json : Json ClientHello
hello_json = record {
  marshal = λ _. some (codes "{}");
  decode = λ _. some (record { version = pos 3 }, []);
  trailing = λ _. eof;
}

abbrev nonce_message : Message
nonce_message = record { binary = true; body = zeros 16 }

abbrev hello_message : Message
hello_message = record { binary = true; body = 1 ∷ codes "{}" }

abbrev greeted : Opener
greeted = record { aead = plain_cipher; counter = 1; is_poisoned = false }

abbrev unused : Sealer
unused = record { aead = plain_cipher; counter = 0; is_poisoned = false }

hello_lets_in :
    authenticate_client hello_json zero_keys plain_gcm
      (zeros 32)
      (zeros 16)
      nonce_message
      hello_message
    ≡ authenticated greeted unused
unfolding authenticate_client derive_keys new_opener new_sealer open_frame decode_control
    validate_client_frame zeros
hello_lets_in = refl

authenticate_client_sound_example :
    (true ≡ true)
    × (length (zeros 16) ≡ 16)
    × ((c2s : Bytes) × (s2c : Bytes) × (first : Opener) × (derive_keys zero_keys
            (zeros 32)
            (zeros 16)
            (zeros 16)
          ≡ Cipher.ok (c2s, s2c))
        × (new_opener plain_gcm c2s ≡ some first)
        × (new_sealer plain_gcm s2c ≡ some unused)
        × Greets hello_json first greeted hello_message)
authenticate_client_sound_example =
    authenticate_client_sound hello_json zero_keys plain_gcm (zeros 32) (zeros 16) nonce_message
      hello_message hello_lets_in
