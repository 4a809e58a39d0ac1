-- ===== src/Mirror/Protocol/Tests.antt =====
-- The theorems on protocol.go at concrete frames.
use wrap.Base.{◌≡◌, refl, ◌↔◌, none, some, [], All, Bytes, codes, pos}
use wrap.Base.Json.{Json, eof}
use wrap.Mirror.Protocol.{
  bytes, hello, ready, ClientHello, Ready, ok, encode_control, decode_control,
  validate_client_frame, validate_server_frame, chunk_output, max_plain_payload, tag_client_hello,
  tag_output, tag_ready,
}
use wrap.Mirror.Protocol.Chunks.{flatten, Cut, chunk_output_lossless}
use wrap.Mirror.Protocol.Frames.{
  ClientFrame, ServerFrame, validate_client_frame_iff, validate_server_frame_iff,
  chunk_output_valid,
}

abbrev some_output : Bytes
some_output = codes "ls -l"

abbrev version_three : ClientHello
version_three = record { version = pos 3 }

abbrev hello_text : Bytes
hello_text = codes "{version:3}"

-- A codec that knows one hello.
abbrev hello_json : Json ClientHello
hello_json = record {
  marshal = λ _. some hello_text;
  decode = λ _. some (version_three, []);
  trailing = λ _. eof;
}

chunk_output_lossless_example :
    (flatten (chunk_output some_output) ≡ some_output)
    × Cut max_plain_payload (chunk_output some_output)
chunk_output_lossless_example = chunk_output_lossless some_output

chunk_output_valid_example :
    All (λ c. validate_server_frame tag_output (bytes c) ≡ none) (chunk_output some_output)
chunk_output_valid_example = chunk_output_valid some_output

validate_client_frame_iff_example :
    (validate_client_frame tag_client_hello (hello version_three) ≡ none)
    ↔ ClientFrame tag_client_hello (hello version_three)
validate_client_frame_iff_example = validate_client_frame_iff tag_client_hello (hello version_three)

abbrev some_ready : Ready
some_ready = record { id = codes "i"; generation = codes "g"; columns = 80; rows = 24 }

validate_server_frame_iff_example :
    (validate_server_frame tag_ready (ready some_ready) ≡ none)
    ↔ ServerFrame tag_ready (ready some_ready)
validate_server_frame_iff_example = validate_server_frame_iff tag_ready (ready some_ready)

hello_sent :
    (encode_control hello_json tag_client_hello version_three ≡ ok hello_text)
    × (decode_control hello_json tag_client_hello hello_text ≡ ok version_three)
unfolding encode_control decode_control
hello_sent = (refl, refl)
