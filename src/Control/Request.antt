-- ===== src/Control/Request.antt =====
-- internal/control/protocol.go and readRequest of internal/control/server.go: a request and how it
-- is read from a connection.
pub mod Reading
use wrap.Base.{
  ℕ, ◌+◌, Bool, true, false, not, ◌||◌, Option, none, some, ltb, if◌then◌else◌, length, take,
  is_empty, Bytes, codes, equal, index_byte,
}
use wrap.Base.Json.{Json, Trailing, eof}
use wrap.Instance.Record.{is_instance_id}

abbrev pub action_status : Bytes
action_status = codes "status"

abbrev pub action_rename : Bytes
action_rename = codes "rename"

abbrev pub action_rotate : Bytes
action_rotate = codes "rotate"

abbrev pub action_shutdown : Bytes
action_shutdown = codes "shutdown"

-- 64 << 10
abbrev pub max_request_bytes : ℕ
max_request_bytes = 65536

pub record Request : Type 0 where
  pub instance_id : Bytes
  pub action : Bytes
  pub name : Bytes

pub data RequestError : Type 0 where
  bad_instance_id unexpected_name missing_name unknown_action : RequestError
  too_large no_newline invalid_json trailing_json : RequestError

pub data Result {ℓ} (A : Type ℓ) : Type ℓ where
  read : A → Result A
  refused : RequestError → Result A

unfoldable pub validate_request : Request → Option RequestError
validate_request r =
    if not (is_instance_id r.instance_id)
    then some bad_instance_id
    else if equal r.action action_status
        || equal r.action action_rotate
        || equal r.action action_shutdown
    then (if not (is_empty r.name) then some unexpected_name else none)
    else if equal r.action action_rename
    then (if is_empty r.name then some missing_name else none)
    else some unknown_action

-- ReadBytes up to the newline: what was read, and whether the newline came.
read_line : Bytes → Option ℕ → Bytes × Bool
read_line input none = (input, false)
read_line input (some i) = (take (i + 1) input, true)

accept_request : Request → Option RequestError → Result Request
accept_request r none = read r
accept_request r (some e) = refused e

check_trailing : Request → Trailing → Result Request
unfolding accept_request
check_trailing r eof = accept_request r (validate_request r)
check_trailing r _ = refused trailing_json

module _ (json : Json Request) where
  decode_request : Option (Request × Bytes) → Result Request
  unfolding check_trailing
  decode_request none = refused invalid_json
  decode_request (some (r, rest)) = check_trailing r (json.trailing rest)

  parse_line : Bytes × Bool → Result Request
  unfolding decode_request
  parse_line (line, ended) =
      if ltb max_request_bytes (length line)
      then refused too_large
      else if not ended
      then refused no_newline
      else decode_request (json.decode line)

  -- What the connection yields before its end or its deadline; a LimitReader cuts it.
  pub read_request : Bytes → Result Request
  unfolding parse_line read_line
  read_request input =
      let limited = take (max_request_bytes + 1) input in
      parse_line (read_line limited (index_byte b'\n' limited))
