-- ===== src/Target.antt =====
-- internal/target/target.go: the tmux window that is shared, found from TMUX and from what tmux
-- prints. The calls of tmux itself are not here: `parse_target` reads their output.
pub mod Fields
pub mod Resolve
mod Tests
use wrap.Base.{
  ℕ, zero, suc, ◌+◌, ◌-◌, Bool, true, false, not, ◌&&◌, Option, none, some, List, [], ◌∷◌, ◌++◌,
  ltb, ◌==◌, if◌then◌else◌, length, take, drop, is_empty, Bytes, equal, ℤ, pos, is_positive,
  is_negative, atoi, index_byte, last_index_byte, is_abs, clean,
}

pub record Target : Type 0 where
  pub socket_path : Bytes
  pub generation : Bytes
  pub session_id : Bytes
  pub window_id : Bytes
  pub session_name : Bytes
  pub window_name : Bytes
  pub directory : Bytes

pub data TargetError : Type 0 where
  missing_length invalid_length short_field trailing : TargetError
  not_inside_tmux malformed_tmux relative_socket malformed_pid malformed_client : TargetError
  bad_session_id bad_window_id no_session_name relative_directory generation_changed : TargetError

pub data Result {ℓ} (A : Type ℓ) : Type ℓ where
  ok : A → Result A
  err : TargetError → Result A

infixl 5 ◌>>=◌ ◌>>◌
abbrev pub ◌>>=◌ : {A B : Type 0} → Result A → (A → Result B) → Result B
ok a >>= f = f a
err e >>= f = err e

abbrev ◌>>◌ : {B : Type 0} → Result (Unit {0}) → Result B → Result B
m >> k = m >>= λ _. k

abbrev refuse_if : Bool → TargetError → Result (Unit {0})
refuse_if true e = err e
refuse_if false e = ok tt

abbrev or_fail {ℓ} : {A : Type ℓ} → Option A → TargetError → Result A
or_fail none e = err e
or_fail (some a) e = ok a

-- What the digest of a key is taken of, with the hexadecimal SHA-256 as a parameter.
unfoldable pub key_text : Target → Bytes
key_text t = t.socket_path ++ (0 ∷ (t.generation ++ (0 ∷ t.window_id)))

unfoldable pub key : (Bytes → Bytes) → Target → Bytes
unfolding key_text
key hex_sha256 t = hex_sha256 (key_text t)

-- A length prefix: not negative.
as_length : Option ℤ → Option ℕ
as_length (some (pos n)) = some n
as_length _ = none

-- One turn of the loop of `parseLengthPrefixedFields`: the field, and the input behind it.
parse_field : Bytes → Result (Bytes × Bytes)
unfolding as_length
parse_field input = do
  colon ← or_fail (index_byte b':' input) missing_length
  refuse_if (colon == 0) missing_length
  n ← or_fail (as_length (atoi (take colon input))) invalid_length
  let rest = drop (colon + 1) input
  refuse_if (ltb (length rest) n) short_field
  ok (take n rest, drop n rest)

pub parse_length_prefixed_fields : Bytes → ℕ → Result (List Bytes)
parse_length_prefixed_fields input zero = if is_empty input then ok [] else err trailing
parse_length_prefixed_fields input (suc count) = do
  (field, rest) ← parse_field input
  fields ← parse_length_prefixed_fields rest count
  ok (field ∷ fields)

-- An index that leaves something before it.
abbrev after_start : Option ℕ → Option ℕ
after_start (some (suc i)) = some (suc i)
after_start _ = none

pub parse_tmux : Bytes → Result Bytes
parse_tmux value = do
  refuse_if (is_empty value) not_inside_tmux
  last ← or_fail (after_start (last_index_byte b',' value)) malformed_tmux
  refuse_if (last == length value - 1) malformed_tmux
  previous ← or_fail (after_start (last_index_byte b',' (take last value))) malformed_tmux
  refuse_if (previous == last - 1) malformed_tmux
  let socket_path = take previous value
  refuse_if (not (is_abs socket_path)) relative_socket
  pid ← or_fail (atoi (take (last - (previous + 1)) (drop (previous + 1) value))) malformed_pid
  refuse_if (not (is_positive pid)) malformed_pid
  client ← or_fail (atoi (drop (last + 1) value)) malformed_client
  refuse_if (is_negative client) malformed_client
  ok (clean socket_path)

-- A sigil and something behind it.
pub is_tmux_id : ℕ → Bytes → Bool
is_tmux_id sigil [] = false
is_tmux_id sigil (c ∷ cs) = c == sigil && not (is_empty cs)

-- `fields[0]` to `fields[5]`; the parse has made six.
target_of_fields : Bytes → Bytes → List Bytes → Result Target
unfolding is_tmux_id
target_of_fields socket_path generation (sid ∷ wid ∷ sname ∷ wname ∷ dir ∷ gen ∷ []) = do
  refuse_if (not (is_tmux_id b'$' sid)) bad_session_id
  refuse_if (not (is_tmux_id b'@' wid)) bad_window_id
  refuse_if (is_empty sname) no_session_name
  refuse_if (not (is_abs dir)) relative_directory
  refuse_if (not (equal gen generation)) generation_changed
  ok (record {
    socket_path = socket_path;
    generation = generation;
    session_id = sid;
    window_id = wid;
    session_name = sname;
    window_name = wname;
    directory = clean dir;
  })
target_of_fields socket_path generation _ = err trailing

pub parse_target : Bytes → Bytes → Bytes → Result Target
unfolding target_of_fields
parse_target socket_path generation output = do
  fields ← parse_length_prefixed_fields output 6
  target_of_fields socket_path generation fields
