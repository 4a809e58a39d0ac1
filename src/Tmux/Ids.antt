-- ===== src/Tmux/Ids.antt =====
-- The forms of tmux's identifiers, and how a server is selected.
use wrap.Base.{
  ℕ, Bool, false, not, ◌&&◌, ◌||◌, List, [], ◌∷◌, leb, ◌==◌, if◌then◌else◌, length, is_empty, all,
  Bytes, codes, is_abs,
}
use wrap.Base.Result.{Result, ok, err}

abbrev pub is_digit : ℕ → Bool
is_digit c = leb b'0' c && leb c b'9'

-- A sigil and digits.
unfoldable pub is_id : ℕ → Bytes → Bool
unfolding all
is_id sigil (c ∷ d ∷ ds) = c == sigil && all is_digit (d ∷ ds)
is_id sigil _ = false

unfoldable pub is_session_id : Bytes → Bool
unfolding is_id
is_session_id target = is_id b'$' target

unfoldable pub is_window_id : Bytes → Bool
unfolding is_id
is_window_id target = is_id b'@' target

unfoldable pub is_pane_id : Bytes → Bool
unfolding is_id
is_pane_id target = is_id b'%' target

unfoldable pub is_generation : Bytes → Bool
unfolding all
is_generation generation =
    length generation == 32 && all (λ c. is_digit c || leb b'a' c && leb c b'f') generation

pub record Endpoint : Type 0 where
  pub socket_name : Bytes
  pub socket_path : Bytes

pub data EndpointError : Type 0 where
  no_socket two_selectors relative_path : EndpointError

unfoldable pub endpoint_args : Endpoint → Result EndpointError (List Bytes)
endpoint_args e =
    if is_empty e.socket_name && is_empty e.socket_path
    then err no_socket
    else if not (is_empty e.socket_name) && not (is_empty e.socket_path)
    then err two_selectors
    else if not (is_empty e.socket_name)
    then ok (codes "-L" ∷ e.socket_name ∷ [])
    else if not (is_abs e.socket_path)
    then err relative_path
    else ok (codes "-S" ∷ e.socket_path ∷ [])
