-- ===== src/Tmux/Queries.antt =====
-- The single questions and settings: what a client shows, a pane's height, options, hooks and keys.
use wrap.Base.{
  ℕ, not, ◌||◌, List, [], ◌∷◌, ltb, if◌then◌else◌, is_empty, Option, none, some, Bytes, codes,
  contains, trim_space, ℤ, pos, negsuc, atoi,
}
use wrap.Base.Decimal.{itoa}
use wrap.Base.Result
use wrap.Base.Result.{Result, ok, err}
use wrap.Tmux.Guard.{session_value_if_generation}
use wrap.Tmux.Ids.{is_session_id, is_pane_id}
use wrap.Tmux.Listing.{split_n}
use wrap.Tmux.Quote.{tmux_command}
use wrap.Tmux.Server.{
  Tmux, Server, TmuxError, Command, ◌>>=◌, ◌>>◌, check, judge, ignore_output, run, no_server,
  missing_target, invalid_pane_id, bad_client, empty_pid, bad_height, bad_new_height, error_text,
  is_no_server_error, is_missing_target_error,
}

-- A name of a session is matched whole; an ID is taken as it is.
exact_target : Bytes → Bytes
exact_target target = if not (is_session_id target) then b'=' ∷ target else target

two_fields : Bytes → List Bytes → Result TmuxError (Bytes × Bytes)
two_fields out (a ∷ b ∷ []) = if is_empty a || is_empty b then err (bad_client out) else ok (a, b)
two_fields out _ = err (bad_client out)

shown_identity : Result TmuxError Bytes → Result TmuxError (Bytes × Bytes)
unfolding two_fields
shown_identity (err e) = err e
shown_identity (ok out) = two_fields out (split_n 2 out)

-- A height of a pane, from 1 to 300.
abbrev in_range : ℤ → Option ℕ
in_range (pos n) = if ltb n 1 || ltb 300 n then none else some n
in_range (negsuc n) = none

height_of : Bytes → Option ℤ → Result TmuxError ℕ
height_of out none = err (bad_height out)
height_of out (some h) = Result.or_fail (bad_height out) (in_range h)

read_height : Result TmuxError Bytes → Result TmuxError ℕ
unfolding height_of
read_height (err e) = err e
read_height (ok out) = height_of out (atoi (trim_space out))

module _ {S : Type 0} (tmux : Tmux S) (server : Server) where
  or_missing : Result TmuxError Bytes → Result TmuxError Bytes
  or_missing (err e) = if is_missing_target_error tmux e then err (missing_target e) else err e
  or_missing (ok out) = ok out

  pub session_current_path : Bytes → Command S Bytes
  unfolding or_missing
  session_current_path id = judge or_missing (
      run tmux server (
        codes "display-message" ∷ codes "-p" ∷ codes "-t" ∷ id ∷ codes "#{pane_current_path}" ∷ []))

  pub session_current_path_if_generation : Bytes → Bytes → Command S Bytes
  session_current_path_if_generation id generation =
      session_value_if_generation tmux server id generation (
        tmux_command (
          codes "display-message"
          ∷ codes "-p"
          ∷ codes "-t"
          ∷ id
          ∷ codes "#{pane_current_path}"
          ∷ []))

  pub switch_client : Bytes → Bytes → Command S (Unit {0})
  unfolding exact_target
  switch_client client_tty target = judge ignore_output (
      run tmux server
        (codes "switch-client" ∷ codes "-c" ∷ client_tty ∷ codes "-t" ∷ exact_target target ∷ []))

  pub client_session : Bytes → Command S Bytes
  client_session tty =
      run tmux server
        (codes "display-message" ∷ codes "-p" ∷ codes "-c" ∷ tty ∷ codes "#{client_session}" ∷ [])

  pub client_session_identity : Bytes → Command S (Bytes × Bytes)
  unfolding shown_identity
  client_session_identity tty = judge shown_identity (
      run tmux server (
        codes "display-message"
        ∷ codes "-p"
        ∷ codes "-c"
        ∷ tty
        ∷ codes "#{client_session}\t#{session_id}"
        ∷ []))

  known_pid : Result TmuxError Bytes → Result TmuxError Bytes
  known_pid (err e) = if is_no_server_error tmux e then err (no_server e) else err e
  known_pid (ok out) = if is_empty (trim_space out) then err empty_pid else ok (trim_space out)

  pub server_pid : Command S Bytes
  unfolding known_pid
  server_pid =
      judge known_pid (run tmux server (codes "display-message" ∷ codes "-p" ∷ codes "#{pid}" ∷ []))

  unbound : Result TmuxError Bytes → Result TmuxError (Unit {0})
  unbound (err e) =
      if contains (tmux.to_lower (error_text tmux e)) (codes "unknown key") then ok tt else err e
  unbound (ok out) = ok tt

  pub unbind_key : Bytes → Command S (Unit {0})
  unfolding unbound
  unbind_key key = judge unbound (run tmux server (codes "unbind-key" ∷ codes "-n" ∷ key ∷ []))

  pub select_pane : Bytes → Command S (Unit {0})
  select_pane target =
      judge ignore_output (run tmux server (codes "select-pane" ∷ codes "-t" ∷ target ∷ []))

  pub pane_height : Bytes → Command S ℕ
  unfolding read_height
  pane_height target = do
    check (is_pane_id target) (invalid_pane_id target)
    judge read_height (
        run tmux server (
          codes "display-message" ∷ codes "-p" ∷ codes "-t" ∷ target ∷ codes "#{pane_height}" ∷ []))

  pub resize_pane_height : Bytes → ℤ → Command S (Unit {0})
  resize_pane_height target height = do
    check (is_pane_id target) (invalid_pane_id target)
    rows ← λ s. (s, Result.or_fail bad_new_height (in_range height))
    judge ignore_output
        (run tmux server (codes "resize-pane" ∷ codes "-t" ∷ target ∷ codes "-y" ∷ itoa rows ∷ []))

  pub set_option : Bytes → Bytes → Command S (Unit {0})
  set_option option value =
      judge ignore_output (run tmux server (codes "set-option" ∷ codes "-g" ∷ option ∷ value ∷ []))

  pub set_window_option : Bytes → Bytes → Command S (Unit {0})
  set_window_option option value =
      judge ignore_output (run tmux server (codes "set-option" ∷ codes "-wg" ∷ option ∷ value ∷ []))

  pub set_session_option : Bytes → Bytes → Bytes → Command S (Unit {0})
  set_session_option target option value =
      judge ignore_output
        (run tmux server (codes "set-option" ∷ codes "-t" ∷ target ∷ option ∷ value ∷ []))

  pub set_hook : Bytes → Bytes → Command S (Unit {0})
  set_hook name command =
      judge ignore_output (run tmux server (codes "set-hook" ∷ codes "-g" ∷ name ∷ command ∷ []))
