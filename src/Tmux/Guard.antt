-- ===== src/Tmux/Guard.antt =====
-- Commands that tmux runs only while it is the server that was met before: serverCommandIfGenerationArgs,
-- sessionCommandIfGenerationArgs, sessionWindowCommandIfGenerationArgs, and the functions that run them.
pub mod Honoured
use wrap.Base.{Bool, not, List, [], ◌∷◌, if◌then◌else◌, Bytes, codes, equal, trim_space}
use wrap.Base.Result.{Result, ok, err}
use wrap.Tmux.Format.{equals, window_condition, server_generation_option}
use wrap.Tmux.Ids.{is_session_id, is_window_id, is_generation}
use wrap.Tmux.Quote.{tmux_command}
use wrap.Tmux.Server.{
  Tmux, Server, TmuxError, Command, ◌>>=◌, ◌>>◌, give, check, judge, run, missing_target,
  invalid_session_id, invalid_generation, invalid_window_id, generation_changed,
  is_missing_target_error,
}

abbrev pub generation_mismatch : Bytes
generation_mismatch = codes "wrap-server-generation-mismatch"

abbrev pub identity_mismatch : Bytes
identity_mismatch = codes "wrap-session-identity-mismatch"

abbrev pub window_mismatch : Bytes
window_mismatch = codes "wrap-session-window-mismatch"

abbrev pub pin_mismatch : Bytes
pin_mismatch = codes "wrap-window-pin-mismatch"

-- What a guarded command runs if its condition does not hold.
unfoldable pub reject : Bytes → Bytes
reject message = tmux_command (codes "display-message" ∷ codes "-p" ∷ message ∷ [])

-- `if-shell -F -t id condition command reject`.
unfoldable pub if_session : Bytes → Bytes → Bytes → Bytes → List Bytes
unfolding reject
if_session id condition command message =
    codes "if-shell" ∷ codes "-F" ∷ codes "-t" ∷ id ∷ condition ∷ command ∷ reject message ∷ []

-- Args of package tmux, and those of `if-shell -F` without a target.
pub server_command_if_generation_args : Bytes → Bytes → Result TmuxError (List Bytes)
unfolding reject
server_command_if_generation_args generation command =
    if not (is_generation generation)
    then err (invalid_generation generation)
    else ok (
        codes "if-shell"
        ∷ codes "-F"
        ∷ equals server_generation_option generation
        ∷ command
        ∷ reject generation_mismatch
        ∷ [])

pub session_command_if_generation_args : Bytes → Bytes → Bytes → Result TmuxError (List Bytes)
unfolding server_command_if_generation_args
session_command_if_generation_args id generation command =
    if not (is_session_id id)
    then err (invalid_session_id id)
    else server_command_if_generation_args generation command

pub session_window_command_if_generation_args :
    Bytes → Bytes → Bytes → Bytes → Result TmuxError (List Bytes)
unfolding if_session
session_window_command_if_generation_args id generation window_id command =
    if not (is_session_id id)
    then err (invalid_session_id id)
    else if not (is_window_id window_id)
    then err (invalid_window_id window_id)
    else if not (is_generation generation)
    then err (invalid_generation generation)
    else ok (if_session id (window_condition generation window_id) command generation_mismatch)

-- The output of a command that says only whether its guard held.
unfoldable pub unless_rejected :
    Bytes → TmuxError → Result TmuxError Bytes → Result TmuxError (Unit {0})
unless_rejected message changed (err e) = err e
unless_rejected message changed (ok out) =
    if equal (trim_space out) message then err changed else ok tt

module _ {S : Type 0} (tmux : Tmux S) (server : Server) where
  pub run_session_command_if_generation : Bytes → Bytes → Bytes → Command S (Unit {0})
  unfolding session_command_if_generation_args unless_rejected
  run_session_command_if_generation id generation command = do
    args ← give (session_command_if_generation_args id generation command)
    judge (unless_rejected generation_mismatch generation_changed) (run tmux server args)

  -- The three checks of the operations on a session whose name is known.
  unfoldable pub check_identity : Bytes → Bytes → Command S (Unit {0})
  check_identity id generation = do
    check (is_session_id id) (invalid_session_id id)
    check (is_generation generation) (invalid_generation generation)

  -- Runs the command if the condition holds in the session.
  unfoldable pub run_if : Bytes → Bytes → Bytes → Command S Bytes
  unfolding if_session
  run_if id condition command = run tmux server (if_session id condition command identity_mismatch)

  judge_value : Result TmuxError Bytes → Result TmuxError Bytes
  judge_value (err e) = if is_missing_target_error tmux e then err (missing_target e) else err e
  judge_value (ok out) = if equal out generation_mismatch then err generation_changed else ok out

  pub session_value_if_generation : Bytes → Bytes → Bytes → Command S Bytes
  unfolding session_command_if_generation_args judge_value
  session_value_if_generation id generation command = do
    args ← give (session_command_if_generation_args id generation command)
    judge judge_value (run tmux server args)

-- IsGenerationMismatchOutput
pub is_generation_mismatch_output : Bytes → Bool
is_generation_mismatch_output out = equal (trim_space out) generation_mismatch

-- IsWindowPinMismatchOutput
pub is_window_pin_mismatch_output : Bytes → Bool
is_window_pin_mismatch_output out = equal (trim_space out) pin_mismatch
