-- ===== src/Tmux/Sessions.antt =====
-- The operations on one session: HasSession, the kills, the renames, and what sets its options. Those
-- that end in `...IfGeneration...` go through a guard that tmux evaluates.
pub mod Exact
use wrap.Base.{
  Bool, true, false, not, ◌&&◌, ◌||◌, [], ◌∷◌, if◌then◌else◌, is_empty, Bytes, codes, equal,
  has_prefix,
}
use wrap.Base.Result.{Result, ok, err}
use wrap.Tmux.Format.{
  equals, name_condition, option_condition, kind_condition, unmarked_condition,
  server_generation_option, session_kind_option,
}
use wrap.Tmux.Guard.{
  generation_mismatch, identity_mismatch, if_session, unless_rejected,
  server_command_if_generation_args, run_session_command_if_generation, check_identity, run_if,
}
use wrap.Tmux.Quote.{tmux_command}
use wrap.Tmux.Server.{
  Tmux, Server, TmuxError, Command, ◌>>=◌, ◌>>◌, give, check, judge, ignore_output, run,
  invalid_option, invalid_kind, empty_session_name, empty_value, empty_option, empty_key_table,
  empty_tty, generation_changed, identity_changed, is_missing_session_error,
}

abbrev pub kind_entry : Bytes
kind_entry = codes "entry"

abbrev pub kind_scratch : Bytes
kind_scratch = codes "scratch"

abbrev pub kind_diff : Bytes
kind_diff = codes "diff"

pub is_session_kind : Bytes → Bool
is_session_kind kind = equal kind kind_entry || equal kind kind_scratch || equal kind kind_diff

pub kill_command : Bytes → Bytes
kill_command id = tmux_command (codes "kill-session" ∷ codes "-t" ∷ id ∷ [])

pub rename_command : Bytes → Bytes → Bytes
rename_command id name = tmux_command (codes "rename-session" ∷ codes "-t" ∷ id ∷ name ∷ [])

pub set_command : Bytes → Bytes → Bytes → Bytes
set_command id option value =
    tmux_command (codes "set-option" ∷ codes "-t" ∷ id ∷ option ∷ value ∷ [])

module _ {S : Type 0} (tmux : Tmux S) (server : Server) where
  -- A missing session is no error where it was to be killed.
  forgive_missing : Result TmuxError (Unit {0}) → Result TmuxError (Unit {0})
  forgive_missing (err e) = if is_missing_session_error tmux e then ok tt else err e
  forgive_missing (ok done) = ok done

  said_missing : Result TmuxError Bytes → Result TmuxError Bool
  said_missing (err e) = if is_missing_session_error tmux e then ok false else err e
  said_missing (ok out) = ok true

  -- Of a kill under an identity's guard.
  pub killed : Result TmuxError Bytes → Result TmuxError (Unit {0})
  killed (err e) = if is_missing_session_error tmux e then ok tt else err e
  killed (ok out) = unless_rejected identity_mismatch identity_changed (ok out)

  pub has_session : Bytes → Command S Bool
  unfolding said_missing
  has_session name =
      judge said_missing (run tmux server (codes "has-session" ∷ codes "-t" ∷ (b'=' ∷ name) ∷ []))

  pub kill_session : Bytes → Command S (Unit {0})
  kill_session name =
      judge ignore_output (run tmux server (codes "kill-session" ∷ codes "-t" ∷ (b'=' ∷ name) ∷ []))

  pub kill_session_id : Bytes → Command S (Unit {0})
  unfolding forgive_missing
  kill_session_id id =
      judge (λ r. forgive_missing (ignore_output r))
        (run tmux server (codes "kill-session" ∷ codes "-t" ∷ id ∷ []))

  pub rename_session : Bytes → Bytes → Command S (Unit {0})
  rename_session old new_name =
      judge ignore_output
        (run tmux server (codes "rename-session" ∷ codes "-t" ∷ (b'=' ∷ old) ∷ new_name ∷ []))

  pub rename_session_id : Bytes → Bytes → Command S (Unit {0})
  rename_session_id id new_name =
      judge ignore_output
        (run tmux server (codes "rename-session" ∷ codes "-t" ∷ id ∷ new_name ∷ []))

  pub kill_session_id_if_generation : Bytes → Bytes → Command S (Unit {0})
  unfolding forgive_missing kill_command
  kill_session_id_if_generation id generation =
      judge forgive_missing
        (run_session_command_if_generation tmux server id generation (kill_command id))

  pub kill_if_name : Bytes → Bytes → Bytes → Command S (Unit {0})
  unfolding killed
  kill_if_name id generation name = do
    check_identity tmux server id generation
    check (not (is_empty name)) empty_session_name
    judge killed (run_if tmux server id (name_condition generation name) (kill_command id))

  pub kill_if_option : Bytes → Bytes → Bytes → Bytes → Bytes → Command S (Unit {0})
  unfolding killed
  kill_if_option id generation name option value = do
    check_identity tmux server id generation
    check (not (is_empty name)) empty_session_name
    check (not (is_empty option) && has_prefix option (codes "@")) (invalid_option option)
    check (not (is_empty value)) empty_value
    judge killed
        (run_if tmux server id (option_condition generation name option value) (kill_command id))

  pub kill_if_kind : Bytes → Bytes → Bytes → Bytes → Command S (Unit {0})
  unfolding killed is_session_kind
  kill_if_kind id generation name kind = do
    check_identity tmux server id generation
    check (not (is_empty name)) empty_session_name
    check (is_session_kind kind) (invalid_kind kind)
    judge killed (run_if tmux server id (kind_condition generation name kind) (kill_command id))

  pub rename_if_kind : Bytes → Bytes → Bytes → Bytes → Bytes → Command S (Unit {0})
  unfolding is_session_kind
  rename_if_kind id generation old_name kind new_name = do
    check_identity tmux server id generation
    check (not (is_empty old_name || is_empty new_name)) empty_session_name
    check (is_session_kind kind) (invalid_kind kind)
    judge (unless_rejected identity_mismatch identity_changed) (
        run_if tmux server id (kind_condition generation old_name kind)
          (rename_command id new_name))

  pub mark_kind_if_unmarked : Bytes → Bytes → Bytes → Bytes → Command S (Unit {0})
  unfolding is_session_kind
  mark_kind_if_unmarked id generation name kind = do
    check_identity tmux server id generation
    check (not (is_empty name)) empty_session_name
    check (is_session_kind kind) (invalid_kind kind)
    judge (unless_rejected identity_mismatch identity_changed) (
        run_if tmux server id (unmarked_condition generation name)
          (set_command id session_kind_option kind))

  pub change_kind_if_kind : Bytes → Bytes → Bytes → Bytes → Bytes → Command S (Unit {0})
  unfolding is_session_kind
  change_kind_if_kind id generation name expected_kind new_kind = do
    check_identity tmux server id generation
    check (not (is_empty name)) empty_session_name
    check (is_empty expected_kind || is_session_kind expected_kind) (invalid_kind expected_kind)
    check (is_session_kind new_kind) (invalid_kind new_kind)
    judge (unless_rejected identity_mismatch identity_changed) (
        run_if tmux server id (kind_condition generation name expected_kind)
          (set_command id session_kind_option new_kind))

  pub set_session_option_if_generation : Bytes → Bytes → Bytes → Bytes → Command S (Unit {0})
  unfolding set_command
  set_session_option_if_generation id generation option value = do
    check (not (is_empty option)) empty_option
    run_session_command_if_generation tmux server id generation (set_command id option value)

  pub bind_pane_mouse_if_generation : Bytes → Bytes → Bytes → Command S (Unit {0})
  bind_pane_mouse_if_generation id generation key_table = do
    check_identity tmux server id generation
    check (not (is_empty key_table)) empty_key_table
    judge (unless_rejected generation_mismatch generation_changed) (
        run tmux server (
          if_session id (equals server_generation_option generation)
            (tmux_command (
              codes "bind-key"
              ∷ codes "-T"
              ∷ key_table
              ∷ codes "MouseDown1Pane"
              ∷ codes "select-pane -t = ; send-keys -M"
              ∷ []))
            generation_mismatch))

  pub unbind_pane_mouse_if_generation : Bytes → Bytes → Command S (Unit {0})
  unbind_pane_mouse_if_generation generation key_table = do
    check (not (is_empty key_table)) empty_key_table
    args ← give (
        server_command_if_generation_args generation (
          tmux_command (
            codes "unbind-key"
            ∷ codes "-q"
            ∷ codes "-T"
            ∷ key_table
            ∷ codes "MouseDown1Pane"
            ∷ [])))
    judge (unless_rejected generation_mismatch generation_changed) (run tmux server args)

  pub rename_session_id_if_generation : Bytes → Bytes → Bytes → Command S (Unit {0})
  rename_session_id_if_generation id generation new_name = do
    check (not (is_empty new_name)) empty_session_name
    run_session_command_if_generation tmux server id generation (rename_command id new_name)

  pub switch_client_if_generation : Bytes → Bytes → Bytes → Command S (Unit {0})
  switch_client_if_generation client_tty id generation = do
    check (not (is_empty client_tty)) empty_tty
    run_session_command_if_generation tmux server id generation
        (tmux_command (codes "switch-client" ∷ codes "-c" ∷ client_tty ∷ codes "-t" ∷ id ∷ []))
