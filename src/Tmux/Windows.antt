-- ===== src/Tmux/Windows.antt =====
-- The argument lists that are given to a fresh client of tmux: attaching to a session or a window, the
-- helper session and its window, and the capture of a window's size.
use wrap.Base.{Bool, true, false, not, List, [], ◌∷◌, ◌++◌, if◌then◌else◌, is_empty, Bytes, codes}
use wrap.Base.Result.{Result, ok, err}
use wrap.Tmux.Format.{window_condition}
use wrap.Tmux.Guard.{
  window_mismatch, if_session, session_command_if_generation_args,
  session_window_command_if_generation_args, run_session_command_if_generation,
}
use wrap.Tmux.Ids.{is_session_id, is_window_id, is_generation}
use wrap.Tmux.Quote.{tmux_command}
use wrap.Tmux.Server.{
  Tmux, Server, TmuxError, Command, ◌>>◌, check, invalid_session_id, invalid_generation,
  invalid_window_id, empty_grouped_name,
}

-- Commands that tmux runs one after another.
abbrev pub in_turn : Bytes → Bytes → Bytes
in_turn first second = first ++ (codes " ; " ++ second)

attach_command : Bool → Bytes → Bytes
attach_command ignore_size id = tmux_command (
    codes "attach-session"
    ∷ (if ignore_size
        then codes "-f" ∷ codes "ignore-size" ∷ codes "-t" ∷ id ∷ []
        else codes "-t" ∷ id ∷ []))

attach_args : Bytes → Bytes → Bool → Result TmuxError (List Bytes)
unfolding attach_command
attach_args id generation ignore_size =
    session_command_if_generation_args id generation (attach_command ignore_size id)

pub attach_session_args : Bytes → Bytes → Result TmuxError (List Bytes)
unfolding attach_args
attach_session_args id generation = attach_args id generation false

pub attach_session_ignoring_size_args : Bytes → Bytes → Result TmuxError (List Bytes)
unfolding attach_args
attach_session_ignoring_size_args id generation = attach_args id generation true

pub attach_window_ignoring_size_args : Bytes → Bytes → Bytes → Result TmuxError (List Bytes)
unfolding attach_command
attach_window_ignoring_size_args id generation window_id =
    session_window_command_if_generation_args id generation window_id (attach_command true id)

-- The helper session begins with a window that is replaced later.
create_command : Bytes → Bytes
create_command name =
    in_turn
      (tmux_command (
        codes "new-session"
        ∷ codes "-d"
        ∷ codes "-s"
        ∷ name
        ∷ codes "-n"
        ∷ codes "__wrap_placeholder"
        ∷ codes "-P"
        ∷ codes "-F"
        ∷ codes "#{session_id}\t#{window_id}"
        ∷ codes "exec sleep 300"
        ∷ []))
      (tmux_command
        (codes "set-option" ∷ codes "-t" ∷ name ∷ codes "destroy-unattached" ∷ codes "off" ∷ []))

pub new_standalone_session_args : Bytes → Bytes → Bytes → Bytes → Result TmuxError (List Bytes)
unfolding create_command
new_standalone_session_args id generation window_id name =
    if not (is_session_id id)
    then err (invalid_session_id id)
    else if not (is_generation generation)
    then err (invalid_generation generation)
    else if not (is_window_id window_id)
    then err (invalid_window_id window_id)
    else if is_empty name
    then err empty_grouped_name
    else ok (
        if_session id (window_condition generation window_id) (create_command name) window_mismatch)

-- The target `session:window`.
window_of : Bytes → Bytes → Bytes
window_of id window_id = id ++ (b':' ∷ window_id)

pub link_window_args : Bytes → Bytes → Bytes → Bytes → Bytes → Result TmuxError (List Bytes)
unfolding window_of
link_window_args source_id generation window_id target_id target_window_id =
    if not (is_session_id target_id)
    then err (invalid_session_id target_id)
    else if not (is_window_id target_window_id)
    then err (invalid_window_id target_window_id)
    else session_window_command_if_generation_args source_id generation window_id (
        tmux_command (
          codes "link-window"
          ∷ codes "-d"
          ∷ codes "-k"
          ∷ codes "-s"
          ∷ window_of source_id window_id
          ∷ codes "-t"
          ∷ window_of target_id target_window_id
          ∷ []))

pub capture_window_size_args : Bytes → Bytes → Result TmuxError (List Bytes)
capture_window_size_args id generation = session_command_if_generation_args id generation (
    in_turn
      (in_turn
        (tmux_command (
          codes "display-message"
          ∷ codes "-p"
          ∷ codes "-t"
          ∷ id
          ∷ codes "#{window_id}\t#{window_width}\t#{window_height}"
          ∷ []))
        (tmux_command (
          codes "show-options"
          ∷ codes "-w"
          ∷ codes "-A"
          ∷ codes "-t"
          ∷ id
          ∷ codes "window-size"
          ∷ [])))
      (tmux_command
        (codes "show-options" ∷ codes "-v" ∷ codes "-A" ∷ codes "-t" ∷ id ∷ codes "status" ∷ [])))

module _ {S : Type 0} (tmux : Tmux S) (server : Server) where
  pub select_window_id_if_generation : Bytes → Bytes → Bytes → Command S (Unit {0})
  unfolding window_of
  select_window_id_if_generation id generation window_id = do
    check (is_window_id window_id) (invalid_window_id window_id)
    run_session_command_if_generation tmux server id generation
        (tmux_command (codes "select-window" ∷ codes "-t" ∷ window_of id window_id ∷ []))
