-- ===== src/Tmux/Creation.antt =====
-- The generation of a server, and new sessions: EnsureServerGeneration, NewSession, NewSessionID,
-- NewSessionIdentity.
use wrap.Base.{not, List, [], ◌∷◌, ◌++◌, if◌then◌else◌, is_empty, Bytes, codes, equal, trim_space}
use wrap.Base.Result.{Result, ok, err}
use wrap.Tmux.Format.{equals, server_generation_option}
use wrap.Tmux.Guard.{generation_mismatch, server_command_if_generation_args}
use wrap.Tmux.Ids.{is_generation, is_session_id}
use wrap.Tmux.Quote.{tmux_command}
use wrap.Tmux.Server.{
  Tmux, Server, TmuxError, Command, ◌>>=◌, ◌>>◌, give, check, judge, ignore_output, run,
  invalid_candidate, invalid_generation, generation_changed, empty_id, invalid_identity,
}

optional_command : Bytes → List Bytes
optional_command command = if not (is_empty command) then command ∷ [] else []

pub new_session_args : Bytes → Bytes → Bytes → List Bytes
unfolding optional_command
new_session_args name dir command =
    (codes "new-session" ∷ codes "-d" ∷ codes "-s" ∷ name ∷ codes "-c" ∷ dir ∷ [])
    ++ optional_command command

pub new_session_id_args : Bytes → Bytes → Bytes → List Bytes
unfolding optional_command
new_session_id_args name dir command =
    (codes "new-session"
      ∷ codes "-d"
      ∷ codes "-P"
      ∷ codes "-F"
      ∷ codes "#{session_id}"
      ∷ codes "-s"
      ∷ name
      ∷ codes "-c"
      ∷ dir
      ∷ [])
    ++ optional_command command

known_id : Result TmuxError Bytes → Result TmuxError Bytes
known_id (err e) = err e
known_id (ok id) = if is_empty id then err empty_id else ok id

created_identity : Bytes → Result TmuxError Bytes → Result TmuxError (Bytes × Bytes)
created_identity generation (err e) = err e
created_identity generation (ok out) =
    let id = trim_space out in
    if equal id generation_mismatch
    then err generation_changed
    else if not (is_session_id id)
    then err (invalid_identity id)
    else ok (id, generation)

valid_generation : Result TmuxError Bytes → Result TmuxError Bytes
valid_generation (err e) = err e
valid_generation (ok out) =
    let generation = trim_space out in
    if not (is_generation generation) then err (invalid_generation generation) else ok generation

module _ {S : Type 0} (tmux : Tmux S) (server : Server) where
  -- The marker is set only where none is, in one turn of tmux, and then read back.
  pub ensure_server_generation : Bytes → Command S Bytes
  unfolding valid_generation
  ensure_server_generation candidate = do
    check (is_generation candidate) (invalid_candidate candidate)
    judge ignore_output (
        run tmux server (
          codes "if-shell"
          ∷ codes "-F"
          ∷ equals server_generation_option []
          ∷ (codes "set-option -g " ++ (server_generation_option ++ (b' ' ∷ candidate)))
          ∷ []
          ∷ []))
    judge valid_generation
        (run tmux server (codes "show-options" ∷ codes "-gvq" ∷ server_generation_option ∷ []))

  pub new_session : Bytes → Bytes → Bytes → Command S (Unit {0})
  new_session name dir command =
      judge ignore_output (run tmux server (new_session_args name dir command))

  pub new_session_id : Bytes → Bytes → Bytes → Command S Bytes
  unfolding known_id
  new_session_id name dir command =
      judge known_id (run tmux server (new_session_id_args name dir command))

  pub new_session_identity : Bytes → Bytes → Bytes → Bytes → Command S (Bytes × Bytes)
  unfolding created_identity
  new_session_identity name dir command generation = do
    args ← give (
        server_command_if_generation_args generation
          (tmux_command (new_session_id_args name dir command)))
    judge (created_identity generation) (run tmux server args)
