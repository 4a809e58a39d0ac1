-- ===== src/Tmux/Server.antt =====
-- Server.Run and Server.RunContext, and how the errors of a command are told apart. tmux is a
-- parameter: a state, and what a command line does to it. So are strings.ToLower and the quoting of
-- `%q`, which rest on Unicode's tables.
use wrap.Base.{
  Bool, true, false, Option, none, some, not, ◌&&◌, ◌||◌, List, [], ◌∷◌, ◌++◌, if◌then◌else◌,
  is_empty, Bytes, codes, contains,
}
use wrap.Base.Result.{Result, ok, err}
use wrap.Tmux.Ids.{Endpoint, EndpointError, no_socket, two_selectors, relative_path, endpoint_args}

-- `run` gives the state behind the command, and its output or the text of its error.
pub record Tmux (S : Type 0) : Type 0 where
  pub run : List Bytes → S → S × Result Bytes Bytes
  pub to_lower : Bytes → Bytes
  pub quote : Bytes → Bytes

pub record Server : Type 0 where
  pub socket : Bytes
  pub socket_path : Bytes
  pub config_file : Bytes

pub data TmuxError : Type 0 where
  bad_endpoint : EndpointError → TmuxError
  -- tmux failed with this text.
  failed : Bytes → TmuxError
  no_server : TmuxError → TmuxError
  missing_target : TmuxError → TmuxError
  invalid_session_id invalid_generation invalid_window_id invalid_kind : Bytes → TmuxError
  invalid_option invalid_pane_id invalid_identity invalid_candidate : Bytes → TmuxError
  empty_session_name empty_value empty_option empty_key_table empty_tty empty_id : TmuxError
  generation_changed identity_changed empty_pid empty_grouped_name : TmuxError
  bad_geometry bad_mode bad_owner not_owned : TmuxError
  bad_status bad_entry_name bad_entry_path bad_activity bad_created : Bytes → TmuxError
  bad_client bad_height : Bytes → TmuxError
  bad_new_height not_found too_old : TmuxError

pub endpoint_text : EndpointError → Bytes
endpoint_text no_socket = codes "tmux socket is required"
endpoint_text two_selectors = codes "exactly one tmux socket selector is required"
endpoint_text relative_path = codes "tmux socket path must be absolute"

-- A command, as a function on the state of tmux.
abbrev pub Command : Type 0 → Type 0 → Type 0
Command S A = S → S × Result TmuxError A

module _ {S : Type 0} where
  abbrev pub after :
      {A B : Type 0} → S × Result TmuxError A → (A → Command S B) → S × Result TmuxError B
  after (s, err e) next = (s, err e)
  after (s, ok a) next = next a s

  infixl 5 ◌>>=◌ ◌>>◌
  abbrev pub ◌>>=◌ : {A B : Type 0} → Command S A → (A → Command S B) → Command S B
  ◌>>=◌ m next s = after (m s) next

  abbrev pub ◌>>◌ : {B : Type 0} → Command S (Unit {0}) → Command S B → Command S B
  m >> next = m >>= λ done. next

  abbrev pub give : {A : Type 0} → Result TmuxError A → Command S A
  give r s = (s, r)

  abbrev pub check : Bool → TmuxError → Command S (Unit {0})
  check b e s = (s, if b then ok tt else err e)

  -- What is made of the output or the error of a command.
  abbrev pub judged :
      {A B : Type 0}
      → (Result TmuxError A → Result TmuxError B)
      → S × Result TmuxError A
      → S × Result TmuxError B
  judged f (s, r) = (s, f r)

  abbrev pub judge :
      {A B : Type 0} → (Result TmuxError A → Result TmuxError B) → Command S A → Command S B
  judge f m s = judged f (m s)

abbrev pub ignore_output : Result TmuxError Bytes → Result TmuxError (Unit {0})
ignore_output (err e) = err e
ignore_output (ok out) = ok tt

abbrev pub endpoint_of : Server → Endpoint
endpoint_of server = record { socket_name = server.socket; socket_path = server.socket_path }

abbrev as_failure : Result Bytes Bytes → Result TmuxError Bytes
as_failure (err text) = err (failed text)
as_failure (ok out) = ok out

-- A command of tmux as it ends for the code.
abbrev pub failing : {S : Type 0} → S × Result Bytes Bytes → S × Result TmuxError Bytes
failing (s, r) = (s, as_failure r)

abbrev pub with_config : Bytes → List Bytes → List Bytes
with_config file prefix = if not (is_empty file) then codes "-f" ∷ file ∷ prefix else prefix

module _ {S : Type 0} (tmux : Tmux S) where
  run_prefixed : Server → Result EndpointError (List Bytes) → List Bytes → Command S Bytes
  run_prefixed server (err e) args s = (s, err (bad_endpoint e))
  run_prefixed server (ok prefix) args s =
      failing (tmux.run (with_config server.config_file prefix ++ args) s)

  -- Server.Run
  unfoldable pub run : Server → List Bytes → Command S Bytes
  unfolding run_prefixed
  run server args = run_prefixed server (endpoint_args (endpoint_of server)) args

  -- The text of an error that the code searches: one of Run, or of the checks in front of it. The
  -- others are only given back.
  pub error_text : TmuxError → Bytes
  error_text (bad_endpoint e) = endpoint_text e
  error_text (failed text) = text
  error_text (invalid_session_id id) = codes "invalid tmux session id " ++ tmux.quote id
  error_text (invalid_generation g) = codes "invalid tmux server generation " ++ tmux.quote g
  error_text generation_changed = codes "tmux server generation changed"
  error_text (no_server e) = codes "tmux server not running: " ++ error_text e
  error_text (missing_target e) = codes "tmux target not found: " ++ error_text e
  error_text _ = []

  pub is_no_server_error : TmuxError → Bool
  unfolding error_text
  is_no_server_error e =
      let text = tmux.to_lower (error_text e) in
      contains text (codes "no server running")
      || contains text (codes "error connecting to")
        && contains text (codes "no such file or directory")

  pub is_missing_session_error : TmuxError → Bool
  unfolding is_no_server_error error_text
  is_missing_session_error e =
      let text = tmux.to_lower (error_text e) in
      contains text (codes "can't find session")
      || contains text (codes "no such session")
      || contains text (codes "no server running")
      || contains text (codes "error connecting to")
        && contains text (codes "no such file or directory")

  pub is_missing_target_error : TmuxError → Bool
  unfolding is_missing_session_error
  is_missing_target_error e =
      let text = tmux.to_lower (error_text e) in
      is_missing_session_error e
      || contains text (codes "can't find window")
      || contains text (codes "no such window")

  -- IsMissingTargetError; `none` is nil.
  pub public_is_missing_target_error : Option TmuxError → Bool
  unfolding is_missing_target_error
  public_is_missing_target_error none = false
  public_is_missing_target_error (some (missing_target e)) = true
  public_is_missing_target_error (some e) = is_missing_target_error e
