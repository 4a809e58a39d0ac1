-- ===== src/Tmux/Pin.antt =====
-- PinWindowSizeIfGenerationArgs and RestoreWindowSizeIfGenerationArgs: a window's size is held while
-- it is the captured one, and given back only while it is still held.
pub mod Guarded
use wrap.Base.{
  ℕ, Bool, false, not, ◌&&◌, ◌||◌, Option, none, some, List, [], ◌∷◌, ◌++◌, map, ltb, ◌==◌,
  if◌then◌else◌, is_empty, Bytes, codes, equal, has_prefix,
}
use wrap.Base.Decimal.{itoa, parse_uint16}
use wrap.Base.Result.{Result, ok, err, ◌>>=◌, ◌>>◌, require}
use wrap.Tmux.Format.{equals, both, server_generation_option}
use wrap.Tmux.Guard.{pin_mismatch, if_session, server_command_if_generation_args}
use wrap.Tmux.Ids.{is_session_id, is_window_id, is_generation}
use wrap.Tmux.Quote.{tmux_command, escape_format_literal}
use wrap.Tmux.Server.{
  TmuxError, invalid_session_id, invalid_generation, invalid_window_id, bad_geometry, bad_mode,
  bad_status, bad_owner, not_owned,
}
use wrap.Tmux.Windows.{in_turn}

abbrev pub pin_owner_option : Bytes
pin_owner_option = codes "@wrap_mirror_pin_owner"

pub is_size_mode : Bytes → Bool
is_size_mode mode =
    equal mode (codes "largest")
    || equal mode (codes "smallest")
    || equal mode (codes "manual")
    || equal mode (codes "latest")

few_rows : Option ℕ → Bool
few_rows none = false
few_rows (some rows) = not (ltb 5 rows)

pub is_status : Bytes → Bool
unfolding few_rows
is_status status =
    equal status (codes "on") || equal status (codes "off") || few_rows (parse_uint16 status)

-- An inherited size is held under an owner's mark; a local one is not marked.
pub check_owner : Bool → Bytes → ℕ → Result TmuxError (Unit {0})
check_owner inherited owner hook_index =
    if inherited
    then require (is_generation owner && not (hook_index == 0)) bad_owner
    else require (is_empty owner && hook_index == 0) not_owned

conjoin : Bytes → List Bytes → Bytes
conjoin condition [] = condition
conjoin condition (next ∷ rest) = conjoin (both condition next) rest

-- What was captured of a window.
pub record Captured : Type 0 where
  pub window_id : Bytes
  pub columns : ℕ
  pub rows : ℕ
  pub mode : Bytes
  pub status : Bytes

pub pin_condition : Bytes → Captured → Bytes
unfolding conjoin
pin_condition generation c = conjoin (equals server_generation_option generation) (
    equals (codes "window_id") c.window_id
    ∷ equals (codes "window_width") (itoa c.columns)
    ∷ equals (codes "window_height") (itoa c.rows)
    ∷ equals (codes "window-size") (escape_format_literal c.mode)
    ∷ equals (codes "status") (escape_format_literal c.status)
    ∷ [])

no_operation : Bytes
no_operation = tmux_command (codes "display-message" ∷ codes "-p" ∷ [] ∷ [])

window_pin_hook_names : ℕ → List Bytes
window_pin_hook_names index =
    (codes "after-set-option[" ++ (itoa index ++ codes "]"))
    ∷ (codes "after-resize-window[" ++ (itoa index ++ codes "]"))
    ∷ []

-- tmux refuses to set what is set already.
claim_command : Bytes → Bytes
claim_command window_id = tmux_command (
    codes "set-option"
    ∷ codes "-w"
    ∷ codes "-o"
    ∷ codes "-t"
    ∷ window_id
    ∷ codes "window-size"
    ∷ codes "manual"
    ∷ [])

mark_command : Bytes → Bytes → Bytes
mark_command window_id owner =
    tmux_command
      (codes "set-option" ∷ codes "-w" ∷ codes "-t" ∷ window_id ∷ pin_owner_option ∷ owner ∷ [])

resize_command : Captured → Bytes
resize_command c = tmux_command (
    codes "resize-window"
    ∷ codes "-t"
    ∷ c.window_id
    ∷ codes "-x"
    ∷ itoa c.columns
    ∷ codes "-y"
    ∷ itoa c.rows
    ∷ [])

-- Takes the owner's mark away.
clear_command : Bytes → Bytes
clear_command window_id =
    tmux_command (
      codes "set-option" ∷ codes "-w" ∷ codes "-u" ∷ codes "-t" ∷ window_id ∷ pin_owner_option ∷ [])

unset_command : Bytes → Bytes
unset_command window_id = tmux_command (
    codes "set-option"
    ∷ codes "-w"
    ∷ codes "-u"
    ∷ codes "-t"
    ∷ window_id
    ∷ codes "window-size"
    ∷ [])

-- A hook on options asks whether it is the window's size that was set.
hook_command : Bytes → Bytes → Bytes
unfolding clear_command no_operation
hook_command window_id hook_name =
    if has_prefix hook_name (codes "after-set-option[")
    then tmux_command (
        codes "if-shell"
        ∷ codes "-F"
        ∷ codes "#{==:#{hook_argument_0},window-size}"
        ∷ clear_command window_id
        ∷ no_operation
        ∷ [])
    else clear_command window_id

watch_command : Bytes → Bytes → Bytes
unfolding hook_command
watch_command window_id hook_name = tmux_command (
    codes "set-hook"
    ∷ codes "-w"
    ∷ codes "-t"
    ∷ window_id
    ∷ hook_name
    ∷ hook_command window_id hook_name
    ∷ [])

unwatch_command : Bytes → Bytes → Bytes
unwatch_command window_id hook_name =
    tmux_command
      (codes "set-hook" ∷ codes "-w" ∷ codes "-u" ∷ codes "-t" ∷ window_id ∷ hook_name ∷ [])

-- strings.Join at " ; ".
all_in_turn : List Bytes → Bytes
all_in_turn [] = []
all_in_turn (command ∷ []) = command
all_in_turn (command ∷ next ∷ commands) = in_turn command (all_in_turn (next ∷ commands))

pub pin_command : Captured → Bytes → ℕ → Bytes
unfolding claim_command mark_command resize_command all_in_turn window_pin_hook_names watch_command
pin_command c owner hook_index = in_turn (claim_command c.window_id) (
    in_turn (mark_command c.window_id owner) (
      in_turn (resize_command c)
        (all_in_turn (map (watch_command c.window_id) (window_pin_hook_names hook_index)))))

unfoldable pub pin_window_size_args :
    Bytes → Bytes → Captured → Bool → Bytes → ℕ → Result TmuxError (List Bytes)
unfolding is_size_mode is_status check_owner pin_condition pin_command no_operation
pin_window_size_args id generation c inherited owner hook_index = do
  require (is_session_id id) (invalid_session_id id)
  require (is_window_id c.window_id) (invalid_window_id c.window_id)
  require (is_generation generation) (invalid_generation generation)
  require (not (c.columns == 0 || c.rows == 0)) bad_geometry
  require (is_size_mode c.mode) bad_mode
  require (is_status c.status) (bad_status c.status)
  check_owner inherited owner hook_index
  ok (
      if_session id (pin_condition generation c)
        (if inherited then pin_command c owner hook_index else no_operation) pin_mismatch)

-- `if-shell -F -t window condition command` with nothing to do otherwise.
if_window : Bytes → Bytes → Bytes → Bytes
unfolding no_operation
if_window window_id condition command = tmux_command (
    codes "if-shell"
    ∷ codes "-F"
    ∷ codes "-t"
    ∷ window_id
    ∷ condition
    ∷ command
    ∷ no_operation
    ∷ [])

-- The window is still held by this owner.
pub owned_condition : Bytes → Bytes
owned_condition owner =
    both (equals (codes "window-size") (codes "manual")) (equals pin_owner_option owner)

pub restore_command : Bytes → Bytes → Bool → Bytes → ℕ → Bytes
unfolding all_in_turn window_pin_hook_names unwatch_command if_window owned_condition unset_command
    clear_command
restore_command window_id mode inherited owner hook_index =
    if inherited
    then in_turn (all_in_turn (map (unwatch_command window_id) (window_pin_hook_names hook_index)))
        (in_turn (if_window window_id (owned_condition owner) (unset_command window_id))
          (if_window window_id (equals pin_owner_option owner) (clear_command window_id)))
    else tmux_command
        (codes "set-option" ∷ codes "-w" ∷ codes "-t" ∷ window_id ∷ codes "window-size" ∷ mode ∷ [])

pub restore_window_size_args :
    Bytes → Bytes → Bytes → Bool → Bytes → ℕ → Result TmuxError (List Bytes)
unfolding is_size_mode check_owner restore_command
restore_window_size_args generation window_id mode inherited owner hook_index = do
  require (is_window_id window_id) (invalid_window_id window_id)
  require (is_size_mode mode) bad_mode
  check_owner inherited owner hook_index
  server_command_if_generation_args generation
      (restore_command window_id mode inherited owner hook_index)
