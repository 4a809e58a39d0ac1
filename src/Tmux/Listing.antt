-- ===== src/Tmux/Listing.antt =====
-- What is read of tmux's lists: Sessions and the markers of an entry, Panes and ClientTTYs.
pub mod Printed
pub mod RoundTrip
use wrap.Base.{
  ℕ, zero, suc, Bool, not, ◌||◌, Option, none, some, List, [], ◌∷◌, ◌++◌, if◌then◌else◌, length,
  take, drop, index_byte, is_empty, all, Bytes, codes, equal, ℤ, pos, atoi, has_prefix, trim_space,
  split,
}
use wrap.Base.Base64.{Base64}
use wrap.Base.Result.{Result, ok, err, ◌>>=◌, or_fail}
use wrap.Base.Utf8.{decode_all, is_well_formed}
use wrap.Tmux.Format.{
  server_generation_option, session_kind_option, entry_name_option, entry_path_option,
}
use wrap.Tmux.Server.{
  Tmux, Server, TmuxError, Command, judge, run, no_server, missing_target, bad_entry_name,
  bad_entry_path, bad_activity, bad_created, is_no_server_error, is_missing_target_error,
}

abbrev pub bell_option : Bytes
bell_option = codes "@wrap_bell"

abbrev pub entry_name_prefix : Bytes
entry_name_prefix = codes "wrap.entry.v1."

pub encode_entry_name : Base64 → Bytes → Bytes
encode_entry_name base64 name = entry_name_prefix ++ base64.encode name

-- utf8.Valid
pub is_valid_text : Bytes → Bool
unfolding all decode_all
is_valid_text s = all is_well_formed (decode_all s)

check_name : Bytes → Bytes → Result TmuxError Bytes
unfolding is_valid_text
check_name marker name =
    if is_empty name || not (is_valid_text name) then err (bad_entry_name marker) else ok name

-- A marker without the prefix is the name itself.
pub decode_entry_name : Base64 → Bytes → Result TmuxError Bytes
unfolding check_name has_prefix
decode_entry_name base64 marker =
    if not (has_prefix marker entry_name_prefix)
    then ok marker
    else or_fail (bad_entry_name marker) (base64.decode (drop (length entry_name_prefix) marker))
      >>= check_name marker

pub encode_entry_path : Base64 → Bytes → Bytes
encode_entry_path base64 path = base64.encode path

pub decode_entry_path : Base64 → Bytes → Result TmuxError Bytes
decode_entry_path base64 token = or_fail (bad_entry_path token) (base64.decode token)

pub record SessionInfo : Type 0 where
  pub id : Bytes
  pub generation : Bytes
  pub name : Bytes
  pub activity : ℤ
  pub attached : Bool
  pub bell : Bool
  pub entry_name : Bytes
  pub entry_path_token : Bytes
  pub kind : Bytes
  pub created : ℤ

-- The field behind the fifth, if the line has it.
pub field_at : ℕ → List Bytes → Option Bytes
field_at i [] = none
field_at zero (f ∷ fs) = some f
field_at (suc i) (f ∷ fs) = field_at i fs

abbrev or_empty : Option Bytes → Bytes
or_empty none = []
or_empty (some f) = f

marker_name : Base64 → Option Bytes → Result TmuxError Bytes
unfolding decode_entry_name
marker_name base64 none = ok []
marker_name base64 (some marker) = decode_entry_name base64 marker

creation_time : Bytes → Option Bytes → Result TmuxError ℤ
creation_time name none = ok (pos 0)
creation_time name (some text) = or_fail (bad_created name) (atoi text)

-- A line with fewer than five fields is skipped.
session_of : Base64 → List Bytes → Result TmuxError (Option SessionInfo)
unfolding marker_name creation_time field_at
session_of base64 (name ∷ activity ∷ attached ∷ window_bell ∷ bell ∷ more) = do
  seen ← or_fail (bad_activity name) (atoi activity)
  entry_name ← marker_name base64 (field_at 0 more)
  created ← creation_time name (field_at 4 more)
  ok (
      some (record {
        id = or_empty (field_at 2 more);
        generation = or_empty (field_at 3 more);
        name = name;
        activity = seen;
        attached = not (equal attached (codes "0"));
        bell = not (equal window_bell (codes "0")) || equal bell (codes "1");
        entry_name = entry_name;
        entry_path_token = or_empty (field_at 1 more);
        kind = or_empty (field_at 5 more);
        created = created;
      }))
session_of base64 _ = ok none

abbrev in_front : {A : Type 0} → Option A → List A → List A
in_front none rest = rest
in_front (some a) rest = a ∷ rest

pub parse_lines : Base64 → List Bytes → Result TmuxError (List SessionInfo)
unfolding session_of
parse_lines base64 [] = ok []
parse_lines base64 (line ∷ lines) = do
  info ← session_of base64 (split b'\t' line)
  infos ← parse_lines base64 lines
  ok (in_front info infos)

-- The loop of Sessions.
pub parse_sessions : Base64 → Bytes → Result TmuxError (List SessionInfo)
unfolding parse_lines
parse_sessions base64 out = parse_lines base64 (split b'\n' out)

variable_field : Bytes → Bytes
variable_field name = codes "\t#{" ++ (name ++ codes "}")

sessions_format : Bytes
unfolding variable_field
sessions_format =
    codes "#{session_name}\t#{session_activity}\t#{session_attached}\t#{window_bell_flag}"
    ++ (variable_field bell_option
        ++ (variable_field entry_name_option
            ++ (variable_field entry_path_option
                ++ (codes "\t#{session_id}"
                    ++ (variable_field server_generation_option
                        ++ (codes "\t#{session_created}" ++ variable_field session_kind_option))))))

pub record PaneInfo : Type 0 where
  pub id : Bytes
  pub tty : Bytes
  pub command : Bytes
  pub role : Bytes

-- strings.SplitN at a tab: the last of `n` parts is what is left.
pub split_n : ℕ → Bytes → List Bytes
unfolding index_byte
split_n zero s = []
split_n (suc zero) s = s ∷ []
split_n (suc (suc n)) s = elim (index_byte b'\t' s) [
  | none ↦ s ∷ []
  | some i ↦ take i s ∷ split_n (suc n) (drop (suc i) s)
]

-- A line of fewer than three parts is skipped.
pane_of : List Bytes → Option PaneInfo
pane_of (id ∷ tty ∷ command ∷ []) =
    some (record { id = id; tty = tty; command = command; role = [] })
pane_of (id ∷ tty ∷ command ∷ role ∷ []) =
    some (record { id = id; tty = tty; command = command; role = role })
pane_of _ = none

panes_of : List Bytes → List PaneInfo
unfolding pane_of split_n
panes_of [] = []
panes_of (line ∷ lines) = in_front (pane_of (split_n 4 line)) (panes_of lines)

-- The loop of Panes.
pub parse_panes : Bytes → List PaneInfo
unfolding panes_of
parse_panes out = panes_of (split b'\n' out)

non_empty_lines : List Bytes → List Bytes
non_empty_lines [] = []
non_empty_lines (line ∷ lines) =
    let rest = non_empty_lines lines in
    if not (is_empty (trim_space line)) then trim_space line ∷ rest else rest

-- The loop of ClientTTYs.
pub parse_ttys : Bytes → List Bytes
unfolding non_empty_lines
parse_ttys out = non_empty_lines (split b'\n' out)

module _ {S : Type 0} (tmux : Tmux S) (server : Server) where
  listed : Base64 → Result TmuxError Bytes → Result TmuxError (List SessionInfo)
  unfolding parse_sessions
  listed base64 (err e) = if is_no_server_error tmux e then err (no_server e) else err e
  listed base64 (ok out) = parse_sessions base64 out

  pub sessions : Base64 → Command S (List SessionInfo)
  unfolding listed sessions_format
  sessions base64 =
      judge (listed base64)
        (run tmux server (codes "list-sessions" ∷ codes "-F" ∷ sessions_format ∷ []))

  found_panes : Result TmuxError Bytes → Result TmuxError (List PaneInfo)
  unfolding parse_panes
  found_panes (err e) = if is_missing_target_error tmux e then err (missing_target e) else err e
  found_panes (ok out) = ok (parse_panes out)

  pub panes : Bytes → Command S (List PaneInfo)
  unfolding found_panes
  panes window = judge found_panes (
      run tmux server (
        codes "list-panes"
        ∷ codes "-t"
        ∷ window
        ∷ codes "-F"
        ∷ codes "#{pane_id}\t#{pane_tty}\t#{pane_start_command}\t#{@wrap_role}"
        ∷ []))

  found_ttys : Result TmuxError Bytes → Result TmuxError (List Bytes)
  unfolding parse_ttys
  found_ttys (err e) = err e
  found_ttys (ok out) = ok (parse_ttys out)

  pub client_ttys : Bytes → Command S (List Bytes)
  unfolding found_ttys
  client_ttys session = judge found_ttys (
      run tmux server (
        codes "list-clients"
        ∷ codes "-t"
        ∷ (b'=' ∷ session)
        ∷ codes "-F"
        ∷ codes "#{client_tty}"
        ∷ []))
