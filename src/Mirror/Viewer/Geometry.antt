-- ===== src/Mirror/Viewer/Geometry.antt =====
-- The parsers of what tmux prints about windows and clients.
pub mod Bounds
use wrap.Base.{
  ℕ, suc, ◌+◌, ◌-◌, ◌%◌, ◌^◌, Bool, true, false, not, ◌&&◌, ◌||◌, Option, none, some, List, [], ◌∷◌,
  ltb, leb, ◌==◌, if◌then◌else◌, is_empty, any, all, Bytes, codes, equal, ℤ, pos, atoi, trim_space,
  fields, split,
}
use wrap.Base.Decimal.{parse_uint16}
use wrap.Base.Result.{Result, ok, err, ◌>>=◌, ◌>>◌, or_fail, require}
use wrap.Mirror.Protocol.{FrameError, validate_dimensions}

pub record ViewerGeometry : Type 0 where
  pub columns : ℕ
  pub rows : ℕ
  pub status_rows : ℕ
  pub status_value : Bytes

pub record ClientGeometry : Type 0 where
  pub name : Bytes
  pub pid : ℕ
  pub columns : ℕ
  pub rows : ℕ
  pub flags : Bytes
  pub window_id : Bytes
  pub window_columns : ℕ
  pub window_rows : ℕ
  pub window_bigger : Bool
  pub status_rows : ℕ

pub data ViewerError : Type 0 where
  unexpected_lines unexpected_geometry bad_window_id bad_status : ViewerError
  rows_overflow unexpected_size bad_source bad_mode : ViewerError
  bad_dimensions : FrameError → ViewerError
  bad_target_pid unexpected_client bad_client_pid bad_client_dimensions : ViewerError
  bad_bigger duplicate_client not_attached : ViewerError

abbrev is_digit : ℕ → Bool
is_digit c = leb b'0' c && leb c b'9'

pub valid_window_id : Bytes → Bool
unfolding all
valid_window_id (c ∷ d ∷ ds) = c == b'@' && all is_digit (d ∷ ds)
valid_window_id _ = false

status_number : Option ℕ → Result ViewerError ℕ
status_number none = err bad_status
status_number (some rows) = if ltb 5 rows then err bad_status else ok rows

pub parse_status_rows : Bytes → Result ViewerError ℕ
unfolding status_number parse_uint16
parse_status_rows value =
    let v = trim_space value in
    if equal v (codes "off")
    then ok 0
    else if equal v (codes "on")
    then ok 1
    else status_number (parse_uint16 v)

pub record WindowPin : Type 0 where
  pub window_id : Bytes
  pub geometry : ViewerGeometry
  pub mode : Bytes
  pub inherited : Bool

-- Whether the option is inherited.
size_source : Bytes → Option Bool
size_source s =
    if equal s (codes "window-size")
    then some false
    else if equal s (codes "window-size*")
    then some true
    else none

is_mode : Bytes → Bool
is_mode m =
    equal m (codes "largest")
    || equal m (codes "smallest")
    || equal m (codes "manual")
    || equal m (codes "latest")

-- Exactly so many parts.
abbrev two : List Bytes → Option (Bytes × Bytes)
two (a ∷ b ∷ []) = some (a, b)
two _ = none

abbrev three : List Bytes → Option (Bytes × Bytes × Bytes)
three (a ∷ b ∷ c ∷ []) = some (a, b, c)
three _ = none

-- The window and its columns and rows.
parse_window_geometry : Bytes → Result ViewerError (Bytes × ℕ × ℕ)
unfolding valid_window_id parse_uint16
parse_window_geometry line = do
  (window, columns_text, rows_text) ← or_fail unexpected_geometry (three (split b'\t' line))
  require (valid_window_id (trim_space window)) bad_window_id
  columns ← or_fail unexpected_geometry (parse_uint16 columns_text)
  rows ← or_fail unexpected_geometry (parse_uint16 rows_text)
  ok (trim_space window, columns, rows)

-- The mode, and whether it is inherited.
parse_window_size : Bytes → Result ViewerError (Bytes × Bool)
unfolding size_source is_mode
parse_window_size line = do
  (source, mode) ← or_fail unexpected_size (two (fields line))
  inherited ← or_fail bad_source (size_source source)
  require (is_mode mode) bad_mode
  ok (mode, inherited)

-- `rows + status_rows` is a uint16.
pub parse_window_pin_unchecked : Bytes → Result ViewerError WindowPin
unfolding parse_window_geometry parse_window_size parse_status_rows
parse_window_pin_unchecked result = do
  (first, size, status) ← or_fail unexpected_lines (three (split b'\n' (trim_space result)))
  (window_id, columns, rows) ← parse_window_geometry first
  status_rows ← parse_status_rows status
  require (leb rows (65535 - status_rows)) rows_overflow
  (mode, inherited) ← parse_window_size size
  ok (record {
    window_id = window_id;
    geometry = record {
      columns = columns;
      rows = (rows + status_rows) % 2 ^ 16;
      status_rows = status_rows;
      status_value = trim_space status;
    };
    mode = mode;
    inherited = inherited;
  })

check_geometry : WindowPin → Option FrameError → Result ViewerError WindowPin
check_geometry p none = ok p
check_geometry p (some e) = err (bad_dimensions e)

unfoldable pub parse_window_pin : Bytes → Result ViewerError WindowPin
unfolding check_geometry parse_window_pin_unchecked
parse_window_pin result = do
  p ← parse_window_pin_unchecked result
  check_geometry p (validate_dimensions p.geometry.columns p.geometry.rows)

abbrev bigger_flag : Bytes → Option Bool
bigger_flag s =
    if equal s (codes "0") then some false else if equal s (codes "1") then some true else none

positive_pid : Option ℤ → Option ℕ
positive_pid (some (pos n)) = if ltb 0 n then some n else none
positive_pid _ = none

client_fields : List Bytes → Result ViewerError ClientGeometry
unfolding parse_uint16 valid_window_id parse_status_rows positive_pid
client_fields (name ∷ pid ∷ c ∷ r ∷ flags ∷ window ∷ wc ∷ wr ∷ bigger ∷ status ∷ []) = do
  p ← or_fail bad_client_pid (positive_pid (atoi pid))
  columns ← or_fail bad_client_dimensions (parse_uint16 c)
  rows ← or_fail bad_client_dimensions (parse_uint16 r)
  window_columns ← or_fail bad_client_dimensions (parse_uint16 wc)
  window_rows ← or_fail bad_client_dimensions (parse_uint16 wr)
  require (valid_window_id window) bad_window_id
  is_bigger ← or_fail bad_bigger (bigger_flag bigger)
  status_rows ← parse_status_rows status
  ok (record {
    name = name;
    pid = p;
    columns = columns;
    rows = rows;
    flags = flags;
    window_id = window;
    window_columns = window_columns;
    window_rows = window_rows;
    window_bigger = is_bigger;
    status_rows = status_rows;
  })
client_fields _ = err unexpected_client

-- The client of the target among the lines, which must all be well-formed.
scan_clients : ℕ → Option ClientGeometry → List Bytes → Result ViewerError (Option ClientGeometry)
unfolding client_fields
scan_clients target match [] = ok match
scan_clients target match (line ∷ lines) =
    let skipped = scan_clients target match lines in
    let read = client_fields (split b'\t' line) >>= λ c.
    (if not (c.pid == target) then skipped else elim match [
      | some _ ↦ err duplicate_client
      | none ↦ scan_clients target (some c) lines
    ]) in
    if is_empty line then skipped else read

scan_for : ℤ → Bytes → Result ViewerError (Option ClientGeometry)
unfolding scan_clients
scan_for (pos (suc n)) result = scan_clients (suc n) none (split b'\n' (trim_space result))
scan_for _ result = err bad_target_pid

pub parse_viewer_client_geometry : Bytes → ℤ → Result ViewerError ClientGeometry
unfolding scan_for
parse_viewer_client_geometry result target = do
  match ← scan_for target result
  or_fail not_attached match

pub viewer_client_has_flag : Bytes → Bytes → Bool
unfolding any
viewer_client_has_flag flags want = any (λ flag. equal (trim_space flag) want) (split b',' flags)

pub viewer_geometry_matches : ViewerGeometry → Bytes → ClientGeometry → Bool
unfolding viewer_client_has_flag
viewer_geometry_matches captured window_id c =
    equal c.window_id window_id
    && viewer_client_has_flag c.flags (codes "ignore-size")
    && c.columns == captured.columns
    && c.rows == captured.rows
    && c.window_columns == captured.columns
    && not c.window_bigger
    && c.status_rows == captured.status_rows
    && (c.window_rows + captured.status_rows) % 2 ^ 32 == captured.rows
