-- ===== src/Mirror/Viewer/Geometry/Bounds.antt =====
-- What holds of a window that parseWindowPin accepts.
use wrap.Base.{
  ℕ, ◌-◌, ◌^◌, ◌≤◌, ◌<◌, ◌≡◌, refl, sym, true, Option, none, some, [], ◌∷◌, arith, leb, Bytes,
  trim_space, split,
}
use wrap.Base.Result.{ok, or_fail, require, ok_through, or_fail-ok_lem, require-ok_lem}
use wrap.Mirror.Protocol.{FrameError, validate_dimensions}
use wrap.Base.Decimal.{parse_uint16}
use wrap.Mirror.Viewer.Geometry.{
  WindowPin, parse_window_pin, parse_window_pin_unchecked, check_geometry, valid_window_id,
  status_number, parse_status_rows, parse_window_geometry, parse_window_size, three,
  unexpected_geometry, bad_window_id, unexpected_lines, rows_overflow,
}

-- A window with an ID of tmux, a mode of tmux, and a size in the protocol's range whose rows are
-- not fewer than those of the status lines.
pub record Fits (p : WindowPin) : Type 0 where
  pub id_valid : valid_window_id p.window_id ≡ true
  pub columns_in : (2 ≤ p.geometry.columns) × (p.geometry.columns ≤ 500)
  pub rows_in : (2 ≤ p.geometry.rows) × (p.geometry.rows ≤ 300)
  pub status_within : (p.geometry.status_rows ≤ 5) × (p.geometry.status_rows ≤ p.geometry.rows)

parse_uint16-lt : (s : Bytes) {v : ℕ} → parse_uint16 s ≡ some v → v < 2 ^ 16
unfolding parse_uint16
parse_uint16-lt [] h = cc
parse_uint16-lt (c ∷ cs) h = ground arith

status_number-le : (x : Option ℕ) {n : ℕ} → status_number x ≡ ok n → n ≤ 5
unfolding status_number
status_number-le none h = cc
status_number-le (some v) h = ground arith

parse_status_rows-le : (value : Bytes) {n : ℕ} → parse_status_rows value ≡ ok n → n ≤ 5
unfolding parse_status_rows
parse_status_rows-le value {n} h =
    ground (arith, status_number-le (parse_uint16 (trim_space value)) {n = n})

parse_window_geometry_valid :
    (line : Bytes) {w : Bytes} {c r : ℕ}
    → parse_window_geometry line ≡ ok (w, c, r)
    → (valid_window_id w ≡ true) × (r < 2 ^ 16)
unfolding parse_window_geometry
parse_window_geometry_valid line h =
    let (parts, h1, p) = ok_through (or_fail unexpected_geometry (three (split b'\t' line))) _ h in
    let (u, h2, q) =
      ok_through (require (valid_window_id (trim_space parts.0)) bad_window_id) _ h1 in
    let (columns, h3, r) = ok_through (or_fail unexpected_geometry (parse_uint16 parts.1)) _ h2 in
    let (rows, h4, s) = ok_through (or_fail unexpected_geometry (parse_uint16 parts.2)) _ h3 in
    let ok_id = require-ok_lem (valid_window_id (trim_space parts.0)) bad_window_id q in
    let below = parse_uint16-lt parts.2 (or_fail-ok_lem unexpected_geometry _ s) in
    ground (arith, h4, ok_id, below)

unchecked_valid :
    (result : Bytes) {p : WindowPin}
    → parse_window_pin_unchecked result ≡ ok p
    → (valid_window_id p.window_id ≡ true)
      × (p.geometry.status_rows ≤ 5)
      × (p.geometry.status_rows ≤ p.geometry.rows)
unfolding parse_window_pin_unchecked
unchecked_valid result h =
    let (parts, h1, p) =
      ok_through (or_fail unexpected_lines (three (split b'\n' (trim_space result)))) _ h in
    let (window, h2, q) = ok_through (parse_window_geometry parts.0) _ h1 in
    let (status, h3, r) = ok_through (parse_status_rows parts.2) _ h2 in
    let (u, h4, s) = ok_through (require (leb window.2 (65535 - status)) rows_overflow) _ h3 in
    let (size, h5, t) = ok_through (parse_window_size parts.1) _ h4 in
    let no_wrap = require-ok_lem (leb window.2 (65535 - status)) rows_overflow s in
    let (valid, below) = parse_window_geometry_valid parts.0 q in
    let small = parse_status_rows-le parts.2 r in ground (arith, h5, no_wrap, valid, below, small)

check_geometry-eq-ok :
    (q : WindowPin) (x : Option FrameError) {p : WindowPin}
    → check_geometry q x ≡ ok p
    → (x ≡ none) × (q ≡ p)
unfolding check_geometry
check_geometry-eq-ok q none h = (refl, ground (arith, h))
check_geometry-eq-ok q (some e) h = cc

validate_dimensions-eq-none :
    (c r : ℕ) → validate_dimensions c r ≡ none → ((2 ≤ c) × (c ≤ 500)) × ((2 ≤ r) × (r ≤ 300))
unfolding validate_dimensions
validate_dimensions-eq-none c r h = ground arith

-- A window that `parseWindowPin` accepts has an ID of tmux and a size that the protocol allows, and its
-- rows are not fewer than those of the status lines, of which there are at most five.
pub parse_window_pin-Fits :
    (result : Bytes) {p : WindowPin} → parse_window_pin result ≡ ok p → Fits p
unfolding parse_window_pin
parse_window_pin-Fits result {p} h =
    let (q, k, u) = ok_through (parse_window_pin_unchecked result) _ h in
    let (v, same) = check_geometry-eq-ok q _ k in
    let (c, r) = validate_dimensions-eq-none q.geometry.columns q.geometry.rows v in
    let (i, five, w) = unchecked_valid result u in
    rw (sym same) (record { id_valid = i; columns_in = c; rows_in = r; status_within = (five, w) })
