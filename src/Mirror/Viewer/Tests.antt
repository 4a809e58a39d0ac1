-- ===== src/Mirror/Viewer/Tests.antt =====
-- The theorems on viewer.go at one window of 80 columns and 24 rows, with one status line.
use wrap.Base.{
  ℕ, ◌≡◌, refl, true, false, some, ltb, if◌then◌else◌, Bytes, codes, equal, trim_space, fields,
  split,
}
use wrap.Base.Decimal.{digits}
use wrap.Base.Result.{ok}
use wrap.Mirror.Protocol.{validate_dimensions}
use wrap.Mirror.Viewer.Geometry.{ClientGeometry, ViewerGeometry, WindowPin, parse_window_pin}
use wrap.Mirror.Viewer.Geometry.Bounds.{Fits, parse_window_pin-Fits}
use wrap.Mirror.Viewer.Pins.{
  Factory, Identity, Key, Round, pinned, new_factory, pin_window, release,
}
use wrap.Mirror.Viewer.Pins.Counted.{Counts, outstanding, reachable-Counts, release-restores_last}
use wrap.Mirror.Viewer.Pins.Steps.{Reach, here, after, pins_window, releases}
use wrap.Mirror.Viewer.Verify.{Outside, attached, absent, verify_viewer_geometry}
use wrap.Mirror.Viewer.Verify.Bounded.{Ends, verify_viewer_geometry-Ends}

abbrev some_result : Bytes
some_result = codes "@7\t80\t23\nwindow-size* latest\non\n"

abbrev some_geometry : ViewerGeometry
some_geometry = record { columns = 80; rows = 24; status_rows = 1; status_value = codes "on" }

abbrev some_pin : WindowPin
some_pin = record {
  window_id = codes "@7";
  geometry = some_geometry;
  mode = codes "latest";
  inherited = true;
}

some_result_parsed : parse_window_pin some_result ≡ ok some_pin
unfolding parse_window_pin split trim_space digits equal fields validate_dimensions
some_result_parsed = refl

parse_window_pin-Fits_example : Fits some_pin
parse_window_pin-Fits_example = parse_window_pin-Fits some_result some_result_parsed

-- A client that is there at the third query and shows a wrong size until it is corrected.
abbrev some_client : ℕ → ClientGeometry
some_client rows = record {
  name = codes "/dev/pts/1";
  pid = 5;
  columns = 80;
  rows = rows;
  flags = codes "attached,ignore-size";
  window_id = codes "@7";
  window_columns = 80;
  window_rows = 23;
  window_bigger = false;
  status_rows = 1;
}

abbrev some_outside : Outside
some_outside = record {
  query = λ i. if ltb i 2 then absent else attached (some_client (if ltb i 3 then 20 else 24));
  waits = λ i. true;
  resizes = true;
  refreshes = true;
}

verify_viewer_geometry-Ends_example :
    Ends some_geometry
      (codes "@7")
      some_outside
      400
      (verify_viewer_geometry some_geometry (codes "@7") some_outside)
verify_viewer_geometry-Ends_example =
    verify_viewer_geometry-Ends some_geometry (codes "@7") some_outside

abbrev some_identity : Identity
some_identity = record { id = codes "$1"; window_id = codes "@7"; generation = codes "g" }

abbrev some_rounds : ℕ → Round
some_rounds n = record {
  captured = some some_result;
  owner = some (codes "o", 1);
  answer = pinned;
  rolls_back = true;
}

abbrev some_key : Key
some_key = record { generation = codes "g"; window_id = codes "@7" }

-- Two viewers of the window.
two_viewers : Factory
two_viewers =
    (pin_window some_identity some_rounds (pin_window some_identity some_rounds new_factory).0).0

to_two_viewers : Reach new_factory two_viewers
unfolding two_viewers
to_two_viewers =
    after (after here (pins_window some_identity some_rounds))
      (pins_window some_identity some_rounds)

reachable-Counts_example : Counts some_key two_viewers
reachable-Counts_example = reachable-Counts some_key to_two_viewers

-- The first of them has gone.
one_viewer : Factory
one_viewer = (release 0 true two_viewers).0

to_one_viewer : Reach new_factory one_viewer
unfolding one_viewer
to_one_viewer = after to_two_viewers (releases 0 true)

second_restores : (release 1 true one_viewer).1 ≡ some some_key
unfolding one_viewer two_viewers release pin_window new_factory parse_window_pin split trim_space
    digits equal fields validate_dimensions
second_restores = refl

release-restores_last_example : outstanding some_key (release 1 true one_viewer).0.leases ≡ 0
release-restores_last_example = release-restores_last 1 true some_key to_one_viewer second_restores
