-- ===== src/Mirror/Viewer/Pins.antt =====
-- pinWindow, releaseWindowFunc, releaseWindow and Cleanup: windows whose size is held while a viewer
-- shows them. `pinMu` makes each of them one step. The commands that tmux is given are not
-- modelled; what it answers to them is an argument.
pub mod Steps
pub mod Counted
use wrap.Base.{
  ℕ, zero, suc, ◌+◌, ◌-◌, Bool, true, false, not, ◌&&◌, ◌||◌, Option, none, some, List, [], ◌∷◌,
  ◌++◌, ltb, if◌then◌else◌, is_empty, Bytes, equal,
}
use wrap.Base.Result.{Result, ok, err}
use wrap.Mirror.Viewer.Geometry.{ViewerError, ViewerGeometry, WindowPin, parse_window_pin}

pub record Key : Type 0 where
  pub generation : Bytes
  pub window_id : Bytes

abbrev pub same_key : Key → Key → Bool
same_key a b = equal a.generation b.generation && equal a.window_id b.window_id

pub record Pin : Type 0 where
  pub references : ℕ
  pub original_mode : Bytes
  pub original_inherited : Bool
  pub restore : Bool
  pub owner : Bytes
  pub hook_index : ℕ

-- A function that releaseWindowFunc has returned, with its flag.
pub record Lease : Type 0 where
  pub key : Key
  pub released : Bool

pub record Factory : Type 0 where
  pub pins : List (Key × Pin)
  pub leases : List Lease

pub find_pin : Key → List (Key × Pin) → Option Pin
find_pin k [] = none
find_pin k ((j, p) ∷ m) = if same_key j k then some p else find_pin k m

pub erase_pin : Key → List (Key × Pin) → List (Key × Pin)
erase_pin k [] = []
erase_pin k ((j, p) ∷ m) = let rest = erase_pin k m in if same_key j k then rest else (j, p) ∷ rest

pub put_pin : Key → Pin → List (Key × Pin) → List (Key × Pin)
unfolding erase_pin
put_pin k p m = (k, p) ∷ erase_pin k m

pub record Identity : Type 0 where
  pub id : Bytes
  pub window_id : Bytes
  pub generation : Bytes

-- What tmux answers to the command that pins the window.
pub data PinAnswer : Type 0 where
  pinned mismatch unexpected conflict refused : PinAnswer
  -- The command could not be made.
  no_command : PinAnswer

-- One round: the output of the capture, the random owner and hook index, the answer to the pin, and
-- whether a roll-back succeeds.
pub record Round : Type 0 where
  pub captured : Option Bytes
  pub owner : Option (Bytes × ℕ)
  pub answer : PinAnswer
  pub rolls_back : Bool

pub data PinError : Type 0 where
  not_captured bad_capture window_changed no_owner no_rollback : PinError
  bad_command not_pinned unexpected_result not_stable : PinError

-- What a round comes to; `again` goes on to the next one.
pub data Pinned : Type 0 where
  held : Bytes → ViewerGeometry → Pinned
  failed : PinError → Pinned
  again : Pinned

-- `references` is an int; the code never takes it below zero (`Counted`).
abbrev grown : Pin → Pin
grown p = record p { references = p.references + 1 }

hold : Key → Pin → Factory → Factory
unfolding put_pin
hold k p f = record {
  pins = put_pin k p f.pins;
  leases = f.leases ++ (record { key = k; released = false } ∷ []);
}

-- A roll-back that succeeds lets a conflict go on; without an inherited size there is none.
rolled : Bool → Bool → Pinned → Pinned
rolled inherited rolls_back next =
    if inherited then (if rolls_back then next else failed no_rollback) else next

-- The owner and the hook index: empty for a size that is the window's own.
owner_of : Bool → Option (Bytes × ℕ) → Option (Bytes × ℕ)
owner_of inherited random = if inherited then random else some ([], 0)

new_pin : WindowPin → Bytes × ℕ → Pin
new_pin w (owner, hook_index) = record {
  references = 1;
  original_mode = w.mode;
  original_inherited = w.inherited;
  restore = w.inherited;
  owner = owner;
  hook_index = hook_index;
}

pin_answered : PinAnswer → Key → Round → WindowPin → Bytes × ℕ → Factory → Factory × Pinned
unfolding hold rolled new_pin
pin_answered pinned k r w owner f = (hold k (new_pin w owner) f, held w.window_id w.geometry)
pin_answered mismatch k r w owner f = (f, again)
pin_answered no_command k r w owner f = (f, failed bad_command)
pin_answered unexpected k r w owner f =
    (f, rolled w.inherited r.rolls_back (failed unexpected_result))
pin_answered conflict k r w owner f = (f, rolled w.inherited r.rolls_back again)
pin_answered refused k r w owner f = (f, rolled w.inherited r.rolls_back (failed not_pinned))

pin_new : Key → Round → WindowPin → Option (Bytes × ℕ) → Factory → Factory × Pinned
unfolding pin_answered
pin_new k r w none f = (f, failed no_owner)
pin_new k r w (some owner) f = pin_answered r.answer k r w owner f

pin_at : Key → Round → WindowPin → Option Pin → Factory → Factory × Pinned
unfolding hold pin_new owner_of
pin_at k r w (some p) f = (hold k (grown p) f, held w.window_id w.geometry)
pin_at k r w none f = pin_new k r w (owner_of w.inherited r.owner) f

pin_parsed : Identity → Round → Result ViewerError WindowPin → Factory → Factory × Pinned
unfolding pin_at find_pin
pin_parsed i r (err e) f = (f, failed bad_capture)
pin_parsed i r (ok w) f =
    let k : Key = record { generation = i.generation; window_id = w.window_id } in
    if not (is_empty i.window_id) && not (equal w.window_id i.window_id)
    then (f, failed window_changed)
    else pin_at k r w (find_pin k f.pins) f

pin_round : Identity → Round → Option Bytes → Factory → Factory × Pinned
unfolding pin_parsed
pin_round i r none f = (f, failed not_captured)
pin_round i r (some output) f = pin_parsed i r (parse_window_pin output) f

abbrev pub viewer_window_pin_attempts : ℕ
viewer_window_pin_attempts = 3

abbrev pub is_again : Pinned → Bool
is_again again = true
is_again _ = false

-- Rounds until one is decided; `left` are the attempts left.
pin_rounds : ℕ → Identity → (ℕ → Round) → ℕ → Factory → Factory × Pinned
unfolding pin_round
pin_rounds zero i rounds n f = (f, failed not_stable)
pin_rounds (suc left) i rounds n f =
    let (g, result) = pin_round i (rounds n) (rounds n).captured f in
    let more = pin_rounds left i rounds (n + 1) g in if is_again result then more else (g, result)

unfoldable pub pin_window : Identity → (ℕ → Round) → Factory → Factory × Pinned
unfolding pin_rounds
pin_window i rounds f = pin_rounds viewer_window_pin_attempts i rounds 0 f

get_lease : ℕ → List Lease → Option Lease
get_lease i [] = none
get_lease zero (l ∷ ls) = some l
get_lease (suc i) (l ∷ ls) = get_lease i ls

mark_released : ℕ → List Lease → List Lease
mark_released i [] = []
mark_released zero (l ∷ ls) = record l { released = true } ∷ ls
mark_released (suc i) (l ∷ ls) = l ∷ mark_released i ls

-- What a release does about the size: nothing, or the key whose restoration it asks for.
release_pin : Key → Bool → Bool → Option Pin → Factory → Factory × Option Key
unfolding erase_pin put_pin
release_pin k decrement restored none f = (f, none)
release_pin k decrement restored (some p) f =
    let q : Pin = record p { references = if decrement then p.references - 1 else p.references } in
    if ltb 0 q.references
    then (record f { pins = put_pin k q f.pins }, none)
    else if not q.restore
    then (record f { pins = erase_pin k f.pins }, none)
    else if restored
    then (record f { pins = erase_pin k f.pins }, some k)
    else (record f { pins = put_pin k q f.pins }, some k)

release_lease : ℕ → Bool → Option Lease → Factory → Factory × Option Key
unfolding release_pin mark_released find_pin
release_lease i restored none f = (f, none)
release_lease i restored (some l) f =
    release_pin l.key (not l.released) restored (find_pin l.key f.pins)
      (record f { leases = mark_released i f.leases })

-- The function that belongs to lease `i`; `restored` tells whether a restoration succeeds.
unfoldable pub release : ℕ → Bool → Factory → Factory × Option Key
unfolding release_lease get_lease
release i restored f = release_lease i restored (get_lease i f.leases) f

abbrev keeps : (Key → Bool) → Key → Pin → Bool
keeps restored k p = ltb 0 p.references || p.restore && not (restored k)

clean_found : (Key → Bool) → Key → Option Pin → List (Key × Pin) → List (Key × Pin)
unfolding erase_pin
clean_found restored k none m = m
clean_found restored k (some p) m = if keeps restored k p then m else erase_pin k m

-- `range` over the map, from which the loop deletes.
clean_pins : (Key → Bool) → List (Key × Pin) → List (Key × Pin) → List (Key × Pin)
unfolding clean_found find_pin
clean_pins restored [] m = m
clean_pins restored ((k, p) ∷ ks) m =
    clean_pins restored ks (clean_found restored k (find_pin k m) m)

pub cleanup : (Key → Bool) → Factory → Factory
unfolding clean_pins
cleanup restored f = record f { pins = clean_pins restored f.pins f.pins }

unfoldable pub new_factory : Factory
new_factory = record { pins = []; leases = [] }
