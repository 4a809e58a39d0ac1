-- ===== src/Mirror/Viewer/Pins/Steps.antt =====
-- What the viewers of a factory may do, in any order.
use wrap.Base.{ℕ, Bool}
use wrap.Mirror.Viewer.Pins.{Factory, Identity, Round, Key, pin_window, release, cleanup}

pub data Step (f : Factory) : Factory → Type 0 where
  pins_window : (i : Identity) (rounds : ℕ → Round) → Step f (pin_window i rounds f).0
  releases : (i : ℕ) (restored : Bool) → Step f (release i restored f).0
  cleans : (restored : Key → Bool) → Step f (cleanup restored f)

pub data Reach (f : Factory) : Factory → Type 0 where
  here : Reach f f
  after : {g h : Factory} → Reach f g → Step g h → Reach f h
