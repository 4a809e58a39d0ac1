-- ===== src/Mirror/Server/Admission/Handling.antt =====
-- What one step of a handler does to the slots, and to the connections.
use wrap.Base.{
  ℕ, ◌+◌, ◌≤◌, ◌≡◌, refl, inl, inr, Bool, true, false, none, List, arith, ltb, ◌==◌, if◌then◌else◌,
  Bool-cases, Bytes, ==_iff,
}
use wrap.Mirror.Server.{
  max_handshakes, max_clients, LocalServer, Handler, waiting, holding, leaving, informed, upgraded,
  authenticated, admitted, connected, Event, asks, upgrades, authenticates, takes_slot, registers,
  leaves, ends, Moved, advance, reads, upgrade, authenticate, take_slot, register, update,
  release_handshake, release_client, is_origin, is_empty,
}
use wrap.Mirror.Server.Admission.{is_shaking, is_served, Good}

abbrev pub one_if : Bool → ℕ
one_if b = if b then 1 else 0

module _ (i : ℕ) (s : LocalServer) where
  -- A step takes and gives back the slots of its handler, and no more than there are.
  abbrev pub Slots : Handler → Event → Type 0
  Slots h e =
      ((advance i h e s).0.handshakes + one_if (is_shaking h)
        ≡ s.handshakes + one_if (is_shaking (advance i h e s).1))
      × ((advance i h e s).0.clients + one_if (is_served h)
          ≡ s.clients + one_if (is_served (advance i h e s).1))
      × ((advance i h e s).0.handshakes ≤ max_handshakes)
      × ((advance i h e s).0.clients ≤ max_clients)

  pub advance-Slots :
      (h : Handler) (e : Event)
      → one_if (is_shaking h) ≤ s.handshakes
      → one_if (is_served h) ≤ s.clients
      → s.handshakes ≤ max_handshakes
      → s.clients ≤ max_clients
      → Slots h e
  unfolding advance is_shaking is_served
  advance-Slots waiting asks a b c d = ground arith
  advance-Slots holding reads a b c d = ground arith
  advance-Slots (informed host secret version) (upgrades origins succeeds) a b c d = ground arith
  advance-Slots (upgraded secret version) (authenticates succeeds) a b c d = ground arith
  advance-Slots (authenticated version) takes_slot a b c d = ground arith
  advance-Slots (admitted version) registers a b c d = ground arith
  advance-Slots (connected version) (ends refused) a b c d = ground arith
  advance-Slots leaving leaves a b c d = ground arith
  advance-Slots _ _ a b c d = ground arith

  GoodMove : Bool → Moved → Type 0
  GoodMove told m = Good m.0 told i m.1

  upgrade-Good :
      (told : Bool) (host secret : Bytes) (version : ℕ) (origins : List Bytes) (succeeds : Bool)
      → s.connections i ≡ none
      → GoodMove told (upgrade host secret version origins succeeds s)
  unfolding GoodMove upgrade release_handshake
  upgrade-Good told host secret version origins succeeds g = elim (Bool-cases (is_empty host)) [
    | inl starting ↦ rw (upgrade, starting) g
    | inr ready ↦ elim (Bool-cases (is_origin host origins)) [
      | inl own ↦ elim (Bool-cases succeeds) [
        | inl done ↦ rw (upgrade, ready, own, done) g
        | inr failed ↦ rw (upgrade, ready, own, failed) g
      ]
      | inr foreign ↦ rw (upgrade, ready, foreign) g
    ]
  ]

  authenticate-Good :
      (told : Bool) (version : ℕ) (succeeds : Bool)
      → s.connections i ≡ none
      → GoodMove told (authenticate version succeeds s)
  unfolding GoodMove authenticate release_handshake
  authenticate-Good told version true g = g
  authenticate-Good told version false g = g

  take_slot-Good :
      (told : Bool) (version : ℕ) → s.connections i ≡ none → GoodMove told (take_slot version s)
  unfolding GoodMove take_slot
  take_slot-Good told version g = elim (Bool-cases (ltb s.clients max_clients)) [
    | inl e ↦ rw (take_slot, e) g
    | inr e ↦ rw (take_slot, e) g
  ]

  register-Good :
      (told : Bool) (version : ℕ)
      → Good s told i (admitted version)
      → GoodMove told (register i version s)
  unfolding GoodMove register update release_client
  register-Good told version g = elim (Bool-cases (version == s.secret_version)) [
    | inl e ↦ rw (register, e) (ground arith, inl ((==_iff version s.secret_version).0 e))
    | inr e ↦ rw (register, e) g
  ]

  pub advance-Good :
      (told : Bool) (h : Handler) (e : Event)
      → Good s told i h
      → Good (advance i h e s).0 told i (advance i h e s).1
  unfolding advance GoodMove
  advance-Good told waiting asks g = ground (arith, g)
  advance-Good told holding reads g = g
  advance-Good told (informed host secret version) (upgrades origins succeeds) g =
      upgrade-Good told host secret version origins succeeds g
  advance-Good told (upgraded secret version) (authenticates succeeds) g =
      authenticate-Good told version succeeds g
  advance-Good told (authenticated version) takes_slot g = take_slot-Good told version g
  advance-Good told (admitted version) registers g = register-Good told version g
  advance-Good told (connected version) (ends refused) g = ground (arith, g)
  advance-Good told leaving leaves g = g
  advance-Good told _ _ g = g

  -- Nothing changes for the other handlers.
  pub advance-other :
      (j : ℕ) (h : Handler) (e : Event)
      → (i ≡ j → ⊥)
      → ((advance i h e s).0.connections j ≡ s.connections j)
        × ((advance i h e s).0.secret_version ≡ s.secret_version)
  unfolding advance
  advance-other j waiting asks n = ground arith
  advance-other j holding reads n = ground arith
  advance-other j (informed host secret version) (upgrades origins succeeds) n = ground arith
  advance-other j (upgraded secret version) (authenticates succeeds) n = ground arith
  advance-other j (authenticated version) takes_slot n = ground arith
  advance-other j (admitted version) registers n = ground (arith, n)
  advance-other j (connected version) (ends refused) n = ground (arith, n)
  advance-other j leaving leaves n = ground arith
  advance-other j _ _ n = (refl, refl)
