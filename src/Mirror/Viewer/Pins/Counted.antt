-- ===== src/Mirror/Viewer/Pins/Counted.antt =====
-- A pin is referenced by the leases that are still out.
use wrap.Base.{
  ℕ, zero, suc, ◌+◌, ◌-◌, ◌≡◌, refl, sym, ◌∙◌, ◌↔◌, inl, inr, Bool, true, false, not, ◌&&◌, Option,
  none, some, List, [], ◌∷◌, ◌++◌, arith, if◌then◌else◌, Bool-cases, is_empty, Bytes, equal,
  equal_iff,
}
use wrap.Base.Result.{Result, ok, err}
use wrap.Mirror.Viewer.Geometry.{ViewerError, WindowPin}
use wrap.Mirror.Viewer.Pins.{
  Factory, Identity, Key, Lease, Pin, PinAnswer, Round, pinned, mismatch, unexpected, conflict,
  refused, no_command, same_key, find_pin, erase_pin, put_pin, hold, pin_at, pin_new, pin_parsed,
  pin_round, pin_rounds, pin_window, get_lease, mark_released, release_pin, release_lease, release,
  clean_found, clean_pins, cleanup, is_again, new_pin, owner_of, pin_answered,
  viewer_window_pin_attempts, new_factory,
}
use wrap.Mirror.Viewer.Pins.Steps.{Step, Reach, here, after, pins_window, releases, cleans}

same_key_iff : (a b : Key) → (same_key a b ≡ true) ↔ (a ≡ b)
same_key_iff a b =
    ground (arith, equal_iff a.generation b.generation, equal_iff a.window_id b.window_id)

find-erase_pin :
    (k j : Key) (m : List (Key × Pin))
    → find_pin j (erase_pin k m) ≡ (if same_key k j then none else find_pin j m)
unfolding find_pin erase_pin
find-erase_pin k j [] = ground arith
find-erase_pin k j ((i, p) ∷ m) =
    ground (arith, same_key_iff k j, same_key_iff i k, same_key_iff i j, find-erase_pin k j m)

find-put_pin :
    (k j : Key) (p : Pin) (m : List (Key × Pin))
    → find_pin j (put_pin k p m) ≡ (if same_key k j then some p else find_pin j m)
unfolding find_pin put_pin
find-put_pin k j p m = ground (arith, find-erase_pin k j m)

-- The references that a pin counts.
abbrev pub counted : Option Pin → ℕ
counted none = 0
counted (some p) = p.references

abbrev is_out : Key → Lease → ℕ
is_out k l = if same_key l.key k && not l.released then 1 else 0

-- The leases of a window that have not been released.
abbrev pub outstanding : Key → List Lease → ℕ
outstanding k [] = 0
outstanding k (l ∷ ls) = is_out k l + outstanding k ls

outstanding-append :
    (k : Key) (l : Lease) (ls : List Lease)
    → outstanding k (ls ++ (l ∷ [])) ≡ outstanding k ls + is_out k l
outstanding-append k l [] = omega arith
outstanding-append k l (m ∷ ls) = omega (arith, outstanding-append k l ls)

-- Marking a lease takes it from the count, if it was in it.
outstanding-mark :
    (k : Key) (i : ℕ) (ls : List Lease) {l : Lease}
    → get_lease i ls ≡ some l
    → outstanding k (mark_released i ls) + is_out k l ≡ outstanding k ls
unfolding get_lease mark_released
outstanding-mark k i [] h = cc
outstanding-mark k zero (m ∷ ls) h = ground arith
outstanding-mark k (suc i) (m ∷ ls) h = omega (arith, outstanding-mark k i ls h)

-- The invariant, at one window.
abbrev pub Counts : Key → Factory → Type 0
Counts k f = counted (find_pin k f.pins) ≡ outstanding k f.leases

module _ (j : Key) where
  hold-Counts :
      (k : Key) (p : Pin) (f : Factory)
      → Counts j f
      → p.references ≡ counted (find_pin k f.pins) + 1
      → Counts j (hold k p f)
  unfolding hold
  hold-Counts k p f v r = ground (
    arith,
    find-put_pin k j p f.pins,
    same_key_iff k j,
    outstanding-append j (record { key = k; released = false }) f.leases,
  )

  pin_answered-Counts :
      (a : PinAnswer) (k : Key) (r : Round) (w : WindowPin) (o : Bytes × ℕ) (f : Factory)
      → find_pin k f.pins ≡ none
      → Counts j f
      → Counts j (pin_answered a k r w o f).0
  unfolding pin_answered new_pin
  pin_answered-Counts pinned k r w o f n v = hold-Counts k (new_pin w o) f v (ground arith)
  pin_answered-Counts mismatch k r w o f n v = v
  pin_answered-Counts unexpected k r w o f n v = v
  pin_answered-Counts conflict k r w o f n v = v
  pin_answered-Counts no_command k r w o f n v = v
  pin_answered-Counts refused k r w o f n v = v

  pin_new-Counts :
      (k : Key) (r : Round) (w : WindowPin) (o : Option (Bytes × ℕ)) (f : Factory)
      → find_pin k f.pins ≡ none
      → Counts j f
      → Counts j (pin_new k r w o f).0
  unfolding pin_new
  pin_new-Counts k r w none f n v = v
  pin_new-Counts k r w (some o) f n v = pin_answered-Counts r.answer k r w o f n v

  pin_at-Counts :
      (k : Key) (r : Round) (w : WindowPin) (o : Option Pin) (f : Factory)
      → find_pin k f.pins ≡ o
      → Counts j f
      → Counts j (pin_at k r w o f).0
  unfolding pin_at
  pin_at-Counts k r w none f n v = pin_new-Counts k r w (owner_of w.inherited r.owner) f n v
  pin_at-Counts k r w (some p) f n v = hold-Counts k _ f v (ground arith)

  release_pin-Counts :
      (k : Key) (decrement restored : Bool) (o : Option Pin) (f : Factory)
      → find_pin k f.pins ≡ o
      → counted (find_pin j f.pins)
        ≡ outstanding j f.leases + (if same_key k j && decrement then 1 else 0)
      → Counts j (release_pin k decrement restored o f).0
  unfolding release_pin
  release_pin-Counts k decrement restored none f n v = ground (arith, same_key_iff k j)
  release_pin-Counts k decrement restored (some p) f n v = ground (
    arith,
    same_key_iff k j,
    find-erase_pin k j f.pins,
    find-put_pin k j
        (record p { references = if decrement then p.references - 1 else p.references }) f.pins,
  )

  release_lease-Counts :
      (i : ℕ) (restored : Bool) (o : Option Lease) (f : Factory)
      → get_lease i f.leases ≡ o
      → Counts j f
      → Counts j (release_lease i restored o f).0
  unfolding release_lease
  release_lease-Counts i restored none f e v = v
  release_lease-Counts i restored (some l) f e v =
      release_pin-Counts l.key (not l.released) restored (find_pin l.key f.pins)
        (record f { leases = mark_released i f.leases }) refl
        (omega (arith, outstanding-mark j i f.leases e))

  clean_found-counted :
      (restored : Key → Bool) (k : Key) (o : Option Pin) (m : List (Key × Pin))
      → find_pin k m ≡ o
      → counted (find_pin j (clean_found restored k o m)) ≡ counted (find_pin j m)
  unfolding clean_found
  clean_found-counted restored k none m e = refl
  clean_found-counted restored k (some p) m e =
      ground (arith, find-erase_pin k j m, same_key_iff k j)

  clean_pins-counted :
      (restored : Key → Bool) (ks m : List (Key × Pin))
      → counted (find_pin j (clean_pins restored ks m)) ≡ counted (find_pin j m)
  unfolding clean_pins
  clean_pins-counted restored [] m = refl
  clean_pins-counted restored ((k, p) ∷ ks) m =
      clean_pins-counted restored ks (clean_found restored k (find_pin k m) m)
      ∙ clean_found-counted restored k (find_pin k m) m refl

  pin_parsed-Counts :
      (i : Identity) (r : Round) (x : Result ViewerError WindowPin) (f : Factory)
      → Counts j f
      → Counts j (pin_parsed i r x f).0
  unfolding pin_parsed
  pin_parsed-Counts i r (err e) f v = v
  pin_parsed-Counts i r (ok w) f v =
      elim (Bool-cases (not (is_empty i.window_id) && not (equal w.window_id i.window_id))) [
        | inl changed ↦ rw changed v
        | inr same ↦ rw same (pin_at-Counts _ r w _ f refl v)
      ]

  pin_round-Counts :
      (i : Identity) (r : Round) (o : Option Bytes) (f : Factory)
      → Counts j f
      → Counts j (pin_round i r o f).0
  unfolding pin_round
  pin_round-Counts i r none f v = v
  pin_round-Counts i r (some output) f v = pin_parsed-Counts i r _ f v

  pin_rounds-Counts :
      (left : ℕ) (i : Identity) (rounds : ℕ → Round) (n : ℕ) (f : Factory)
      → Counts j f
      → Counts j (pin_rounds left i rounds n f).0
  unfolding pin_rounds
  pin_rounds-Counts zero i rounds n f v = v
  pin_rounds-Counts (suc left) i rounds n f v =
      let once = pin_round-Counts i (rounds n) (rounds n).captured f v in
      let more =
        pin_rounds-Counts left i rounds (n + 1) (pin_round i (rounds n) (rounds n).captured f).0
          once in
      elim (Bool-cases (is_again (pin_round i (rounds n) (rounds n).captured f).1)) [
        | inl next ↦ rw next more
        | inr done ↦ rw done once
      ]

  Step-Counts : {f g : Factory} → Step f g → Counts j f → Counts j g
  unfolding pin_window release cleanup
  Step-Counts {f} (pins_window i rounds) v =
      pin_rounds-Counts viewer_window_pin_attempts i rounds 0 f v
  Step-Counts {f} (releases i restored) v =
      release_lease-Counts i restored (get_lease i f.leases) f refl v
  Step-Counts {f} (cleans restored) v = clean_pins-counted restored f.pins f.pins ∙ v

  Reach-Counts : {f : Factory} → Reach new_factory f → Counts j f
  unfolding new_factory find_pin
  Reach-Counts here = refl
  Reach-Counts (after r s) = Step-Counts s (Reach-Counts r)

-- Whatever the viewers of a factory do, and whatever tmux answers, a pin is referenced as often as
-- leases of its window are out.
pub reachable-Counts : {f : Factory} (k : Key) → Reach new_factory f → Counts k f
reachable-Counts k r = Reach-Counts k r

release_pin-last :
    (k j : Key) (decrement restored : Bool) (o : Option Pin) (f : Factory)
    → (release_pin k decrement restored o f).1 ≡ some j
    → counted (find_pin j (release_pin k decrement restored o f).0.pins) ≡ 0
unfolding release_pin
release_pin-last k j decrement restored none f h = cc
release_pin-last k j decrement restored (some p) f h = ground (
  arith,
  same_key_iff k j,
  find-erase_pin k j f.pins,
  find-put_pin k j (record p { references = if decrement then p.references - 1 else p.references })
      f.pins,
)

release_lease-last :
    (i : ℕ) (restored : Bool) (o : Option Lease) (j : Key) (f : Factory)
    → (release_lease i restored o f).1 ≡ some j
    → counted (find_pin j (release_lease i restored o f).0.pins) ≡ 0
unfolding release_lease
release_lease-last i restored none j f h = cc
release_lease-last i restored (some l) j f h =
    release_pin-last l.key j (not l.released) restored (find_pin l.key f.pins)
      (record f { leases = mark_released i f.leases }) h

-- A release asks tmux to restore a window's size only when no lease of that window is left out.
pub release-restores_last :
    {f : Factory} (i : ℕ) (restored : Bool) (k : Key)
    → Reach new_factory f
    → (release i restored f).1 ≡ some k
    → outstanding k (release i restored f).0.leases ≡ 0
unfolding release
release-restores_last {f} i restored k r h =
    sym (release_lease-Counts k i restored (get_lease i f.leases) f refl (reachable-Counts k r))
    ∙ release_lease-last i restored (get_lease i f.leases) k f h
