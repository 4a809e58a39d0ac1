-- ===== src/Mirror/Maps.antt =====
-- The sets and maps of clients that the manager keeps; a client is a number.
use wrap.Base.{
  ℕ, ◌≡◌, Bool, true, false, ◌||◌, Option, none, some, List, [], ◌∷◌, arith, ◌==◌, if◌then◌else◌,
}

unfoldable pub member : ℕ → List ℕ → Bool
member c [] = false
member c (d ∷ ds) = d == c || member c ds

unfoldable pub remove : ℕ → List ℕ → List ℕ
remove c [] = []
remove c (d ∷ ds) = let rest = remove c ds in if d == c then rest else d ∷ rest

unfoldable pub add : ℕ → List ℕ → List ℕ
unfolding remove
add c ds = c ∷ remove c ds

pub member-remove :
    (c d : ℕ) (ds : List ℕ) → member d (remove c ds) ≡ (if c == d then false else member d ds)
unfolding member remove
member-remove c d [] = ground arith
member-remove c d (e ∷ ds) = ground (arith, member-remove c d ds)

pub member-add :
    (c d : ℕ) (ds : List ℕ) → member d (add c ds) ≡ (if c == d then true else member d ds)
unfolding member add
member-add c d ds = ground (arith, member-remove c d ds)

module _ {A : Type 0} where
  unfoldable pub find : ℕ → List (ℕ × A) → Option A
  find c [] = none
  find c ((d, a) ∷ m) = if d == c then some a else find c m

  unfoldable pub erase : ℕ → List (ℕ × A) → List (ℕ × A)
  erase c [] = []
  erase c ((d, a) ∷ m) = let rest = erase c m in if d == c then rest else (d, a) ∷ rest

  unfoldable pub put : ℕ → A → List (ℕ × A) → List (ℕ × A)
  unfolding erase
  put c a m = (c, a) ∷ erase c m

  pub find-erase :
      (c d : ℕ) (m : List (ℕ × A)) → find d (erase c m) ≡ (if c == d then none else find d m)
  unfolding find erase
  find-erase c d [] = ground arith
  find-erase c d ((e, a) ∷ m) = ground (arith, find-erase c d m)

  pub find-put :
      (c d : ℕ) (a : A) (m : List (ℕ × A))
      → find d (put c a m) ≡ (if c == d then some a else find d m)
  unfolding find put
  find-put c d a m = ground (arith, find-erase c d m)
