-- ===== src/Base/Result.antt =====
-- Go's pair of a result and an error, of which one is set.
use wrap.Base.Tests.{if◌then◌else◌}
use mathlib.Core.Bool.{Bool, true, false}
use mathlib.Core.Option.{Option, none, some}
use mathlib.Core.Path.{◌≡◌, refl}

pub data Result {ℓ} (E : Type 0) (A : Type ℓ) : Type ℓ where
  err : E → Result E A
  ok : A → Result E A

infixl 5 ◌>>=◌ ◌>>◌
abbrev pub ◌>>=◌ : {E A B : Type 0} → Result E A → (A → Result E B) → Result E B
◌>>=◌ (err e) next = err e
◌>>=◌ (ok a) next = next a

abbrev pub ◌>>◌ : {E B : Type 0} → Result E (Unit {0}) → Result E B → Result E B
◌>>◌ check next = check >>= λ done. next

abbrev pub or_fail : {E A : Type 0} → E → Option A → Result E A
or_fail e (some a) = ok a
or_fail e none = err e

abbrev pub require : {E : Type 0} → Bool → E → Result E (Unit {0})
require b e = if b then ok tt else err e

module _ {E A : Type 0} where
  -- A chain that succeeds succeeds at its first link.
  pub ok_through :
      {B : Type 0} (first : Result E A) (next : A → Result E B) {b : B}
      → (first >>= next) ≡ ok b
      → (a : A) × (next a ≡ ok b) × (first ≡ ok a)
  ok_through (err e) next h = cc
  ok_through (ok a) next h = (a, h, refl)

  pub or_fail-ok_lem : (e : E) (x : Option A) {a : A} → or_fail e x ≡ ok a → x ≡ some a
  or_fail-ok_lem e none h = cc
  or_fail-ok_lem e (some a) h = cc

pub require-ok_lem : {E : Type 0} (b : Bool) (e : E) {u : Unit {0}} → require b e ≡ ok u → b ≡ true
require-ok_lem true e h = refl
require-ok_lem false e h = cc
