-- ===== src/Mirror/Cipher/Poison.antt =====
-- A cipher that has failed once fails for good.
use wrap.Base.{ℕ, ◌≡◌, arith, Bytes}
use wrap.Mirror.Cipher.{Sealer, Opener, err, CipherError, poisoned, seal, open_frame}

-- After an error of `Seal`, every further call returns `ErrCipherPoisoned` and changes nothing.
pub seal_fails_for_good :
    (s : Sealer) (tag : ℕ) (payload : Bytes) {s' : Sealer} {e : CipherError}
    → seal s tag payload ≡ (s', err e)
    → (tag' : ℕ) (payload' : Bytes) → seal s' tag' payload' ≡ (s', err poisoned)
unfolding seal
seal_fails_for_good s tag payload h tag' payload' = ground arith

-- After an error of `Open`, every further call returns `ErrCipherPoisoned` and changes nothing.
pub open_fails_for_good :
    (o : Opener) (text : Bytes) {o' : Opener} {e : CipherError}
    → open_frame o text ≡ (o', err e)
    → (text' : Bytes) → open_frame o' text' ≡ (o', err poisoned)
unfolding open_frame
open_fails_for_good o text {o'} h text' = ground arith
