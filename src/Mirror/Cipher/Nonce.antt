-- ===== src/Mirror/Cipher/Nonce.antt =====
-- The nonces of a direction never repeat.
use wrap.Base.{ℕ, ◌+◌, ◌*◌, ◌^◌, ◌<◌, ◌≡◌, refl, sym, ap, ◌∙◌, [], ◌∷◌, arith, length, Bytes}
use wrap.Mirror.Cipher.{counter_nonce}

pub length-counter_nonce : (c : ℕ) → length (counter_nonce c) ≡ 12
unfolding counter_nonce
length-counter_nonce c = refl

-- The number that eight bytes spell, the most significant first.
abbrev get_uint64 : Bytes → ℕ
get_uint64 (_ ∷ _ ∷ _ ∷ _ ∷ a ∷ b ∷ c ∷ d ∷ e ∷ f ∷ g ∷ h ∷ []) =
    ((((((a * 256 + b) * 256 + c) * 256 + d) * 256 + e) * 256 + f) * 256 + g) * 256 + h
get_uint64 _ = 0

get_uint64-counter_nonce : (c : ℕ) → c < 2 ^ 64 → get_uint64 (counter_nonce c) ≡ c
unfolding counter_nonce
get_uint64-counter_nonce c h = omega arith

-- Two counters of 64 bits with the same nonce are one counter.
pub counter_nonce_injective :
    (m n : ℕ) → m < 2 ^ 64 → n < 2 ^ 64 → counter_nonce m ≡ counter_nonce n → m ≡ n
counter_nonce_injective m n hm hn e =
    sym (get_uint64-counter_nonce m hm) ∙ ap get_uint64 e ∙ get_uint64-counter_nonce n hn
