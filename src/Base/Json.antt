-- ===== src/Base/Json.antt =====
-- encoding/json, which is not modelled: an encoder and a decoder for one type are parameters.
use wrap.Base.Text.{Bytes}
use mathlib.Core.Option.{Option, some}
use mathlib.Core.Path.{◌≡◌}

-- What the second `Decode` of a stream meets: the end, one more value, or a syntax error.
pub data Trailing : Type 0 where
  eof value malformed : Trailing

-- `decode` is the first `Decode` with unknown fields disallowed; it returns the bytes behind the value.
pub record Json {ℓ} (A : Type ℓ) : Type ℓ where
  pub marshal : A → Option Bytes
  pub decode : Bytes → Option (A × Bytes)
  pub trailing : Bytes → Trailing

-- `text` reads as `a`, with nothing behind it.
pub record Reads {ℓ} {A : Type ℓ} (json : Json A) (text : Bytes) (a : A) : Type ℓ where
  pub rest : Bytes
  pub decodes : json.decode text ≡ some (a, rest)
  pub ends : json.trailing rest ≡ eof
