-- ===== src/Base/Base64.antt =====
-- base64.RawURLEncoding, a parameter.
use wrap.Base.Text.{Bytes}
use mathlib.Core.Option.{Option}

pub record Base64 : Type 0 where
  pub encode : Bytes → Bytes
  pub decode : Bytes → Option Bytes
