-- ===== src/Mirror/Pairing.antt =====
-- internal/mirror/pairing.go: the secret of a pairing and the URL that carries it. base64 and net/url
-- are parameters. The QR code is drawn by another package.
use wrap.Base.{
  ℕ, Bool, false, not, ◌&&◌, ◌||◌, Option, none, some, [], ◌∷◌, ◌++◌, reverse, ltb, leb, ◌==◌,
  if◌then◌else◌, length, take, all, Bytes, codes, equal, has_suffix, trim_suffix,
}
use wrap.Base.Base64.{Base64}
use wrap.Mirror.Url.{Url, UrlPackage, is_bare}

abbrev tunnel_domain : Bytes
tunnel_domain = codes ".trycloudflare.com"

abbrev is_label_end : ℕ → Bool
is_label_end c = leb b'a' c && leb c b'z' || leb b'0' c && leb c b'9'

abbrev is_label_byte : ℕ → Bool
is_label_byte c = is_label_end c || c == b'-'

ends_well : Bytes → Bool
ends_well [] = false
ends_well (c ∷ cs) = is_label_end c

-- [a-z0-9](?:[a-z0-9-]{0,61}[a-z0-9])?
is_label : Bytes → Bool
unfolding ends_well all
is_label s = ends_well s && ends_well (reverse s) && all is_label_byte s && leb (length s) 63

-- ^[a-z0-9](?:[a-z0-9-]{0,61}[a-z0-9])?\.trycloudflare\.com$
unfoldable pub is_quick_tunnel_host : Bytes → Bool
unfolding is_label has_suffix trim_suffix
is_quick_tunnel_host host =
    has_suffix host tunnel_domain && is_label (trim_suffix host tunnel_domain)

-- The tests that extractQuickTunnelURL and PairingURL share.
unfoldable pub is_tunnel_origin : Url → Bool
unfolding is_bare
is_tunnel_origin u =
    equal u.scheme (codes "https")
    && is_quick_tunnel_host u.hostname
    && equal u.host u.hostname
    && is_bare u

pub data PairingError : Type 0 where
  no_random short_random bad_encoding bad_length : PairingError
  bad_url not_a_tunnel host_is_ip : PairingError

pub data Result {ℓ} (A : Type ℓ) : Type ℓ where
  ok : A → Result A
  err : PairingError → Result A

-- `random` is what the source yields: none if there is no source.
pub new_secret : Option Bytes → Result Bytes
new_secret none = err no_random
new_secret (some random) = if ltb (length random) 32 then err short_random else ok (take 32 random)

check_length : Option Bytes → Result Bytes
check_length none = err bad_encoding
check_length (some decoded) = if length decoded == 32 then ok decoded else err bad_length

pub parse_secret : Base64 → Bytes → Result Bytes
unfolding check_length
parse_secret base64 raw = check_length (base64.decode raw)

with_secret : UrlPackage → Base64 → Bytes → Option Url → Result Bytes
with_secret url base64 secret none = err bad_url
with_secret url base64 secret (some u) =
    if not (is_tunnel_origin u)
    then err not_a_tunnel
    else if url.is_ip u.hostname
    then err host_is_ip
    else ok
        (url.print (record u { path = codes "/"; fragment = codes "k=" ++ base64.encode secret }))

pub pairing_url : UrlPackage → Base64 → Bytes → Bytes → Result Bytes
unfolding with_secret
pairing_url url base64 public_url secret = with_secret url base64 secret (url.parse public_url)
