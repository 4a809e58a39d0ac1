-- ===== src/Mirror/Tunnel.antt =====
-- internal/mirror/tunnel.go: what is read of cloudflared's output. Its process is not modelled; what it
-- prints and how it ends are events.
pub mod Tail
pub mod Origin
mod Tests
use wrap.Base.{
  ℕ, ◌+◌, ◌-◌, Bool, true, false, not, ◌&&◌, ◌||◌, Option, none, some, List, [], ◌∷◌, ◌++◌, reverse,
  ltb, leb, ◌==◌, if◌then◌else◌, length, drop, is_empty, any, Bytes, codes, equal, ℤ, pos, atoi,
  fields, contains,
}
use wrap.Mirror.Pairing.{is_tunnel_origin}
use wrap.Mirror.Url.{Url, UrlPackage, is_bare}

-- 64 << 10
abbrev pub max_tunnel_diagnostics : ℕ
max_tunnel_diagnostics = 65536

-- The in-place move: the last bytes of `tail` that leave room for the payload.
make_room : ℕ → Bytes → Bytes
make_room overflow tail = if ltb 0 overflow then drop overflow tail else tail

-- One write to a tail of `limit` bytes.
pub push_tail : ℕ → Bytes → Bytes → Bytes
unfolding make_room
push_tail limit tail payload =
    if leb limit (length payload)
    then drop (length payload - limit) payload
    else make_room (length tail + length payload - limit) tail ++ payload

-- diagnosticTail.Write
unfoldable pub write_tail : Bytes → Bytes → Bytes
unfolding push_tail
write_tail tail payload = push_tail max_tunnel_diagnostics tail payload

abbrev is_digit : ℕ → Bool
is_digit c = leb b'0' c && leb c b'9'

-- A byte that `\b` takes for a part of a word.
abbrev is_word : ℕ → Bool
is_word c = is_digit c || leb b'a' c && leb c b'z' || leb b'A' c && leb c b'Z' || c == b'_'

-- The digits at the front, and what is behind them.
span_digits : Bytes → Bytes × Bytes
span_digits [] = ([], [])
span_digits (c ∷ cs) =
    let (ds, rest) = span_digits cs in if is_digit c then (c ∷ ds, rest) else ([], c ∷ cs)

at_word_end : Bytes → Bool
at_word_end [] = true
at_word_end (c ∷ cs) = not (is_word c)

-- A dot and digits. They are followed by a dot or by the end of a word, so the longest run is the only
-- one that can match.
dotted : Bytes → Option (Bytes × Bytes)
unfolding span_digits
dotted [] = none
dotted (c ∷ cs) =
    let (ds, rest) = span_digits cs in
    if c == b'.' && not (is_empty ds) then some (ds, rest) else none

pub record Version : Type 0 where
  pub year : Bytes
  pub month : Bytes
  pub patch : Bytes

third : Bytes → Bytes → Option (Bytes × Bytes) → Option Version
unfolding at_word_end
third y m none = none
third y m (some (p, rest)) =
    if at_word_end rest then some (record { year = y; month = m; patch = p }) else none

second : Bytes → Option (Bytes × Bytes) → Option Version
unfolding third dotted
second y none = none
second y (some (m, rest)) = third y m (dotted rest)

-- A match that starts here.
version_at : Bytes → Option Version
unfolding second span_digits dotted
version_at s =
    let (y, rest) = span_digits s in if length y == 4 then second y (dotted rest) else none

-- \b(\d{4})\.(\d+)\.(\d+)\b, the leftmost match; `inside` tells whether a word reaches up to here.
find_version : Bool → Bytes → Option Version
unfolding version_at
find_version inside [] = none
find_version inside (c ∷ cs) =
    let later = find_version (is_word c) cs in
    elim (if inside then none else version_at (c ∷ cs)) [ none ↦ later | some v ↦ some v ]

pub data TunnelError : Type 0 where
  no_version too_old several_urls no_url bad_origin : TunnelError
  exited timed_out canceled : TunnelError

pub data Result {ℓ} (A : Type ℓ) : Type ℓ where
  ok : A → Result A
  err : TunnelError → Result A

pub version_text : Version → Bytes
version_text v = v.year ++ (b'.' ∷ (v.month ++ (b'.' ∷ v.patch)))

-- Against the minimum 2020.5.1, part by part.
pub is_recent : ℕ → ℕ → ℕ → Bool
is_recent y m p =
    if ltb 2020 y
    then true
    else if ltb y 2020
    then false
    else if ltb 5 m
    then true
    else if ltb m 5
    then false
    else leb 1 p

judge_version : Version → Option ℤ → Option ℤ → Option ℤ → Result Bytes
unfolding is_recent version_text
judge_version v (some (pos y)) (some (pos m)) (some (pos p)) =
    if is_recent y m p then ok (version_text v) else err too_old
judge_version v _ _ _ = err no_version

check_version : Option Version → Result Bytes
unfolding judge_version
check_version none = err no_version
check_version (some v) = judge_version v (atoi v.year) (atoi v.month) (atoi v.patch)

pub parse_cloudflared_version : Bytes → Result Bytes
unfolding check_version find_version
parse_cloudflared_version output = check_version (find_version false output)

-- strings.Trim(field, "|[]()<>\"',")
is_wrapping : ℕ → Bool
is_wrapping c = any (λ d. c == d) (codes "|[]()<>\"',")

drop_wrapping : Bytes → Bytes
drop_wrapping [] = []
drop_wrapping (c ∷ cs) = let rest = drop_wrapping cs in if is_wrapping c then rest else c ∷ cs

pub trim_wrapping : Bytes → Bytes
unfolding drop_wrapping is_wrapping any
trim_wrapping s = reverse (drop_wrapping (reverse (drop_wrapping s)))

-- What wakes the loop of StartTunnel: output, or the end of the process, a timeout, a cancellation.
pub data Event : Type 0 where
  printed : Bytes → Event
  stopped : TunnelError → Event

pub data Started : Type 0 where
  ready : Bytes → Started
  failed : TunnelError → Started
  waiting : Started

module _ (url : UrlPackage) where
  origin_of : Option Url → Option Bytes
  unfolding is_tunnel_origin
  origin_of none = none
  origin_of (some u) = if is_tunnel_origin u then some (url.print u) else none

  -- The origin that one field shows, if it is one of a Quick Tunnel.
  pub field_origin : Bytes → Option Bytes
  unfolding origin_of trim_wrapping contains
  field_origin field =
      let candidate = trim_wrapping field in
      if contains candidate (codes "trycloudflare.com")
      then origin_of (url.parse candidate)
      else none

  -- `found` is empty until an origin is found; an origin that prints as nothing counts as none.
  collect : Bytes → List Bytes → Result Bytes
  collect found [] = if is_empty found then err no_url else ok found
  collect found (field ∷ rest) = elim (field_origin field) [
    | none ↦ collect found rest
    | some origin ↦
        if not (is_empty found) && not (equal origin found)
        then err several_urls
        else collect origin rest
  ]

  pub extract_quick_tunnel_url : Bytes → Result Bytes
  unfolding collect fields
  extract_quick_tunnel_url output = collect [] (fields output)

  origin_is_loopback : Option Url → Option TunnelError
  unfolding is_bare
  origin_is_loopback none = some bad_origin
  origin_is_loopback (some u) =
      if not (equal u.scheme (codes "http"))
        || not (url.is_ip u.hostname)
        || not (url.is_loopback u.hostname)
        || is_empty u.port
        || not (is_bare u)
      then some bad_origin
      else none

  pub validate_tunnel_origin : Bytes → Option TunnelError
  unfolding origin_is_loopback
  validate_tunnel_origin raw = origin_is_loopback (url.parse raw)

  -- The loop: the tail is searched first, then the next event is awaited.
  pub await_url : Bytes → List Event → Started
  await_url tail [] = elim (extract_quick_tunnel_url tail) [ ok u ↦ ready u | err _ ↦ waiting ]
  await_url tail (e ∷ es) = elim (extract_quick_tunnel_url tail) [
    | ok u ↦ ready u
    | err _ ↦ elim e [
      | printed output ↦ await_url (write_tail tail output) es
      | stopped reason ↦ failed reason
    ]
  ]
