-- ===== src/Mirror/Server.antt =====
-- internal/mirror/server.go: the admission of clients. Each request for a web socket is handled by a
-- goroutine of its own; a stretch of it that works on the shared server is one step. A handler makes
-- at most one client, so a client is the number of its handler. The upgrade, the handshake and the
-- service of a client are not here: their outcomes are arguments.
pub mod Diagnostics
pub mod Admission
mod Tests
use wrap.Base.{
  ℕ, ◌+◌, ◌-◌, ◌%◌, ◌^◌, Bool, true, false, not, ◌||◌, Option, none, some, List, [], ◌∷◌, ◌++◌, ltb,
  ◌==◌, if◌then◌else◌, is_empty, Bytes, codes, equal, set, get_elem?,
}
use wrap.Base.Result.{Result, ok, err}

abbrev pub max_handshakes : ℕ
max_handshakes = 16

abbrev pub max_clients : ℕ
max_clients = 8

pub record LocalServer : Type 0 where
  pub public_host : Bytes
  pub secret : Bytes
  pub secret_version : ℕ
  -- The slots that are taken.
  pub handshakes : ℕ
  pub clients : ℕ
  -- The version of the secret under which a client was let in.
  pub connections : ℕ → Option ℕ

-- Where a handler stands in handleWebSocket.
pub data Handler : Type 0 where
  waiting holding leaving finished : Handler
  -- With the public host, the secret and its version as it has read them.
  informed : Bytes → Bytes → ℕ → Handler
  upgraded : Bytes → ℕ → Handler
  authenticated admitted connected : ℕ → Handler

pub data Rejection : Type 0 where
  server_busy server_starting origin_rejected upgrade_failed : Rejection
  authentication_failed client_capacity credential_expired : Rejection
  automatic_target_unavailable : Rejection

-- What the handler meets next.
pub data Event : Type 0 where
  asks reads : Event
  -- The values of Origin, and whether the upgrade succeeds.
  upgrades : List Bytes → Bool → Event
  authenticates : Bool → Event
  takes_slot registers leaves : Event
  -- Whether Connected refused; if not, the client has run to its end.
  ends : Bool → Event

update : (ℕ → Option ℕ) → ℕ → Option ℕ → ℕ → Option ℕ
update f i v j = if i == j then v else f j

release_handshake : LocalServer → LocalServer
release_handshake s = record s { handshakes = s.handshakes - 1 }

release_client : LocalServer → LocalServer
release_client s = record s { clients = s.clients - 1 }

pub is_origin : Bytes → List Bytes → Bool
is_origin public_host (origin ∷ []) = equal origin (codes "https://" ++ public_host)
is_origin public_host _ = false

-- A step of one handler: the server, where the handler stands then, and a rejection if there is one.
abbrev pub Moved : Type 0
Moved = LocalServer × Handler × Option Rejection

ask : LocalServer → Moved
ask s =
    if ltb s.handshakes max_handshakes
    then (record s { handshakes = s.handshakes + 1 }, holding, none)
    else (s, finished, some server_busy)

read : LocalServer → Moved
read s = (s, informed s.public_host s.secret s.secret_version, none)

upgrade : Bytes → Bytes → ℕ → List Bytes → Bool → LocalServer → Moved
unfolding release_handshake is_origin
upgrade host secret version origins succeeds s =
    if is_empty host
    then (release_handshake s, finished, some server_starting)
    else if not (is_origin host origins)
    then (release_handshake s, finished, some origin_rejected)
    else if not succeeds
    then (release_handshake s, finished, some upgrade_failed)
    else (s, upgraded secret version, none)

authenticate : ℕ → Bool → LocalServer → Moved
unfolding release_handshake
authenticate version succeeds s =
    if succeeds
    then (release_handshake s, authenticated version, none)
    else (release_handshake s, finished, some authentication_failed)

take_slot : ℕ → LocalServer → Moved
take_slot version s =
    if ltb s.clients max_clients
    then (record s { clients = s.clients + 1 }, admitted version, none)
    else (s, finished, some client_capacity)

register : ℕ → ℕ → LocalServer → Moved
unfolding update
register i version s =
    if not (version == s.secret_version)
    then (s, leaving, some credential_expired)
    else (record s { connections = update s.connections i (some version) }, connected version, none)

end : ℕ → Bool → LocalServer → Moved
unfolding update
end i refused s = (
  record s { connections = update s.connections i none },
  leaving,
  if refused then some automatic_target_unavailable else none,
)

leave : LocalServer → Moved
unfolding release_client
leave s = (release_client s, finished, none)

-- handleWebSocket, one stretch at a time; an event that the handler does not wait for does nothing.
unfoldable pub advance : ℕ → Handler → Event → LocalServer → Moved
unfolding ask read upgrade authenticate take_slot register end leave
advance i waiting asks s = ask s
advance i holding reads s = read s
advance i (informed host secret version) (upgrades origins succeeds) s =
    upgrade host secret version origins succeeds s
advance i (upgraded secret version) (authenticates succeeds) s = authenticate version succeeds s
advance i (authenticated version) takes_slot s = take_slot version s
advance i (admitted version) registers s = register i version s
advance i (connected version) (ends refused) s = end i refused s
advance i leaving leaves s = leave s
advance i h e s = (s, h, none)

-- The clients that SetSecret goes on to close.
pub clients_of : LocalServer → ℕ → Bool
clients_of s i = elim (s.connections i) [ none ↦ false | some version ↦ true ]

unfoldable pub set_secret : Bytes → LocalServer → LocalServer
set_secret secret s = record s { secret = secret; secret_version = (s.secret_version + 1) % 2 ^ 64 }

unfoldable pub set_public_host : Bytes → LocalServer → LocalServer
set_public_host host s = record s { public_host = host }
