-- ===== src/Mirror/Server/Admission.antt =====
-- The handlers of a server, however they interleave with one another and with the rotations.
pub mod Handling
pub mod Interleaved
use wrap.Base.{
  ℕ, zero, suc, ◌+◌, ◌-◌, ◌≤◌, ◌≡◌, refl, sym, ap, subst, ◌∙◌, ◌⊎◌, inl, inr, Bool, true, false,
  not, ◌||◌, Option, none, some, List, [], ◌∷◌, arith, ltb, ◌==◌, if◌then◌else◌, Bool-cases,
  Option-cases, Bytes, count, set, get_elem?, count-get_elem?, count-set, get_elem?-set_self,
  get_elem?-set_other, ==_iff,
}
use wrap.Mirror.Server.{
  max_handshakes, max_clients, LocalServer, Handler, waiting, holding, leaving, finished, informed,
  upgraded, authenticated, admitted, connected, Rejection, Event, asks, upgrades, authenticates,
  takes_slot, registers, leaves, ends, Moved, advance, ask, read, leave, reads, upgrade,
  authenticate, take_slot, register, end, update, release_handshake, release_client, is_origin,
  is_empty, clients_of, set_secret, set_public_host,
}

-- The server with its handlers. `told` are the clients that a SetSecret has gone on to close.
pub record System : Type 0 where
  pub server : LocalServer
  pub handlers : List Handler
  pub told : ℕ → Bool

unfoldable pub moved : System → ℕ → Handler → Event → System
moved x i h e = record x {
  server = (advance i h e x.server).0;
  handlers = set x.handlers i (advance i h e x.server).1;
}

unfoldable pub rotated : Bytes → System → System
rotated secret x = record x {
  server = set_secret secret x.server;
  told = λ i. x.told i || clients_of x.server i;
}

unfoldable pub hosted : Bytes → System → System
hosted host x = record x { server = set_public_host host x.server }

pub data Step : System → System → Type 0 where
  moves :
      (x : System) (i : ℕ) (h : Handler) (e : Event)
      → get_elem? x.handlers i ≡ some h
      → Step x (moved x i h e)
  rotates : (x : System) (secret : Bytes) → Step x (rotated secret x)
  hosts : (x : System) (host : Bytes) → Step x (hosted host x)

unfoldable pub all_waiting : ℕ → List Handler
all_waiting zero = []
all_waiting (suc n) = waiting ∷ all_waiting n

-- A server that has just started, with so many requests to come.
unfoldable pub fresh : Bytes → Bytes → ℕ → System
unfolding all_waiting
fresh host secret n = record {
  server = record {
    public_host = host;
    secret = secret;
    secret_version = 1;
    handshakes = 0;
    clients = 0;
    connections = λ i. none;
  };
  handlers = all_waiting n;
  told = λ i. false;
}

pub data Reachable (host secret : Bytes) (n : ℕ) : System → Type 0 where
  starts : Reachable host secret n (fresh host secret n)
  next : {x y : System} → Reachable host secret n x → Step x y → Reachable host secret n y

unfoldable pub is_shaking : Handler → Bool
is_shaking holding = true
is_shaking (informed host secret version) = true
is_shaking (upgraded secret version) = true
is_shaking _ = false

unfoldable pub is_served : Handler → Bool
is_served (admitted version) = true
is_served (connected version) = true
is_served leaving = true
is_served _ = false

-- A client that is served is registered, under the current secret or told to close.
abbrev pub Good : LocalServer → Bool → ℕ → Handler → Type 0
Good s told i (connected version) =
    (s.connections i ≡ some version) × ((version ≡ s.secret_version) ⊎ (told ≡ true))
Good s told i h = s.connections i ≡ none

pub record Inv (x : System) : Type 0 where
  pub handshakes_counted : x.server.handshakes ≡ count is_shaking x.handlers
  pub handshakes_bounded : x.server.handshakes ≤ max_handshakes
  pub clients_counted : x.server.clients ≡ count is_served x.handlers
  pub clients_bounded : x.server.clients ≤ max_clients
  pub each : (i : ℕ) (h : Handler) → get_elem? x.handlers i ≡ some h → Good x.server (x.told i) i h
