-- ===== src/Mirror/Manager.antt =====
-- internal/mirror/manager.go: the manager's state, and one function for each stretch of code that
-- holds `m.mu`. Goroutines interleave between these stretches; `opMu` is the field `operation`.
-- Servers, tunnels, viewers and clients are numbers; an `openingViewer` pointer is a number too.
pub mod Steps
pub mod Invariant
pub mod Closing
mod Tests
use wrap.Base.{
  ℕ, Bool, true, false, not, ◌||◌, Option, none, some, List, [], ◌∷◌, ◌++◌, ◌==◌, if◌then◌else◌,
  Bytes, codes,
}
use wrap.Mirror.Maps.{member, remove, add, find, erase, put}

pub data State : Type 0 where
  stopped starting ready failed : State

-- Who holds `opMu`: nobody, a start between its two locked stretches, or a rotation between its.
pub data Operation : Type 0 where
  free start_running rotate_running : Operation

pub record ActiveViewer : Type 0 where
  pub viewer : ℕ
  pub opened_as : ℕ

pub record OpeningViewer : Type 0 where
  pub token : ℕ
  pub viewer : Option ℕ

pub record Manager : Type 0 where
  pub operation : Operation
  pub state : State
  pub public_url : Bytes
  pub pairing_url : Bytes
  pub qr : Bytes
  pub err_text : Bytes
  pub secret : Bytes
  pub server : Option ℕ
  -- The secret that the server was given last, in its options or by SetSecret.
  pub served_secret : Bytes
  pub tunnel : Option ℕ
  -- `startup`: none, or whether it has been canceled.
  pub startup : Option Bool
  pub clients : List ℕ
  pub active : List (ℕ × ActiveViewer)
  pub opening : List (ℕ × OpeningViewer)
  pub is_shutdown : Bool
  pub shutdown_asked : Bool
  pub diagnostics_failed : Bool
  pub diagnostics_warning : Bytes
  pub cleanup_warning : Bytes

pub record Snapshot : Type 0 where
  pub state : State
  pub public_url : Bytes
  pub pairing_url : Bytes
  pub qr : Bytes
  pub err : Bytes
  pub diagnostics_warning : Bytes
  pub cleanup_warning : Bytes

pub snapshot_locked : Manager → Snapshot
snapshot_locked m = record {
  state = m.state;
  public_url = m.public_url;
  pairing_url = m.pairing_url;
  qr = m.qr;
  err = m.err_text;
  diagnostics_warning = m.diagnostics_warning;
  cleanup_warning = m.cleanup_warning;
}

abbrev pub is_ready : State → Bool
is_ready ready = true
is_ready _ = false

abbrev pub is_some {ℓ} : {A : Type ℓ} → Option A → Bool
is_some none = false
is_some (some a) = true

-- `make(map…)` everywhere, and the zero values.
pub new_manager : Manager
new_manager = record {
  operation = free;
  state = stopped;
  public_url = [];
  pairing_url = [];
  qr = [];
  err_text = [];
  secret = [];
  server = none;
  served_secret = [];
  tunnel = none;
  startup = none;
  clients = [];
  active = [];
  opening = [];
  is_shutdown = false;
  shutdown_asked = false;
  diagnostics_failed = false;
  diagnostics_warning = [];
  cleanup_warning = [];
}

pub data ManagerError : Type 0 where
  shut_down not_ready stopped_during_rotation unavailable : ManagerError
  client_disconnected already_opening already_open terminal_ended send_failed opening_canceled
        no_terminal :
      ManagerError

-- `start` up to the resources: refused, ready already, or begun.
pub data Begun : Type 0 where
  refused : ManagerError → Begun
  already_ready : Snapshot → Begun
  begun : Snapshot → Begun

pub start_begin : Manager → Manager × Begun
unfolding snapshot_locked
start_begin m =
    if m.is_shutdown || m.shutdown_asked
    then (m, refused shut_down)
    else if is_ready m.state
    then (m, already_ready (snapshot_locked m))
    else let m' = record m {
      operation = start_running;
      state = starting;
      err_text = [];
      startup = some false;
    } in
      (m', begun (snapshot_locked m'))

-- `failStart`, and the deferred end of `start`. `canceled` is errors.Is(err, context.Canceled).
pub fail_start : Bool → Bytes → Manager → Manager
fail_start canceled message m = record m {
  operation = free;
  state = if canceled then stopped else failed;
  err_text = if canceled then [] else message;
  startup = none;
}

pub record Started : Type 0 where
  pub secret : Bytes
  pub server : ℕ
  pub tunnel : ℕ
  pub public_url : Bytes
  pub pairing_url : Bytes
  pub qr : Bytes

abbrev startup_canceled : Option Bool → Bool
startup_canceled (some c) = c
startup_canceled none = false

-- The last stretch of `start`; `context_done` is the disjunction of the tests on the contexts. When it is
-- canceled the tunnel and the server are closed and `failStart` runs, for a cancellation if the
-- context's own error is none or context.Canceled.
pub start_commit : Started → Bool → Bool → Bytes → Manager → Manager × Bool
unfolding fail_start
start_commit r context_done canceled message m =
    if startup_canceled m.startup || m.shutdown_asked || context_done
    then (fail_start canceled message m, false)
    else (
      record m {
        operation = free;
        secret = r.secret;
        server = some r.server;
        served_secret = r.secret;
        tunnel = some r.tunnel;
        startup = none;
        public_url = r.public_url;
        pairing_url = r.pairing_url;
        qr = r.qr;
        state = ready;
      },
      true,
    )

viewers_of_active : List (ℕ × ActiveViewer) → List ℕ
viewers_of_active [] = []
viewers_of_active ((c, a) ∷ m) = a.viewer ∷ viewers_of_active m

viewers_of_opening : List (ℕ × OpeningViewer) → List ℕ
viewers_of_opening [] = []
viewers_of_opening ((c, o) ∷ m) = elim o.viewer [
  | none ↦ viewers_of_opening m
  | some v ↦ v ∷ viewers_of_opening m
]

clients_of_opening : List (ℕ × OpeningViewer) → List ℕ
clients_of_opening [] = []
clients_of_opening ((c, o) ∷ m) = c ∷ clients_of_opening m

-- The viewers that the caller has to close, and the clients on which markViewerClosed is called.
pub record Detached : Type 0 where
  pub viewers : List ℕ
  pub marked : List ℕ

pub detach_clients_locked : Manager → Manager × Detached
unfolding viewers_of_active viewers_of_opening clients_of_opening
detach_clients_locked m = (
  record m { clients = []; active = []; opening = [] },
  record {
    viewers = viewers_of_active m.active ++ viewers_of_opening m.opening;
    marked = clients_of_opening m.opening;
  },
)

-- What `managerCleanup` takes over.
pub record Cleanup : Type 0 where
  pub server : Option ℕ
  pub tunnel : Option ℕ
  pub clients : List ℕ
  pub detached : Detached

pub clear_locked : State → Bytes → Manager → Manager × Cleanup
unfolding detach_clients_locked
clear_locked state message m =
    let (rest, detached) = detach_clients_locked m in
    (
      record rest {
        server = none;
        tunnel = none;
        secret = [];
        public_url = [];
        pairing_url = [];
        qr = [];
        cleanup_warning = [];
        state = state;
        err_text = message;
      },
      record { server = m.server; tunnel = m.tunnel; clients = m.clients; detached = detached },
    )

-- The two locked stretches before the new credential, joined: `opMu` keeps the state from changing
-- between them except through `shutdown_ask`.
pub rotate_begin : Manager → Manager × Option ManagerError
rotate_begin m =
    if not (is_ready m.state) || not (is_some m.server) || not (is_some m.tunnel)
    then (m, some not_ready)
    else (record m { operation = rotate_running }, none)

-- A failure to make the credential, its URL or its QR code.
pub rotate_abort : Manager → Manager
rotate_abort m = record m { operation = free }

-- With SetSecret on the server.
pub rotate_commit : Bytes → Bytes → Bytes → Manager → Manager × (Option ManagerError × Detached)
unfolding detach_clients_locked
rotate_commit secret pairing_url qr m =
    if not (is_ready m.state) || not (is_some m.server)
    then (
      record m { operation = free },
      (some stopped_during_rotation, record { viewers = []; marked = [] }),
    )
    else let (rest, detached) = detach_clients_locked m in
      (
        record rest { served_secret = secret; secret = secret; pairing_url = pairing_url; qr = qr },
        (none, detached),
      )

abbrev pub rotation_warning : Bytes
rotation_warning = codes "pairing rotated, but terminal cleanup was incomplete"

pub rotate_finish : Bool → Manager → Manager
rotate_finish cleanup_failed m = record m {
  operation = free;
  cleanup_warning = if cleanup_failed then rotation_warning else [];
}

-- The first stretch of `Shutdown`, without `opMu`.
pub shutdown_ask : Manager → Manager
shutdown_ask m = record m {
  shutdown_asked = true;
  startup = elim m.startup [ none ↦ none | some c ↦ some true ];
}

pub shutdown_commit : Manager → Manager × Option Cleanup
unfolding clear_locked
shutdown_commit m =
    if m.is_shutdown
    then (m, none)
    else let (cleared, cleanup) = clear_locked stopped [] (record m { is_shutdown = true }) in
      (cleared, some cleanup)

pub connected : ℕ → Manager → Manager × Option ManagerError
connected client m =
    if not (is_ready m.state) || m.is_shutdown
    then (m, some unavailable)
    else (record m { clients = add client m.clients }, none)

-- The first locked stretch of `open`; `sent` is whether SendControl succeeds.
pub open_reserve : ℕ → ℕ → Bool → Manager → Manager × Option ManagerError
open_reserve client token sent m =
    if not (member client m.clients)
    then (m, some client_disconnected)
    else if is_some (find client m.opening)
    then (m, some already_opening)
    else if is_some (find client m.active)
    then (m, some already_open)
    else if not (is_ready m.state) || m.is_shutdown
    then (m, some terminal_ended)
    else if not sent
    then (record m { opening = erase client m.opening }, some send_failed)
    else (
      record m { opening = put client (record { token = token; viewer = none }) m.opening },
      none,
    )

abbrev pub is_current : ℕ → Option OpeningViewer → Bool
is_current token none = false
is_current token (some o) = o.token == token

-- The second: the viewer has started.
pub open_started : ℕ → ℕ → ℕ → Manager → Manager × Option ManagerError
open_started client token viewer m =
    if not (is_current token (find client m.opening)) then (m, some opening_canceled) else (
      record m { opening = put client (record { token = token; viewer = some viewer }) m.opening },
      none,
    )

-- The third: the opening viewer becomes the active one.
pub open_activate : ℕ → ℕ → ℕ → Manager → Manager × Option ManagerError
open_activate client token viewer m =
    let reserved = is_current token (find client m.opening) in
    let released = if reserved then record m { opening = erase client m.opening } else m in
    if not (member client m.clients)
    then (released, some client_disconnected)
    else if is_some (find client m.active)
    then (released, some already_open)
    else if not (is_ready m.state) || m.is_shutdown
    then (released, some terminal_ended)
    else if not reserved
    then (released, some opening_canceled)
    else (
      record released {
        active = put client (record { viewer = viewer; opened_as = token }) m.active;
      },
      none,
    )

viewer_of_opening : Option OpeningViewer → Option ℕ
viewer_of_opening none = none
viewer_of_opening (some o) = o.viewer

-- The viewer that `Close` and `Disconnected` close: the active one, or else the opening one.
to_close : Option ActiveViewer → Option OpeningViewer → Option ℕ
unfolding viewer_of_opening
to_close (some a) o = some a.viewer
to_close none o = viewer_of_opening o

pub close : ℕ → Manager → Manager × Option ℕ
unfolding to_close
close client m = (
  record m { active = erase client m.active; opening = erase client m.opening },
  to_close (find client m.active) (find client m.opening),
)

abbrev some_viewer : Option ActiveViewer → List ℕ
some_viewer none = []
some_viewer (some a) = a.viewer ∷ []

abbrev some_opening : Option OpeningViewer → List ℕ
some_opening none = []
some_opening (some o) = elim o.viewer [ none ↦ [] | some v ↦ v ∷ [] ]

pub disconnected : ℕ → Manager → Manager × List ℕ
disconnected client m = (
  record m {
    clients = remove client m.clients;
    active = erase client m.active;
    opening = erase client m.opening;
  },
  some_viewer (find client m.active) ++ some_opening (find client m.opening),
)

pub remove_opening : ℕ → ℕ → Manager → Manager
remove_opening client token m =
    if is_current token (find client m.opening)
    then record m { opening = erase client m.opening }
    else m

abbrev pub is_active_as : ℕ → Option ActiveViewer → Bool
is_active_as token none = false
is_active_as token (some a) = a.opened_as == token

-- Whether output of the viewer that was opened as `token` is sent to the client.
pub sends_output : ℕ → ℕ → Manager → Bool
sends_output client token m =
    is_current token (find client m.opening) || is_active_as token (find client m.active)

pub input : ℕ → Manager → Option ℕ
input client m = elim (find client m.active) [ none ↦ none | some a ↦ some a.viewer ]

abbrev is_tunnel : ℕ → Option ℕ → Bool
is_tunnel t none = false
is_tunnel t (some u) = u == t

pub watch_tunnel : ℕ → Bytes → Manager → Manager × Option Cleanup
unfolding clear_locked
watch_tunnel tunnel message m =
    if not (is_tunnel tunnel m.tunnel) || m.is_shutdown
    then (m, none)
    else let (cleared, cleanup) = clear_locked failed message m in (cleared, some cleanup)

abbrev is_viewer : ℕ → Option ActiveViewer → Bool
is_viewer v none = false
is_viewer v (some a) = a.viewer == v

-- Every viewer of a manager has its one identity, so the comparison of identities passes.
pub watch_viewer : ℕ → ℕ → Manager → Manager × Bool
watch_viewer client viewer m =
    if not (is_viewer viewer (find client m.active))
    then (m, false)
    else (record m { active = erase client m.active }, true)

abbrev pub viewer_warning : Bytes
viewer_warning = codes "terminal cleanup was incomplete"

pub record_viewer_cleanup_failure : Bool → Manager → Manager
record_viewer_cleanup_failure incomplete m =
    if incomplete then record m { cleanup_warning = viewer_warning } else m

-- `write_failed` is what the sink returns; `has_sink` whether there is one.
pub record_diagnostic : Bool → Bool → Manager → Manager
record_diagnostic has_sink write_failed m =
    if not has_sink || m.diagnostics_failed || not write_failed then m else record m {
      diagnostics_failed = true;
      diagnostics_warning = codes "diagnostics unavailable";
    }
