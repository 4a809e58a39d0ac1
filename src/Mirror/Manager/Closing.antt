-- ===== src/Mirror/Manager/Closing.antt =====
-- Shutdown is final, and what is closed with it.
use wrap.Base.{
  ℕ, ◌≡◌, refl, ap, subst, if◌then◌else◌, true, false, none, some, List, [], ◌∷◌, ◌++◌, arith,
  Bytes,
}
use wrap.Mirror.Maps.{member, find, erase, remove}
use wrap.Mirror.Manager.Steps.{
  Step, Reach, here, after, starts, start_fails, start_commits, rotates, rotate_aborts,
  rotate_commits, rotate_finishes, shutdown_asks, shutdown_commits, tunnel_exits, connects,
  reserves, viewer_starts, activates, closes, disconnects, releases, viewer_ends, warns, diagnoses,
}
use wrap.Mirror.Manager.Invariant.{ResourceInv}
use wrap.Mirror.Manager.{
  viewers_of_active, viewers_of_opening, clients_of_opening, detach_clients_locked, clear_locked,
  Detached, Cleanup, free, rotate_running, is_some, Manager, stopped, ready, ActiveViewer,
  OpeningViewer, is_ready, start_begin, fail_start, start_commit, rotate_begin, rotate_abort,
  rotate_commit, rotate_finish, shutdown_ask, shutdown_commit, connected, open_reserve,
  open_started, open_activate, close, disconnected, remove_opening, watch_tunnel, watch_viewer,
  record_viewer_cleanup_failure, record_diagnostic, sends_output, input,
}

-- What a manager that has shut down is: stopped for good, with nothing left.
pub record Emptied (m : Manager) : Type 0 where
  pub final : m.is_shutdown ≡ true
  pub asked : m.shutdown_asked ≡ true
  pub idle : m.operation ≡ free
  pub stopped_now : m.state ≡ stopped
  pub clients : m.clients ≡ []
  pub active : m.active ≡ []
  pub opening : m.opening ≡ []
  pub server : m.server ≡ none
  pub tunnel : m.tunnel ≡ none
  pub secret : m.secret ≡ []
  pub public_url : m.public_url ≡ []
  pub pairing_url : m.pairing_url ≡ []
  pub qr : m.qr ≡ []

Step-Emptied : {m n : Manager} → Step m n → Emptied m → Emptied n
unfolding start_begin fail_start start_commit rotate_begin rotate_abort rotate_commit rotate_finish
    shutdown_ask shutdown_commit connected open_reserve open_started open_activate close
    disconnected remove_opening watch_tunnel watch_viewer record_viewer_cleanup_failure
    record_diagnostic find erase remove member
Step-Emptied (starts h) v = ground arith
Step-Emptied (start_fails canceled message h) v = ground arith
Step-Emptied (start_commits s d k message h) v = ground arith
Step-Emptied (rotates h) v = ground arith
Step-Emptied (rotate_aborts h) v = ground arith
Step-Emptied (rotate_commits secret url qr h) v = ground arith
Step-Emptied (rotate_finishes incomplete h) v = ground arith
Step-Emptied shutdown_asks v = ground arith
Step-Emptied (shutdown_commits h asked) v = ground arith
Step-Emptied (tunnel_exits tunnel message h) v = ground arith
Step-Emptied (connects d) v = ground arith
Step-Emptied (reserves d token sent) v = ground arith
Step-Emptied (viewer_starts d token viewer) v = ground arith
Step-Emptied (activates d token viewer) v = ground arith
Step-Emptied (closes d) v = ground arith
Step-Emptied (disconnects d) v = ground arith
Step-Emptied (releases d token) v = ground arith
Step-Emptied (viewer_ends d viewer) v = ground arith
Step-Emptied (warns incomplete) v = ground arith
Step-Emptied (diagnoses a b) v = ground arith

Reach-Emptied : {m n : Manager} → Reach m n → Emptied m → Emptied n
Reach-Emptied here e = e
Reach-Emptied (after r s) e = Step-Emptied s (Reach-Emptied r e)

member-append_left : (x : ℕ) (xs ys : List ℕ) → member x xs ≡ true → member x (xs ++ ys) ≡ true
unfolding member
member-append_left x [] ys h = cc
member-append_left x (y ∷ xs) ys h = ground (arith, member-append_left x xs ys)

member-append_right : (x : ℕ) (xs ys : List ℕ) → member x ys ≡ true → member x (xs ++ ys) ≡ true
unfolding member
member-append_right x [] ys h = h
member-append_right x (y ∷ xs) ys h = ground (arith, member-append_right x xs ys)

find-viewers_of_active :
    (c : ℕ) (m : List (ℕ × ActiveViewer)) {a : ActiveViewer}
    → find c m ≡ some a
    → member a.viewer (viewers_of_active m) ≡ true
unfolding find viewers_of_active member
find-viewers_of_active c [] h = cc
find-viewers_of_active c ((d, b) ∷ m) {a} h = ground (arith, find-viewers_of_active c m {a = a})

find-viewers_of_opening :
    (c v : ℕ) (m : List (ℕ × OpeningViewer)) {o : OpeningViewer}
    → find c m ≡ some o
    → o.viewer ≡ some v
    → member v (viewers_of_opening m) ≡ true
unfolding find viewers_of_opening member
find-viewers_of_opening c v [] h e = cc
find-viewers_of_opening c v ((d, p) ∷ m) {o} h e =
    ground (arith, find-viewers_of_opening c v m {o = o})

-- Every viewer of a manager is in the list.
pub record AllViewers (m : Manager) (viewers : List ℕ) : Type 0 where
  pub of_active :
      (c : ℕ) {a : ActiveViewer} → find c m.active ≡ some a → member a.viewer viewers ≡ true
  pub of_opening :
      (c v : ℕ) {o : OpeningViewer}
      → find c m.opening ≡ some o
      → o.viewer ≡ some v
      → member v viewers ≡ true

detached_viewers :
    (m : Manager) → AllViewers m (viewers_of_active m.active ++ viewers_of_opening m.opening)
detached_viewers m = record {
  of_active = λ c {a} h.
      member-append_left a.viewer (viewers_of_active m.active) (viewers_of_opening m.opening)
        (find-viewers_of_active c m.active h);
  of_opening = λ c v {o} h e.
      member-append_right v (viewers_of_active m.active) (viewers_of_opening m.opening)
        (find-viewers_of_opening c v m.opening h e);
}

member-clients_of_opening :
    (c : ℕ) (m : List (ℕ × OpeningViewer))
    → is_some (find c m) ≡ true
    → member c (clients_of_opening m) ≡ true
unfolding find clients_of_opening member
member-clients_of_opening c [] h = cc
member-clients_of_opening c ((d, p) ∷ m) h = ground (arith, member-clients_of_opening c m)

-- Every viewer of a manager is to be closed, and every client that opens one is marked.
pub record DetachesAll (m : Manager) (d : Detached) : Type 0 where
  pub viewers : AllViewers m d.viewers
  pub marked : (c : ℕ) → is_some (find c m.opening) ≡ true → member c d.marked ≡ true

detach_clients_locked-DetachesAll : (m : Manager) → DetachesAll m (detach_clients_locked m).1
unfolding detach_clients_locked
detach_clients_locked-DetachesAll m = record {
  viewers = detached_viewers m;
  marked = λ c h. member-clients_of_opening c m.opening h;
}

-- A rotation in a state that can be reached takes effect at once: the server is given the new
-- credential, and so is the manager; no client is connected, output of no viewer is sent on and no
-- input has a terminal; every viewer there was is handed over to be closed, and every client that was
-- opening one is marked as having none.
pub rotate_commit_cuts_off :
    (secret url qr : Bytes) (m : Manager)
    → ResourceInv m
    → m.operation ≡ rotate_running
    → let q = rotate_commit secret url qr m in
      (q.1.0 ≡ none)
      × (q.0.server ≡ m.server)
      × (q.0.served_secret ≡ secret)
      × (q.0.secret ≡ secret)
      × (q.0.clients ≡ [])
      × ((client token : ℕ) → (sends_output client token q.0 ≡ false) × (input client q.0 ≡ none))
      × DetachesAll m q.1.1
unfolding rotate_commit detach_clients_locked sends_output input find
rotate_commit_cuts_off secret url qr m v h =
    let r : m.state ≡ ready = v.rotate_held h in
    let s : is_some m.server ≡ true = (v.serving (ap is_ready r)).0 in
    let open_now : is_ready m.state ≡ true = ap is_ready r in
    simp (open_now, s)
      (refl, refl, refl, refl, refl, (λ c t. (refl, refl)), detach_clients_locked-DetachesAll m)

-- What the caller of Shutdown is given to close.
pub record HandsOver (m : Manager) (c : Cleanup) : Type 0 where
  pub server : c.server ≡ m.server
  pub tunnel : c.tunnel ≡ m.tunnel
  pub clients : c.clients ≡ m.clients
  pub detached : DetachesAll m c.detached

first_shutdown :
    (m : Manager)
    → m.is_shutdown ≡ false
    → let q = clear_locked stopped [] (record m { is_shutdown = true }) in
      shutdown_commit m ≡ (q.0, some q.1)
unfolding shutdown_commit
first_shutdown m first =
    let q = clear_locked stopped [] (record m { is_shutdown = true }) in
    ap (λ b. if b then (m, none) else (q.0, some q.1)) first

cleared-HandsOver :
    (m : Manager) → HandsOver m (clear_locked stopped [] (record m { is_shutdown = true })).1
unfolding clear_locked detach_clients_locked
cleared-HandsOver m = record {
  server = refl;
  tunnel = refl;
  clients = refl;
  detached = detach_clients_locked-DetachesAll m;
}

cleared-Emptied :
    (m : Manager)
    → m.operation ≡ free
    → m.shutdown_asked ≡ true
    → Emptied (clear_locked stopped [] (record m { is_shutdown = true })).0
unfolding clear_locked detach_clients_locked
cleared-Emptied m idle asked = record {
  final = refl;
  asked = asked;
  idle = idle;
  stopped_now = refl;
  clients = refl;
  active = refl;
  opening = refl;
  server = refl;
  tunnel = refl;
  secret = refl;
  public_url = refl;
  pairing_url = refl;
  qr = refl;
}

-- A shutdown that is the first to take the lock hands the server, the tunnel, every client and every
-- viewer over to be closed; from then on, whatever goroutines still do, the manager is stopped and
-- shut down, and has no client, no open and no opening viewer, no server, no tunnel, no credential, no
-- URL and no QR code.
pub shutdown_final :
    (m : Manager)
    → m.operation ≡ free
    → m.shutdown_asked ≡ true
    → m.is_shutdown ≡ false
    → ((c : Cleanup) × ((shutdown_commit m).1 ≡ some c) × HandsOver m c)
      × ((n : Manager) → Reach (shutdown_commit m).0 n → Emptied n)
shutdown_final m idle asked first =
    let q = clear_locked stopped [] (record m { is_shutdown = true }) in
    let e = first_shutdown m first in
    (
      (q.1, ap (λ p. p.1) e, cleared-HandsOver m),
      λ n r. Reach-Emptied (subst (λ p. Reach p.0 n) e r) (cleared-Emptied m idle asked),
    )
