-- ===== src/Mirror/Manager/Invariant.antt =====
-- What holds of a manager between any two locked stretches.
use wrap.Base.{ℕ, ◌≡◌, true, false, none, some, [], arith}
use wrap.Mirror.Maps.{erase, remove, member, find, find-put, find-erase, member-add, member-remove}
use wrap.Mirror.Manager.Steps.{
  Step, starts, start_fails, start_commits, rotates, rotate_aborts, rotate_commits, rotate_finishes,
  shutdown_asks, shutdown_commits, tunnel_exits, connects, reserves, viewer_starts, activates,
  closes, disconnects, releases, viewer_ends, warns, diagnoses, Reach, here, after,
}
use wrap.Mirror.Manager.{
  Manager, stopped, starting, ready, is_ready, is_some, free, start_running, rotate_running,
  new_manager, start_begin, fail_start, start_commit, rotate_begin, rotate_abort, rotate_commit,
  rotate_finish, shutdown_ask, shutdown_commit, connected, open_reserve, open_started,
  open_activate, close, disconnected, remove_opening, watch_tunnel, watch_viewer,
  record_viewer_cleanup_failure, record_diagnostic,
}

-- No terminal without a connected client, and never an active and an opening one for the same client.
pub record ClientInv (m : Manager) (c : ℕ) : Type 0 where
  pub active_connected : is_some (find c m.active) ≡ true → member c m.clients ≡ true
  pub opening_connected : is_some (find c m.opening) ≡ true → member c m.clients ≡ true
  pub one_terminal : is_some (find c m.active) ≡ true → is_some (find c m.opening) ≡ false

-- Nothing is kept while the mirror is not ready, and everything is there while it is.
pub record ResourceInv (m : Manager) : Type 0 where
  pub idle :
      is_ready m.state ≡ false
      → (m.clients ≡ [])
        × (m.active ≡ [])
        × (m.opening ≡ [])
        × (m.server ≡ none)
        × (m.tunnel ≡ none)
        × (m.secret ≡ [])
        × (m.pairing_url ≡ [])
  pub serving : is_ready m.state ≡ true → (is_some m.server ≡ true) × (is_some m.tunnel ≡ true)
  pub start_held : m.operation ≡ start_running → m.state ≡ starting
  pub rotate_held : m.operation ≡ rotate_running → m.state ≡ ready
  pub shut :
      m.is_shutdown ≡ true → (m.state ≡ stopped) × (m.operation ≡ free) × (m.shutdown_asked ≡ true)

module _ {m : Manager} where
  Step-ClientInv : {n : Manager} (c : ℕ) → ResourceInv m → Step m n → ClientInv m c → ClientInv n c
  unfolding start_begin fail_start start_commit rotate_begin rotate_abort rotate_commit
      rotate_finish shutdown_ask shutdown_commit connected open_reserve open_started open_activate
      close disconnected remove_opening watch_tunnel watch_viewer record_viewer_cleanup_failure
      record_diagnostic find member
  Step-ClientInv c r (starts h) v = ground arith
  Step-ClientInv c r (start_fails canceled message h) v = ground arith
  Step-ClientInv c r (start_commits s d k message h) v = ground arith
  Step-ClientInv c r (rotates h) v = ground arith
  Step-ClientInv c r (rotate_aborts h) v = ground arith
  Step-ClientInv c r (rotate_commits secret url qr h) v = ground arith
  Step-ClientInv c r (rotate_finishes incomplete h) v = ground arith
  Step-ClientInv c r shutdown_asks v = ground arith
  Step-ClientInv c r (shutdown_commits h asked) v = ground arith
  Step-ClientInv c r (tunnel_exits tunnel message h) v = ground arith
  Step-ClientInv c r (connects d) v = ground (arith, member-add d c m.clients)
  Step-ClientInv c r (reserves d token sent) v = ground (
    arith,
    find-erase d c m.opening,
    find-put d c (record { token = token; viewer = none }) m.opening,
  )
  Step-ClientInv c r (viewer_starts d token viewer) v =
      ground (arith, find-put d c (record { token = token; viewer = some viewer }) m.opening)
  Step-ClientInv c r (activates d token viewer) v = ground (
    arith,
    find-erase d c m.opening,
    find-put d c (record { viewer = viewer; opened_as = token }) m.active,
  )
  Step-ClientInv c r (closes d) v =
      ground (arith, find-erase d c m.opening, find-erase d c m.active)
  Step-ClientInv c r (disconnects d) v =
      ground (arith, find-erase d c m.opening, find-erase d c m.active, member-remove d c m.clients)
  Step-ClientInv c r (releases d token) v = ground (arith, find-erase d c m.opening)
  Step-ClientInv c r (viewer_ends d viewer) v = ground (arith, find-erase d c m.active)
  Step-ClientInv c r (warns incomplete) v = ground arith
  Step-ClientInv c r (diagnoses a b) v = ground arith

  pub Step-ResourceInv : {n : Manager} → Step m n → ResourceInv m → ResourceInv n
  unfolding start_begin fail_start start_commit rotate_begin rotate_abort rotate_commit
      rotate_finish shutdown_ask shutdown_commit connected open_reserve open_started open_activate
      close disconnected remove_opening watch_tunnel watch_viewer record_viewer_cleanup_failure
      record_diagnostic find erase remove member
  Step-ResourceInv (starts h) v = ground arith
  Step-ResourceInv (start_fails canceled message h) v = ground arith
  Step-ResourceInv (start_commits s d k message h) v = ground arith
  Step-ResourceInv (rotates h) v = ground arith
  Step-ResourceInv (rotate_aborts h) v = ground arith
  Step-ResourceInv (rotate_commits secret url qr h) v = ground arith
  Step-ResourceInv (rotate_finishes incomplete h) v = ground arith
  Step-ResourceInv shutdown_asks v = ground arith
  Step-ResourceInv (shutdown_commits h asked) v = ground arith
  Step-ResourceInv (tunnel_exits tunnel message h) v = ground arith
  Step-ResourceInv (connects d) v = ground arith
  Step-ResourceInv (reserves d token sent) v = ground arith
  Step-ResourceInv (viewer_starts d token viewer) v = ground arith
  Step-ResourceInv (activates d token viewer) v = ground arith
  Step-ResourceInv (closes d) v = ground arith
  Step-ResourceInv (disconnects d) v = ground arith
  Step-ResourceInv (releases d token) v = ground arith
  Step-ResourceInv (viewer_ends d viewer) v = ground arith
  Step-ResourceInv (warns incomplete) v = ground arith
  Step-ResourceInv (diagnoses a b) v = ground arith

new_manager-ResourceInv : ResourceInv new_manager
unfolding new_manager
new_manager-ResourceInv = ground arith

new_manager-ClientInv : (c : ℕ) → ClientInv new_manager c
unfolding new_manager find
new_manager-ClientInv c = ground arith

Reach-ResourceInv : {m n : Manager} → ResourceInv m → Reach m n → ResourceInv n
Reach-ResourceInv v here = v
Reach-ResourceInv v (after r s) = Step-ResourceInv s (Reach-ResourceInv v r)

Reach-ClientInv :
    {m n : Manager} (c : ℕ) → ResourceInv m → ClientInv m c → Reach m n → ClientInv n c
Reach-ClientInv c r v here = v
Reach-ClientInv c r v (after q s) =
    Step-ClientInv c (Reach-ResourceInv r q) s (Reach-ClientInv c r v q)

-- However the goroutines interleave, a new manager keeps no client, viewer, server, tunnel or
-- credential while it is not ready, and has a server and a tunnel while it is.
pub reachable-ResourceInv : {m : Manager} → Reach new_manager m → ResourceInv m
reachable-ResourceInv = Reach-ResourceInv new_manager-ResourceInv

-- However the goroutines interleave, a terminal is open or opening only for a connected client, and
-- no client has both an open one and an opening one.
pub reachable-ClientInv : {m : Manager} (c : ℕ) → Reach new_manager m → ClientInv m c
reachable-ClientInv c = Reach-ClientInv c new_manager-ResourceInv (new_manager-ClientInv c)
