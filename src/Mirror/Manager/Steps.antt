-- ===== src/Mirror/Manager/Steps.antt =====
-- What the goroutines of a manager may do next, one locked stretch at a time. A step that runs under
-- `opMu` wants it free, or held by the operation that the step goes on with.
use wrap.Base.{ℕ, ◌≡◌, Bool, true, Bytes}
use wrap.Mirror.Manager.{
  Manager, free, start_running, rotate_running, Started, start_begin, fail_start, start_commit,
  rotate_begin, rotate_abort, rotate_commit, rotate_finish, shutdown_ask, shutdown_commit,
  connected, open_reserve, open_started, open_activate, close, disconnected, remove_opening,
  watch_tunnel, watch_viewer, record_viewer_cleanup_failure, record_diagnostic,
}

pub data Step (m : Manager) : Manager → Type 0 where
  starts : m.operation ≡ free → Step m (start_begin m).0
  start_fails :
      (canceled : Bool) (message : Bytes)
      → m.operation ≡ start_running
      → Step m (fail_start canceled message m)
  start_commits :
      (r : Started) (context_done canceled : Bool) (message : Bytes)
      → m.operation ≡ start_running
      → Step m (start_commit r context_done canceled message m).0
  rotates : m.operation ≡ free → Step m (rotate_begin m).0
  rotate_aborts : m.operation ≡ rotate_running → Step m (rotate_abort m)
  rotate_commits :
      (secret url qr : Bytes)
      → m.operation ≡ rotate_running
      → Step m (rotate_commit secret url qr m).0
  rotate_finishes :
      (incomplete : Bool) → m.operation ≡ rotate_running → Step m (rotate_finish incomplete m)
  shutdown_asks : Step m (shutdown_ask m)
  shutdown_commits : m.operation ≡ free → m.shutdown_asked ≡ true → Step m (shutdown_commit m).0
  tunnel_exits :
      (tunnel : ℕ) (message : Bytes) → m.operation ≡ free → Step m (watch_tunnel tunnel message m).0
  connects : (client : ℕ) → Step m (connected client m).0
  reserves : (client token : ℕ) (sent : Bool) → Step m (open_reserve client token sent m).0
  viewer_starts : (client token viewer : ℕ) → Step m (open_started client token viewer m).0
  activates : (client token viewer : ℕ) → Step m (open_activate client token viewer m).0
  closes : (client : ℕ) → Step m (close client m).0
  disconnects : (client : ℕ) → Step m (disconnected client m).0
  releases : (client token : ℕ) → Step m (remove_opening client token m)
  viewer_ends : (client viewer : ℕ) → Step m (watch_viewer client viewer m).0
  warns : (incomplete : Bool) → Step m (record_viewer_cleanup_failure incomplete m)
  diagnoses : (has_sink write_failed : Bool) → Step m (record_diagnostic has_sink write_failed m)

-- From one state to another, any number of steps later.
pub data Reach (m : Manager) : Manager → Type 0 where
  here : Reach m m
  after : {n o : Manager} → Reach m n → Step n o → Reach m o
