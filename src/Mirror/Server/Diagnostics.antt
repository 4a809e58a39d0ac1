-- ===== src/Mirror/Server/Diagnostics.antt =====
-- internal/mirror/server.go: the records of remote trouble. They go through a channel of their own to
-- a goroutine that emits them, at most one of a kind in an interval. Times are in nanoseconds, 0 the
-- zero time, which is what the map answers on a missing key.
pub mod Drained
pub mod Recorded
use wrap.Base.{
  ℕ, ◌+◌, ◌-◌, Bool, true, false, not, ◌&&◌, ◌||◌, List, [], ◌∷◌, ◌++◌, ltb, ◌==◌, if◌then◌else◌,
  length, Bytes, codes, equal,
}

abbrev pub remote_diagnostic_queue_size : ℕ
remote_diagnostic_queue_size = 8

abbrev pub remote_diagnostic_interval : ℕ
remote_diagnostic_interval = 60000000000

pub record DiagnosticRecord : Type 0 where
  pub level : Bytes
  pub component : Bytes
  pub event : Bytes
  pub code : Bytes
  pub path : Bytes

pub record Queued : Type 0 where
  pub key : Bytes
  pub at : ℕ
  pub entry : DiagnosticRecord

pub record Remote : Type 0 where
  -- Whether there is a function that takes the records.
  pub recording : Bool
  pub stopped : Bool
  pub done : Bool
  pub last : Bytes → ℕ
  pub queue : List DiagnosticRecord
  pub emitted : List DiagnosticRecord
  -- What was put into the channel, the latest first. No operation reads it.
  pub queued : List Queued

unfoldable pub started : Bool → Remote
started recording = record {
  recording = recording;
  stopped = false;
  done = false;
  last = λ key. 0;
  queue = [];
  emitted = [];
  queued = [];
}

abbrev pub put_last : (Bytes → ℕ) → Bytes → ℕ → Bytes → ℕ
put_last last key now other = if equal key other then now else last other

unfoldable pub enqueue : Bytes → DiagnosticRecord → ℕ → Remote → Remote
enqueue key entry now s = record s {
  last = put_last s.last key now;
  queue = s.queue ++ (entry ∷ []);
  queued = record { key = key; at = now; entry = entry } ∷ s.queued;
}

-- The select: a full channel takes nothing.
unfoldable pub offer : Bytes → DiagnosticRecord → ℕ → Remote → Remote
unfolding enqueue
offer key entry now s =
    if ltb (length s.queue) remote_diagnostic_queue_size then enqueue key entry now s else s

abbrev pub is_early : Bytes → ℕ → Remote → Bool
is_early key now s = not (s.last key == 0) && ltb (now - s.last key) remote_diagnostic_interval

unfoldable pub record_remote_diagnostic : Bytes → DiagnosticRecord → ℕ → Remote → Remote
unfolding offer
record_remote_diagnostic key entry now s =
    if not s.recording
    then s
    else if s.stopped
    then s
    else if is_early key now s
    then s
    else offer key entry now s

unfoldable pub record_handshake_rejection : Bytes → ℕ → Remote → Remote
record_handshake_rejection code = record_remote_diagnostic (codes "handshake:" ++ code) (record {
  level = codes "warn";
  component = codes "handshake";
  event = codes "rejected";
  code = code;
  path = [];
})

unfoldable pub required_mirror_asset : Bytes → Bool
required_mirror_asset name =
    equal name (codes "assets/index.html")
    || equal name (codes "assets/wrap-mirror.css")
    || equal name (codes "assets/wrap-mirror-bootstrap.js")
    || equal name (codes "assets/wrap-mirror.js")
    || equal name (codes "assets/wrap-mirror-viewport.js")
    || equal name (codes "assets/third_party/xterm/xterm.mjs")
    || equal name (codes "assets/third_party/xterm/xterm.css")
    || equal name (codes "assets/third_party/xterm/addon-fit.mjs")
    || equal name (codes "assets/third_party/xterm/addon-web-links.mjs")

unfoldable pub record_missing_asset : Bytes → ℕ → Remote → Remote
unfolding record_remote_diagnostic required_mirror_asset
record_missing_asset name now s =
    if not (required_mirror_asset name)
    then s
    else record_remote_diagnostic (codes "asset:" ++ name)
        (record {
          level = codes "error";
          component = codes "server";
          event = codes "asset_missing";
          code = codes "client_asset_unavailable";
          path = name;
        })
        now s

unfoldable pub stop_remote_diagnostics : Remote → Remote
stop_remote_diagnostics s = record s { stopped = true }

unfoldable pub received : List DiagnosticRecord → Remote → Remote
received (entry ∷ queue) s = record s { queue = queue; emitted = s.emitted ++ (entry ∷ []) }
received [] s = if s.stopped then record s { done = true } else s

-- One turn of runRemoteDiagnostics; with an empty channel it waits, until it is to stop.
unfoldable pub run_remote_diagnostics : Remote → Remote
unfolding received
run_remote_diagnostics s = received s.queue s

pub data Call : Type 0 where
  rejects misses : Bytes → ℕ → Call
  stops turns : Call

unfoldable pub perform : Call → Remote → Remote
unfolding record_handshake_rejection record_missing_asset stop_remote_diagnostics
    run_remote_diagnostics
perform (rejects code now) s = record_handshake_rejection code now s
perform (misses name now) s = record_missing_asset name now s
perform stops s = stop_remote_diagnostics s
perform turns s = run_remote_diagnostics s

unfoldable pub perform_all : List Call → Remote → Remote
unfolding perform
perform_all [] s = s
perform_all (call ∷ calls) s = perform_all calls (perform call s)
