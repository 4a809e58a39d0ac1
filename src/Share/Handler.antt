-- ===== src/Share/Handler.antt =====
-- serviceHandler of internal/share/service.go, over the store and a mirror that is a parameter. It fills
-- the interface of the control server. The mutex makes each method one step.
pub mod Effect
use wrap.Base.{
  ℕ, Bool, true, false, not, Option, none, some, [], ◌∷◌, ◌++◌, List, if◌then◌else◌, is_empty,
  Bytes, codes, ℤ, join,
}
use wrap.Base.Json.{Json}
use wrap.Control.Server.{Handler, OperationError, err_not_ready, other}
use wrap.Instance.Record.{Record}
use wrap.Instance.Store.World
use wrap.Instance.Store.World.{World}
use wrap.Instance.Store.Write.{rename_if_pid}
use wrap.Instance.Store.Read.{Store}
use wrap.Mirror.Manager.{Snapshot, State, is_ready}
use wrap.Target.{Target}

-- The mirror of a worker.
pub record MirrorService (M : Type 0) : Type 0 where
  pub snapshot : M → Snapshot
  pub client_count : M → ℕ
  -- The mirror after a rotation, and whether that failed.
  pub rotate : M → M × Bool

-- `cancelled` tells whether the context of the worker has been cancelled.
pub record Service (M : Type 0) : Type 0 where
  pub own_record : Record
  pub world : World
  pub mirror : M
  pub shutdown : Bool
  pub cancelled : Bool

pub record Status : Type 0 where
  pub id : Bytes
  pub name : Bytes
  pub state : Bytes
  pub pairing_url : Bytes
  pub qr : Bytes
  pub directory : Bytes
  pub clients : ℕ
  pub started_at : Option ℕ
  pub target : Target
  pub warning : Bytes

pub mirror_state_name : State → Bytes
mirror_state_name State.starting = codes "starting"
mirror_state_name State.ready = codes "ready"
mirror_state_name State.failed = codes "failed"
mirror_state_name State.stopped = codes "stopped"

-- strings.Join at "; ".
joined : List Bytes → Bytes
joined [] = []
joined (w ∷ []) = w
joined (w ∷ v ∷ ws) = w ++ (codes "; " ++ joined (v ∷ ws))

non_empty : Bytes → List Bytes
non_empty w = if not (is_empty w) then w ∷ [] else []

pub snapshot_warnings : Snapshot → Bytes
unfolding joined non_empty
snapshot_warnings s = joined (non_empty s.diagnostics_warning ++ non_empty s.cleanup_warning)

module _ {M : Type 0} (mirror : MirrorService M) where
  pub status : Service M → Status
  unfolding mirror_state_name snapshot_warnings
  status s = record {
    id = s.own_record.id;
    name = s.own_record.name;
    state = mirror_state_name (mirror.snapshot s.mirror).state;
    pairing_url = (mirror.snapshot s.mirror).pairing_url;
    qr = (mirror.snapshot s.mirror).qr;
    directory = s.own_record.directory;
    clients = mirror.client_count s.mirror;
    started_at = s.own_record.started_at;
    target = s.own_record.target;
    warning = snapshot_warnings (mirror.snapshot s.mirror);
  }

  rotated : Service M → M × Bool → Service M × Option OperationError
  rotated s (m, true) = (record s { mirror = m }, some other)
  rotated s (m, false) = (record s { mirror = m }, none)

  pub rotate : Service M → Service M × Option OperationError
  unfolding rotated
  rotate s =
      if not (is_ready (mirror.snapshot s.mirror).state)
      then (s, some err_not_ready)
      else rotated s (mirror.rotate s.mirror)

pub shutdown : {M : Type 0} → Service M → Service M × Option OperationError
shutdown s = (record s { shutdown = true; cancelled = true }, none)

-- After RenameIfPID: the name is the worker's own only if its record was renamed.
renamed :
    {M : Type 0} → Bytes → Service M → World.Result Bool × World → Service M × Option OperationError
renamed name s (World.ok true, w) =
    (record s { own_record = record (s.own_record) { name = name }; world = w }, none)
renamed name s (World.ok false, w) = (record s { world = w }, some other)
renamed name s (World.err e, w) = (record s { world = w }, some other)

-- `random` is what the name of the store's temporary file gets.
module _ (is_print : ℕ → Bool) (json : Json Record) (hex_sha256 : Bytes → Bytes) (random : Bytes)
    (store : Store) where
  pub rename : {M : Type 0} → Bytes → Service M → Service M × Option OperationError
  unfolding renamed
  rename name s = renamed name s (
      rename_if_pid is_print json hex_sha256 random store s.own_record.id s.own_record.pid name
        s.world)

  -- What the control server is given.
  unfoldable pub service_handler : {M : Type 0} → MirrorService M → Handler (Service M) Status
  unfolding rename rotate shutdown status
  service_handler mirror = record {
    status = status mirror;
    rename = rename;
    rotate = rotate mirror;
    shutdown = shutdown;
  }
