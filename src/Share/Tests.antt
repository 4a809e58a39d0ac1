-- ===== src/Share/Tests.antt =====
-- The theorems on package share for one worker.
use wrap.Base.{ℕ, ◌≡◌, refl, Bool, true, false, Option, some, [], ◌∷◌, ◌++◌, Bytes, codes, pos}
use wrap.Base.Json.{Json, eof}
use wrap.Base.Result.{Result, ok}
use wrap.Base.Utf8.{decode_all, is_space}
use wrap.Control.Request.{Request}
use wrap.Control.Server.{handle}
use wrap.Instance.Record.{Record, validate, is_instance_id}
use wrap.Instance.Name.{validate_name}
use wrap.Instance.Store.Read.{Store}
use wrap.Mirror.Manager.{Snapshot, ready}
use wrap.Share.Handler.{MirrorService, Service, service_handler}
use wrap.Share.Handler.Effect.{Effect, handle-Effect}
use wrap.Share.Worker.{Answers, Progress, ShareError, asked_to_shut_down, done, run}
use wrap.Share.Worker.Cleanup.{Cleaned, run-Cleaned}

abbrev some_record : Record
some_record = record {
  version = pos 1;
  id = codes "abcdef";
  name = codes "one";
  pid = pos 41;
  control_socket = codes "/run/a";
  started_at = some 1;
  directory = codes "/home";
  target = record {
    socket_path = codes "/tmp/t";
    generation = codes "g";
    session_id = codes "$1";
    window_id = codes "@2";
    session_name = codes "main";
    window_name = codes "w";
    directory = codes "/home";
  };
}

abbrev some_store : Store
some_store = record { state_root = codes "/state"; runtime_root = codes "/run" }

abbrev printable : ℕ → Bool
printable r = true

-- The helper cannot be made, and the lease does not close.
abbrev no_helper_answers : Answers
no_helper_answers = record {
  runtime_ok = true;
  lease_ok = true;
  helper_ok = false;
  mirror_ok = true;
  start_ok = true;
  control_ready = true;
  create_ok = true;
  ready_ok = true;
  wakes = asked_to_shut_down ∷ done ∷ [];
  control_stops = true;
  shutdown_ok = true;
  helper_closes = true;
  prune_ok = true;
  lease_closes = false;
  remove_ok = true;
}

no_progress : Progress
no_progress = record {
  trace = [];
  deferred = [];
  published = false;
  cleanup_failed = false;
  errors = [];
}

left : Result ShareError (Option Progress) → Progress
left (ok (some p)) = p
left _ = no_progress

abbrev no_helper_run : Result ShareError (Option Progress)
no_helper_run = run printable some_store some_record no_helper_answers

no_helper_run-ends : no_helper_run ≡ ok (some (left no_helper_run))
unfolding left run validate is_instance_id validate_name decode_all is_space
no_helper_run-ends = refl

run-Cleaned_example : Cleaned no_helper_answers (left no_helper_run)
run-Cleaned_example =
    run-Cleaned printable some_store some_record no_helper_answers (left no_helper_run)
      no_helper_run-ends

-- A mirror that is always ready, with nothing to show.
abbrev some_snapshot : Snapshot
some_snapshot = record {
  state = ready;
  public_url = [];
  pairing_url = [];
  qr = [];
  err = [];
  diagnostics_warning = [];
  cleanup_warning = [];
}

abbrev some_mirror : MirrorService ℕ
some_mirror = record {
  snapshot = λ n. some_snapshot;
  client_count = λ n. n;
  rotate = λ n. (n, false);
}

abbrev ask_rename : Request
ask_rename = record { instance_id = codes "abcdef"; action = codes "rename"; name = codes "two" }

abbrev rename_json : Json Request
rename_json = record {
  marshal = λ r. some (codes "{}");
  decode = λ s. some (ask_rename, []);
  trailing = λ s. eof;
}

abbrev record_json : Json Record
record_json = record {
  marshal = λ r. some (codes "{}");
  decode = λ s. some (some_record, []);
  trailing = λ s. eof;
}

abbrev some_service : Service ℕ
some_service = record {
  own_record = some_record;
  world = record { entries = []; faults = [] };
  mirror = 0;
  shutdown = false;
  cancelled = false;
}

abbrev rename_line : Bytes
rename_line = codes "{}" ++ (b'\n' ∷ [])

handle-Effect_example :
    Effect printable record_json
      (λ s. s)
      (codes "r")
      some_store
      some_mirror
      rename_json
      rename_line
      some_service
      (handle
        (service_handler printable record_json (λ s. s) (codes "r") some_store some_mirror)
        rename_json
        (codes "abcdef")
        rename_line
        some_service)
handle-Effect_example =
    handle-Effect printable record_json (λ s. s) (codes "r") some_store some_mirror rename_json
      rename_line some_service
