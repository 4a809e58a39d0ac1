-- ===== src/Control/Server.antt =====
-- handle of internal/control/server.go. The handler is not known to the server: its state and its
-- operations are parameters.
pub mod Guard
use wrap.Base.{Bool, true, false, not, Option, none, some, if◌then◌else◌, Bytes, equal}
use wrap.Base.Json.{Json}
use wrap.Control.Request
use wrap.Control.Request.{
  Request, RequestError, read, refused, read_request, action_status, action_rename, action_rotate,
  action_shutdown,
}

-- An error of an operation: whether it is ErrNotReady.
pub data OperationError : Type 0 where
  err_not_ready other : OperationError

-- The state after an operation, and its error if any. `status` is what a reply shows.
pub record Handler (S Status : Type 0) : Type 0 where
  pub status : S → Status
  pub rename : Bytes → S → S × Option OperationError
  pub rotate : S → S × Option OperationError
  pub shutdown : S → S × Option OperationError

pub data Code : Type 0 where
  not_found invalid_request not_ready internal : Code

pub data Response (Status : Type 0) : Type 0 where
  status_reply : Status → Response Status
  error_reply : Code → Response Status

unfoldable pub response_error : OperationError → Code
response_error err_not_ready = not_ready
response_error other = internal

-- The reply, the handler's state, and whether the server is told to stop. A request that names no
-- action gets no reply.
pub record Handled (S Status : Type 0) : Type 0 where
  pub reply : Option (Response Status)
  pub state : S
  pub stops : Bool

module _ {S Status : Type 0} (h : Handler S Status) where
  unfoldable pub quiet : Response Status → S → Handled S Status
  quiet reply s = record { reply = some reply; state = s; stops = false }

  -- After Rename, Rotate or Shutdown; only the last stops the server.
  unfoldable pub after_operation : Bool → S × Option OperationError → Handled S Status
  unfolding quiet response_error
  after_operation stops (s, some e) = quiet (error_reply (response_error e)) s
  after_operation stops (s, none) = record {
    reply = some (status_reply (h.status s));
    state = s;
    stops = stops;
  }

  unfoldable pub act : Request → S → Handled S Status
  unfolding quiet after_operation
  act r s =
      if equal r.action action_status
      then quiet (status_reply (h.status s)) s
      else if equal r.action action_rename
      then after_operation false (h.rename r.name s)
      else if equal r.action action_rotate
      then after_operation false (h.rotate s)
      else if equal r.action action_shutdown
      then after_operation true (h.shutdown s)
      else record { reply = none; state = s; stops = false }

  unfoldable pub answer : Bytes → Request.Result Request → S → Handled S Status
  unfolding quiet act
  answer instance_id (refused e) s = quiet (error_reply invalid_request) s
  answer instance_id (read r) s =
      if not (equal r.instance_id instance_id) then quiet (error_reply not_found) s else act r s

  unfoldable pub handle : Json Request → Bytes → Bytes → S → Handled S Status
  unfolding answer
  handle json instance_id input s = answer instance_id (read_request json input) s
