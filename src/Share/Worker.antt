-- ===== src/Share/Worker.antt =====
-- Run of internal/share/service.go: what a worker acquires, the loop that it waits in, and the deferred
-- calls that undo it, the last one first. What each call answers is an input.
pub mod Cleanup
use wrap.Base.{
  ℕ, Bool, true, false, not, ◌&&◌, ◌||◌, Option, none, some, List, [], ◌∷◌, ◌++◌, if◌then◌else◌,
  is_empty, Bytes, codes,
}
use wrap.Base.Result.{Result, ok, err}
use wrap.Instance.Record.{RecordFault, Record, validate}
use wrap.Instance.Store.Read.{Store}

-- What the worker does to the world, in order.
pub data Action : Type 0 where
  acquire_lease create_helper new_mirror start_mirror serve_control create_record report_ready :
      Action
  stop_control shutdown_mirror close_helper prune close_lease remove_record : Action

pub data ShareError : Type 0 where
  no_store no_runtime no_lease no_helper no_mirror not_started : ShareError
  control_not_ready not_published not_reported : ShareError
  context_done control_ended target_invalid : ShareError
  invalid : RecordFault → ShareError
  control_error : ShareError
  mirror_failed : Bytes → ShareError
  -- An error of a deferred call.
  cleanup : Action → ShareError

-- What wakes the loop. `closed` is the end of the mirror's events; `validated` is a tick with what the
-- helper's validation said.
pub data Wake : Type 0 where
  asked_to_shut_down done closed : Wake
  -- The control server has ended, with an error or without.
  control_done : Bool → Wake
  -- An event of the mirror: none, or the text of its failure.
  mirror_event : Option Bytes → Wake
  validated : Bool → Wake

-- What the calls answer; true is success.
pub record Answers : Type 0 where
  pub runtime_ok : Bool
  pub lease_ok : Bool
  pub helper_ok : Bool
  pub mirror_ok : Bool
  pub start_ok : Bool
  pub control_ready : Bool
  pub create_ok : Bool
  pub ready_ok : Bool
  pub wakes : List Wake
  pub control_stops : Bool
  pub shutdown_ok : Bool
  pub helper_closes : Bool
  pub prune_ok : Bool
  pub lease_closes : Bool
  pub remove_ok : Bool

-- The loop; none while it goes on. `shutdown` is what shutdownRequested answers.
pub wait : Bool → List Wake → Option (Option ShareError)
wait shutdown [] = none
wait shutdown (asked_to_shut_down ∷ wakes) = wait true wakes
wait shutdown (done ∷ wakes) = some (if shutdown then none else some context_done)
wait shutdown (closed ∷ wakes) = wait shutdown wakes
wait shutdown (control_done true ∷ wakes) = some (if shutdown then none else some control_ended)
wait shutdown (control_done false ∷ wakes) = some (some control_error)
wait shutdown (mirror_event none ∷ wakes) = wait shutdown wakes
wait shutdown (mirror_event (some text) ∷ wakes) =
    some (some (mirror_failed (if is_empty text then codes "mirror failed" else text)))
wait shutdown (validated true ∷ wakes) = wait shutdown wakes
wait shutdown (validated false ∷ wakes) = some (some target_invalid)

-- Calls with whether they succeeded, in order; the deferred calls, the last one first; the errors.
pub record Progress : Type 0 where
  pub trace : List (Action × Bool)
  pub deferred : List Action
  pub published : Bool
  pub cleanup_failed : Bool
  pub errors : List ShareError

pub data Body : Type 0 where
  running : Body
  returned : Progress → Option ShareError → Body

abbrev log : Action → Bool → Progress → Progress
log action succeeded p = record p { trace = p.trace ++ ((action, succeeded) ∷ []) }

abbrev defer_call : Action → Progress → Progress
defer_call action p = record p { deferred = action ∷ p.deferred }

module _ (a : Answers) where
  end_of_loop : Progress → Option (Option ShareError) → Body
  end_of_loop p none = running
  end_of_loop p (some e) = returned p e

  serving : Progress → Body
  unfolding end_of_loop wait
  serving p =
      if a.control_ready
      then (if a.create_ok
          then (let q = record (log create_record true p) { published = true } in
              if a.ready_ok
              then end_of_loop (log report_ready true q) (wait false a.wakes)
              else returned (log report_ready false q) (some not_reported))
          else returned (log create_record false p) (some not_published))
      else returned p (some control_not_ready)

  with_mirror : Progress → Body
  unfolding serving
  with_mirror p =
      if a.start_ok
      then serving (defer_call stop_control (log serve_control true (log start_mirror true p)))
      else returned (log start_mirror false p) (some not_started)

  with_helper : Progress → Body
  unfolding with_mirror
  with_helper p =
      if a.mirror_ok
      then with_mirror (defer_call shutdown_mirror (log new_mirror true p))
      else returned (log new_mirror false p) (some no_mirror)

  with_lease : Progress → Body
  unfolding with_helper
  with_lease p =
      if a.helper_ok
      then with_helper (defer_call close_helper (log create_helper true p))
      else returned (log create_helper false p) (some no_helper)

  -- The body behind the checks of the record and the store.
  begin : Progress → Body
  unfolding with_lease
  begin p =
      if a.runtime_ok
      then (if a.lease_ok
          then with_lease (
              defer_call prune
                (defer_call close_lease (defer_call remove_record (log acquire_lease true p))))
          else returned (log acquire_lease false p) (some no_lease))
      else returned p (some no_runtime)

  fail_with : Action → Progress → Progress
  fail_with action p = record p { errors = p.errors ++ (cleanup action ∷ []) }

  -- joinCleanupError
  join_cleanup : Action → Bool → Progress → Progress
  unfolding fail_with
  join_cleanup action succeeded p =
      let q = log action succeeded p in
      if succeeded then q else record (fail_with action q) { cleanup_failed = true }

  join_error : Action → Bool → Progress → Progress
  unfolding fail_with
  join_error action succeeded p =
      let q = log action succeeded p in if succeeded then q else fail_with action q

  -- One deferred call. The record is removed last, if it was published and nothing failed to close.
  undo : Action → Progress → Progress
  unfolding join_cleanup join_error
  undo stop_control p = join_cleanup stop_control a.control_stops p
  undo shutdown_mirror p = join_cleanup shutdown_mirror a.shutdown_ok p
  undo close_helper p = join_cleanup close_helper a.helper_closes p
  undo prune p = join_error prune a.prune_ok p
  undo close_lease p = join_cleanup close_lease a.lease_closes p
  undo remove_record p =
      if not p.published || p.cleanup_failed then p else join_error remove_record a.remove_ok p
  undo _ p = p

  undo_all : List Action → Progress → Progress
  unfolding undo
  undo_all [] p = p
  undo_all (action ∷ actions) p = undo_all actions (undo action p)

  -- What is left of a run; none while the worker runs.
  finish : Body → Option Progress
  unfolding undo_all
  finish running = none
  finish (returned p none) = some (undo_all p.deferred p)
  finish (returned p (some e)) = some (undo_all p.deferred (record p { errors = e ∷ [] }))

  pub work : Option Progress
  unfolding begin finish
  work = finish (
      begin (record {
        trace = [];
        deferred = [];
        published = false;
        cleanup_failed = false;
        errors = [];
      }))

-- Run, with the record that has the PID of the process. An error before the lease leaves no trace.
unfoldable pub run : (ℕ → Bool) → Store → Record → Answers → Result ShareError (Option Progress)
unfolding work
run is_print store r a = elim (validate is_print r) [
  | some fault ↦ err (invalid fault)
  | none ↦ if is_empty store.state_root then err no_store else ok (work a)
]
