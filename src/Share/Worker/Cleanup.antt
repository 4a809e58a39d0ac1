-- ===== src/Share/Worker/Cleanup.antt =====
-- What a worker leaves behind.
use wrap.Base.{
  ℕ, ◌≡◌, refl, subst, Bool, true, false, not, ◌&&◌, ◌||◌, Option, none, some, List, [], ◌∷◌, arith,
  if◌then◌else◌, is_empty,
}
use wrap.Base.Result.{ok}
use wrap.Instance.Record.{Record}
use wrap.Instance.Store.Read.{Store}
use wrap.Share.Worker.{
  Action, acquire_lease, create_helper, new_mirror, serve_control, create_record, stop_control,
  shutdown_mirror, close_helper, close_lease, remove_record, Answers, Progress, ShareError, Wake,
  asked_to_shut_down, done, closed, control_done, mirror_event, validated, wait, work, begin,
  undo_all, finish, run,
}

-- What undoes a call.
abbrev undoing : Action → Option Action
undoing acquire_lease = some close_lease
undoing create_helper = some close_helper
undoing new_mirror = some shutdown_mirror
undoing serve_control = some stop_control
undoing _ = none

abbrev is_undoing : Action → Bool
is_undoing stop_control = true
is_undoing shutdown_mirror = true
is_undoing close_helper = true
is_undoing close_lease = true
is_undoing _ = false

abbrev same : Action → Action → Bool
same stop_control stop_control = true
same shutdown_mirror shutdown_mirror = true
same close_helper close_helper = true
same close_lease close_lease = true
same remove_record remove_record = true
same create_record create_record = true
same _ _ = false

abbrev pop : Action → List Action → Option (List Action)
pop x [] = none
pop x (y ∷ ys) = if same x y then some ys else none

abbrev push : Option Action → List Action → List Action
push none open_calls = open_calls
push (some x) open_calls = x ∷ open_calls

-- Each call that succeeded is undone just once, the last one first, and nothing else is undone.
after_pop : (List Action → Bool) → Option (List Action) → Bool
after_pop rest none = false
after_pop rest (some open_calls) = rest open_calls

pub is_nested : List Action → List (Action × Bool) → Bool
unfolding after_pop
is_nested open_calls [] = is_empty open_calls
is_nested open_calls ((x, done_well) ∷ trace) =
    let deeper = is_nested (if done_well then push (undoing x) open_calls else open_calls) trace in
    let popped = after_pop (λ rest. is_nested rest trace) (pop x open_calls) in
    if is_undoing x then popped else deeper

pub was_tried : Action → List (Action × Bool) → Bool
was_tried x [] = false
was_tried x ((y, done_well) ∷ trace) = same x y || was_tried x trace

pub has_succeeded : Action → List (Action × Bool) → Bool
has_succeeded x [] = false
has_succeeded x ((y, done_well) ∷ trace) = same x y && done_well || has_succeeded x trace

pub all_undone : List (Action × Bool) → Bool
all_undone [] = true
all_undone ((y, done_well) ∷ trace) = (not (is_undoing y) || done_well) && all_undone trace

abbrev pub is_nil {ℓ} : {A : Type ℓ} → List A → Bool
is_nil [] = true
is_nil (x ∷ xs) = false

pub asks : List Wake → Bool
asks [] = false
asks (asked_to_shut_down ∷ wakes) = true
asks (w ∷ wakes) = asks wakes

-- What a run that has ended leaves.
pub record Cleaned (a : Answers) (p : Progress) : Type 0 where
  pub nested : is_nested [] p.trace ≡ true
  -- RemoveIfPID is called just if Create returned no error and nothing failed to close.
  pub withdrawn :
      was_tried remove_record p.trace ≡ (has_succeeded create_record p.trace && all_undone p.trace)
  -- Without an error the worker was asked to end, and RemoveIfPID was called and returned none.
  pub quiet :
      is_nil p.errors ≡ true → (asks a.wakes ≡ true) × (has_succeeded remove_record p.trace ≡ true)

abbrev IfEnded : Answers → Option Progress → Type 0
IfEnded a none = Unit
IfEnded a (some p) = Cleaned a p

wait-asks : (s : Bool) (ws : List Wake) → wait s ws ≡ some none → (s || asks ws) ≡ true
unfolding wait asks
wait-asks s [] h = cc
wait-asks s (asked_to_shut_down ∷ ws) h = ground arith
wait-asks s (done ∷ ws) h = ground arith
wait-asks s (closed ∷ ws) h = wait-asks s ws h
wait-asks s (control_done true ∷ ws) h = ground arith
wait-asks s (control_done false ∷ ws) h = cc
wait-asks s (mirror_event none ∷ ws) h = wait-asks s ws h
wait-asks s (mirror_event (some text) ∷ ws) h = cc
wait-asks s (validated true ∷ ws) h = wait-asks s ws h
wait-asks s (validated false ∷ ws) h = cc

module _ (ws : List Wake) (c1 c2 c3 c4 c5 c6 : Bool) where
  abbrev answers : Bool → Bool → Bool → Bool → Bool → Bool → Bool → Bool → Answers
  answers runtime lease helper mirror start control create ready = record {
    runtime_ok = runtime;
    lease_ok = lease;
    helper_ok = helper;
    mirror_ok = mirror;
    start_ok = start;
    control_ready = control;
    create_ok = create;
    ready_ok = ready;
    wakes = ws;
    control_stops = c1;
    shutdown_ok = c2;
    helper_closes = c3;
    prune_ok = c4;
    lease_closes = c5;
    remove_ok = c6;
  }

  runtime-IfEnded :
      (x0 x1 x2 x3 x4 x5 x6 : Bool)
      → IfEnded (answers false x0 x1 x2 x3 x4 x5 x6) (work (answers false x0 x1 x2 x3 x4 x5 x6))
  unfolding work begin finish undo_all is_nested was_tried has_succeeded all_undone
  runtime-IfEnded x0 x1 x2 x3 x4 x5 x6 = ground arith

  lease-IfEnded :
      (x0 x1 x2 x3 x4 x5 : Bool)
      → IfEnded (answers true false x0 x1 x2 x3 x4 x5) (work (answers true false x0 x1 x2 x3 x4 x5))
  unfolding work begin finish undo_all is_nested was_tried has_succeeded all_undone
  lease-IfEnded x0 x1 x2 x3 x4 x5 = ground arith

  helper-IfEnded :
      (x0 x1 x2 x3 x4 : Bool)
      → IfEnded
          (answers true true false x0 x1 x2 x3 x4)
          (work (answers true true false x0 x1 x2 x3 x4))
  unfolding work begin finish undo_all is_nested was_tried has_succeeded all_undone
  helper-IfEnded x0 x1 x2 x3 x4 = ground arith

  mirror-IfEnded :
      (x0 x1 x2 x3 : Bool)
      → IfEnded
          (answers true true true false x0 x1 x2 x3)
          (work (answers true true true false x0 x1 x2 x3))
  unfolding work begin finish undo_all is_nested was_tried has_succeeded all_undone
  mirror-IfEnded x0 x1 x2 x3 = ground arith

  start-IfEnded :
      (x0 x1 x2 : Bool)
      → IfEnded
          (answers true true true true false x0 x1 x2)
          (work (answers true true true true false x0 x1 x2))
  unfolding work begin finish undo_all is_nested was_tried has_succeeded all_undone
  start-IfEnded x0 x1 x2 = ground arith

  control-IfEnded :
      (x0 x1 : Bool)
      → IfEnded
          (answers true true true true true false x0 x1)
          (work (answers true true true true true false x0 x1))
  unfolding work begin finish undo_all is_nested was_tried has_succeeded all_undone
  control-IfEnded x0 x1 = ground arith

  create-IfEnded :
      (x0 : Bool)
      → IfEnded
          (answers true true true true true true false x0)
          (work (answers true true true true true true false x0))
  unfolding work begin finish undo_all is_nested was_tried has_succeeded all_undone
  create-IfEnded x0 = ground arith

  ready-IfEnded :
      IfEnded
        (answers true true true true true true true false)
        (work (answers true true true true true true true false))
  unfolding work begin finish undo_all is_nested was_tried has_succeeded all_undone
  ready-IfEnded = ground arith

  abbrev all_ready : Answers
  all_ready = answers true true true true true true true true

  failed-IfEnded :
      (e : ShareError) → wait false ws ≡ some (some e) → IfEnded all_ready (work all_ready)
  unfolding work begin finish undo_all is_nested was_tried has_succeeded all_undone
  failed-IfEnded e h = rw (h) (record {
    nested = ground arith;
    withdrawn = ground arith;
    quiet = λ q. absurd (ground (arith, q));
  })

  ended-IfEnded : wait false ws ≡ some none → IfEnded all_ready (work all_ready)
  unfolding work begin finish undo_all is_nested was_tried has_succeeded all_undone
  ended-IfEnded h = rw (h) (ground (arith, wait-asks false ws h))

  running-IfEnded : wait false ws ≡ none → IfEnded all_ready (work all_ready)
  unfolding work begin finish undo_all is_nested was_tried has_succeeded all_undone
  running-IfEnded h = rw (h) tt

cases-IfEnded :
    (ws : List Wake) (c1 c2 c3 c4 c5 c6 : Bool) (x0 x1 x2 x3 x4 x5 x6 x7 : Bool)
    → IfEnded
        (answers ws c1 c2 c3 c4 c5 c6 x0 x1 x2 x3 x4 x5 x6 x7)
        (work (answers ws c1 c2 c3 c4 c5 c6 x0 x1 x2 x3 x4 x5 x6 x7))
cases-IfEnded ws c1 c2 c3 c4 c5 c6 false x1 x2 x3 x4 x5 x6 x7 =
    runtime-IfEnded ws c1 c2 c3 c4 c5 c6 x1 x2 x3 x4 x5 x6 x7
cases-IfEnded ws c1 c2 c3 c4 c5 c6 true false x2 x3 x4 x5 x6 x7 =
    lease-IfEnded ws c1 c2 c3 c4 c5 c6 x2 x3 x4 x5 x6 x7
cases-IfEnded ws c1 c2 c3 c4 c5 c6 true true false x3 x4 x5 x6 x7 =
    helper-IfEnded ws c1 c2 c3 c4 c5 c6 x3 x4 x5 x6 x7
cases-IfEnded ws c1 c2 c3 c4 c5 c6 true true true false x4 x5 x6 x7 =
    mirror-IfEnded ws c1 c2 c3 c4 c5 c6 x4 x5 x6 x7
cases-IfEnded ws c1 c2 c3 c4 c5 c6 true true true true false x5 x6 x7 =
    start-IfEnded ws c1 c2 c3 c4 c5 c6 x5 x6 x7
cases-IfEnded ws c1 c2 c3 c4 c5 c6 true true true true true false x6 x7 =
    control-IfEnded ws c1 c2 c3 c4 c5 c6 x6 x7
cases-IfEnded ws c1 c2 c3 c4 c5 c6 true true true true true true false x7 =
    create-IfEnded ws c1 c2 c3 c4 c5 c6 x7
cases-IfEnded ws c1 c2 c3 c4 c5 c6 true true true true true true true false =
    ready-IfEnded ws c1 c2 c3 c4 c5 c6
cases-IfEnded ws c1 c2 c3 c4 c5 c6 true true true true true true true true = go (wait false ws) refl
  where
    go :
        (w : Option (Option ShareError))
        → wait false ws ≡ w
        → IfEnded (all_ready ws c1 c2 c3 c4 c5 c6) (work (all_ready ws c1 c2 c3 c4 c5 c6))
    go none h = running-IfEnded ws c1 c2 c3 c4 c5 c6 h
    go (some none) h = ended-IfEnded ws c1 c2 c3 c4 c5 c6 h
    go (some (some e)) h = failed-IfEnded ws c1 c2 c3 c4 c5 c6 e h

work-IfEnded : (a : Answers) → IfEnded a (work a)
work-IfEnded a =
    cases-IfEnded a.wakes a.control_stops a.shutdown_ok a.helper_closes a.prune_ok a.lease_closes
      a.remove_ok a.runtime_ok a.lease_ok a.helper_ok a.mirror_ok a.start_ok a.control_ready
      a.create_ok a.ready_ok

-- However a run of a worker ends: each call that acquired something and returned no error is undone by
-- one call, the last one first, and nothing else is undone; RemoveIfPID is called just where Create
-- returned no error and none of the calls that undo something did; and the run ends without an error
-- only if the worker was asked to end, and RemoveIfPID was called and returned no error.
pub run-Cleaned :
    (is_print : ℕ → Bool) (store : Store) (r : Record) (a : Answers) (p : Progress)
    → run is_print store r a ≡ ok (some p)
    → Cleaned a p
unfolding run
run-Cleaned is_print store r a p h =
    let e : work a ≡ some p = ground (arith, h) in subst (IfEnded a) e (work-IfEnded a)
