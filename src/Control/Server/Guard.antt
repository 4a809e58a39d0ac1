-- ===== src/Control/Server/Guard.antt =====
-- What a connection can bring a worker to do.
use wrap.Base.{◌≡◌, refl, ◌≢◌, ◌↔◌, true, none, arith, Bytes, equal, equal_iff}
use wrap.Base.Json.{Json}
use wrap.Control.Request.{Request, Result, read, refused, read_request, action_shutdown}
use wrap.Control.Request.Reading.{read_request_valid, validate_request_actions}
use wrap.Control.Server.{Handler, handle, answer, act, after_operation, quiet}

module _ {S Status : Type 0} (h : Handler S Status) (json : Json Request) where
  answer-replies :
      (instance_id input : Bytes) (s : S) (x : Result Request)
      → read_request json input ≡ x
      → (answer h instance_id x s).reply ≢ none
  unfolding answer act after_operation quiet
  answer-replies instance_id input s (refused e) p q = cc
  answer-replies instance_id input s (read r) p q =
      ground (arith, q, validate_request_actions r (read_request_valid json input p))

  Stopping : Bytes → Bytes → S → Type 0
  Stopping instance_id input s =
      (r : Request) × (read_request json input ≡ read r)
      × (r.instance_id ≡ instance_id)
      × (r.action ≡ action_shutdown)
      × ((h.shutdown s).1 ≡ none)

  answer-stops :
      (instance_id input : Bytes) (s : S) (x : Result Request)
      → read_request json input ≡ x
      → (answer h instance_id x s).stops ≡ true
      → Stopping instance_id input s
  unfolding answer act after_operation quiet Stopping
  answer-stops instance_id input s (refused e) p q = absurd (ground (arith, q))
  answer-stops instance_id input s (read r) p q = (
    r,
    p,
    ground (arith, q, equal_iff r.instance_id instance_id),
    ground (arith, q, equal_iff r.action action_shutdown),
    ground (arith, q),
  )

  Stopping-answer :
      (instance_id input : Bytes) (s : S)
      → Stopping instance_id input s
      → (answer h instance_id (read_request json input) s).stops ≡ true
  unfolding answer act after_operation quiet Stopping equal
  Stopping-answer instance_id input s (r, p, i, a, o) =
      rw (p, (equal_iff r.instance_id instance_id).1 i, a, o) refl

  -- Every connection gets a reply: no request that is read falls through the actions.
  pub handle_replies :
      (instance_id input : Bytes) (s : S) → (handle h json instance_id input s).reply ≢ none
  unfolding handle answer act
  handle_replies instance_id input s =
      answer-replies instance_id input s (read_request json input) refl

  -- The server is told to stop exactly by a request to this worker that asks for a shutdown which succeeds.
  pub handle_stops_iff :
      (instance_id input : Bytes) (s : S)
      → ((handle h json instance_id input s).stops ≡ true) ↔ (
          (r : Request) × (read_request json input ≡ read r)
          × (r.instance_id ≡ instance_id)
          × (r.action ≡ action_shutdown)
          × ((h.shutdown s).1 ≡ none))
  unfolding handle answer act Stopping
  handle_stops_iff instance_id input s = (
    answer-stops instance_id input s (read_request json input) refl,
    Stopping-answer instance_id input s,
  )
