-- ===== src/Share/Handler/Effect.antt =====
-- What a connection to the control socket does to a worker.
use wrap.Base.{
  ℕ, ◌≡◌, refl, ◌⊎◌, inl, inr, Bool, true, false, ◌||◌, Option, none, some, arith, Bytes, equal,
  equal_iff, Bool-cases,
}
use wrap.Base.Json.{Json}
use wrap.Control.Request
use wrap.Control.Request.{
  Request, read, refused, read_request, action_status, action_rename, action_rotate,
  action_shutdown,
}
use wrap.Control.Server.{
  OperationError, Handler, Handled, handle, answer, act, after_operation, quiet,
}
use wrap.Instance.Record.{Record}
use wrap.Instance.Store.Read.{Store}
use wrap.Instance.Store.World
use wrap.Instance.Store.World.{World}
use wrap.Instance.Store.Write.{rename_if_pid}
use wrap.Mirror.Manager.{is_ready}
use wrap.Share.Handler.{
  MirrorService, Service, Status, rotate, rotated, shutdown, rename, renamed, service_handler,
}

module _ {M : Type 0} (is_print : ℕ → Bool) (json : Json Record) (hex_sha256 : Bytes → Bytes)
    (random : Bytes) (store : Store) (mirror : MirrorService M) where
  -- The directory and the record of the worker are as they were, or a rename of the worker was run on the
  -- store, and the worker took the name only where the store did.
  abbrev pub IsOwnRename : Json Request → Bytes → Service M → Service M → Type 0
  IsOwnRename request_json input s t =
      (r : Request) × (read_request request_json input ≡ read r)
      × (r.instance_id ≡ s.own_record.id)
      × (r.action ≡ action_rename)
      × (t.world
          ≡ (rename_if_pid is_print json hex_sha256 random store s.own_record.id s.own_record.pid
              r.name s.world).1)
      × ((t.own_record ≡ record (s.own_record) { name = r.name })
            × ((rename_if_pid is_print json hex_sha256 random store s.own_record.id s.own_record.pid
                  r.name s.world).0
                ≡ World.ok true)
          ⊎ (t.own_record ≡ s.own_record))

  pub record Effect (request_json : Json Request) (input : Bytes) (s : Service M)
      (h : Handled (Service M) Status) : Type 0 where
    pub stopped : h.state.shutdown ≡ (s.shutdown || h.stops)
    pub cancelled : h.state.cancelled ≡ (s.cancelled || h.stops)
    pub owned :
        (h.state.own_record ≡ s.own_record) × (h.state.world ≡ s.world)
        ⊎ IsOwnRename request_json input s h.state

  handler : Handler (Service M) Status
  handler = service_handler is_print json hex_sha256 random store mirror

  renamed-lem :
      (name : Bytes) (s : Service M) (q : World.Result Bool × World)
      → ((renamed name s q).0.shutdown ≡ s.shutdown)
        × ((renamed name s q).0.cancelled ≡ s.cancelled)
        × ((renamed name s q).0.world ≡ q.1)
        × (((renamed name s q).0.own_record ≡ record (s.own_record) { name = name })
              × (q.0 ≡ World.ok true)
            ⊎ ((renamed name s q).0.own_record ≡ s.own_record))
  unfolding renamed
  renamed-lem name s (World.ok true, w) = (refl, refl, refl, inl (refl, refl))
  renamed-lem name s (World.ok false, w) = (refl, refl, refl, inr refl)
  renamed-lem name s (World.err e, w) = (refl, refl, refl, inr refl)

  -- What leaves the directory and the record alone.
  unchanged :
      (request_json : Json Request) (input : Bytes) (s : Service M) (h : Handled (Service M) Status)
      → h.state.shutdown ≡ s.shutdown
      → h.state.cancelled ≡ s.cancelled
      → h.stops ≡ false
      → h.state.own_record ≡ s.own_record
      → h.state.world ≡ s.world
      → Effect request_json input s h
  unchanged request_json input s h a b c d e = record {
    stopped = ground (arith, a, c);
    cancelled = ground (arith, b, c);
    owned = inl (d, e);
  }

  rotated-lem :
      (s : Service M) (q : M × Bool)
      → ((rotated mirror s q).0.shutdown ≡ s.shutdown)
        × ((rotated mirror s q).0.cancelled ≡ s.cancelled)
        × ((rotated mirror s q).0.own_record ≡ s.own_record)
        × ((rotated mirror s q).0.world ≡ s.world)
  unfolding rotated
  rotated-lem s (m, true) = (refl, refl, refl, refl)
  rotated-lem s (m, false) = (refl, refl, refl, refl)

  rotate-lem :
      (s : Service M)
      → ((rotate mirror s).0.shutdown ≡ s.shutdown)
        × ((rotate mirror s).0.cancelled ≡ s.cancelled)
        × ((rotate mirror s).0.own_record ≡ s.own_record)
        × ((rotate mirror s).0.world ≡ s.world)
  unfolding rotate rotated
  rotate-lem s = elim (Bool-cases (is_ready (mirror.snapshot s.mirror).state)) [
    | inl h ↦ rw h (rotated-lem s (mirror.rotate s.mirror))
    | inr h ↦ rw h (refl, refl, refl, refl)
  ]

  module _ (request_json : Json Request) (input : Bytes) (s : Service M) where
    after_operation-Effect :
        (p : Service M × Option OperationError)
        → p.0.shutdown ≡ s.shutdown
        → p.0.cancelled ≡ s.cancelled
        → (p.0.own_record ≡ s.own_record) × (p.0.world ≡ s.world)
          ⊎ IsOwnRename request_json input s p.0
        → Effect request_json input s (after_operation handler false p)
    unfolding after_operation quiet
    after_operation-Effect (t, none) a b o = record {
      stopped = ground (arith, a);
      cancelled = ground (arith, b);
      owned = o;
    }
    after_operation-Effect (t, some e) a b o = record {
      stopped = ground (arith, a);
      cancelled = ground (arith, b);
      owned = o;
    }

    act-Effect :
        (r : Request)
        → read_request request_json input ≡ read r
        → r.instance_id ≡ s.own_record.id
        → Effect request_json input s (act handler r s)
    unfolding act quiet after_operation handler service_handler rename shutdown
    act-Effect r p i = elim (Bool-cases (equal r.action action_status)) [
      | inl h ↦ rw (act, h) (unchanged request_json input s _ refl refl refl refl refl)
      | inr h ↦ elim (Bool-cases (equal r.action action_rename)) [
        | inl k ↦
            rw (act, h, k)
              (let q = renamed-lem r.name s (
                  rename_if_pid is_print json hex_sha256 random store s.own_record.id
                    s.own_record.pid r.name s.world) in
                after_operation-Effect (rename is_print json hex_sha256 random store r.name s) q.0
                  q.1 (inr (r, p, i, (equal_iff r.action action_rename).0 k, q.2, q.3)))
        | inr k ↦ elim (Bool-cases (equal r.action action_rotate)) [
          | inl l ↦
              rw (act, h, k, l)
                (let q = rotate-lem s in
                  after_operation-Effect (rotate mirror s) q.0 q.1 (inl (q.2, q.3)))
          | inr l ↦ elim (Bool-cases (equal r.action action_shutdown)) [
            | inl m ↦
                rw (act, h, k, l, m)
                  (record {
                    stopped = ground arith;
                    cancelled = ground arith;
                    owned = inl (refl, refl);
                  })
            | inr m ↦
                rw (act, h, k, l, m) (unchanged request_json input s _ refl refl refl refl refl)
          ]
        ]
      ]
    ]

    answer-Effect :
        (x : Request.Result Request)
        → read_request request_json input ≡ x
        → Effect request_json input s (answer handler s.own_record.id x s)
    unfolding answer quiet
    answer-Effect (refused e) p = unchanged request_json input s _ refl refl refl refl refl
    answer-Effect (read r) p = elim (Bool-cases (equal r.instance_id s.own_record.id)) [
      | inl h ↦ rw (answer, h) (act-Effect r p ((equal_iff r.instance_id s.own_record.id).0 h))
      | inr h ↦ rw (answer, h) (unchanged request_json input s _ refl refl refl refl refl)
    ]

    -- Whatever bytes a connection brings, the worker is told to end, and its context cancelled, just when the
    -- control server is told to stop; and its record and its directory are touched only by a rename that
    -- names the worker, after which it has the new name only if the store has renamed its record.
    pub handle-Effect : Effect request_json input s (
        handle
          (service_handler is_print json hex_sha256 random store mirror)
          request_json
          s.own_record.id
          input
          s)
    unfolding handle handler
    handle-Effect = answer-Effect (read_request request_json input) refl
