-- ===== src/Mirror/Client/Queue.antt =====
-- The outbound queue is first in, first out, within its limit, and empty once closed.
use wrap.Base.{
  ℕ, ◌+◌, ◌≤◌, ◌≡◌, refl, sym, ap, ◌∙◌, inl, inr, true, false, ◌||◌, Option, none, some, List, [],
  ◌∷◌, ◌++◌, append_assoc, arith, ltb, Bool-cases,
}
use wrap.Mirror.Client.{
  pop_first, OutboundFrame, OutboundQueue, QueueError, new_outbound_queue, frame_size, close_locked,
  push, pop, Popped, gone, waiting, frame,
}

abbrev total : List OutboundFrame → ℕ
total [] = 0
total (f ∷ fs) = frame_size f + total fs

total-snoc :
    (fs : List OutboundFrame) (f : OutboundFrame) → total (fs ++ (f ∷ [])) ≡ total fs + frame_size f
total-snoc [] f = omega arith
total-snoc (g ∷ fs) f = omega (arith, total-snoc fs f)

-- The count of bytes is exact and within the limit, and a closed queue is empty.
pub record IsBounded (q : OutboundQueue) : Type 0 where
  pub counted : q.queued_bytes ≡ total q.frames
  pub within : q.queued_bytes ≤ q.max_bytes
  pub emptied : q.closed ≡ true → q.frames ≡ []

new_outbound_queue-IsBounded : (max_bytes : ℕ) → IsBounded (new_outbound_queue max_bytes)
unfolding new_outbound_queue
new_outbound_queue-IsBounded max_bytes = ground arith

pub push-IsBounded : (f : OutboundFrame) (q : OutboundQueue) → IsBounded q → IsBounded (push f q).0
unfolding push
push-IsBounded f q v = ground (arith, total-snoc q.frames f)

pop_first-IsBounded :
    (fs : List OutboundFrame) (q : OutboundQueue)
    → q.frames ≡ fs
    → IsBounded q
    → q.closed ≡ false
    → IsBounded (pop_first fs q).0
unfolding pop_first
pop_first-IsBounded [] q e v c = v
pop_first-IsBounded (f ∷ fs) q e v c =
    let t : total q.frames ≡ frame_size f + total fs = ap total e in
    record {
      counted = omega (arith, v.counted, t);
      within = omega (arith, v.within);
      emptied = λ h. cc;
    }

close_locked-IsBounded : (q : OutboundQueue) → IsBounded q → IsBounded (close_locked q).0
unfolding close_locked
close_locked-IsBounded q v = ground arith

pub pop-IsBounded : (q : OutboundQueue) → IsBounded q → IsBounded (pop q).0
unfolding pop
pop-IsBounded q v = elim (Bool-cases q.closed) [
  | inl c ↦ simp c v
  | inr c ↦ simp c (pop_first-IsBounded q.frames q refl v c)
]

-- The calls on a queue, and the frames that it accepted, gave out and dropped by closing.
pub data Call : Type 0 where
  pushes : OutboundFrame → Call
  pops closes : Call

abbrev pub Log : Type 0
Log = List OutboundFrame × List OutboundFrame

abbrev accepted : OutboundFrame → Option QueueError → List OutboundFrame → List OutboundFrame
accepted f none xs = xs ++ (f ∷ [])
accepted f (some e) xs = xs

abbrev given : Popped → List OutboundFrame → List OutboundFrame
given (frame f) ys = ys ++ (f ∷ [])
given gone ys = ys
given waiting ys = ys

abbrev pub run_call : Call → OutboundQueue × Log → OutboundQueue × Log
run_call (pushes f) (q, (xs, ys)) = ((push f q).0, (accepted f (push f q).1 xs, ys))
run_call pops (q, (xs, ys)) = ((pop q).0, (xs, given (pop q).1 ys))
run_call closes (q, (xs, ys)) = ((close_locked q).0, (xs, ys))

abbrev pub run_calls : List Call → OutboundQueue × Log → OutboundQueue × Log
run_calls [] s = s
run_calls (c ∷ cs) s = run_calls cs (run_call c s)

-- The frames given out are the first of those accepted; an open queue holds exactly the others.
pub record IsFifo (s : OutboundQueue × Log) : Type 0 where
  pub rest : List OutboundFrame
  pub order : (s.1).0 ≡ (s.1).1 ++ rest
  pub held : (s.0).closed ≡ false → rest ≡ (s.0).frames

-- What each answer of `push` means for the order.
accepted-IsFifo :
    (f : OutboundFrame) (q : OutboundQueue) (xs ys : List OutboundFrame)
    → q.closed ≡ false
    → IsFifo (q, (xs, ys))
    → IsFifo (
      record {
        frames = q.frames ++ (f ∷ []);
        queued_bytes = q.queued_bytes + frame_size f;
        max_bytes = q.max_bytes;
        closed = false;
      },
      (xs ++ (f ∷ []), ys),
    )
accepted-IsFifo f q xs ys c v = record {
  rest = v.rest ++ (f ∷ []);
  order = ap (λ l. l ++ (f ∷ [])) v.order ∙ append_assoc ys v.rest (f ∷ []);
  held = λ _. ap (λ l. l ++ (f ∷ [])) (v.held c);
}

emptied-IsFifo :
    (q : OutboundQueue) (xs ys : List OutboundFrame)
    → IsFifo (q, (xs, ys))
    → IsFifo (record q { closed = true; frames = []; queued_bytes = 0 }, (xs, ys))
emptied-IsFifo q xs ys v = record { rest = v.rest; order = v.order; held = λ h. cc }

shut-IsFifo :
    (q : OutboundQueue) (xs ys : List OutboundFrame)
    → IsFifo (q, (xs, ys))
    → IsFifo (run_call closes (q, (xs, ys)))
unfolding close_locked
shut-IsFifo q xs ys v = elim (Bool-cases q.closed) [
  | inl c ↦ simp c v
  | inr c ↦ simp c (emptied-IsFifo q xs ys v)
]

push-IsFifo :
    (f : OutboundFrame) (q : OutboundQueue) (xs ys : List OutboundFrame)
    → IsFifo (q, (xs, ys))
    → IsFifo (run_call (pushes f) (q, (xs, ys)))
unfolding push close_locked
push-IsFifo f q xs ys v = elim (Bool-cases q.closed) [
  | inl c ↦ simp c v
  | inr c ↦
      elim (Bool-cases
        (ltb q.max_bytes (frame_size f) || ltb q.max_bytes (q.queued_bytes + frame_size f))) [
          | inl d ↦ simp (c, d) (emptied-IsFifo q xs ys v)
          | inr d ↦ simp (c, d) (accepted-IsFifo f q xs ys c v)
        ]
]

pop_first-IsFifo :
    (fs : List OutboundFrame) (q : OutboundQueue) (xs ys : List OutboundFrame)
    → q.frames ≡ fs
    → q.closed ≡ false
    → IsFifo (q, (xs, ys))
    → IsFifo ((pop_first fs q).0, (xs, given (pop_first fs q).1 ys))
unfolding pop_first
pop_first-IsFifo [] q xs ys e c v = v
pop_first-IsFifo (f ∷ fs) q xs ys e c v = record {
  rest = fs;
  order = v.order ∙ ap (λ l. ys ++ l) (v.held c ∙ e) ∙ sym (append_assoc ys (f ∷ []) fs);
  held = λ h. refl;
}

pop-IsFifo :
    (q : OutboundQueue) (xs ys : List OutboundFrame)
    → IsFifo (q, (xs, ys))
    → IsFifo (run_call pops (q, (xs, ys)))
unfolding pop
pop-IsFifo q xs ys v = elim (Bool-cases q.closed) [
  | inl c ↦ simp c v
  | inr c ↦ simp c (pop_first-IsFifo q.frames q xs ys refl c v)
]

run_call-kept :
    (c : Call) (s : OutboundQueue × Log)
    → IsBounded s.0
    → IsFifo s
    → IsBounded (run_call c s).0 × IsFifo (run_call c s)
run_call-kept (pushes f) (q, (xs, ys)) v w = (push-IsBounded f q v, push-IsFifo f q xs ys w)
run_call-kept pops (q, (xs, ys)) v w = (pop-IsBounded q v, pop-IsFifo q xs ys w)
run_call-kept closes (q, (xs, ys)) v w = (close_locked-IsBounded q v, shut-IsFifo q xs ys w)

run_calls-kept :
    (cs : List Call) (s : OutboundQueue × Log)
    → IsBounded s.0
    → IsFifo s
    → IsBounded (run_calls cs s).0 × IsFifo (run_calls cs s)
run_calls-kept [] s v w = (v, w)
run_calls-kept (c ∷ cs) s v w =
    let (v2, w2) = run_call-kept c s v w in run_calls-kept cs (run_call c s) v2 w2

-- After any calls of `push`, `pop` and `closeLocked` on a new queue, the count of queued bytes is
-- exact and within the limit, a closed queue is empty, and the frames given out are the first of
-- those that were accepted, in their order; an open queue holds exactly the others.
pub queue-IsBounded-IsFifo :
    (max_bytes : ℕ) (cs : List Call)
    → IsBounded (run_calls cs (new_outbound_queue max_bytes, ([], []))).0
      × IsFifo (run_calls cs (new_outbound_queue max_bytes, ([], [])))
unfolding new_outbound_queue
queue-IsBounded-IsFifo max_bytes cs =
    run_calls-kept cs (new_outbound_queue max_bytes, ([], []))
      (new_outbound_queue-IsBounded max_bytes)
      (record { rest = []; order = refl; held = λ h. refl })
