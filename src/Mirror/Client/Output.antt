-- ===== src/Mirror/Client/Output.antt =====
-- SendOutput queues an output whole, in order.
use wrap.Base.{
  zero, suc, Option, subst, Bool-cases, if◌then◌else◌, ℕ, ◌+◌, ◌≡◌, refl, sym, ap, ◌∙◌, inl, inr,
  Bool, false, none, some, List, [], ◌∷◌, ◌++◌, append-nil, append_assoc, arith, Option-cases,
  Bytes,
}
use wrap.Mirror.Client.{
  OutboundFrame, OutboundQueue, QueueError, Sent, write_some, taken, Popped, gone, waiting, frame,
  pop, pop_first, send, send_chunks, send_output, close_after, push, close_locked,
}
use wrap.Mirror.Protocol.{chunk_output, tag_output}
use wrap.Mirror.Protocol.Chunks.{flatten, chunk_output_lossless}

abbrev pub output_frame : Bytes → OutboundFrame
output_frame c = record { tag = tag_output; payload = c; result = false }

abbrev pub output_frames : List Bytes → List OutboundFrame
output_frames [] = []
output_frames (c ∷ cs) = output_frame c ∷ output_frames cs

send-frames :
    (done : Bool) (c : Bytes) (q : OutboundQueue)
    → (send done tag_output c q).1 ≡ none
    → (send done tag_output c q).0.frames ≡ q.frames ++ (output_frame c ∷ [])
unfolding send close_after push close_locked
send-frames done c q h = ground arith

taken-append : (p : Popped) (fs gs : List OutboundFrame) → taken p fs ++ gs ≡ taken p (fs ++ gs)
unfolding taken
taken-append gone fs gs = refl
taken-append waiting fs gs = refl
taken-append (frame f) fs gs = refl

pop_first-taken :
    (fs : List OutboundFrame) (q : OutboundQueue)
    → q.frames ≡ fs
    → taken (pop_first fs q).1 (pop_first fs q).0.frames ≡ q.frames
unfolding pop_first taken
pop_first-taken [] q e = refl
pop_first-taken (f ∷ fs) q e = sym e

pop-taken : (q : OutboundQueue) → taken (pop q).1 (pop q).0.frames ≡ q.frames
unfolding pop taken
pop-taken q = elim (Bool-cases q.closed) [
  | inl over ↦
      ap (λ p. taken p.1 p.0.frames) (ap (λ b. if b then (q, gone) else pop_first q.frames q) over)
  | inr on ↦
      ap (λ p. taken p.1 p.0.frames) (ap (λ b. if b then (q, gone) else pop_first q.frames q) on)
      ∙ pop_first-taken q.frames q refl
]

write_some-kept :
    (n : ℕ) (q : OutboundQueue) → (write_some n q).1 ++ (write_some n q).0.frames ≡ q.frames
unfolding write_some
write_some-kept zero q = refl
write_some-kept (suc n) q =
    let rest = write_some n (pop q).0 in
    taken-append (pop q).1 rest.1 rest.0.frames
    ∙ ap (taken (pop q).1) (write_some-kept n (pop q).0)
    ∙ pop-taken q

-- Without an error, what was written and what is queued are the frames there were and the chunks.
IsQueued : List Bytes → OutboundQueue → Sent → Type 0
IsQueued cs q r = r.2 ≡ none → r.1 ++ r.0.frames ≡ q.frames ++ output_frames cs

sent-IsQueued :
    (done : Bool) (n : ℕ) (c : Bytes) (cs : List Bytes) (q : OutboundQueue) (rest : Sent)
    → let w = write_some n q in
      let s = send done tag_output c w.0 in
      s.1 ≡ none → IsQueued cs s.0 rest → IsQueued (c ∷ cs) q (rest.0, w.1 ++ rest.1, rest.2)
unfolding IsQueued
sent-IsQueued done n c cs q rest sent kept h =
    let w = write_some n q in
    let s = send done tag_output c w.0 in
    append_assoc w.1 rest.1 rest.0.frames
    ∙ ap (λ l. w.1 ++ l)
        (kept h
          ∙ ap (λ l. l ++ output_frames cs) (send-frames done c w.0 sent)
          ∙ append_assoc w.0.frames (output_frame c ∷ []) (output_frames cs))
    ∙ sym (append_assoc w.1 w.0.frames (output_frames (c ∷ cs)))
    ∙ ap (λ l. l ++ output_frames (c ∷ cs)) (write_some-kept n q)

module _ (done : ℕ → Bool) (writes : ℕ → ℕ) (i : ℕ) (c : Bytes) (cs : List Bytes)
    (q : OutboundQueue) where
  abbrev attempted : OutboundQueue × Option QueueError
  attempted = send (done i) tag_output c (write_some (writes i) q).0

  send_chunks-sent :
      attempted.1 ≡ none
      → send_chunks done writes i (c ∷ cs) q ≡ (
          let rest = send_chunks done writes (i + 1) cs attempted.0 in
          (rest.0, (write_some (writes i) q).1 ++ rest.1, rest.2))
  unfolding send_chunks
  send_chunks-sent p = rw (send_chunks, p) refl

  send_chunks-refused :
      (e : QueueError)
      → attempted.1 ≡ some e
      → send_chunks done writes i (c ∷ cs) q ≡ (attempted.0, (write_some (writes i) q).1, some e)
  unfolding send_chunks
  send_chunks-refused e p = rw (send_chunks, p) refl

refused-IsQueued :
    (cs : List Bytes) (q r : OutboundQueue) (written : List OutboundFrame) (e : QueueError)
    → IsQueued cs q (r, written, some e)
unfolding IsQueued
refused-IsQueued cs q r written e h = cc

send_chunks-IsQueued :
    (done : ℕ → Bool) (writes : ℕ → ℕ) (i : ℕ) (cs : List Bytes) (q : OutboundQueue)
    → IsQueued cs q (send_chunks done writes i cs q)
send_chunks-IsQueued done writes i [] q =
    unfold IsQueued send_chunks in λ h. sym (append-nil q.frames)
send_chunks-IsQueued done writes i (c ∷ cs) q =
    let s = attempted done writes i c cs q in
    let next = send_chunks-IsQueued done writes (i + 1) cs s.0 in
    elim (Option-cases s.1) [
      | inl p ↦
          subst (IsQueued (c ∷ cs) q) (sym (send_chunks-sent done writes i c cs q p)) (
            sent-IsQueued (done i) (writes i) c cs q (send_chunks done writes (i + 1) cs s.0) p
              next)
      | inr (e, p) ↦
          subst (IsQueued (c ∷ cs) q) (sym (send_chunks-refused done writes i c cs q e p))
            (refused-IsQueued (c ∷ cs) q s.0 (write_some (writes i) q).1 e)
    ]

-- When `SendOutput` returns no error, however often the writer takes out frames in its course: what the
-- writer took, and behind it what is queued, are the frames that were queued before and then the chunks
-- of the output, each in an output frame, in order; and the chunks join to the output.
pub send_output-frames :
    (done : ℕ → Bool) (writes : ℕ → ℕ) (output : Bytes) (q : OutboundQueue)
    → let r = send_output done writes output q in
      r.2 ≡ none
      → (r.1 ++ r.0.frames ≡ q.frames ++ output_frames (chunk_output output))
        × (flatten (chunk_output output) ≡ output)
unfolding send_output IsQueued
send_output-frames done writes output q h =
    (send_chunks-IsQueued done writes 0 (chunk_output output) q h, (chunk_output_lossless output).0)
