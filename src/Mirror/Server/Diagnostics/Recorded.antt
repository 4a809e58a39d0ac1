-- ===== src/Mirror/Server/Diagnostics/Recorded.antt =====
-- What becomes of the records of remote trouble.
use wrap.Base.{
  ℕ, ◌+◌, ◌-◌, ◌≤◌, ◌≡◌, refl, sym, ap, subst, ◌∙◌, inl, inr, Bool, true, false, not, ◌&&◌, ◌||◌,
  List, [], ◌∷◌, ◌++◌, append-nil, append_assoc, arith, ltb, leb, ◌==◌, if◌then◌else◌, Bool-cases,
  length, length-append, All, Bytes, equal, equal_iff,
}
use wrap.Mirror.Server.Diagnostics.{
  remote_diagnostic_queue_size, remote_diagnostic_interval, DiagnosticRecord, Queued, Remote,
  started, put_last, enqueue, offer, is_early, record_remote_diagnostic, record_handshake_rejection,
  required_mirror_asset, record_missing_asset, stop_remote_diagnostics, received,
  run_remote_diagnostics, Call, rejects, misses, stops, turns, perform, perform_all,
}
use wrap.Mirror.Server.Diagnostics.Drained.{some_turns, some_turns-end}

-- What was put into the channel, in order.
abbrev pub entries : List Queued → List DiagnosticRecord
entries [] = []
entries (q ∷ qs) = entries qs ++ (q.entry ∷ [])

-- Each record of a key is an interval or more after every earlier one.
abbrev pub is_after : Bytes → ℕ → List Queued → Bool
is_after key now [] = true
is_after key now (q ∷ qs) =
    (not (equal key q.key) || leb (q.at + remote_diagnostic_interval) now) && is_after key now qs

abbrev pub is_spaced : List Queued → Bool
is_spaced [] = true
is_spaced (q ∷ qs) = is_after q.key q.at qs && is_spaced qs

-- The times of a key are positive and at most a time.
abbrev is_covered : Bytes → ℕ → List Queued → Bool
is_covered key now [] = true
is_covered key now (q ∷ qs) =
    (not (equal key q.key) || (leb q.at now && ltb 0 q.at)) && is_covered key now qs

is_covered_mono :
    (key : Bytes) (m n : ℕ) (qs : List Queued)
    → m ≤ n
    → is_covered key m qs ≡ true
    → is_covered key n qs ≡ true
is_covered_mono key m n [] h c = refl
is_covered_mono key m n (q ∷ qs) h c = ground (arith, is_covered_mono key m n qs h, c, h)

is_covered-is_after :
    (key : Bytes) (last now : ℕ) (qs : List Queued)
    → is_covered key last qs ≡ true
    → not (last == 0) && ltb (now - last) remote_diagnostic_interval ≡ false
    → is_after key now qs ≡ true
is_covered-is_after key last now [] c g = refl
is_covered-is_after key last now (q ∷ qs) c g =
    ground (arith, is_covered-is_after key last now qs, c, g)

record Kept (s : Remote) : Type 0 where
  bounded : length s.queue ≤ remote_diagnostic_queue_size
  in_order : entries s.queued ≡ s.emitted ++ s.queue
  spaced : is_spaced s.queued ≡ true
  covered : (key : Bytes) → is_covered key (s.last key) s.queued ≡ true
  ended : s.done ≡ true → (s.stopped ≡ true) × (s.queue ≡ [])

put_last-covered :
    (last : Bytes → ℕ) (key : Bytes) (entry : DiagnosticRecord) (now : ℕ) (qs : List Queued)
    → not (last key == 0) && ltb (now - last key) remote_diagnostic_interval ≡ false
    → (now ≡ 0 → ⊥)
    → ((other : Bytes) → is_covered other (last other) qs ≡ true)
    → (other : Bytes)
    → is_covered other
        (put_last last key now other)
        (record { key = key; at = now; entry = entry } ∷ qs)
      ≡ true
put_last-covered last key entry now qs g n c other = elim (Bool-cases (equal key other)) [
  | inl own ↦
      let here : (key ≡ other) = (equal_iff key other).0 own in
      let later : (last other ≤ now) = subst (λ k. last k ≤ now) here (ground (arith, g)) in
      ground (arith, own, n, is_covered_mono other (last other) now qs later (c other))
  | inr foreign ↦ ground (arith, foreign, n, c other, equal_iff key other, equal_iff other key)
]

enqueue-Kept :
    (key : Bytes) (entry : DiagnosticRecord) (now : ℕ) (s : Remote)
    → s.stopped ≡ false
    → is_early key now s ≡ false
    → ltb (length s.queue) remote_diagnostic_queue_size ≡ true
    → (now ≡ 0 → ⊥)
    → Kept s
    → Kept (enqueue key entry now s)
unfolding enqueue
enqueue-Kept key entry now s live late room n kept = record {
  bounded = rw (length-append s.queue (entry ∷ [])) (ground (arith, room));
  in_order =
      ap (λ es. es ++ (entry ∷ [])) kept.in_order ∙ append_assoc s.emitted s.queue (entry ∷ []);
  spaced = ground (
    arith,
    kept.spaced,
    is_covered-is_after key (s.last key) now s.queued (kept.covered key) late,
  );
  covered = put_last-covered s.last key entry now s.queued late n kept.covered;
  ended = λ d. ground (arith, (kept.ended d).0, live);
}

if-Kept :
    (b : Bool) (s t : Remote)
    → (b ≡ true → Kept s)
    → (b ≡ false → Kept t)
    → Kept (if b then s else t)
if-Kept true s t f g = f refl
if-Kept false s t f g = g refl

offer-Kept :
    (key : Bytes) (entry : DiagnosticRecord) (now : ℕ) (s : Remote)
    → s.stopped ≡ false
    → is_early key now s ≡ false
    → (now ≡ 0 → ⊥)
    → Kept s
    → Kept (offer key entry now s)
unfolding offer
offer-Kept key entry now s live late n kept =
    if-Kept (ltb (length s.queue) remote_diagnostic_queue_size) (enqueue key entry now s) s
      (λ room. enqueue-Kept key entry now s live late room n kept) (λ full. kept)

record_remote_diagnostic-Kept :
    (key : Bytes) (entry : DiagnosticRecord) (now : ℕ) (s : Remote)
    → (now ≡ 0 → ⊥)
    → Kept s
    → Kept (record_remote_diagnostic key entry now s)
unfolding record_remote_diagnostic
record_remote_diagnostic-Kept key entry now s n kept =
    let limited = if is_early key now s then s else offer key entry now s in
    if-Kept (not s.recording) s (if s.stopped then s else limited) (λ off. kept)
      (λ on.
        if-Kept s.stopped s limited (λ over. kept)
          (λ live.
            if-Kept (is_early key now s) s (offer key entry now s) (λ early. kept)
              (λ late. offer-Kept key entry now s live late n kept)))

nonempty : (entry : DiagnosticRecord) (queue : List DiagnosticRecord) → entry ∷ queue ≡ [] → ⊥
nonempty entry queue e = cc

ended-Kept :
    (s : Remote) → s.queue ≡ [] → s.stopped ≡ true → Kept s → Kept (record s { done = true })
ended-Kept s e over kept = record {
  bounded = kept.bounded;
  in_order = kept.in_order;
  spaced = kept.spaced;
  covered = kept.covered;
  ended = λ d. (over, e);
}

received-Kept :
    (queue : List DiagnosticRecord) (s : Remote)
    → s.queue ≡ queue
    → Kept s
    → Kept (received queue s)
unfolding received
received-Kept (entry ∷ queue) s e kept = record {
  bounded =
      let b = subst (λ q. length q ≤ remote_diagnostic_queue_size) e kept.bounded in
      omega (arith, b);
  in_order =
      kept.in_order ∙ ap (λ q. s.emitted ++ q) e ∙ sym (append_assoc s.emitted (entry ∷ []) queue);
  spaced = kept.spaced;
  covered = kept.covered;
  ended = λ d. absurd (nonempty entry queue (sym e ∙ (kept.ended d).1));
}
received-Kept [] s e kept =
    if-Kept s.stopped (record s { done = true }) s (λ over. ended-Kept s e over kept) (λ on. kept)

-- The time of a call is not the zero time.
abbrev pub IsTimed : Call → Type 0
IsTimed (rejects code now) = now ≡ 0 → ⊥
IsTimed (misses name now) = now ≡ 0 → ⊥
IsTimed _ = Unit

perform-Kept : (call : Call) (s : Remote) → IsTimed call → Kept s → Kept (perform call s)
unfolding perform record_handshake_rejection record_missing_asset stop_remote_diagnostics
    run_remote_diagnostics
perform-Kept (rejects code now) s n kept = record_remote_diagnostic-Kept _ _ now s n kept
perform-Kept (misses name now) s n kept =
    if-Kept (not (required_mirror_asset name)) s _ (λ other. kept)
      (λ required. record_remote_diagnostic-Kept _ _ now s n kept)
perform-Kept stops s n kept = record {
  bounded = kept.bounded;
  in_order = kept.in_order;
  spaced = kept.spaced;
  covered = kept.covered;
  ended = λ d. (refl, (kept.ended d).1);
}
perform-Kept turns s n kept = received-Kept s.queue s refl kept

perform_all-Kept :
    (calls : List Call) (s : Remote) → All IsTimed calls → Kept s → Kept (perform_all calls s)
unfolding perform_all
perform_all-Kept [] s n kept = kept
perform_all-Kept (call ∷ calls) s (n, ns) kept =
    perform_all-Kept calls (perform call s) ns (perform-Kept call s n kept)

started-Kept : (recording : Bool) → Kept (started recording)
unfolding started
started-Kept recording = record {
  bounded = omega arith;
  in_order = refl;
  spaced = refl;
  covered = λ key. refl;
  ended = λ d. (d, refl);
}

pub record Recorded (s : Remote) : Type 0 where
  pub bounded : length s.queue ≤ remote_diagnostic_queue_size
  pub in_order : entries s.queued ≡ s.emitted ++ s.queue
  pub spaced : is_spaced s.queued ≡ true
  pub nothing_lost : s.done ≡ true → entries s.queued ≡ s.emitted
  pub drained : (perform_all (stops ∷ some_turns (remote_diagnostic_queue_size + 1)) s).done ≡ true

-- However the rejections, the missing assets, the end and the turns of the emitting goroutine follow
-- one another, at times other than the zero time: the channel holds at most
-- remote_diagnostic_queue_size records; what was put into it is, in order, what was emitted and then
-- what it holds; of one key, each record put into it is at least remote_diagnostic_interval after
-- every earlier one; and when the goroutine has ended, all that was put into it has been emitted. From wherever they
-- stand, the goroutine has ended after stopRemoteDiagnostics and remote_diagnostic_queue_size + 1 turns.
pub perform_all-Recorded :
    (recording : Bool) (calls : List Call)
    → All IsTimed calls
    → Recorded (perform_all calls (started recording))
unfolding perform_all perform stop_remote_diagnostics
perform_all-Recorded recording calls timed =
    let kept = perform_all-Kept calls (started recording) timed (started-Kept recording) in
    record {
      bounded = kept.bounded;
      in_order = kept.in_order;
      spaced = kept.spaced;
      nothing_lost = λ d.
          kept.in_order
          ∙ ap (λ q. (perform_all calls (started recording)).emitted ++ q) (kept.ended d).1
          ∙ append-nil (perform_all calls (started recording)).emitted;
      drained =
          let x = perform_all calls (started recording) in
          some_turns-end remote_diagnostic_queue_size x.queue (record x { stopped = true }) refl
            refl kept.bounded;
    }
