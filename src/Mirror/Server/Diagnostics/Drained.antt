-- ===== src/Mirror/Server/Diagnostics/Drained.antt =====
-- How the goroutine that emits the records ends.
use wrap.Base.{
  ℕ, zero, suc, ◌≤◌, ◌≡◌, refl, sym, ap, subst, ◌∙◌, true, List, [], ◌∷◌, ◌++◌, arith, length,
  if◌then◌else◌,
}
use wrap.Mirror.Server.Diagnostics.{
  DiagnosticRecord, Remote, received, run_remote_diagnostics, Call, turns, perform, perform_all,
}

abbrev pub some_turns : ℕ → List Call
some_turns zero = []
some_turns (suc n) = turns ∷ some_turns n

run_remote_diagnostics-ends :
    (s : Remote)
    → s.queue ≡ []
    → s.stopped ≡ true
    → run_remote_diagnostics s ≡ record s { done = true }
unfolding run_remote_diagnostics received
run_remote_diagnostics-ends s e over =
    ap (λ q. received q s) e ∙ ap (λ b. if b then record s { done = true } else s) over

-- Once the channel is empty.
some_turns-ended :
    (n : ℕ) (s : Remote)
    → s.queue ≡ []
    → s.stopped ≡ true
    → (perform_all (some_turns (suc n)) s).done ≡ true
unfolding perform_all perform
some_turns-ended zero s e over = ap (λ t. t.done) (run_remote_diagnostics-ends s e over)
some_turns-ended (suc n) s e over =
    subst (λ t. (perform_all (some_turns (suc n)) t).done ≡ true)
      (sym (run_remote_diagnostics-ends s e over))
      (some_turns-ended n (record s { done = true }) e over)

-- A turn for each record that is left, and one more.
pub some_turns-end :
    (n : ℕ) (q : List DiagnosticRecord) (s : Remote)
    → s.queue ≡ q
    → s.stopped ≡ true
    → length q ≤ n
    → (perform_all (some_turns (suc n)) s).done ≡ true
unfolding perform_all perform run_remote_diagnostics received
some_turns-end n [] s e over h = some_turns-ended n s e over
some_turns-end zero (x ∷ q) s e over h = absurd (omega (arith, h))
some_turns-end (suc n) (x ∷ q) s e over h =
    subst (λ r. (perform_all (some_turns (suc n)) (received r s)).done ≡ true) (sym e)
      (some_turns-end n q (record s { queue = q; emitted = s.emitted ++ (x ∷ []) }) refl over
        (omega (arith, h)))
