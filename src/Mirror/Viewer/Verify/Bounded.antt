-- ===== src/Mirror/Viewer/Verify/Bounded.antt =====
-- The polling ends after at most 400 queries, and says the truth.
use wrap.Base.{
  ℕ, zero, suc, ◌+◌, ◌-◌, ◌≤◌, ◌<◌, ◌≡◌, refl, inl, inr, Bool, true, false, arith, ltb,
  if◌then◌else◌, Bool-cases, Bytes,
}
use wrap.Mirror.Viewer.Geometry.{ViewerGeometry, viewer_geometry_matches}
use wrap.Mirror.Viewer.Verify.{
  Answer, absent, broken, attached, Outside, Verdict, verified, failed, no_fuel, Judged, ends,
  goes_on, corrects, judge, poll, not_converged, canceled, verify_viewer_geometry,
  viewer_geometry_attempts,
}

module _ (captured : ViewerGeometry) (window_id : Bytes) (o : Outside) where
  -- A result after fewer than `n` queries beyond `i`; a success names a query that was answered by a
  -- client of the window which shows the captured geometry.
  abbrev pub Ends : ℕ → Verdict → Type 0
  Ends n (verified i c) =
      (i < n) × (o.query i ≡ attached c) × (viewer_geometry_matches captured window_id c ≡ true)
  Ends n (failed i r) = i ≤ n
  Ends n no_fuel = ⊥

  -- The queries that may still come.
  abbrev left : ℕ → Bool → ℕ
  left attempt true = viewer_geometry_attempts - attempt
  left attempt false = viewer_geometry_attempts - attempt + viewer_geometry_attempts

  judge-Ends :
      (corrected : Bool) (i n : ℕ) (a : Answer) (v : Verdict)
      → o.query i ≡ a
      → i < n
      → judge captured window_id o corrected i a ≡ ends v
      → Ends n v
  unfolding judge
  judge-Ends corrected i n absent v q l h = cc
  judge-Ends corrected i n broken (verified j d) q l h = cc
  judge-Ends corrected i n broken (failed j r) q l h = ground arith
  judge-Ends corrected i n broken no_fuel q l h = cc
  judge-Ends corrected i n (attached c) (verified j d) q l h = ground arith
  judge-Ends corrected i n (attached c) (failed j r) q l h = ground arith
  judge-Ends corrected i n (attached c) no_fuel q l h = ground arith

  judge_corrects :
      (corrected : Bool) (i : ℕ) (a : Answer)
      → judge captured window_id o corrected i a ≡ corrects
      → corrected ≡ false
  unfolding judge
  judge_corrects corrected i absent h = cc
  judge_corrects corrected i broken h = cc
  judge_corrects corrected i (attached c) h = ground arith

  module _ (fuel attempt : ℕ) (corrected : Bool) (i : ℕ) where
    poll_over :
        ltb attempt viewer_geometry_attempts ≡ false
        → poll captured window_id o (suc fuel) attempt corrected i ≡ failed i not_converged
    unfolding poll
    poll_over t = rw (poll, t) refl

    module _ (t : ltb attempt viewer_geometry_attempts ≡ true) where
      poll_ends :
          {v : Verdict}
          → judge captured window_id o corrected i (o.query i) ≡ ends v
          → poll captured window_id o (suc fuel) attempt corrected i ≡ v
      unfolding poll
      poll_ends j = rw (poll, t, j) refl

      poll_goes_on :
          judge captured window_id o corrected i (o.query i) ≡ goes_on
          → poll captured window_id o (suc fuel) attempt corrected i ≡ (
              if o.waits i
              then poll captured window_id o fuel (attempt + 1) corrected (i + 1)
              else failed i canceled)
      unfolding poll
      poll_goes_on j = rw (poll, t, j) (ground arith)

      poll_corrects :
          judge captured window_id o corrected i (o.query i) ≡ corrects
          → poll captured window_id o (suc fuel) attempt corrected i ≡ (
              if o.waits i
              then poll captured window_id o fuel 0 true (i + 1)
              else failed i canceled)
      unfolding poll
      poll_corrects j = rw (poll, t, j) (ground arith)

  waited-Ends :
      (n i : ℕ) (b : Bool) (v : Verdict)
      → i ≤ n
      → Ends n v
      → Ends n (if b then v else failed i canceled)
  waited-Ends n i true v l h = h
  waited-Ends n i false v l h = l

  -- Fuel above the queries that may still come is enough.
  poll-Ends :
      (fuel attempt : ℕ) (corrected : Bool) (i n : ℕ)
      → left attempt corrected < fuel
      → i + left attempt corrected ≤ n
      → Ends n (poll captured window_id o fuel attempt corrected i)
  poll-Ends zero attempt corrected i n f l = absurd (omega arith)
  poll-Ends (suc fuel) attempt corrected i n f l =
      elim (Bool-cases (ltb attempt viewer_geometry_attempts)) [
        | inr t ↦ rw (poll_over fuel attempt corrected i t) (ground arith)
        | inl t ↦
            judged t (judge captured window_id o corrected i (o.query i)) refl
              (λ k m. poll-Ends fuel (attempt + 1) corrected (i + 1) n k m)
              (λ k m. poll-Ends fuel 0 true (i + 1) n k m)
      ]
    where
      judged :
          ltb attempt viewer_geometry_attempts ≡ true
          → (j : Judged) → judge captured window_id o corrected i (o.query i) ≡ j
          → (left (attempt + 1) corrected < fuel
              → i + 1 + left (attempt + 1) corrected ≤ n
              → Ends n (poll captured window_id o fuel (attempt + 1) corrected (i + 1)))
          → (left 0 true < fuel
              → i + 1 + left 0 true ≤ n
              → Ends n (poll captured window_id o fuel 0 true (i + 1)))
          → Ends n (poll captured window_id o (suc fuel) attempt corrected i)
      judged t (ends v) j next again =
          rw (poll_ends fuel attempt corrected i t j)
            (judge-Ends corrected i n (o.query i) v refl (ground arith) j)
      judged t goes_on j next again =
          rw (poll_goes_on fuel attempt corrected i t j)
            (waited-Ends n i (o.waits i) _ (omega arith) (next (ground arith) (ground arith)))
      judged t corrects j next again =
          let c : corrected ≡ false = judge_corrects corrected i (o.query i) j in
          rw (poll_corrects fuel attempt corrected i t j)
            (waited-Ends n i (o.waits i) _ (ground arith) (again (ground arith) (ground arith)))

  -- Whatever tmux answers, the polling ends by itself, after at most 400 queries; and when it reports
  -- success, the last of them was answered by a client of the pinned window that shows the captured
  -- geometry.
  pub verify_viewer_geometry-Ends : Ends 400 (verify_viewer_geometry captured window_id o)
  unfolding verify_viewer_geometry
  verify_viewer_geometry-Ends = poll-Ends 402 0 false 0 400 (omega arith) (omega arith)
