-- ===== src/Mirror/Viewer/Verify.antt =====
-- verifyViewerGeometry: the polling of a viewer's client until it shows the captured geometry.
pub mod Bounded
use wrap.Base.{ℕ, zero, suc, ◌+◌, ◌*◌, Bool, true, false, not, ltb, if◌then◌else◌, Bytes, equal}
use wrap.Mirror.Viewer.Geometry.{ClientGeometry, ViewerGeometry, viewer_geometry_matches}

-- Two seconds by ten milliseconds.
abbrev pub viewer_geometry_attempts : ℕ
viewer_geometry_attempts = 200

pub data Answer : Type 0 where
  absent broken : Answer
  attached : ClientGeometry → Answer

-- What the outside does: the answer to each query, whether the wait after it ends without a
-- cancellation, and whether the correction of the size succeeds.
pub record Outside : Type 0 where
  pub query : ℕ → Answer
  pub waits : ℕ → Bool
  pub resizes : Bool
  pub refreshes : Bool

pub data Reason : Type 0 where
  query_failed canceled moved not_resized not_refreshed not_converged : Reason

-- `verified` names the query that was answered right; `no_fuel` is no result of the code.
pub data Verdict : Type 0 where
  verified : ℕ → ClientGeometry → Verdict
  failed : ℕ → Reason → Verdict
  no_fuel : Verdict

-- What the loop does with one answer: it ends, or goes on with or without a correction.
pub data Judged : Type 0 where
  ends : Verdict → Judged
  goes_on corrects : Judged

module _ (captured : ViewerGeometry) (window_id : Bytes) (o : Outside) where
  judge : Bool → ℕ → Answer → Judged
  judge corrected i absent = goes_on
  judge corrected i broken = ends (failed i query_failed)
  judge corrected i (attached c) =
      if not (equal c.window_id window_id)
      then ends (failed i moved)
      else if viewer_geometry_matches captured window_id c
      then ends (verified i c)
      else if corrected
      then goes_on
      else if not o.resizes
      then ends (failed i not_resized)
      else if not o.refreshes
      then ends (failed i not_refreshed)
      else corrects

  -- `i` counts the queries. A correction starts the attempts anew; it happens once.
  pub poll : ℕ → ℕ → Bool → ℕ → Verdict
  unfolding judge
  poll zero attempt corrected i = no_fuel
  poll (suc fuel) attempt corrected i = elim (ltb attempt viewer_geometry_attempts) [
    | false ↦ failed i not_converged
    | true ↦ elim (judge corrected i (o.query i)) [
      | ends v ↦ v
      | goes_on ↦ elim (o.waits i) [
        | false ↦ failed i canceled
        | true ↦ poll fuel (attempt + 1) corrected (i + 1)
      ]
      | corrects ↦ elim (o.waits i) [ false ↦ failed i canceled | true ↦ poll fuel 0 true (i + 1) ]
    ]
  ]

  pub verify_viewer_geometry : Verdict
  unfolding poll
  verify_viewer_geometry = poll (2 * viewer_geometry_attempts + 2) 0 false 0
