-- ===== src/Mirror/Server/Tests.antt =====
-- Two requests at one server: the first becomes a client and the secret rotates, the second is told
-- that its credential has expired. Then rejections and missing assets, and what of them is emitted.
use wrap.Base.{ℕ, ◌≡◌, refl, true, false, [], ◌∷◌, Bytes, codes, equal, List, length, suc, arith}
use wrap.Mirror.Server.{
  waiting, holding, leaving, informed, upgraded, authenticated, admitted, connected, asks, reads,
  upgrades, authenticates, takes_slot, registers, advance, clients_of, set_secret,
}
use wrap.Mirror.Server.Admission.{
  System, moved, rotated, moves, rotates, all_waiting, fresh, Reachable, starts, next, Inv,
}
use wrap.Mirror.Server.Admission.Interleaved.{reachable-Inv}
use wrap.Mirror.Server.Diagnostics.{
  Call, rejects, misses, stops, turns, perform, perform_all, started, enqueue, offer, received,
  record_remote_diagnostic, record_handshake_rejection, record_missing_asset, required_mirror_asset,
  stop_remote_diagnostics, run_remote_diagnostics,
}
use wrap.Mirror.Server.Diagnostics.Recorded.{Recorded, perform_all-Recorded}

abbrev host : Bytes
host = codes "a.example"

abbrev origin : Bytes
origin = codes "https://a.example"

abbrev old : Bytes
old = codes "old"

abbrev both_wait : System
both_wait = fresh host old 2

-- Both have authenticated.
abbrev both_shake : System
both_shake =
    moved (moved (moved (moved both_wait 0 waiting asks) 1 waiting asks) 0 holding reads) 1 holding
      reads

abbrev both_open : System
both_open =
    moved (moved both_shake 0 (informed host old 1) (upgrades (origin ∷ []) true)) 1
      (informed host old 1) (upgrades (origin ∷ []) true)

abbrev both_known : System
both_known =
    moved (moved both_open 0 (upgraded old 1) (authenticates true)) 1 (upgraded old 1)
      (authenticates true)

abbrev both_admitted : System
both_admitted =
    moved (moved both_known 0 (authenticated 1) takes_slot) 1 (authenticated 1) takes_slot

abbrev one_connected : System
one_connected = moved both_admitted 0 (admitted 1) registers

abbrev rotated_once : System
rotated_once = rotated (codes "new") one_connected

abbrev one_expired : System
one_expired = moved rotated_once 1 (admitted 1) registers

where_they_stand : one_expired.handlers ≡ connected 1 ∷ leaving ∷ []
unfolding moved rotated fresh all_waiting advance set_secret equal
where_they_stand = refl

slots_taken :
    (both_shake.server.handshakes ≡ 2)
    × (one_expired.server.handshakes ≡ 0)
    × (one_expired.server.clients ≡ 2)
unfolding moved rotated fresh all_waiting advance set_secret equal
slots_taken = (refl, refl, refl)

told_to_close : (one_expired.told 0 ≡ true) × (one_expired.told 1 ≡ false)
unfolding moved rotated fresh all_waiting advance set_secret clients_of equal
told_to_close = (refl, refl)

reached_shaking : Reachable host old 2 both_shake
unfolding moved fresh all_waiting advance equal
reached_shaking =
    next
      (next
        (next (next starts (moves both_wait 0 waiting asks refl))
          (moves (moved both_wait 0 waiting asks) 1 waiting asks refl))
        (moves (moved (moved both_wait 0 waiting asks) 1 waiting asks) 0 holding reads refl))
      (moves (moved (moved (moved both_wait 0 waiting asks) 1 waiting asks) 0 holding reads) 1
        holding reads refl)

reached_known : Reachable host old 2 both_known
unfolding moved fresh all_waiting advance equal
reached_known =
    next
      (next
        (next
          (next reached_shaking
            (moves _ 0 (informed host old 1) (upgrades (origin ∷ []) true) refl))
          (moves _ 1 (informed host old 1) (upgrades (origin ∷ []) true) refl))
        (moves _ 0 (upgraded old 1) (authenticates true) refl))
      (moves _ 1 (upgraded old 1) (authenticates true) refl)

reached_expired : Reachable host old 2 one_expired
unfolding moved rotated fresh all_waiting advance set_secret equal
reached_expired =
    next
      (next
        (next
          (next (next reached_known (moves _ 0 (authenticated 1) takes_slot refl))
            (moves _ 1 (authenticated 1) takes_slot refl))
          (moves _ 0 (admitted 1) registers refl))
        (rotates _ (codes "new")))
      (moves _ 1 (admitted 1) registers refl)

reachable-Inv_example : Inv one_expired
reachable-Inv_example = reachable-Inv host old 2 reached_expired

-- The second comes too early, the asset of the fourth is not a required one, the sixth comes too late.
abbrev busy_calls : List Call
busy_calls =
    rejects (codes "server_busy") 1
    ∷ rejects (codes "server_busy") 60000000000
    ∷ rejects (codes "server_busy") 60000000001
    ∷ misses (codes "assets/other.js") 3
    ∷ misses (codes "assets/index.html") 4
    ∷ stops
    ∷ rejects (codes "server_starting") 70000000000
    ∷ turns
    ∷ turns
    ∷ turns
    ∷ turns
    ∷ []

later : (n : ℕ) → suc n ≡ 0 → ⊥
later n e = omega (arith, e)

three_emitted :
    (length (perform_all busy_calls (started true)).emitted ≡ 3)
    × ((perform_all busy_calls (started true)).done ≡ true)
unfolding perform_all perform started enqueue offer received record_remote_diagnostic
    record_handshake_rejection record_missing_asset required_mirror_asset stop_remote_diagnostics
    run_remote_diagnostics equal
three_emitted = (refl, refl)

perform_all-Recorded_example : Recorded (perform_all busy_calls (started true))
perform_all-Recorded_example = perform_all-Recorded true busy_calls (
  later 0,
  (
    later 59999999999,
    (
      later 60000000000,
      (later 2, (later 3, (tt, (later 69999999999, (tt, (tt, (tt, (tt, tt)))))))),
    ),
  ),
)
