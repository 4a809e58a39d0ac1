-- ===== src/Mirror/Manager/Tests.antt =====
-- The theorems on the manager at a run: a start, two clients, a terminal, a rotation, a shutdown.
use wrap.Base.{ℕ, ◌≡◌, refl, true, false, none, some, [], codes}
use wrap.Mirror.Maps.{member, find, add, put}
use wrap.Mirror.Manager.{
  Manager, Cleanup, free, Started, rotate_running, new_manager, start_begin, start_commit,
  connected, open_reserve, open_started, open_activate, rotate_begin, rotate_commit, shutdown_ask,
  shutdown_commit, sends_output, input,
}
use wrap.Mirror.Manager.Closing.{
  DetachesAll, HandsOver, Emptied, shutdown_final, rotate_commit_cuts_off,
}
use wrap.Mirror.Manager.Invariant.{
  ResourceInv, ClientInv, reachable-ResourceInv, reachable-ClientInv,
}
use wrap.Mirror.Manager.Steps.{
  Reach, here, after, starts, start_commits, connects, reserves, viewer_starts, activates, rotates,
}

abbrev resources : Started
resources = record {
  secret = codes "s";
  server = 1;
  tunnel = 2;
  public_url = codes "u";
  pairing_url = codes "p";
  qr = codes "q";
}

started : Manager
started = (start_commit resources false false [] (start_begin new_manager).0).0

-- Client 7 has a terminal, and client 8 has asked for one.
served : Manager
served =
    (open_reserve 8 5 true
      (connected 8
        (open_activate 7 4 9
          (open_started 7 4 9 (open_reserve 7 4 true (connected 7 started).0).0).0).0).0).0

to_started : Reach new_manager started
unfolding started start_begin start_commit new_manager
to_started = after (after here (starts refl)) (start_commits resources false false [] refl)

to_served : Reach new_manager served
unfolding served
to_served =
    after
      (after
        (after
          (after (after (after to_started (connects 7)) (reserves 7 4 true)) (viewer_starts 7 4 9))
          (activates 7 4 9))
        (connects 8))
      (reserves 8 5 true)

reachable-ResourceInv_example : ResourceInv served
reachable-ResourceInv_example = reachable-ResourceInv to_served

reachable-ClientInv_example : ClientInv served 7
reachable-ClientInv_example = reachable-ClientInv 7 to_served

rotating : Manager
rotating = (rotate_begin served).0

rotating-ResourceInv : ResourceInv rotating
unfolding rotating served started start_begin start_commit new_manager rotate_begin open_reserve
    open_activate open_started connected member find add put
rotating-ResourceInv = reachable-ResourceInv (after to_served (rotates refl))

rotating_holds : rotating.operation ≡ rotate_running
unfolding rotating served started start_begin start_commit new_manager rotate_begin open_reserve
    open_activate open_started connected member find add put
rotating_holds = refl

rotate_commit_cuts_off_example :
    let q = rotate_commit (codes "t") (codes "r") [] rotating in
    (q.1.0 ≡ none)
    × (q.0.server ≡ rotating.server)
    × (q.0.served_secret ≡ codes "t")
    × (q.0.secret ≡ codes "t")
    × (q.0.clients ≡ [])
    × ((client token : ℕ) → (sends_output client token q.0 ≡ false) × (input client q.0 ≡ none))
    × DetachesAll rotating q.1.1
rotate_commit_cuts_off_example =
    rotate_commit_cuts_off (codes "t") (codes "r") [] rotating rotating-ResourceInv rotating_holds

-- A shutdown is asked for while two clients are served.
leaving : Manager
leaving = shutdown_ask served

leaving_holds :
    (leaving.operation ≡ free) × (leaving.shutdown_asked ≡ true) × (leaving.is_shutdown ≡ false)
unfolding leaving served started start_begin start_commit new_manager shutdown_ask open_reserve
    open_activate open_started connected member find add put
leaving_holds = (refl, refl, refl)

-- A client comes too late.
late : Manager
late = (connected 3 (shutdown_commit leaving).0).0

to_late : Reach (shutdown_commit leaving).0 late
unfolding late
to_late = after here (connects 3)

shutdown_final_example :
    ((c : Cleanup) × ((shutdown_commit leaving).1 ≡ some c) × HandsOver leaving c)
    × ((n : Manager) → Reach (shutdown_commit leaving).0 n → Emptied n)
shutdown_final_example = shutdown_final leaving leaving_holds.0 leaving_holds.1 leaving_holds.2

late_is_empty : Emptied late
late_is_empty =
    (shutdown_final leaving leaving_holds.0 leaving_holds.1 leaving_holds.2).1 late to_late
