-- ===== src/Tests/Waiting.antt =====
-- Examples for the count of outstanding requests (src/KineticCallbacks.cc).
use kineticio.Prelude.{ℕ, ◌≡◌, ◌↔◌, true, false, refl, arith}
use kineticio.Kinetic.{status_ok, client_io_error}
use kineticio.Operation.Outstanding.{
  Synchronization, no_callbacks, register, receive, keeps_waiting, AllDone, start, registered,
  received, keeps_waiting-AllDone,
}

-- Two requests, of which the second times out and then is answered after all.
abbrev two_requests : Synchronization ℕ
two_requests =
    receive ℕ 1 status_ok
      (receive ℕ 1 client_io_error (register ℕ 8 (register ℕ 7 (no_callbacks ℕ))))

keeps_waiting-AllDone_example :
    (keeps_waiting ℕ 3 10 two_requests ≡ false) ↔ AllDone ℕ two_requests.callbacks
keeps_waiting-AllDone_example =
    keeps_waiting-AllDone ℕ 3 10
      (received 1 status_ok (received 1 client_io_error (registered 8 (registered 7 start))))
      (omega arith)

one_left : keeps_waiting ℕ 3 10 two_requests ≡ true
unfolding keeps_waiting receive register no_callbacks
one_left = refl
