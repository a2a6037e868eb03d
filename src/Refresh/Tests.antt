-- ===== src/Refresh/Tests.antt =====
-- Schedules of the coordinator to try the model on, and its theorems at them.
use cyberwatch_rs.Prelude.{err, ◌≡◌, refl, ◌≢◌, true, some, List, [], ◌∷◌, arith}
use cyberwatch_rs.Models.{default_status}
use cyberwatch_rs.Refresh.{
  start, step, run, RefreshRequest, Coordinator, Event, free, waiting, not_enqueued, check, write,
  send,
}
use cyberwatch_rs.Refresh.Progress.{
  in_flight, run-Tells, step-enqueues, to_the_end, Ended, in_flight-ends, Tells,
}

abbrev fresh : Coordinator
fresh = record { status = default_status; capacity = 1; queue = []; gate = free; worker = waiting }

abbrev first_request : RefreshRequest
first_request = record { job_id = "job-1"; reason = "startup" }

abbrev second_request : RefreshRequest
second_request = record { job_id = "job-2"; reason = "manual-api" }

-- The first request is in the queue.
abbrev one_queued : List Event
one_queued = check first_request ∷ write "12:00" ∷ send ∷ []

fresh-started : (start true 1).1 ≡ some fresh
unfolding start
fresh-started = refl

queued_alone : in_flight (run one_queued fresh) ≡ first_request ∷ []
unfolding run
queued_alone = refl

queued-gate : (run one_queued fresh).gate ≡ free
unfolding run
queued-gate = refl

nothing_yet : in_flight (run [] fresh) ≡ []
unfolding run
nothing_yet = refl

fresh-gate : (run [] fresh).gate ≡ free
unfolding run
fresh-gate = refl

run-Tells_example : Tells (run one_queued fresh)
run-Tells_example = run-Tells 1 one_queued fresh (ground arith) fresh-started

step-enqueues_example : (step (check second_request) (run one_queued fresh)).1 ≢ some not_enqueued
step-enqueues_example =
    step-enqueues 1 one_queued (check second_request) fresh (ground arith) fresh-started

in_flight-ends_example :
    Ended "job-1"
      (err "disk full")
      (run (to_the_end "12:01" (err "disk full")) (run one_queued fresh)).status
in_flight-ends_example =
    in_flight-ends 1 one_queued fresh first_request "12:01" (err "disk full") (ground arith)
      fresh-started queued_alone
