-- ===== src/Refresh.antt =====
-- src/refresh.rs: the refresh coordinator. A request and the worker run side by side; what each does
-- between two awaits is one event, and a schedule is a list of events.
pub mod Invariant
pub mod Progress
mod Tests
use Prim.Native.String
use cyberwatch_rs.Prelude.{
  ltb, ◌==◌, text_eq, if◌then◌else◌, length, unwrap_or, Result, ok, err, ℕ, String, Bool, true,
  false, ◌||◌, Option, none, some, List, [], ◌∷◌, ◌++◌,
}
use cyberwatch_rs.Models.{default_status, RefreshReport, RefreshStatus, RefreshAccepted}

pub record RefreshRequest : Type 0 where
  pub job_id : String
  pub reason : String

-- Where the holder of the enqueue gate stands: the status was found inactive, or was set to queued.
pub data Gate : Type 0 where
  free : Gate
  checked : RefreshRequest → Gate
  written : RefreshRequest → Gate

-- Where the worker stands: in `recv`, or past it, or in `execute_refresh`.
pub data Worker : Type 0 where
  waiting : Worker
  received : RefreshRequest → Worker
  running : RefreshRequest → Worker

pub record Coordinator : Type 0 where
  pub status : RefreshStatus
  pub capacity : ℕ
  pub queue : List RefreshRequest
  pub gate : Gate
  pub worker : Worker

pub data Answer : Type 0 where
  accepted : RefreshAccepted → Answer
  disabled : Answer
  not_enqueued : Answer

-- `matches!(status.state.as_str(), "queued" | "running")`
abbrev pub is_active : String → Bool
is_active state = state == "queued" || state == "running"

-- `RefreshCoordinator::start`: no coordinator runs, and the status says so, if refresh is not allowed.
unfoldable pub start : Bool → ℕ → RefreshStatus × Option Coordinator
start refresh_allowed capacity =
    if refresh_allowed
    then (
      default_status,
      some (record {
        status = default_status;
        capacity = capacity;
        queue = [];
        gate = free;
        worker = waiting;
      }),
    )
    else (record default_status { state = "disabled" }, none)

abbrev pub queued_status : RefreshRequest → String → RefreshStatus
queued_status request now = record {
  job_id = some request.job_id;
  state = "queued";
  reason = some request.reason;
  queued_at = some now;
  started_at = none;
  finished_at = none;
  report = none;
  error = none;
}

abbrev busy_answer : RefreshStatus → Answer
busy_answer status =
    accepted
      (record { accepted = false; job_id = unwrap_or status.job_id ""; state = status.state })

-- The parts of `request`: the gate is taken and the status read; the status is written; the request
-- is sent. `request.job_id` is the fresh UUID.
unfoldable pub check_status : RefreshRequest → Coordinator → Coordinator × Option Answer
check_status request c =
    if is_active c.status.state
    then (c, some (busy_answer c.status))
    else (record c { gate = checked request }, none)

unfoldable pub write_status : RefreshRequest → String → Coordinator → Coordinator
write_status request now c = record c { status = queued_status request now; gate = written request }

unfoldable pub try_send : RefreshRequest → Coordinator → Coordinator × Option Answer
try_send request c =
    if ltb (length c.queue) c.capacity
    then (
      record c { queue = c.queue ++ request ∷ []; gate = free },
      some (accepted (record { accepted = true; job_id = request.job_id; state = "queued" })),
    )
    else (record c { status = default_status; gate = free }, some not_enqueued)

-- The parts of `worker`.
unfoldable pub begin_job : RefreshRequest → String → Coordinator → Coordinator
begin_job request now c = record c {
  status = record (c.status) { state = "running"; started_at = some now; error = none };
  worker = running request;
}

unfoldable pub finish_job : Result String RefreshReport → String → Coordinator → Coordinator
finish_job (ok report) now c = record c {
  status = record (c.status) {
    state = "completed";
    finished_at = some now;
    report = some report;
    error = none;
  };
  worker = waiting;
}
finish_job (err error) now c = record c {
  status = record (c.status) { state = "failed"; finished_at = some now; error = some error };
  worker = waiting;
}

pub data Event : Type 0 where
  check : RefreshRequest → Event
  write : String → Event
  send : Event
  receive : Event
  begin : String → Event
  finish : Result String RefreshReport → String → Event

receive_from : Worker → List RefreshRequest → Coordinator → Coordinator
receive_from waiting (request ∷ rest) c = record c { queue = rest; worker = received request }
receive_from _ _ c = c

-- One event. An event that cannot happen at this point changes nothing: a second request waits for
-- the gate, and the worker waits for a job.
unfoldable pub dispatch : Event → Gate → Worker → Coordinator → Coordinator × Option Answer
unfolding check_status write_status try_send begin_job finish_job receive_from
dispatch (check request) free worker c = check_status request c
dispatch (write now) (checked request) worker c = (write_status request now c, none)
dispatch send (written request) worker c = try_send request c
dispatch receive gate worker c = (receive_from worker c.queue c, none)
dispatch (begin now) gate (received request) c = (begin_job request now c, none)
dispatch (finish result now) gate (running request) c = (finish_job result now c, none)
dispatch _ _ _ c = (c, none)

unfoldable pub step : Event → Coordinator → Coordinator × Option Answer
unfolding dispatch
step event c = dispatch event c.gate c.worker c

unfoldable pub run : List Event → Coordinator → Coordinator
unfolding step
run [] c = c
run (event ∷ events) c = run events (step event c).0

-- `execute_refresh`: the report of the sources, with what the validation and the retention came to.
unfoldable pub execute_refresh :
    RefreshReport
    → Result String (ℕ × List String)
    → Result String (Unit {0})
    → String
    → Result String RefreshReport
execute_refresh report validation (err error) now =
    err (String.◌++◌ "retention cleanup failed: " error)
execute_refresh report (ok (validated, warnings)) (ok _) now =
    ok (record report {
      validated = validated;
      errors = report.errors ++ warnings;
      finished_at = now;
    })
execute_refresh report (err error) (ok _) now = ok (record report {
  errors = report.errors ++ (String.◌++◌ "cross-validation stage failed: " error) ∷ [];
  finished_at = now;
})
