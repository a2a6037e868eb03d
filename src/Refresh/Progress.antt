-- ===== src/Refresh/Progress.antt =====
-- What the invariant gives: one job at a time, every request answered, every job run to its end.
use cyberwatch_rs.Prelude.{
  Result, ok, err, ℕ, ◌≤◌, String, ◌≡◌, refl, ◌≢◌, true, false, Option, none, some, List, [], ◌∷◌,
  ◌++◌, arith,
}
use cyberwatch_rs.Models.{default_status, RefreshReport, RefreshStatus}
use cyberwatch_rs.Refresh.{
  is_active, start, queued_status, dispatch, step, run, RefreshRequest, Gate, Worker, Coordinator,
  Answer, Event, free, checked, written, waiting, received, running, accepted, not_enqueued, check,
  write, send, receive, begin, finish,
}
use cyberwatch_rs.Refresh.Invariant.{
  IsInactive, Fits, queued-is_active, running-is_active, with_parts, dispatch-Fits, IsConsistent,
}

pub step-IsConsistent :
    (event : Event) (c : Coordinator) → IsConsistent c → IsConsistent (step event c).0
unfolding step
step-IsConsistent event c v =
    dispatch-Fits event c.gate c.worker c.queue c.status c.capacity v.room v.fits

pub run-IsConsistent :
    (events : List Event) (c : Coordinator) → IsConsistent c → IsConsistent (run events c)
unfolding run
run-IsConsistent [] c v = v
run-IsConsistent (event ∷ events) c v =
    run-IsConsistent events (step event c).0 (step-IsConsistent event c v)

pub started-IsConsistent :
    (capacity : ℕ) (c : Coordinator)
    → 1 ≤ capacity
    → (start true capacity).1 ≡ some c
    → IsConsistent c
unfolding start
started-IsConsistent capacity c h e =
    let same : c ≡ with_parts capacity free waiting [] default_status = ground arith in
    rw same (record { room = h; fits = refl })

abbrev gate_jobs : Gate → List RefreshRequest
gate_jobs (written r) = r ∷ []
gate_jobs _ = []

abbrev worker_jobs : Worker → List RefreshRequest
worker_jobs waiting = []
worker_jobs (received r) = r ∷ []
worker_jobs (running r) = r ∷ []

-- The jobs that were taken and have not ended: announced, in the queue, and with the worker.
abbrev pub in_flight : Coordinator → List RefreshRequest
in_flight c = gate_jobs c.gate ++ (c.queue ++ worker_jobs c.worker)

-- Whether a job is in flight, and which, as the status tells it.
pub data Tells (c : Coordinator) : Type 0 where
  idle : in_flight c ≡ [] → IsInactive c.status → Tells c
  busy :
      (request : RefreshRequest)
      → in_flight c ≡ request ∷ []
      → is_active c.status.state ≡ true
      → c.status.job_id ≡ some request.job_id
      → Tells c

parts-Tells :
    (gate : Gate) (worker : Worker) (queue : List RefreshRequest) (status : RefreshStatus)
    (capacity : ℕ)
    → Fits gate worker queue status
    → Tells (with_parts capacity gate worker queue status)
parts-Tells free waiting [] status capacity f = idle refl f
parts-Tells free waiting (r ∷ []) status capacity f =
    busy r refl (queued-is_active status.state f.0) f.1
parts-Tells free (received r) [] status capacity f =
    busy r refl (queued-is_active status.state f.0) f.1
parts-Tells free (running r) [] status capacity f =
    busy r refl (running-is_active status.state f.0) f.1
parts-Tells (checked r) waiting [] status capacity f = idle refl f
parts-Tells (written r) waiting [] status capacity f =
    busy r refl (queued-is_active status.state f.0) f.1
parts-Tells _ worker queue status capacity f = absurd f

-- After any schedule of requests and worker steps, a coordinator that was started with a queue of at
-- least one place has at most one job in flight, and its status is queued or running exactly when it
-- has one, under that job's id.
pub run-Tells :
    (capacity : ℕ) (events : List Event) (c : Coordinator)
    → 1 ≤ capacity
    → (start true capacity).1 ≡ some c
    → Tells (run events c)
run-Tells capacity events c h e =
    let after : Coordinator = run events c in
    let v : IsConsistent after = run-IsConsistent events c (started-IsConsistent capacity c h e) in
    parts-Tells after.gate after.worker after.queue after.status after.capacity v.fits

parts-enqueues :
    (event : Event) (gate : Gate) (worker : Worker) (queue : List RefreshRequest)
    (status : RefreshStatus) (capacity : ℕ)
    → 1 ≤ capacity
    → Fits gate worker queue status
    → (dispatch event gate worker (with_parts capacity gate worker queue status)).1
      ≢ some not_enqueued
unfolding dispatch
parts-enqueues send (written r) waiting [] status capacity h f = ground arith
parts-enqueues _ gate worker queue status capacity h f = ground arith

-- In no schedule does a request find the queue full: the error of `try_send` is never answered.
pub step-enqueues :
    (capacity : ℕ) (events : List Event) (event : Event) (c : Coordinator)
    → 1 ≤ capacity
    → (start true capacity).1 ≡ some c
    → (step event (run events c)).1 ≢ some not_enqueued
unfolding step
step-enqueues capacity events event c h e =
    let after : Coordinator = run events c in
    let v : IsConsistent after = run-IsConsistent events c (started-IsConsistent capacity c h e) in
    parts-enqueues event after.gate after.worker after.queue after.status after.capacity v.room
      v.fits

-- The events that end a job: its request is announced and sent, and the worker takes and runs it.
abbrev pub to_the_end : String → Result String RefreshReport → List Event
to_the_end now result = write now ∷ send ∷ receive ∷ begin now ∷ finish result now ∷ []

-- The status of a job that has ended with this result.
abbrev pub Ended : String → Result String RefreshReport → RefreshStatus → Type 0
Ended job_id (ok report) status =
    (status.state ≡ "completed")
    × (status.job_id ≡ some job_id)
    × (status.report ≡ some report)
    × (status.error ≡ none)
Ended job_id (err error) status =
    (status.state ≡ "failed") × (status.job_id ≡ some job_id) × (status.error ≡ some error)

parts-end :
    (gate : Gate) (worker : Worker) (queue : List RefreshRequest) (status : RefreshStatus)
    (capacity : ℕ) (request : RefreshRequest) (now : String) (result : Result String RefreshReport)
    → 1 ≤ capacity
    → Fits gate worker queue status
    → in_flight (with_parts capacity gate worker queue status) ≡ request ∷ []
    → Ended request.job_id result
        (run (to_the_end now result) (with_parts capacity gate worker queue status)).status
unfolding run
parts-end free waiting (r ∷ []) status capacity request now (ok report) h f e = ground arith
parts-end free waiting (r ∷ []) status capacity request now (err error) h f e = ground arith
parts-end free (received r) [] status capacity request now (ok report) h f e = ground arith
parts-end free (received r) [] status capacity request now (err error) h f e = ground arith
parts-end free (running r) [] status capacity request now (ok report) h f e = ground arith
parts-end free (running r) [] status capacity request now (err error) h f e = ground arith
parts-end (written r) waiting [] status capacity request now (ok report) h f e = ground arith
parts-end (written r) waiting [] status capacity request now (err error) h f e = ground arith
parts-end _ worker queue status capacity request now result h f e = ground arith

-- Whatever the schedule was, a job in flight runs to its end: once its request is announced and sent
-- and the worker has taken it, begun it and finished it with a result, the status is completed or
-- failed by that result, under the job's id, with the report or the error.
pub in_flight-ends :
    (capacity : ℕ) (events : List Event) (c : Coordinator) (request : RefreshRequest) (now : String)
    (result : Result String RefreshReport)
    → 1 ≤ capacity
    → (start true capacity).1 ≡ some c
    → in_flight (run events c) ≡ request ∷ []
    → Ended request.job_id result (run (to_the_end now result) (run events c)).status
in_flight-ends capacity events c request now result h e one =
    let after : Coordinator = run events c in
    let v : IsConsistent after = run-IsConsistent events c (started-IsConsistent capacity c h e) in
    parts-end after.gate after.worker after.queue after.status after.capacity request now result
      v.room v.fits one

parts-busy :
    (gate : Gate) (worker : Worker) (queue : List RefreshRequest) (status : RefreshStatus)
    (capacity : ℕ) (job request : RefreshRequest)
    → Fits gate worker queue status
    → gate ≡ free
    → in_flight (with_parts capacity gate worker queue status) ≡ job ∷ []
    → dispatch (check request) gate worker (with_parts capacity gate worker queue status) ≡ (
      with_parts capacity gate worker queue status,
      some (accepted (record { accepted = false; job_id = job.job_id; state = status.state })),
    )
unfolding dispatch
parts-busy free waiting (r ∷ []) status capacity job request f g e =
    rw (queued-is_active status.state f.0) (ground arith)
parts-busy free (received r) [] status capacity job request f g e =
    rw (queued-is_active status.state f.0) (ground arith)
parts-busy free (running r) [] status capacity job request f g e =
    rw (running-is_active status.state f.0) (ground arith)
parts-busy gate worker queue status capacity job request f g e = ground arith

-- A request with nothing between its parts.
abbrev pub request_alone : RefreshRequest → String → Coordinator → Coordinator × Option Answer
request_alone request now c = step send (run (check request ∷ write now ∷ []) c)

parts-free :
    (gate : Gate) (worker : Worker) (queue : List RefreshRequest) (status : RefreshStatus)
    (capacity : ℕ) (request : RefreshRequest) (now : String)
    → 1 ≤ capacity
    → Fits gate worker queue status
    → gate ≡ free
    → in_flight (with_parts capacity gate worker queue status) ≡ []
    → request_alone request now (with_parts capacity gate worker queue status) ≡ (
      with_parts capacity free waiting (request ∷ []) (queued_status request now),
      some (accepted (record { accepted = true; job_id = request.job_id; state = "queued" })),
    )
unfolding run
parts-free free waiting [] status capacity request now h f g e = rw (f, run) (ground arith)
parts-free gate worker queue status capacity request now h f g e = ground arith

module _ (capacity : ℕ) (events : List Event) (c : Coordinator) (request : RefreshRequest)
    (h : 1 ≤ capacity) (e : (start true capacity).1 ≡ some c)
    (open_gate : (run events c).gate ≡ free) where
  -- Whatever the schedule was, while a job is in flight a further request is answered with that
  -- job's id and state, is not accepted, and changes nothing.
  pub check-busy :
      (job : RefreshRequest)
      → in_flight (run events c) ≡ job ∷ []
      → step (check request) (run events c) ≡ (
        run events c,
        some (
            accepted (record {
              accepted = false;
              job_id = job.job_id;
              state = (run events c).status.state;
            })),
      )
  unfolding step
  check-busy job one =
      let after : Coordinator = run events c in
      let v : IsConsistent after =
        run-IsConsistent events c (started-IsConsistent capacity c h e) in
      parts-busy after.gate after.worker after.queue after.status after.capacity job request v.fits
        open_gate one

  -- With no job in flight, a request that runs alone is accepted: it is the one job in the queue, and
  -- the status is queued under its id, with nothing left of the job before.
  pub request_alone-idle :
      (now : String)
      → in_flight (run events c) ≡ []
      → request_alone request now (run events c) ≡ (
        with_parts (run events c).capacity free waiting (request ∷ []) (queued_status request now),
        some (accepted (record { accepted = true; job_id = request.job_id; state = "queued" })),
      )
  request_alone-idle now one =
      let after : Coordinator = run events c in
      let v : IsConsistent after =
        run-IsConsistent events c (started-IsConsistent capacity c h e) in
      parts-free after.gate after.worker after.queue after.status after.capacity request now v.room
        v.fits open_gate one
