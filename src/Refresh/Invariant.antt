-- ===== src/Refresh/Invariant.antt =====
-- At every point of every schedule there is at most one job, and the status tells where it is.
use cyberwatch_rs.Prelude.{
  ok, err, ℕ, ◌≤◌, String, ◌≡◌, refl, true, false, some, List, [], ◌∷◌, arith,
}
use cyberwatch_rs.Models.{RefreshStatus}
use cyberwatch_rs.Refresh.{
  is_active, dispatch, RefreshRequest, Gate, Worker, Coordinator, Event, free, checked, written,
  waiting, received, running, check, write, send, receive, begin, finish,
}

-- The status shows the given job in the given state.
abbrev pub Shows : String → RefreshRequest → RefreshStatus → Type 0
Shows state request status = (status.state ≡ state) × (status.job_id ≡ some request.job_id)

abbrev pub IsInactive : RefreshStatus → Type 0
IsInactive status = is_active status.state ≡ false

-- The places where the one job can be; any other combination is impossible.
abbrev pub Fits : Gate → Worker → List RefreshRequest → RefreshStatus → Type 0
Fits free waiting [] status = IsInactive status
Fits free waiting (r ∷ []) status = Shows "queued" r status
Fits free (received r) [] status = Shows "queued" r status
Fits free (running r) [] status = Shows "running" r status
Fits (checked r) waiting [] status = IsInactive status
Fits (written r) waiting [] status = Shows "queued" r status
Fits _ _ _ _ = ⊥

pub record IsConsistent (c : Coordinator) : Type 0 where
  pub room : 1 ≤ c.capacity
  pub fits : Fits c.gate c.worker c.queue c.status

pub queued-is_active : (state : String) → state ≡ "queued" → is_active state ≡ true
queued-is_active state h = rw h refl

pub running-is_active : (state : String) → state ≡ "running" → is_active state ≡ true
running-is_active state h = rw h refl

abbrev pub with_parts : ℕ → Gate → Worker → List RefreshRequest → RefreshStatus → Coordinator
with_parts capacity gate worker queue status = record {
  status = status;
  capacity = capacity;
  queue = queue;
  gate = gate;
  worker = worker;
}

pub dispatch-Fits :
    (event : Event) (gate : Gate) (worker : Worker) (queue : List RefreshRequest)
    (status : RefreshStatus) (capacity : ℕ)
    → 1 ≤ capacity
    → Fits gate worker queue status
    → IsConsistent (dispatch event gate worker (with_parts capacity gate worker queue status)).0
unfolding dispatch
dispatch-Fits (check r) free waiting [] status capacity h f = rw f (record { room = h; fits = f })
dispatch-Fits (check r) free waiting (q ∷ []) status capacity h f =
    rw (queued-is_active status.state f.0) (record { room = h; fits = f })
dispatch-Fits (check r) free (received q) [] status capacity h f =
    rw (queued-is_active status.state f.0) (record { room = h; fits = f })
dispatch-Fits (check r) free (running q) [] status capacity h f =
    rw (running-is_active status.state f.0) (record { room = h; fits = f })
dispatch-Fits (write now) (checked r) waiting [] status capacity h f = ground arith
dispatch-Fits send (written r) waiting [] status capacity h f = ground arith
dispatch-Fits receive free waiting (r ∷ []) status capacity h f = ground arith
dispatch-Fits (begin now) free (received r) [] status capacity h f = ground arith
dispatch-Fits (finish (ok report) now) free (running r) [] status capacity h f = ground arith
dispatch-Fits (finish (err error) now) free (running r) [] status capacity h f = ground arith
dispatch-Fits _ gate worker queue status capacity h f = ground arith
