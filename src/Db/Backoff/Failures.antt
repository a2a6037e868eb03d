-- ===== src/Db/Backoff/Failures.antt =====
-- Failures in a row, and what a success clears.
use text.Mathlib.TextEquality.{eq_iff}
use cyberwatch_rs.Prelude.{
  ◌==◌, text_eq, if◌then◌else◌, ok, ℕ, ◌+◌, ◌-◌, ◌*◌, ◌^◌, ◌<◌, min, String, ◌≡◌, ◌≢◌, none, some,
  arith,
}
use cyberwatch_rs.Db.SyncState.{SyncState, get_sync_state, set_sync_states}
use cyberwatch_rs.Db.Backoff.{
  count_key, until_key, backoff_seconds, to_i64, previous_failures, next_count,
  source_backoff_until, mark_source_failure, clear_source_failure, Chrono,
}
use cyberwatch_rs.Db.Backoff.Keys.{count-ne-until}
use cyberwatch_rs.Db.Backoff.Delay.{backoff_seconds_lem}
use cyberwatch_rs.Db.Backoff.Isolation.{
  get-delete_two, entries, count_after, until_after, keys_differ, get_count_other, get_until_other,
}

next_count_lem : (n : ℕ) → next_count n ≡ min (n + 1) 31
next_count_lem n = omega arith

seconds_lem :
    (base maximum previous : ℕ)
    → maximum < 2 ^ 63
    → to_i64 (backoff_seconds base maximum (next_count previous))
      ≡ min (base * 2 ^ (min (previous + 1) 31 - 1)) maximum
unfolding to_i64
seconds_lem base maximum previous h =
    rw
      (
        next_count_lem previous,
        backoff_seconds_lem base maximum (min (previous + 1) 31) (omega arith) (omega arith),
      )
      (ground arith)

-- Both readings depend on one row of the table each.
failures_of_row :
    (a : String) (s t : SyncState)
    → get_sync_state (count_key a) s ≡ get_sync_state (count_key a) t
    → previous_failures a s ≡ previous_failures a t
unfolding previous_failures
failures_of_row a s t h = rw (h, previous_failures)

until_of_row :
    (chrono : Chrono) (a : String) (s t : SyncState)
    → get_sync_state (until_key a) s ≡ get_sync_state (until_key a) t
    → source_backoff_until chrono a s ≡ source_backoff_until chrono a t
unfolding source_backoff_until
until_of_row chrono a s t h = rw (h, source_backoff_until)

get-clear :
    (j a : String) (state : SyncState)
    → get_sync_state j (clear_source_failure a state) ≡ (
        if until_key a == j
        then none
        else if count_key a == j
        then none
        else get_sync_state j state)
unfolding clear_source_failure
get-clear j a state = get-delete_two j (count_key a) (until_key a) state

module _ (chrono : Chrono) (now : ℕ) (source_id : String) (base maximum : ℕ)
    (state : SyncState) where
  abbrev seconds_after : ℕ
  seconds_after =
      to_i64 (backoff_seconds base maximum (next_count (previous_failures source_id state)))

  mark-eq-some :
      (until : ℕ) (state' : SyncState)
      → mark_source_failure chrono now source_id base maximum state ≡ some (until, state')
      → (chrono.add_seconds now seconds_after ≡ some until)
        × (state'
            ≡ set_sync_states
                (entries chrono source_id state
                  (next_count (previous_failures source_id state))
                  until)
                state)
  unfolding mark_source_failure
  mark-eq-some until state' h = ground arith

  -- Where the maximum fits into 63 bits and the end that is returned, once written, reads back as it
  -- was: after a failure is marked, the count is one higher, up to 31, and the stored end of the
  -- backoff reads back as the end that was returned, which lies the delay for the new count after
  -- `now`: the base doubled for each further failure, capped by the maximum.
  pub mark_source_failure_lem :
      (until : ℕ) (state' : SyncState)
      → chrono.parse_from_rfc3339 (chrono.to_rfc3339 until) ≡ some until
      → maximum < 2 ^ 63
      → mark_source_failure chrono now source_id base maximum state ≡ some (until, state')
      → (previous_failures source_id state' ≡ min (previous_failures source_id state + 1) 31)
        × (source_backoff_until chrono source_id state' ≡ ok (some until))
        × (chrono.add_seconds now
              (min (base * 2 ^ (min (previous_failures source_id state + 1) 31 - 1)) maximum)
            ≡ some until)
  mark_source_failure_lem until state' reads small h =
      let (added, same) = mark-eq-some until state' h in
      let count : ℕ = next_count (previous_failures source_id state) in
      (
        rw (same, ← next_count_lem (previous_failures source_id state))
            (count_after chrono source_id state count until (omega arith)),
        rw same (until_after chrono source_id state count until reads),
        rw (seconds_lem base maximum (previous_failures source_id state) small) at added,
      )

  -- A failure of one source leaves the failure count and the backoff of every other as they were.
  pub mark_source_failure-other :
      (until : ℕ) (state' : SyncState) (other : String)
      → source_id ≢ other
      → mark_source_failure chrono now source_id base maximum state ≡ some (until, state')
      → (previous_failures other state' ≡ previous_failures other state)
        × (source_backoff_until chrono other state' ≡ source_backoff_until chrono other state)
  mark_source_failure-other until state' other differ h =
      let same = (mark-eq-some until state' h).1 in
      rw same (
        failures_of_row other _ state (get_count_other chrono source_id state other differ _ _),
        until_of_row chrono other _ state (get_until_other chrono source_id state other differ _ _),
      )

  -- A success of a source clears its failure count and its backoff, and leaves those of every other
  -- source as they were.
  pub clear_source_failure_lem :
      (other : String)
      → source_id ≢ other
      → (previous_failures source_id (clear_source_failure source_id state) ≡ 0)
        × (source_backoff_until chrono source_id (clear_source_failure source_id state) ≡ ok none)
        × (previous_failures other (clear_source_failure source_id state)
            ≡ previous_failures other state)
        × (source_backoff_until chrono other (clear_source_failure source_id state)
            ≡ source_backoff_until chrono other state)
  unfolding previous_failures source_backoff_until
  clear_source_failure_lem other differ = (
    ground (
      arith,
      get-clear (count_key source_id) source_id state,
      eq_iff (count_key source_id) (count_key source_id),
    ),
    ground (
      arith,
      get-clear (until_key source_id) source_id state,
      eq_iff (until_key source_id) (until_key source_id),
    ),
    failures_of_row other _ state (
        ground (
          arith,
          keys_differ chrono source_id state other differ,
          get-clear (count_key other) source_id state,
          count-ne-until other source_id,
          eq_iff (until_key source_id) (count_key other),
          eq_iff (count_key source_id) (count_key other),
        )),
    until_of_row chrono other _ state (
        ground (
          arith,
          keys_differ chrono source_id state other differ,
          get-clear (until_key other) source_id state,
          count-ne-until source_id other,
          eq_iff (until_key source_id) (until_key other),
          eq_iff (count_key source_id) (until_key other),
        )),
  )
