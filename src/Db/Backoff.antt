-- ===== src/Db/Backoff.antt =====
-- `mark_source_failure`, `clear_source_failure` and `source_backoff_until` of src/db.rs.
pub mod Keys
pub mod Delay
pub mod Isolation
pub mod Failures
mod Tests
use Prim.Native.String.{◌++◌}
use cyberwatch_rs.Prelude.{
  ltb, if◌then◌else◌, unwrap_or, Result, ok, err, ℕ, ◌+◌, ◌-◌, ◌*◌, ◌^◌, min, String, Option, none,
  some, [], ◌∷◌,
}
use cyberwatch_rs.Prelude.Decimal.{to_string, parse_below}
use cyberwatch_rs.Db.SyncState.{SyncState, get_sync_state, set_sync_states, delete_sync_states}

-- The `chrono` crate, over times in nanoseconds. `add_seconds` has no result where the sum of a
-- `DateTime` and a `Duration` panics.
pub record Chrono : Type 0 where
  pub add_seconds : ℕ → ℕ → Option ℕ
  pub to_rfc3339 : ℕ → String
  pub parse_from_rfc3339 : String → Option ℕ

abbrev pub count_key : String → String
count_key source_id = "source:" ++ (source_id ++ ":failure_count")

abbrev pub until_key : String → String
until_key source_id = "source:" ++ (source_id ++ ":backoff_until")

pub data BackoffError : Type 0 where
  invalid_timestamp : BackoffError

abbrev u64_max : ℕ
u64_max = 2 ^ 64 - 1

-- `1_u64.checked_shl(shift).unwrap_or(u64::MAX)`
abbrev shl_one : ℕ → ℕ
shl_one shift = if ltb shift 64 then 2 ^ shift else u64_max

-- The delay after the `count`-th failure in a row; `count - 1` stops at 0, as `saturating_sub` does.
unfoldable pub backoff_seconds : ℕ → ℕ → ℕ → ℕ
backoff_seconds base maximum count = min (min (base * shl_one (count - 1)) u64_max) maximum

-- `i64::try_from(seconds).unwrap_or(i64::MAX)`
unfoldable pub to_i64 : ℕ → ℕ
to_i64 n = if ltb n (2 ^ 63) then n else 2 ^ 63 - 1

unfoldable pub previous_failures : String → SyncState → ℕ
unfolding get_sync_state parse_below
previous_failures source_id state = elim (get_sync_state (count_key source_id) state) [
  | none ↦ 0
  | some value ↦ unwrap_or (parse_below (2 ^ 32) value) 0
]

-- `previous.saturating_add(1).min(31)`
abbrev pub next_count : ℕ → ℕ
next_count previous = min (min (previous + 1) (2 ^ 32 - 1)) 31

module _ (chrono : Chrono) where
  unfoldable pub source_backoff_until : String → SyncState → Result BackoffError (Option ℕ)
  unfolding get_sync_state
  source_backoff_until source_id state = elim (get_sync_state (until_key source_id) state) [
    | none ↦ ok none
    | some value ↦ elim (chrono.parse_from_rfc3339 value) [
      | none ↦ err invalid_timestamp
      | some time ↦ ok (some time)
    ]
  ]

  -- The new state, and the end of the backoff; none where the addition of the delay panics.
  unfoldable pub mark_source_failure : ℕ → String → ℕ → ℕ → SyncState → Option (ℕ × SyncState)
  unfolding previous_failures backoff_seconds to_i64 set_sync_states to_string
  mark_source_failure now source_id base maximum state =
      let count = next_count (previous_failures source_id state) in
      let seconds = to_i64 (backoff_seconds base maximum count) in
      elim (chrono.add_seconds now seconds) [
        | none ↦ none
        | some until ↦ some (
          until,
          set_sync_states
              ((count_key source_id, to_string count)
                ∷ (until_key source_id, chrono.to_rfc3339 until)
                ∷ [])
              state,
        )
      ]

unfoldable pub clear_source_failure : String → SyncState → SyncState
unfolding delete_sync_states
clear_source_failure source_id state =
    delete_sync_states (count_key source_id ∷ until_key source_id ∷ []) state
