-- ===== src/Db/Backoff/Isolation.antt =====
-- What a failure and a success of one source change in the table, and what they leave alone.
use text.Mathlib.TextEquality.{eq_iff}
use cyberwatch_rs.Prelude.{
  ◌==◌, number_eq, text_eq, if◌then◌else◌, ok, ℕ, zero, suc, ◌^◌, ◌<◌, String, ◌≡◌, refl, ◌≢◌, Bool,
  true, false, ◌&&◌, none, some, List, [], ◌∷◌, arith,
}
use cyberwatch_rs.Prelude.Table.{upsert, delete, lookup-upsert, lookup-delete}
use cyberwatch_rs.Prelude.Decimal.{to_string, parse_below}
use cyberwatch_rs.Db.SyncState.{SyncState, get_sync_state, set_sync_states, delete_sync_states}
use cyberwatch_rs.Db.Backoff.{count_key, until_key, previous_failures, source_backoff_until, Chrono}
use cyberwatch_rs.Db.Backoff.Keys.{count_key_inj, until_key_inj, count-ne-until}

get-set_two :
    (j k l v w : String) (state : SyncState)
    → get_sync_state j (set_sync_states ((k, v) ∷ (l, w) ∷ []) state)
      ≡ (if l == j then some w else if k == j then some v else get_sync_state j state)
unfolding get_sync_state set_sync_states
get-set_two j k l v w state = rw (lookup-upsert l j w (upsert k v state), lookup-upsert k j v state)

pub get-delete_two :
    (j k l : String) (state : SyncState)
    → get_sync_state j (delete_sync_states (k ∷ l ∷ []) state)
      ≡ (if l == j then none else if k == j then none else get_sync_state j state)
unfolding get_sync_state delete_sync_states
get-delete_two j k l state = rw (lookup-delete l j (delete k state), lookup-delete k j state)

-- The counts that the program writes are read back.
count_of : ℕ → Bool
unfolding parse_below to_string
count_of n = elim (parse_below (2 ^ 32) (to_string n)) [ none ↦ false | some m ↦ m == n ]

counts_below : ℕ → Bool
unfolding count_of
counts_below zero = true
counts_below (suc n) = count_of n && counts_below n

counts_below_sound : (n m : ℕ) → counts_below n ≡ true → m < n → count_of m ≡ true
unfolding counts_below
counts_below_sound zero m h lt = absurd (omega arith)
counts_below_sound (suc n) m h lt = ground (arith, counts_below_sound n m)

parse-to_string_count : (n : ℕ) → n < 32 → parse_below (2 ^ 32) (to_string n) ≡ some n
unfolding count_of
parse-to_string_count n h = ground (arith, counts_below_sound 32 n (unfold counts_below in refl) h)

module _ (chrono : Chrono) (source_id : String) (state : SyncState) where
  abbrev pub entries : ℕ → ℕ → List (String × String)
  entries count until =
      (count_key source_id, to_string count) ∷ (until_key source_id, chrono.to_rfc3339 until) ∷ []

  pub count_after :
      (count until : ℕ)
      → count < 32
      → previous_failures source_id (set_sync_states (entries count until) state) ≡ count
  unfolding previous_failures
  count_after count until h = ground (
    arith,
    get-set_two (count_key source_id) (count_key source_id) (until_key source_id) (to_string count)
        (chrono.to_rfc3339 until) state,
    count-ne-until source_id source_id,
    eq_iff (until_key source_id) (count_key source_id),
    eq_iff (count_key source_id) (count_key source_id),
    parse-to_string_count count h,
  )

  pub until_after :
      (count until : ℕ)
      → chrono.parse_from_rfc3339 (chrono.to_rfc3339 until) ≡ some until
      → source_backoff_until chrono source_id (set_sync_states (entries count until) state)
        ≡ ok (some until)
  unfolding source_backoff_until
  until_after count until h = ground (
    arith,
    get-set_two (until_key source_id) (count_key source_id) (until_key source_id) (to_string count)
        (chrono.to_rfc3339 until) state,
    eq_iff (until_key source_id) (until_key source_id),
  )

  module _ (other : String) (differ : source_id ≢ other) where
    pub keys_differ :
        (count_key source_id ≢ count_key other) × (until_key source_id ≢ until_key other)
    keys_differ = (
      λ e. differ (count_key_inj source_id other e),
      λ e. differ (until_key_inj source_id other e),
    )

    pub get_count_other :
        (v w : String)
        → get_sync_state
            (count_key other)
            (set_sync_states ((count_key source_id, v) ∷ (until_key source_id, w) ∷ []) state)
          ≡ get_sync_state (count_key other) state
    get_count_other v w = ground (
      arith,
      keys_differ,
      get-set_two (count_key other) (count_key source_id) (until_key source_id) v w state,
      count-ne-until other source_id,
      eq_iff (until_key source_id) (count_key other),
      eq_iff (count_key source_id) (count_key other),
    )

    pub get_until_other :
        (v w : String)
        → get_sync_state
            (until_key other)
            (set_sync_states ((count_key source_id, v) ∷ (until_key source_id, w) ∷ []) state)
          ≡ get_sync_state (until_key other) state
    get_until_other v w = ground (
      arith,
      keys_differ,
      get-set_two (until_key other) (count_key source_id) (until_key source_id) v w state,
      count-ne-until source_id other,
      eq_iff (until_key source_id) (until_key other),
      eq_iff (count_key source_id) (until_key other),
    )
