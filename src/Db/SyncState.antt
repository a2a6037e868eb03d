-- ===== src/Db/SyncState.antt =====
-- The table `sync_state` of src/db.rs: a text for each key.
use cyberwatch_rs.Prelude.{String, Option, List, [], ◌∷◌}
use cyberwatch_rs.Prelude.Table.{Table, lookup, upsert, delete}

abbrev pub SyncState : Type 0
SyncState = Table String

unfoldable pub get_sync_state : String → SyncState → Option String
unfolding lookup
get_sync_state key state = lookup key state

unfoldable pub set_sync_states : List (String × String) → SyncState → SyncState
unfolding upsert
set_sync_states [] state = state
set_sync_states ((key, value) ∷ values) state = set_sync_states values (upsert key value state)

unfoldable pub delete_sync_states : List String → SyncState → SyncState
unfolding delete
delete_sync_states [] state = state
delete_sync_states (key ∷ keys) state = delete_sync_states keys (delete key state)
