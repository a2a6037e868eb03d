-- ===== src/Db/Retention.antt =====
-- `cleanup_retention` of src/db.rs.
pub mod Laws
use cyberwatch_rs.Prelude.{ltb, ◌==◌, text_eq, if◌then◌else◌, any, keep, ℕ, String, Bool, not, ◌&&◌}
use cyberwatch_rs.Prelude.Table.{Table}
use cyberwatch_rs.Prelude.Order.{text_lt}
use cyberwatch_rs.Db.Store.{effective_timestamp, ItemRow, Store}

module _ {F : Type 0} where
  -- The `WHERE` of the first statement.
  unfoldable pub is_expired : String → ItemRow F → Bool
  unfolding text_lt effective_timestamp
  is_expired cutoff row = row.kind == "news" && text_lt (effective_timestamp row) cutoff

  -- The item with the ID is deleted, and by the `REFERENCES` clauses what belongs to it.
  abbrev pub is_deleted : String → Table (ItemRow F) → String → Bool
  is_deleted cutoff rows id =
      any (λ (row : String × ItemRow F). row.0 == id && is_expired cutoff row.1) rows

  unfoldable pub delete_news : String → Store F → Store F
  unfolding is_expired
  delete_news cutoff store = record store {
    items = keep (λ row. not (is_expired cutoff row.1)) store.items;
    item_categories = keep (λ row. not (is_deleted cutoff store.items row.0)) store.item_categories;
    item_cves = keep (λ row. not (is_deleted cutoff store.items row.0)) store.item_cves;
  }

  abbrev pub delete_runs : String → Store F → Store F
  delete_runs cutoff store = record store {
    ingestion_runs = keep (λ run. not (text_lt run.finished_at cutoff)) store.ingestion_runs;
  }

  -- `days_ago n` is the time `n` days before now, as `to_rfc3339` writes it.
  unfoldable pub cleanup_retention : (ℕ → String) → ℕ → ℕ → Store F → Store F
  unfolding delete_news
  cleanup_retention days_ago news_retention_days ingestion_run_retention_days store =
      delete_runs (days_ago ingestion_run_retention_days) (
        if ltb 0 news_retention_days
        then delete_news (days_ago news_retention_days) store
        else store)
