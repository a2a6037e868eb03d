-- ===== src/Ingest/Nvd/Pages.antt =====
-- `run` of src/ingest/nvd.rs: the window of modification times, and the pages of the answer.
-- Times are numbers, as in Db/Backoff, in milliseconds; a difference of times that are out of order
-- stands for none here, where `chrono` has a negative one, and is never used for more.
use Prim.Native.String as Native
use cyberwatch_rs.Prelude.{
  ltb, if◌then◌else◌, length, ◌>>=◌, ok_or, Result, ok, err, ℕ, zero, suc, ◌+◌, ◌-◌, ◌*◌, ◌^◌, min,
  String, true, false, Option, none, some, List, [], ◌∷◌, ◌++◌,
}
use cyberwatch_rs.Prelude.Decimal.{to_string}
use cyberwatch_rs.Prelude.Float.{Float}
use cyberwatch_rs.Models.{ItemInput, EvidenceInput, SourceDescriptor}
use cyberwatch_rs.Source.Output.{SourceOutput}
use cyberwatch_rs.Ingest.Json.{◌>>?◌, Crates}
use cyberwatch_rs.Ingest.Nvd.{array_at, parse_cve}

abbrev pub minute : ℕ
minute = 60 * 1000

abbrev pub day : ℕ
day = 24 * 60 * minute

-- Where the window starts: a little before the cursor, or some days back; within 119 days of now.
abbrev pub not_after : ℕ → ℕ → ℕ
not_after now start = if ltb now start then now - day else start

abbrev pub within_limit : ℕ → ℕ → ℕ
within_limit now start = if ltb (119 * day) (now - start) then now - 119 * day else start

abbrev pub from_cursor : ℕ → ℕ → Option ℕ → ℕ → ℕ
from_cursor overlap_minutes initial_days none now = now - initial_days * day
from_cursor overlap_minutes initial_days (some cursor) now = cursor - overlap_minutes * minute

unfoldable pub window_start : ℕ → ℕ → Option ℕ → ℕ → ℕ
window_start overlap_minutes initial_days cursor now =
    within_limit now (not_after now (from_cursor overlap_minutes initial_days cursor now))

pub data NvdError : Type 0 where
  -- What the request, its retries or the parser of JSON say.
  page_failed : String → NvdError
  too_many_pages : NvdError
  no_total : NvdError
  no_vulnerabilities : NvdError

abbrev pub usize_limit : ℕ
usize_limit = 2 ^ 64 - 1

abbrev pub sat_add : ℕ → ℕ → ℕ
sat_add a b = min (a + b) usize_limit

-- The variables of the loop.
pub record PageState (F : Type 0) : Type 0 where
  pub start_index : ℕ
  pub total_results : ℕ
  pub items : List (ItemInput F)
  pub evidence : List (EvidenceInput F)
  pub fetched : ℕ
  pub pages : ℕ

abbrev pub first_state : {F : Type 0} → PageState F
first_state = record {
  start_index = 0;
  total_results = usize_limit;
  items = [];
  evidence = [];
  fetched = 0;
  pages = 0;
}

module _ {F : Type 0} (crates : Crates F) ⦃float : Float F⦄ (descriptor : SourceDescriptor)
    (now : String) where
  -- The loop over the records of a page.
  abbrev pub add_record :
      crates.Value
      → List (ItemInput F) × List (EvidenceInput F)
      → List (ItemInput F) × List (EvidenceInput F)
  add_record wrapper (items, evidence) =
      elim (crates.get wrapper "cve" >>? parse_cve crates descriptor now) [
        | none ↦ (items, evidence)
        | some (item, piece) ↦ (items ++ item ∷ [], evidence ++ piece ∷ [])
      ]

  unfoldable pub add_records :
      List crates.Value
      → List (ItemInput F) × List (EvidenceInput F)
      → List (ItemInput F) × List (EvidenceInput F)
  unfolding parse_cve
  add_records [] batch = batch
  add_records (wrapper ∷ wrappers) batch = add_records wrappers (add_record wrapper batch)

  -- A page that is not empty moves the loop on.
  abbrev pub next_state : ℕ → List crates.Value → PageState F → PageState F
  next_state total vulnerabilities state =
      let batch = add_records vulnerabilities (state.items, state.evidence) in
      record {
        start_index = sat_add state.start_index (length vulnerabilities);
        total_results = total;
        items = batch.0;
        evidence = batch.1;
        fetched = sat_add state.fetched (length vulnerabilities);
        pages = state.pages + 1;
      }

  -- `totalResults` and `vulnerabilities` of an answer.
  abbrev pub read_page : crates.Value → Result NvdError (ℕ × List crates.Value)
  read_page payload = do
    total ← ok_or (crates.get payload "totalResults" >>? crates.as_u64) no_total
    vulnerabilities ← ok_or (array_at crates payload "vulnerabilities") no_vulnerabilities
    ok (total, vulnerabilities)

  -- `get_page` is `send_limited` with `parse_json` for the page at an index. `left` is the number of
  -- pages that may still be asked for.
  unfoldable pub fetch_pages :
      (ℕ → Result String crates.Value) → ℕ → PageState F → Result NvdError (PageState F)
  unfolding add_records
  fetch_pages get_page zero state =
      if ltb state.start_index state.total_results then err too_many_pages else ok state
  fetch_pages get_page (suc left) state =
      let rest = λ (total : ℕ) (vulnerabilities : List crates.Value).
        fetch_pages get_page left (next_state total vulnerabilities state) in
      elim (ltb state.start_index state.total_results) [
        | false ↦ ok state
        | true ↦ elim (get_page state.start_index) [
          | err e ↦ err (page_failed e)
          | ok payload ↦ elim (read_page payload) [
            | err e ↦ err e
            | ok (total, []) ↦ ok (record state { total_results = total; pages = state.pages + 1 })
            | ok (total, v ∷ vs) ↦ rest total (v ∷ vs)
          ]
        ]
      ]

  abbrev pub output_of : String → PageState F → SourceOutput F
  output_of cursor state = record {
    batch = record {
      items = state.items;
      evidence = state.evidence;
      sync_updates = record { key = "cursor:nvd:last_modified"; value = cursor } ∷ [];
      cache_updates = [];
    };
    fetched = state.fetched;
    candidate_upserts = length state.items;
    skipped = false;
    note = some (Native.◌++◌ "processed " (Native.◌++◌ (to_string state.pages) " NVD page(s)"));
  }

  -- `cursor` is the time of the run, to which the next window reaches back. `get_page start` asks for
  -- the pages of the records modified from `start` on.
  unfoldable pub nvd_run :
      (ℕ → ℕ → Result String crates.Value)
      → ℕ
      → ℕ
      → Option ℕ
      → ℕ
      → String
      → Result NvdError (SourceOutput F)
  unfolding fetch_pages window_start
  nvd_run get_page overlap_minutes initial_days cursor time cursor_text = do
    state ←
        fetch_pages (get_page (window_start overlap_minutes initial_days cursor time)) 500
          first_state
    ok (output_of cursor_text state)
