-- ===== src/Ingest/Nvd/Laws.antt =====
-- The window of a run, and the pages that it reads.
use mathlib.Core.List.{append_assoc, append-nil}
use cyberwatch_rs.Prelude.{
  take-append-drop, ltb, length, take, drop, length-append, Result, ok, ℕ, zero, suc, ◌+◌, ◌-◌, ◌*◌,
  ◌≤◌, ◌<◌, String, ◌≡◌, refl, sym, ap, ◌∙◌, true, Option, none, some, List, [], ◌∷◌, ◌++◌, arith,
}
use cyberwatch_rs.Prelude.Float.{Float}
use cyberwatch_rs.Models.{ItemInput, EvidenceInput, SourceDescriptor}
use cyberwatch_rs.Ingest.Json.{Crates}
use cyberwatch_rs.Ingest.Nvd.Pages.{
  minute, day, window_start, usize_limit, first_state, add_record, add_records, next_state,
  read_page, fetch_pages, PageState,
}

-- The window starts at most 119 days back and not after now; from a cursor that is not in the future
-- it starts the overlap before it, unless that is further back, so that no time between two runs is
-- left out.
pub window_start_bounds :
    (overlap_minutes initial_days : ℕ) (cursor : Option ℕ) (now : ℕ)
    → 119 * day ≤ now
    → (window_start overlap_minutes initial_days cursor now ≤ now)
      × (now ≤ window_start overlap_minutes initial_days cursor now + 119 * day)
      × ((time : ℕ)
          → cursor ≡ some time
          → time ≤ now
          → now ≤ time - overlap_minutes * minute + 119 * day
          → window_start overlap_minutes initial_days cursor now ≡ time - overlap_minutes * minute)
unfolding window_start
window_start_bounds overlap_minutes initial_days none now h =
    (ground arith, ground arith, λ time e. absurd cc)
window_start_bounds overlap_minutes initial_days (some cursor) now h =
    (ground arith, ground arith, λ time e past near. ground arith)

drop-length {ℓ} : {A : Type ℓ} (xs ys : List A) → drop (length xs) (xs ++ ys) ≡ ys
drop-length [] ys = refl
drop-length (x ∷ xs) ys = drop-length xs ys

length-drop {ℓ} : {A : Type ℓ} (n : ℕ) (xs : List A) → length (drop n xs) ≡ length xs - n
length-drop zero xs = omega arith
length-drop (suc n) [] = omega arith
length-drop (suc n) (x ∷ xs) = omega (arith, length-drop n xs)

module _ {F : Type 0} (crates : Crates F) ⦃float : Float F⦄ (descriptor : SourceDescriptor)
    (now : String) where
  abbrev Batch : Type 0
  Batch = List (ItemInput F) × List (EvidenceInput F)

  add_records-append :
      (a b : List crates.Value) (batch : Batch)
      → add_records crates descriptor now (a ++ b) batch
        ≡ add_records crates descriptor now b (add_records crates descriptor now a batch)
  unfolding add_records
  add_records-append [] b batch = refl
  add_records-append (x ∷ a) b batch =
      add_records-append a b (add_record crates descriptor now x batch)

  -- The server has the records in a list, and gives each page of them with their number.
  abbrev pub Serves : (ℕ → Result String crates.Value) → ℕ → List crates.Value → Type 0
  Serves get_page size records =
      (start : ℕ)
      → start < length records
      → (payload : crates.Value) × (get_page start ≡ ok payload)
        × (read_page crates descriptor now payload
            ≡ ok (length records, take size (drop start records)))

  -- What is left of the records after some were read.
  record Reading (records pre rest : List crates.Value) (state : PageState F) : Type 0 where
    parts : records ≡ pre ++ rest
    start : state.start_index ≡ length pre
    count : state.fetched ≡ length pre
    more : ltb state.start_index state.total_results ≡ ltb 0 (length rest)
    batch : (state.items, state.evidence) ≡ add_records crates descriptor now pre ([], [])

  module _ (get_page : ℕ → Result String crates.Value) (n : ℕ) (records : List crates.Value)
      (serves : Serves get_page (suc n) records) (fits : length records ≤ usize_limit) where
    abbrev Done : PageState F → Type 0
    Done state =
        ((state.items, state.evidence) ≡ add_records crates descriptor now records ([], []))
        × (state.fetched ≡ length records)

    finished :
        (pre : List crates.Value) (state : PageState F) → Reading records pre [] state → Done state
    finished pre state r =
        let whole : pre ≡ records = sym (append-nil pre) ∙ sym r.parts in
        (
          r.batch ∙ ap (λ l. add_records crates descriptor now l ([], [])) whole,
          r.count ∙ ap length whole,
        )

    -- The page that starts with a record, and what is left after it.
    Reading-next :
        (pre : List crates.Value) (x : crates.Value) (rest : List crates.Value)
        (state : PageState F)
        → Reading records pre (x ∷ rest) state
        → Reading records
            (pre ++ x ∷ take n rest)
            (drop n rest)
            (next_state crates descriptor now (length records) (x ∷ take n rest) state)
    Reading-next pre x rest state r =
        let page = x ∷ take n rest in
        let whole : records ≡ (pre ++ page) ++ drop n rest =
          r.parts
          ∙ (ap (λ l. pre ++ x ∷ l) (sym (take-append-drop n rest))
              ∙ sym (append_assoc pre page (drop n rest))) in
        let size : length records ≡ length (pre ++ page) + length (drop n rest) =
          ap length whole ∙ length-append (pre ++ page) (drop n rest) in
        let grown : length (pre ++ page) ≡ length pre + length page = length-append pre page in
        record {
          parts = whole;
          start = omega (arith, r.start, size, grown);
          count = omega (arith, r.count, size, grown);
          more = ground (arith, r.start, size, grown);
          batch =
              ap (add_records crates descriptor now page) r.batch
              ∙ sym (add_records-append pre page ([], []));
        }

    step :
        (left total : ℕ) (v : crates.Value) (vs : List crates.Value) (state : PageState F)
        (payload : crates.Value)
        → ltb state.start_index state.total_results ≡ true
        → get_page state.start_index ≡ ok payload
        → read_page crates descriptor now payload ≡ ok (total, v ∷ vs)
        → fetch_pages crates descriptor now get_page (suc left) state
          ≡ fetch_pages crates descriptor now get_page left
              (next_state crates descriptor now total (v ∷ vs) state)
    unfolding fetch_pages
    step left total v vs state payload h g r =
        rw (h, fetch_pages) (rw (g, fetch_pages) (rw (r, fetch_pages)))

    read_rest :
        (left : ℕ) (pre rest : List crates.Value) (state : PageState F)
        → Reading records pre rest state
        → length rest ≤ left * suc n
        → (final : PageState F) × (fetch_pages crates descriptor now get_page left state ≡ ok final)
          × Done final
    unfolding fetch_pages
    read_rest zero pre [] state r h = (state, rw r.more, finished pre state r)
    read_rest (suc left) pre [] state r h = (state, rw (r.more, fetch_pages), finished pre state r)
    read_rest zero pre (x ∷ rest) state r h = absurd (omega arith)
    read_rest (suc left) pre (x ∷ rest) state r h =
        let size : length records ≡ length pre + suc (length rest) =
          ap length r.parts ∙ length-append pre (x ∷ rest) in
        let answer = serves (length pre) (omega (arith, size)) in
        let left_over : drop (length pre) records ≡ x ∷ rest =
          ap (drop (length pre)) r.parts ∙ drop-length pre (x ∷ rest) in
        let read : read_page crates descriptor now answer.0 ≡ ok (length records, x ∷ take n rest) =
          answer.2 ∙ ap (λ l. ok (length records, take (suc n) l)) left_over in
        let next =
          read_rest left (pre ++ x ∷ take n rest) (drop n rest)
            (next_state crates descriptor now (length records) (x ∷ take n rest) state)
            (Reading-next pre x rest state r) (omega (arith, length-drop n rest)) in
        (
          next.0,
          step left (length records) x (take n rest) state answer.0 (r.more ∙ ground arith)
                (ap get_page r.start ∙ answer.1) read
              ∙ next.1,
          next.2,
        )

  -- If the server gives its records page by page, each with the number of all, and there are at
  -- least one and at most 500 pages of them, every record is read exactly once, in the server's
  -- order, and counted: the batch is what the records of the whole list give.
  pub fetch_pages_lem :
      (get_page : ℕ → Result String crates.Value) (size : ℕ) (records : List crates.Value)
      → 0 < size
      → Serves get_page size records
      → 0 < length records
      → length records ≤ 500 * size
      → length records ≤ usize_limit
      → (final : PageState F) × (fetch_pages crates descriptor now get_page 500 first_state
          ≡ ok final)
        × ((final.items, final.evidence) ≡ add_records crates descriptor now records ([], []))
        × (final.fetched ≡ length records)
  unfolding add_records
  fetch_pages_lem get_page zero records p serves some_there few fits = absurd (omega arith)
  fetch_pages_lem get_page (suc n) records p serves some_there few fits =
      let all =
        read_rest get_page n records serves fits 500 [] records first_state
          (record { parts = refl; start = refl; count = refl; more = ground arith; batch = refl })
          few in
      (all.0, all.1, all.2.0, all.2.1)
