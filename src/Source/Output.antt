-- ===== src/Source/Output.antt =====
-- `SourceOutput` of src/ingest/source.rs and its `validate`.
pub mod Laws
use cyberwatch_rs.Prelude.{
  ltb, ◌==◌, text_eq, ◌>>=◌, ◌>>◌, bail_if, ok_or, is_some_and, Result, ok, ℕ, zero, String, len,
  Bool, true, not, ◌&&◌, ◌||◌, Option, some, List, [], ◌∷◌,
}
use cyberwatch_rs.Prelude.Text.{trim}
use cyberwatch_rs.Prelude.Float.{Float}
use cyberwatch_rs.Prelude.Sets.{member}
use cyberwatch_rs.Models.{empty_batch, ItemInput, EvidenceInput, IngestBatch, SourceDescriptor}
use cyberwatch_rs.Http.Url.{UrlCrate, is_http}
use cyberwatch_rs.Api.CveId.{is_cve_id}

pub record SourceOutput (F : Type 0) : Type 0 where
  pub batch : IngestBatch F
  pub fetched : ℕ
  pub candidate_upserts : ℕ
  pub skipped : Bool
  pub note : Option String

-- `SourceOutput::unchanged`
unfoldable pub unchanged : {F : Type 0} → String → SourceOutput F
unchanged note = record {
  batch = empty_batch;
  fetched = 0;
  candidate_upserts = 0;
  skipped = true;
  note = some note;
}

-- The reasons for which an output is refused.
pub data OutputError : Type 0 where
  invalid_item_id : OutputError
  invalid_kind : OutputError
  mismatched_source : OutputError
  invalid_title : OutputError
  invalid_url : OutputError
  not_http_url : OutputError
  invalid_score : OutputError
  duplicate_news : OutputError
  invalid_cve : OutputError

-- A text that is blank or longer than `maximum` bytes.
abbrev pub bad_text : ℕ → String → Bool
bad_text maximum text = trim text == "" || ltb maximum (len text)

abbrev pub is_kind : String → Bool
is_kind kind = kind == "news" || kind == "cve"

module _ {F : Type 0} ⦃float : Float F⦄ where
  -- `(0.0..=10.0).contains(&score)`
  abbrev pub in_scale : F → Bool
  in_scale score = float.le float.zero score && float.le score float.ten

  abbrev pub off_scale : Option F → Bool
  off_scale score = is_some_and score (λ value. not (in_scale value))

  -- The loop over the evidence.
  unfoldable pub validate_evidence :
      SourceDescriptor → List (EvidenceInput F) → Result OutputError (Unit {0})
  unfolding is_cve_id
  validate_evidence descriptor [] = ok tt
  validate_evidence descriptor (evidence ∷ more) = do
    bail_if (not (is_cve_id evidence.cve_id)) invalid_cve
    bail_if (not (evidence.source_id == descriptor.id)) mismatched_source
    bail_if (off_scale evidence.cvss_score) invalid_score
    validate_evidence descriptor more

module _ {F : Type 0} ⦃float : Float F⦄ ⦃url_crate : UrlCrate⦄ where
  -- The loop over the items; `ids` are those seen so far.
  unfoldable pub validate_items :
      SourceDescriptor → List String → List (ItemInput F) → Result OutputError (Unit {0})
  unfolding trim member
  validate_items descriptor ids [] = ok tt
  validate_items descriptor ids (item ∷ more) = do
    bail_if (bad_text 240 item.id) invalid_item_id
    bail_if (not (is_kind item.kind)) invalid_kind
    bail_if (not (item.source_id == descriptor.id)) mismatched_source
    bail_if (bad_text 1000 item.title) invalid_title
    url ← ok_or (url_crate.urls.parse item.url) invalid_url
    bail_if (not (is_http (url_crate.urls.scheme url))) not_http_url
    bail_if (off_scale item.cvss_score) invalid_score
    bail_if (member item.id ids && item.kind == "news") duplicate_news
    validate_items descriptor (item.id ∷ ids) more

  unfoldable pub validate : SourceDescriptor → SourceOutput F → Result OutputError (Unit {0})
  unfolding validate_items validate_evidence
  validate descriptor output = do
    validate_items descriptor [] output.batch.items
    validate_evidence descriptor output.batch.evidence
