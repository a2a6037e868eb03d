-- ===== src/Api/Handlers.antt =====
-- The handlers of src/api.rs over the repository and the coordinator. What a query or the request for
-- a refresh answers is an argument, so that its failure is one of the cases.
pub mod Laws
mod Tests
use cyberwatch_rs.Prelude.{
  ltb, ◌==◌, text_eq, if◌then◌else◌, ◌>>=◌, ◌>>◌, bail_if, ok_or, is_some, Result, ok, err, ℕ, ◌-◌,
  String, len, Bool, true, false, not, ◌||◌, Option, none, some, List, [], ◌∷◌, map,
}
use cyberwatch_rs.Prelude.Table.{Table, lookup, upsert}
use cyberwatch_rs.Prelude.Order.{text_lt}
use cyberwatch_rs.Models.{
  ItemRecord, ItemPage, EvidenceRecord, ValidationRecord, CveDetail, Stats, SourceHealth,
  SourceDescriptor, RefreshAccepted,
}
use cyberwatch_rs.Api.Error.{bad_request, unavailable, not_found, internal, ApiError}
use cyberwatch_rs.Api.CveId.{validate_cve_id}
use cyberwatch_rs.Api.Query.{ItemQuery, ItemFilter, CursorCodec, validate_item_query}
use cyberwatch_rs.Api.Authorize.{HeaderMap, authorize_refresh, RequestApi, Access}
use cyberwatch_rs.Db.Health.{sort_health}

-- `map_err(|error| ApiError::internal(message, error))`; the error itself is logged.
abbrev pub or_internal {ℓ} : {A : Type ℓ} → String → Result String A → Result ApiError A
or_internal message (ok a) = ok a
or_internal message (err error) = err (internal message)

-- What the handlers ask of the repository.
pub record Queries (F : Type 0) : Type 0 where
  pub list_items : ItemFilter → Result String (ItemPage F)
  pub get_item : String → Result String (Option (ItemRecord F))
  pub get_cve_item : String → Result String (Option (ItemRecord F))
  pub get_evidence : String → Result String (List (EvidenceRecord F))
  pub get_validation : String → Result String (Option (ValidationRecord F))
  pub stats : Result String Stats
  pub list_source_health : Result String (List SourceHealth)
  pub ready : Result String (Unit {0})

pub record EvidenceResponse (F : Type 0) : Type 0 where
  pub cve_id : String
  pub evidence : List (EvidenceRecord F)
  pub validation : Option (ValidationRecord F)

module _ {F : Type 0} (queries : Queries F) where
  unfoldable pub ready : Result ApiError String
  ready = elim queries.ready [
    | ok u ↦ ok "ready"
    | err e ↦ err (unavailable "database is not ready")
  ]

  -- `query` is none where the parameters cannot be read.
  unfoldable pub handle_list_items :
      ⦃codec : CursorCodec⦄ → Option ItemQuery → Result ApiError (ItemPage F)
  unfolding validate_item_query
  handle_list_items query = do
    given ← ok_or query (bad_request "invalid query parameters")
    filter ← validate_item_query given
    or_internal "failed to query intelligence items" (queries.list_items filter)

  unfoldable pub handle_get_item : String → Result ApiError (ItemRecord F)
  handle_get_item id = do
    bail_if (id == "" || ltb 240 (len id)) (bad_request "invalid item ID")
    item ← or_internal "failed to query item" (queries.get_item id)
    ok_or item (not_found "item not found")

  unfoldable pub get_cve : String → Result ApiError (CveDetail F)
  unfolding validate_cve_id
  get_cve given = do
    cve_id ← validate_cve_id given
    found ← or_internal "failed to query CVE" (queries.get_cve_item cve_id)
    item ← ok_or found (not_found "CVE not found")
    evidence ← or_internal "failed to query CVE evidence" (queries.get_evidence cve_id)
    validation ← or_internal "failed to query CVE validation" (queries.get_validation cve_id)
    ok (record { item = item; evidence = evidence; validation = validation })

  abbrev pub is_nil_evidence : List (EvidenceRecord F) → Bool
  is_nil_evidence [] = true
  is_nil_evidence (e ∷ es) = false

  unfoldable pub get_cve_evidence : String → Result ApiError (EvidenceResponse F)
  unfolding validate_cve_id
  get_cve_evidence given = do
    cve_id ← validate_cve_id given
    evidence ← or_internal "failed to query CVE evidence" (queries.get_evidence cve_id)
    bail_if (is_nil_evidence evidence) (not_found "CVE evidence not found")
    validation ← or_internal "failed to query CVE validation" (queries.get_validation cve_id)
    ok (record { cve_id = cve_id; evidence = evidence; validation = validation })

  -- The statistics of the last ten seconds are answered from the cache. Times are in seconds; the
  -- answer comes with the cache that it leaves.
  abbrev pub fresh : ℕ → Option (ℕ × Stats) → Option Stats
  fresh now none = none
  fresh now (some (generated, stats)) = if ltb (now - generated) 10 then some stats else none

  unfoldable pub handle_stats : ℕ → Option (ℕ × Stats) → Result ApiError Stats × Option (ℕ × Stats)
  handle_stats now cache = elim (fresh now cache) [
    | some stats ↦ (ok stats, cache)
    | none ↦ elim (or_internal "failed to calculate statistics" queries.stats) [
      | ok stats ↦ (ok stats, some (now, stats))
      | err e ↦ (err e, cache)
    ]
  ]

-- The health of a source that never ran.
abbrev pub never_ran : SourceDescriptor → SourceHealth
never_ran descriptor = record {
  source_id = descriptor.id;
  source_name = descriptor.name;
  source_kind = descriptor.kind;
  last_status = "never";
  last_run_at = none;
  last_success_at = none;
  failures_24h = 0;
  last_error = none;
  backoff_until = none;
}

-- `collect` into a map by the ID of the source.
unfoldable pub by_source : List SourceHealth → Table SourceHealth → Table SourceHealth
unfolding upsert
by_source [] table = table
by_source (health ∷ rest) table = by_source rest (upsert health.source_id health table)

-- `or_insert_with` of each registered source.
unfoldable pub add_descriptors : List SourceDescriptor → Table SourceHealth → Table SourceHealth
unfolding upsert lookup
add_descriptors [] table = table
add_descriptors (descriptor ∷ rest) table = add_descriptors rest (
    if is_some (lookup descriptor.id table)
    then table
    else upsert descriptor.id (never_ran descriptor) table)

abbrev pub hide_error : SourceHealth → SourceHealth
hide_error health =
    if is_some health.last_error
    then record health { last_error = some "source failed; inspect server logs" }
    else health

-- `iterate` is the order in which the map gives its values.
unfoldable pub sources :
    {F : Type 0}
    → Queries F
    → (Table SourceHealth → List SourceHealth)
    → List SourceDescriptor
    → Result ApiError (List SourceHealth)
unfolding by_source add_descriptors text_lt
sources queries iterate descriptors = do
  existing ← or_internal "failed to query source health" queries.list_source_health
  ok (sort_health (map hide_error (iterate (add_descriptors descriptors (by_source existing [])))))

module _ ⦃api : RequestApi⦄ where
  -- `allowed` is `refresh_allowed` of the configuration, and `request` the coordinator's answer.
  unfoldable pub refresh :
      Bool → HeaderMap → Access → Result String RefreshAccepted → Result ApiError RefreshAccepted
  unfolding authorize_refresh
  refresh allowed headers config request = do
    bail_if (not allowed) (unavailable "refresh is disabled")
    authorize_refresh headers config
    or_internal "failed to enqueue refresh" request
