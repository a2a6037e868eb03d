-- ===== src/Api/Tests.antt =====
-- Requests to try the interface on.
use cyberwatch_rs.Prelude.{
  ◌==◌, text_eq, if◌then◌else◌, ok, err, String, len, ◌≡◌, refl, ◌↔◌, true, none, some, [], ◌∷◌,
}
use cyberwatch_rs.Prelude.Text.{to_ascii_uppercase}
use cyberwatch_rs.Http.Address.{v4}
use cyberwatch_rs.Models.{default_status, RefreshReport}
use cyberwatch_rs.Http.Tests.{sites, Site}
use cyberwatch_rs.Api.Error.{bad_request}
use cyberwatch_rs.Api.CveId.{validate_cve_id, is_cve_id}
use cyberwatch_rs.Api.CveId.Laws.{validate_cve_id_lem}
use cyberwatch_rs.Api.Query.{validate_item_query, ItemQuery, ItemFilter, CursorCodec}
use cyberwatch_rs.Api.Query.Laws.{filter_of, validate_item_query-IsBounded, IsBounded}
use cyberwatch_rs.Api.Diagnostics.{refresh_status}
use cyberwatch_rs.Api.Diagnostics.Laws.{failed_with, refresh_status-hides}
use cyberwatch_rs.Api.Authorize.{HeaderMap, authorize_refresh, RequestApi, Access}
use cyberwatch_rs.Api.Authorize.Laws.{authorize_refresh_iff, FromOwnPage, HasAccess}

validate_cve_id_lem_example : validate_cve_id "cve-2026-1234" ≡ (
    if is_cve_id (to_ascii_uppercase "cve-2026-1234")
    then ok (to_ascii_uppercase "cve-2026-1234")
    else err (bad_request "invalid CVE ID"))
validate_cve_id_lem_example = validate_cve_id_lem "cve-2026-1234"

lower_accepted : validate_cve_id "cve-2026-1234" ≡ ok "CVE-2026-1234"
unfolding validate_cve_id
lower_accepted = refl

-- A codec of cursors that are their own IDs.
instance abbrev plain_codec : CursorCodec
plain_codec = record {
  Bytes = String;
  decode = λ text. some text;
  from_slice = λ text. some (record { timestamp = "2026-01-01T00:00:00Z"; id = text });
  is_rfc3339 = λ text. true;
}

abbrev cve_query : ItemQuery
cve_query = record {
  kind = some "cve";
  category = none;
  severity = some "critical";
  confidence = none;
  source = some "nvd";
  region = none;
  q = some "openssl";
  exploited = some true;
  limit = some 200;
  offset = none;
  cursor = some "item-9";
}

abbrev cve_filter : ItemFilter
cve_filter =
    filter_of cve_query (some (record { timestamp = "2026-01-01T00:00:00Z"; id = "item-9" }))

cve_query_accepted : validate_item_query cve_query ≡ ok cve_filter
unfolding validate_item_query
cve_query_accepted = refl

long_limit :
    validate_item_query (record cve_query { limit = some 201 })
    ≡ err (bad_request "limit must be between 1 and 200")
unfolding validate_item_query
long_limit = refl

validate_item_query-IsBounded_example :
    (cve_filter ≡ filter_of cve_query cve_filter.cursor) × IsBounded cve_filter
validate_item_query-IsBounded_example =
    validate_item_query-IsBounded cve_query cve_filter cve_query_accepted

-- An authority is a host without a port, and a digest is the length of the text.
instance abbrev plain_requests : RequestApi
plain_requests = record {
  Url = Site;
  urls = sites;
  parse_authority = λ text. some (record { host = text; port_u16 = none });
  parse_ip = λ text. none;
  digest = λ text. len text ∷ [];
}

-- A request that names the server as `localhost`, from its own page.
abbrev local_headers : HeaderMap
local_headers name =
    if name == "origin"
    then some (some "http://localhost")
    else if name == "host"
    then some (some "localhost")
    else none

abbrev local_access : Access
local_access = record { admin_token = none; bind_ip = v4 127 0 0 1; bind_port = 80 }

local_authorised : authorize_refresh local_headers local_access ≡ ok tt
unfolding authorize_refresh
local_authorised = refl

authorize_refresh_iff_example :
    (authorize_refresh local_headers local_access ≡ ok tt)
    ↔ (FromOwnPage local_headers × HasAccess local_headers local_access)
authorize_refresh_iff_example = authorize_refresh_iff local_headers local_access

abbrev empty_report : RefreshReport
empty_report = record {
  job_id = "job-1";
  started_at = "12:00";
  finished_at = "12:01";
  sources_total = 1;
  sources_succeeded = 0;
  sources_failed = 1;
  sources_skipped = 0;
  fetched = 0;
  upserted = 0;
  validated = 0;
  errors = [];
}

refresh_status-hides_example :
    refresh_status (failed_with default_status (some "/data is full") [])
    ≡ refresh_status (failed_with default_status (some "no such host") [])
refresh_status-hides_example =
    refresh_status-hides default_status (some "/data is full") (some "no such host") [] [] refl refl
