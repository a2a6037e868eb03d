-- ===== src/Ingest/Cisa/Tests.antt =====
-- What the helpers make of dates, notes and texts.
use cyberwatch_rs.Prelude.{◌≡◌, refl, none, some}
use cyberwatch_rs.Ingest.Cisa.{date_to_timestamp, first_http_url}

date_alone :
    (date_to_timestamp "2026-01-02" ≡ "2026-01-02T00:00:00Z")
    × (date_to_timestamp "2026-01-02T03:04:05Z" ≡ "2026-01-02T03:04:05Z")
unfolding date_to_timestamp
date_alone = (refl, refl)

url_in_brackets : first_http_url "see (https://a.b/c); x" ≡ some "https://a.b/c"
unfolding first_http_url
url_in_brackets = refl

no_url : first_http_url "no address, here" ≡ none
unfolding first_http_url
no_url = refl
