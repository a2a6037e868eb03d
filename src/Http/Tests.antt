-- ===== src/Http/Tests.antt =====
-- URLs, replies and policies to try the model on, and the theorems of the HTTP client at them.
use cyberwatch_rs.Prelude.{
  ◌==◌, text_eq, if◌then◌else◌, any, ok, err, ℕ, zero, suc, String, ◌≡◌, refl, ◌↔◌, false, not,
  ◌&&◌, Option, none, some, [], ◌∷◌, arith,
}
use cyberwatch_rs.Http.Address.{public_address, v4, v6}
use cyberwatch_rs.Http.Address.Blocks.{
  quad, covers, special_v4, public_address_v4, head_v6, global_unicast, special_v6,
  public_address_v6,
}
use cyberwatch_rs.Http.Url.{
  allowed_host, validate_outbound_url, UrlApi, UrlCrate, domain, not_public,
}
use cyberwatch_rs.Http.Url.Laws.{validate_outbound_url_iff, IsOutbound}
use cyberwatch_rs.Http.Redirect.{redirect_policy, not_allowed}
use cyberwatch_rs.Http.Redirect.Chain.{IsSafeChain, Visited-IsSafeChain, Visited, request, hop}
use cyberwatch_rs.Http.Fetch.{
  read_body, response, read_reply, run_attempt, send_limited, FetchPolicy, Reply, Attempt,
  body_too_large, exceeded, finished, elapsed,
}
use cyberwatch_rs.Http.Fetch.Body.{read_reply_iff, Accepts}
use cyberwatch_rs.Http.Fetch.Retry.{delays, AllFail, send_limited-success}

-- A URL by its scheme and its domain, without port or credentials.
pub record Site : Type 0 where
  pub site_scheme : String
  pub name : String

abbrev pub example_site : Site
example_site = record { site_scheme = "https"; name = "example.org" }

abbrev pub local_site : Site
local_site = record { site_scheme = "http"; name = "localhost" }

abbrev find_site : String → Option Site
find_site text =
    if text == "https://example.org"
    then some example_site
    else if text == "http://localhost"
    then some local_site
    else none

instance abbrev pub sites : UrlApi Site
sites = record {
  parse = find_site;
  scheme = λ site. site.site_scheme;
  host = λ site. some (domain site.name);
  host_str = λ site. some site.name;
  port = λ site. none;
  username = λ site. "";
  password = λ site. none;
  same_origin = λ a b. a.site_scheme == b.site_scheme && a.name == b.name;
}

abbrev pub site_crate : UrlCrate
site_crate = record { Url = Site; urls = sites }

abbrev api_site : Site
api_site = record { site_scheme = "https"; name = "api.github.com" }

outbound_tests :
    (validate_outbound_url example_site ≡ ok tt)
    × (validate_outbound_url local_site ≡ err not_public)
    × (redirect_policy (example_site ∷ []) local_site ≡ not_allowed)
    × (redirect_policy (api_site ∷ []) example_site ≡ not_allowed)
unfolding validate_outbound_url redirect_policy allowed_host
outbound_tests = (refl, refl, refl, refl)

Visited-twice : Visited (example_site ∷ example_site ∷ [])
unfolding validate_outbound_url redirect_policy allowed_host
Visited-twice = hop example_site (request example_site refl) refl

Visited-IsSafeChain_example : IsSafeChain (example_site ∷ example_site ∷ [])
Visited-IsSafeChain_example = Visited-IsSafeChain Visited-twice

validate_outbound_url_iff_example :
    (validate_outbound_url example_site ≡ ok tt) ↔ IsOutbound example_site
validate_outbound_url_iff_example = validate_outbound_url_iff example_site

public_address_v4_example :
    public_address (v4 100 64 0 1) ≡ not (any (covers (quad 100 64 0 1)) special_v4)
public_address_v4_example =
    public_address_v4 100 64 0 1 (ground arith) (ground arith) (ground arith) (ground arith)

public_address_v6_example : public_address (v6 0x2606 0x4700 0 0 0 0 0 1) ≡ (
    covers (head_v6 0x2606 0x4700) global_unicast
    && not (any (covers (head_v6 0x2606 0x4700)) special_v6))
public_address_v6_example =
    public_address_v6 0x2606 0x4700 0 0 0 0 0 1 (ground arith) (ground arith)

abbrev small_policy : FetchPolicy
small_policy = record { timeout = 1000; retries = 2; max_bytes = 4; allow_not_modified = false }

abbrev short_reply : Reply
short_reply = record {
  status = 200;
  content_type = none;
  etag = none;
  last_modified = none;
  origin = "https://example.org";
  content_length = some 3;
  chunks = some (1 ∷ 2 ∷ []) ∷ some (3 ∷ []) ∷ [];
}

fetch_tests :
    (read_reply small_policy short_reply ≡ ok (response short_reply (1 ∷ 2 ∷ 3 ∷ [])))
    × (read_reply small_policy
          (record short_reply { chunks = some (1 ∷ 2 ∷ []) ∷ some (3 ∷ 4 ∷ 5 ∷ []) ∷ [] })
        ≡ err body_too_large)
unfolding read_reply read_body
fetch_tests = (refl, refl)

read_reply_iff_example :
    (read_reply small_policy short_reply ≡ ok (response short_reply (1 ∷ 2 ∷ 3 ∷ [])))
    ↔ Accepts small_policy short_reply (response short_reply (1 ∷ 2 ∷ 3 ∷ []))
read_reply_iff_example =
    read_reply_iff small_policy short_reply (response short_reply (1 ∷ 2 ∷ 3 ∷ [])) (ground arith)

-- The first attempt runs out of time, and the second is answered.
abbrev slow_start : ℕ → Attempt
slow_start zero = elapsed
slow_start (suc i) = finished (some short_reply)

abbrev never : ℕ → Attempt
never i = elapsed

slow-AllFail : AllFail small_policy slow_start 0 1
unfolding run_attempt read_body
slow-AllFail zero h = refl
slow-AllFail (suc i) h = absurd (omega (arith, h))

never-AllFail : AllFail small_policy never 0 2
unfolding run_attempt read_body
never-AllFail i h = refl

example_allowed : validate_outbound_url example_site ≡ ok tt
unfolding validate_outbound_url allowed_host
example_allowed = refl

second_answers :
    run_attempt small_policy (slow_start 1) ≡ ok (response short_reply (1 ∷ 2 ∷ 3 ∷ []))
unfolding run_attempt read_body
second_answers = refl

third_fails : run_attempt small_policy (never 2) ≡ err exceeded
unfolding run_attempt read_body
third_fails = refl

send_limited-success_example :
    send_limited small_policy (some (some example_site)) slow_start
    ≡ record { outcome = ok (response short_reply (1 ∷ 2 ∷ 3 ∷ [])); sleeps = delays 0 1 }
send_limited-success_example =
    send_limited-success small_policy slow_start example_site example_allowed 1
      (response short_reply (1 ∷ 2 ∷ 3 ∷ [])) (ground arith) slow-AllFail second_answers

never_answered :
    send_limited small_policy (some (some example_site)) never
    ≡ record { outcome = err exceeded; sleeps = delays 0 2 }
unfolding send_limited validate_outbound_url allowed_host
never_answered = refl
