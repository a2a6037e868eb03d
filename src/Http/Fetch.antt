-- ===== src/Http/Fetch.antt =====
-- `send_limited` and `send_once` of src/ingest/http.rs. The network is an argument: what each
-- attempt of a request answers. A body is a list of bytes, a time is in milliseconds.
pub mod Body
pub mod Retry
use cyberwatch_rs.Prelude.{
  ltb, leb, ◌==◌, number_eq, if◌then◌else◌, length, ◌>>=◌, ◌>>◌, bail_if, ok_or, is_some_and,
  Result, ok, err, ℕ, zero, suc, ◌+◌, ◌-◌, ◌*◌, ◌^◌, min, String, Bool, not, ◌&&◌, Option, none,
  some, List, [], ◌∷◌, ◌++◌,
}
use cyberwatch_rs.Http.Url.{validate_outbound_url, UrlApi, OutboundError}

pub record FetchPolicy : Type 0 where
  pub timeout : ℕ
  pub retries : ℕ
  pub max_bytes : ℕ
  pub allow_not_modified : Bool

pub record FetchResponse : Type 0 where
  pub status : ℕ
  pub body : List ℕ
  pub content_type : Option String
  pub etag : Option String
  pub last_modified : Option String
  pub final_url : String

-- What the server answers: the head, and the chunks of the body, of which one may fail.
pub record Reply : Type 0 where
  pub status : ℕ
  pub content_type : Option String
  pub etag : Option String
  pub last_modified : Option String
  pub origin : String
  pub content_length : Option ℕ
  pub chunks : List (Option (List ℕ))

pub data FetchError : Type 0 where
  cannot_clone : FetchError
  invalid_request : FetchError
  refused : OutboundError → FetchError
  not_sent : FetchError
  length_too_large : FetchError
  body_too_large : FetchError
  body_failed : FetchError
  http_status : ℕ → FetchError
  exceeded : FetchError

abbrev pub usize_max : ℕ
usize_max = 2 ^ 64 - 1

-- `usize::saturating_add`
abbrev pub saturating_add : ℕ → ℕ → ℕ
saturating_add a b = min (a + b) usize_max

-- The loop over the body's stream.
unfoldable pub read_body : ℕ → List ℕ → List (Option (List ℕ)) → Result FetchError (List ℕ)
read_body max_bytes body [] = ok body
read_body max_bytes body (none ∷ chunks) = err body_failed
read_body max_bytes body (some chunk ∷ chunks) =
    let rest = read_body max_bytes (body ++ chunk) chunks in
    if ltb max_bytes (saturating_add (length body) (length chunk)) then err body_too_large else rest

abbrev pub is_success : ℕ → Bool
is_success status = leb 200 status && ltb status 300

abbrev pub response : Reply → List ℕ → FetchResponse
response reply body = record {
  status = reply.status;
  body = body;
  content_type = reply.content_type;
  etag = reply.etag;
  last_modified = reply.last_modified;
  final_url = reply.origin;
}

unfoldable pub read_reply : FetchPolicy → Reply → Result FetchError FetchResponse
read_reply policy reply =
    if reply.status == 304 && policy.allow_not_modified then ok (response reply []) else do
      bail_if (is_some_and reply.content_length (λ n. ltb policy.max_bytes n)) length_too_large
      body ← read_body policy.max_bytes [] reply.chunks
      bail_if (not (is_success reply.status)) (http_status reply.status)
      ok (response reply body)

-- One attempt: `none` where the request cannot be sent.
unfoldable pub send_once : FetchPolicy → Option Reply → Result FetchError FetchResponse
unfolding read_reply
send_once policy sent = do reply ← ok_or sent not_sent; read_reply policy reply

-- What `timeout(policy.timeout, send_once(...))` comes to.
pub data Attempt : Type 0 where
  finished : Option Reply → Attempt
  elapsed : Attempt

unfoldable pub run_attempt : FetchPolicy → Attempt → Result FetchError FetchResponse
unfolding send_once
run_attempt policy (finished sent) = send_once policy sent
run_attempt policy elapsed = err exceeded

-- 500 * 2^attempt, with at most ten doublings, in 64 bits.
unfoldable pub delay_ms : ℕ → ℕ
delay_ms attempt =
    let shift = min (if ltb attempt (2 ^ 32) then attempt else 10) 10 in
    min (500 * 2 ^ shift) (2 ^ 64 - 1)

-- The outcome of a request, and the delays slept on the way.
pub record Sent : Type 0 where
  pub outcome : Result FetchError FetchResponse
  pub sleeps : List ℕ

-- The rounds of `for attempt in 0..=retries`, `left` of them after the present one.
unfoldable pub send_from : FetchPolicy → (ℕ → Attempt) → ℕ → ℕ → List ℕ → Sent
unfolding run_attempt
send_from policy network zero attempt sleeps = record {
  outcome = run_attempt policy (network attempt);
  sleeps = sleeps;
}
send_from policy network (suc left) attempt sleeps =
    let rest = send_from policy network left (attempt + 1) (sleeps ++ delay_ms attempt ∷ []) in
    elim (run_attempt policy (network attempt)) [
      | ok r ↦ record { outcome = ok r; sleeps = sleeps }
      | err _ ↦ rest
    ]

module _ {Url : Type 0} ⦃api : UrlApi Url⦄ where
  -- `built` is the request, if the builder can be cloned and built.
  unfoldable pub send_limited : FetchPolicy → Option (Option Url) → (ℕ → Attempt) → Sent
  unfolding send_from
  send_limited policy none network = record { outcome = err cannot_clone; sleeps = [] }
  send_limited policy (some none) network = record { outcome = err invalid_request; sleeps = [] }
  send_limited policy (some (some url)) network = elim (validate_outbound_url url) [
    | ok _ ↦ send_from policy network policy.retries 0 []
    | err e ↦ record { outcome = err (refused e); sleeps = [] }
  ]
