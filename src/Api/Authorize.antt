-- ===== src/Api/Authorize.antt =====
-- `authorize_refresh` of src/api.rs: who may start a refresh over HTTP.
pub mod Laws
use Prim.Native.String.{◌++◌}
use Prim.Native.Char.{Char, code}
use cyberwatch_rs.Prelude.{
  ◌==◌, number_eq, ◌>>=◌, ◌>>◌, bail_if, ok_or, is_some_and, is_some, unwrap_or, Result, ok, ℕ,
  String, Bool, true, false, not, ◌&&◌, ◌||◌, Option, none, some, List, [], ◌∷◌,
}
use cyberwatch_rs.Prelude.Text.{
  eq_ignore_ascii_case, strip_prefix, trim_start_matches, trim_end_matches,
}
use cyberwatch_rs.Prelude.Decimal.{to_string}
use cyberwatch_rs.Http.Address.{IpAddr, v4, v6}
use cyberwatch_rs.Http.Url.{UrlApi, is_http}
use cyberwatch_rs.Api.Error.{unauthorized, forbidden, ApiError}

-- `HeaderMap::get` by a header's name: absent, or a value, which is a text when it is visible ASCII.
abbrev pub HeaderMap : Type 0
HeaderMap = String → Option (Option String)

-- `headers.get(name).and_then(|value| value.to_str().ok())`
abbrev pub header_text : HeaderMap → String → Option String
header_text headers name = unwrap_or (headers name) none

-- `Authority` of the `http` crate
pub record Authority : Type 0 where
  pub host : String
  pub port_u16 : Option ℕ

-- What the handler calls of the `url`, `http` and `sha2` crates and of `IpAddr`'s parser.
pub record RequestApi : Type 1 where
  pub Url : Type 0
  pub urls : UrlApi Url
  pub parse_authority : String → Option Authority
  pub parse_ip : String → Option IpAddr
  pub digest : String → List ℕ

-- The fields of `Config` that the handler reads.
pub record Access : Type 0 where
  pub admin_token : Option String
  pub bind_ip : IpAddr
  pub bind_port : ℕ

-- `IpAddr::is_loopback`: 127/8 and ::1.
unfoldable pub is_loopback : IpAddr → Bool
is_loopback (v4 a b c d) = a == 127
is_loopback (v6 s0 s1 s2 s3 s4 s5 s6 s7) =
    s0 == 0 && s1 == 0 && s2 == 0 && s3 == 0 && s4 == 0 && s5 == 0 && s6 == 0 && s7 == 1

abbrev pub with_port : String → Option ℕ → String
with_port host none = host
with_port host (some port) = host ++ (":" ++ to_string port)

abbrev pub is_opening : Char → Bool
is_opening c = code c == b'['

abbrev pub is_closing : Char → Bool
is_closing c = code c == b']'

unfoldable pub bare_host : String → String
unfolding trim_start_matches trim_end_matches
bare_host host = trim_end_matches is_closing (trim_start_matches is_opening host)

abbrev pub local_host_required : ApiError
local_host_required = forbidden "a local request host is required"

abbrev pub invalid_origin : ApiError
invalid_origin = forbidden "invalid request origin"

-- `x.and_then(f)`
abbrev pub and_then {ℓ κ} : {A : Type ℓ} {B : Type κ} → Option A → (A → Option B) → Option B
and_then none f = none
and_then (some a) f = f a

-- `x.or_else(|| y)`
abbrev pub or_else {ℓ} : {A : Type ℓ} → Option A → Option A → Option A
or_else none b = b
or_else (some a) b = some a

unfoldable pub same_bytes : List ℕ → List ℕ → Bool
same_bytes [] [] = true
same_bytes [] (y ∷ ys) = false
same_bytes (x ∷ xs) [] = false
same_bytes (x ∷ xs) (y ∷ ys) = x == y && same_bytes xs ys

unfoldable pub provided_token : HeaderMap → String
unfolding strip_prefix
provided_token headers =
    unwrap_or
      (or_else
        (and_then (header_text headers "authorization") (λ value. strip_prefix value "Bearer "))
        (header_text headers "x-admin-token"))
      ""

module _ ⦃request : RequestApi⦄ where
  -- The `Origin` check.
  unfoldable pub check_origin_header :
      HeaderMap → Option (Option String) → Result ApiError (Unit {0})
  unfolding to_string eq_ignore_ascii_case
  check_origin_header headers none = ok tt
  check_origin_header headers (some value) = do
    text ← ok_or value invalid_origin
    origin ← ok_or (request.urls.parse text) invalid_origin
    bail_if (not (is_http (request.urls.scheme origin)) || not (is_some (request.urls.host origin)))
        invalid_origin
    host ← ok_or (header_text headers "host") (forbidden "request host is missing")
    bail_if
        (not (
          eq_ignore_ascii_case
            (with_port (unwrap_or (request.urls.host_str origin) "") (request.urls.port origin))
            host))
        (forbidden "cross-origin refresh is not allowed")

  -- The server has no token: only a local server may be refreshed, under a local name.
  unfoldable pub check_local : HeaderMap → Access → Result ApiError (Unit {0})
  unfolding is_loopback bare_host eq_ignore_ascii_case
  check_local headers config = do
    bail_if (not (is_loopback config.bind_ip))
        (forbidden "manual refresh requires ADMIN_TOKEN when the server is bound publicly")
    text ← ok_or (header_text headers "host") local_host_required
    host ← ok_or (request.parse_authority text) local_host_required
    bail_if
        (not (
            eq_ignore_ascii_case (bare_host host.host) "localhost"
            || is_some_and (request.parse_ip (bare_host host.host)) is_loopback)
          || not (unwrap_or host.port_u16 80 == config.bind_port))
        local_host_required

  -- `ct_eq` on the two digests: equal lists of bytes.
  unfoldable pub constant_time_equal : String → String → Bool
  unfolding same_bytes
  constant_time_equal expected provided =
      same_bytes (request.digest expected) (request.digest provided)

  unfoldable pub check_token : HeaderMap → Access → Option String → Result ApiError (Unit {0})
  unfolding constant_time_equal provided_token check_local
  check_token headers config none = check_local headers config
  check_token headers config (some expected) =
      bail_if (not (constant_time_equal expected (provided_token headers)))
        (unauthorized "invalid administrative token")

  unfoldable pub authorize_refresh : HeaderMap → Access → Result ApiError (Unit {0})
  unfolding check_origin_header check_token
  authorize_refresh headers config = do
    check_origin_header headers (headers "origin")
    check_token headers config config.admin_token
