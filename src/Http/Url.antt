-- ===== src/Http/Url.antt =====
-- `validate_outbound_url` of src/ingest/http.rs. Parsed URLs are those of the `url` crate: an
-- abstract type with the accessors that the program calls.
mod Suffix
pub mod Laws
use Prim.Native.Char.{Char, code}
use cyberwatch_rs.Prelude.{
  ◌==◌, number_eq, text_eq, ◌>>=◌, ◌>>◌, bail_if, is_some, Result, ℕ, String, Bool, false, not,
  ◌&&◌, ◌||◌, Option, none, some,
}
use cyberwatch_rs.Prelude.Text.{to_ascii_lowercase, ends_with, trim_end_matches}
use cyberwatch_rs.Http.Address.{public_address, IpAddr}

pub data Host : Type 0 where
  ip : IpAddr → Host
  domain : String → Host

-- The accessors of `url::Url`; `same_origin` compares the values of `origin()`.
pub record UrlApi (Url : Type 0) : Type 0 where
  pub parse : String → Option Url
  pub scheme : Url → String
  pub host : Url → Option Host
  pub host_str : Url → Option String
  pub port : Url → Option ℕ
  pub username : Url → String
  pub password : Url → Option String
  pub same_origin : Url → Url → Bool

-- The crate's type of URLs with its accessors.
pub record UrlCrate : Type 1 where
  pub Url : Type 0
  pub urls : UrlApi Url

pub data OutboundError : Type 0 where
  not_http : OutboundError
  has_credentials : OutboundError
  not_public : OutboundError
  origin_changed : OutboundError
  downgraded : OutboundError

abbrev pub is_http : String → Bool
is_http scheme = scheme == "http" || scheme == "https"

abbrev is_dot : Char → Bool
is_dot c = code c == b'.'

-- A domain with its final dots taken off, in lower case.
unfoldable pub bare_name : String → String
unfolding trim_end_matches to_ascii_lowercase
bare_name name = to_ascii_lowercase (trim_end_matches is_dot name)

unfoldable pub allowed_name : String → Bool
unfolding ends_with
allowed_name name =
    not (name == "localhost")
    && not (ends_with name ".localhost")
    && not (ends_with name ".local")
    && not (ends_with name ".internal")

unfoldable pub allowed_host : Option Host → Bool
unfolding bare_name allowed_name public_address
allowed_host none = false
allowed_host (some (ip address)) = public_address address
allowed_host (some (domain name)) = allowed_name (bare_name name)

module _ {Url : Type 0} ⦃api : UrlApi Url⦄ where
  unfoldable pub validate_outbound_url : Url → Result OutboundError (Unit {0})
  validate_outbound_url url = do
    bail_if (not (is_http (api.scheme url)) || not (is_some (api.host url))) not_http
    bail_if (not (api.username url == "") || is_some (api.password url)) has_credentials
    bail_if (not (allowed_host (api.host url))) not_public
