-- ===== src/Http/Url/Laws.antt =====
-- What an accepted outbound URL is.
use Prim.Native.Char.{code}
use Prim.Native.String.{◌++◌}
use text.Mathlib.TextEquality.{eq_iff}
use cyberwatch_rs.Prelude.{
  eqb, is_some, ok, String, ◌≡◌, refl, ◌≢◌, ◌↔◌, ◌⊎◌, true, Option, none, some, arith,
}
use cyberwatch_rs.Prelude.Text.{to_ascii_lowercase, trim_end_matches}
use cyberwatch_rs.Http.Address.{public_address}
use cyberwatch_rs.Http.Url.{
  bare_name, allowed_name, allowed_host, validate_outbound_url, Host, UrlApi, ip, domain,
}
use cyberwatch_rs.Http.Url.Suffix.{ends_with_iff}

-- Neither `localhost` nor a name within one of the local domains.
pub record IsNotLocal (name : String) : Type 0 where
  pub not_localhost : name ≢ "localhost"
  pub outside_localhost : (front : String) → name ≢ front ++ ".localhost"
  pub outside_local : (front : String) → name ≢ front ++ ".local"
  pub outside_internal : (front : String) → name ≢ front ++ ".internal"

-- A public address, or a name that is not local however it is written: with capitals or not, with
-- dots at its end or not.
abbrev pub IsPublicHost : Option Host → Type 0
IsPublicHost none = ⊥
IsPublicHost (some (ip address)) = public_address address ≡ true
IsPublicHost (some (domain name)) =
    IsNotLocal (to_ascii_lowercase (trim_end_matches (λ c. eqb (code c) b'.') name))

allowed_name_iff : (name : String) → (allowed_name name ≡ true) ↔ IsNotLocal name
unfolding allowed_name
allowed_name_iff name = (
  λ h. record {
    not_localhost = λ e. ground (arith, eq_iff name "localhost");
    outside_localhost = (ends_with_iff name ".localhost").0 (ground arith);
    outside_local = (ends_with_iff name ".local").0 (ground arith);
    outside_internal = (ends_with_iff name ".internal").0 (ground arith);
  },
  λ n. ground (
    arith,
    n.not_localhost,
    eq_iff name "localhost",
    (ends_with_iff name ".localhost").1 n.outside_localhost,
    (ends_with_iff name ".local").1 n.outside_local,
    (ends_with_iff name ".internal").1 n.outside_internal,
  ),
)

allowed_host_iff : (host : Option Host) → (allowed_host host ≡ true) ↔ IsPublicHost host
unfolding allowed_host bare_name
allowed_host_iff none = (λ h. cc, λ h. absurd h)
allowed_host_iff (some (ip address)) = (λ h. h, λ h. h)
allowed_host_iff (some (domain name)) = allowed_name_iff _

has_host : (host : Option Host) → allowed_host host ≡ true → is_some host ≡ true
unfolding allowed_host
has_host none h = h
has_host (some host) h = refl

module _ {Url : Type 0} ⦃api : UrlApi Url⦄ where
  -- What an outbound URL must be, without the order of the tests.
  pub record IsOutbound (url : Url) : Type 0 where
    pub scheme_http : (api.scheme url ≡ "http") ⊎ (api.scheme url ≡ "https")
    pub no_username : api.username url ≡ ""
    pub no_password : api.password url ≡ none
    pub host_public : IsPublicHost (api.host url)

  validate_outbound_url-IsOutbound :
      (url : Url) → validate_outbound_url url ≡ ok tt → IsOutbound url
  unfolding validate_outbound_url
  validate_outbound_url-IsOutbound url h = record {
    scheme_http = ground (arith, eq_iff (api.scheme url) "http", eq_iff (api.scheme url) "https");
    no_username = ground (arith, eq_iff (api.username url) "");
    no_password = ground arith;
    host_public = (allowed_host_iff (api.host url)).0 (ground arith);
  }

  IsOutbound-validate_outbound_url :
      (url : Url) → IsOutbound url → validate_outbound_url url ≡ ok tt
  unfolding validate_outbound_url
  IsOutbound-validate_outbound_url url o =
      let allowed : allowed_host (api.host url) ≡ true =
        (allowed_host_iff (api.host url)).1 o.host_public in
      ground (
        arith,
        has_host (api.host url) allowed,
        eq_iff (api.scheme url) "http",
        eq_iff (api.scheme url) "https",
        eq_iff (api.username url) "",
      )

  -- A URL is accepted exactly when it is HTTP(S), carries no user name or password, and its host is
  -- an address that `public_address` takes for public, or a name that, in lower case and without
  -- dots at its end, is not `localhost` and ends with none of `.localhost`, `.local`, `.internal`.
  pub validate_outbound_url_iff : (url : Url) → (validate_outbound_url url ≡ ok tt) ↔ IsOutbound url
  validate_outbound_url_iff url =
      (validate_outbound_url-IsOutbound url, IsOutbound-validate_outbound_url url)
