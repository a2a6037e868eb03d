-- ===== src/Http/Redirect.antt =====
-- `validate_redirect` and the redirect policy of `build_client`, src/ingest/http.rs.
pub mod Chain
use cyberwatch_rs.Prelude.{
  leb, ◌==◌, text_eq, if◌then◌else◌, length, ◌>>=◌, ◌>>◌, bail_if, is_ok, is_some_and, Result, ok,
  String, Bool, not, ◌&&◌, ◌||◌, Option, none, some, List, [], ◌∷◌,
}
use cyberwatch_rs.Http.Url.{
  validate_outbound_url, UrlApi, OutboundError, origin_changed, downgraded,
}

pub data Decision : Type 0 where
  follow : Decision
  too_many_redirects : Decision
  not_allowed : Decision

-- `slice::first` and `slice::last`
abbrev pub first {ℓ} : {A : Type ℓ} → List A → Option A
first [] = none
first (x ∷ xs) = some x

abbrev pub last {ℓ} : {A : Type ℓ} → List A → Option A
last [] = none
last (x ∷ []) = some x
last (x ∷ y ∷ xs) = last (y ∷ xs)

-- The built-in APIs whose requests carry a credential.
abbrev pub is_credential_host : Option String → Bool
is_credential_host host =
    is_some_and host (λ name. name == "services.nvd.nist.gov" || name == "api.github.com")

module _ {Url : Type 0} ⦃api : UrlApi Url⦄ where
  unfoldable pub check_origin : Url → Option Url → Result OutboundError (Unit {0})
  check_origin destination none = ok tt
  check_origin destination (some origin) =
      bail_if (is_credential_host (api.host_str origin) && not (api.same_origin origin destination))
        origin_changed

  unfoldable pub check_downgrade : Url → Option Url → Result OutboundError (Unit {0})
  check_downgrade destination previous =
      bail_if
        (is_some_and previous (λ url. api.scheme url == "https")
          && not (api.scheme destination == "https"))
        downgraded

  unfoldable pub validate_redirect : Url → List Url → Result OutboundError (Unit {0})
  unfolding check_origin check_downgrade
  validate_redirect destination previous = do
    validate_outbound_url destination
    check_origin destination (first previous)
    check_downgrade destination (last previous)

  -- `previous` holds the URLs visited so far, the request's own first.
  unfoldable pub redirect_policy : List Url → Url → Decision
  unfolding validate_redirect
  redirect_policy previous destination =
      if leb 8 (length previous)
      then too_many_redirects
      else if is_ok (validate_redirect destination previous)
      then follow
      else not_allowed
