-- ===== src/Api/Authorize/Laws.antt =====
-- Who is let through, without the order of the tests.
use cyberwatch_rs.Prelude.{
  bail_if, ok_or, is_some_and, is_some, unwrap_or, bind-eq-ok, then-eq-ok, ok_or-eq-ok, ok, ℕ,
  String, ◌≡◌, refl, ap, ◌∙◌, ◌↔◌, true, not, ◌||◌, Option, none, some, List, [], ◌∷◌, arith,
}
use cyberwatch_rs.Prelude.Text.{eq_ignore_ascii_case}
use cyberwatch_rs.Http.Url.{is_http}
use cyberwatch_rs.Api.Authorize.{
  HeaderMap, header_text, is_loopback, with_port, bare_host, local_host_required, invalid_origin,
  same_bytes, provided_token, check_origin_header, check_local, constant_time_equal, check_token,
  authorize_refresh, Authority, RequestApi, Access,
}

same_bytes-eq : (xs ys : List ℕ) → same_bytes xs ys ≡ true → xs ≡ ys
unfolding same_bytes
same_bytes-eq [] [] h = refl
same_bytes-eq [] (y ∷ ys) h = cc
same_bytes-eq (x ∷ xs) [] h = cc
same_bytes-eq (x ∷ xs) (y ∷ ys) h = ground (arith, same_bytes-eq xs ys)

same_bytes_refl : (xs : List ℕ) → same_bytes xs xs ≡ true
unfolding same_bytes
same_bytes_refl [] = refl
same_bytes_refl (x ∷ xs) = ground (arith, same_bytes_refl xs)

module _ ⦃request : RequestApi⦄ (headers : HeaderMap) where
  -- The request comes from no page, or from a page of the server itself.
  pub data FromOwnPage : Type 0 where
    no_origin : headers "origin" ≡ none → FromOwnPage
    own_origin :
        (text host : String) (origin : request.Url)
        → headers "origin" ≡ some (some text)
        → request.urls.parse text ≡ some origin
        → is_http (request.urls.scheme origin) ≡ true
        → is_some (request.urls.host origin) ≡ true
        → header_text headers "host" ≡ some host
        → eq_ignore_ascii_case
            (with_port (unwrap_or (request.urls.host_str origin) "") (request.urls.port origin))
            host
          ≡ true
        → FromOwnPage

  -- The request has the token's digest, or there is no token, the server is bound to the loopback
  -- and the request names it locally, at its own port.
  pub data HasAccess (config : Access) : Type 0 where
    by_token :
        (expected : String)
        → config.admin_token ≡ some expected
        → request.digest expected ≡ request.digest (provided_token headers)
        → HasAccess config
    by_locality :
        (text : String) (host : Authority)
        → config.admin_token ≡ none
        → is_loopback config.bind_ip ≡ true
        → header_text headers "host" ≡ some text
        → request.parse_authority text ≡ some host
        → (eq_ignore_ascii_case (bare_host host.host) "localhost"
            || is_some_and (request.parse_ip (bare_host host.host)) is_loopback)
          ≡ true
        → unwrap_or host.port_u16 80 ≡ config.bind_port
        → HasAccess config

  origin_sound :
      (value : Option (Option String))
      → headers "origin" ≡ value
      → check_origin_header headers value ≡ ok tt
      → FromOwnPage
  unfolding check_origin_header
  origin_sound none e h = no_origin e
  origin_sound (some value) e h =
      let (text, h0, h1) = bind-eq-ok (ok_or value invalid_origin) _ h in
      let (origin, h2, h3) = bind-eq-ok (ok_or (request.urls.parse text) invalid_origin) _ h1 in
      let (h4, h5) =
        then-eq-ok
          (bail_if
            (not (is_http (request.urls.scheme origin)) || not (is_some (request.urls.host origin)))
            invalid_origin)
          h3 in
      let (host, h6, h7) = bind-eq-ok (ok_or (header_text headers "host") _) _ h5 in
      own_origin text host origin (e ∙ ap some (ok_or-eq-ok value _ h0))
        (ok_or-eq-ok (request.urls.parse text) _ h2) (ground arith) (ground arith)
        (ok_or-eq-ok (header_text headers "host") _ h6) (ground arith)

  origin_complete : FromOwnPage → check_origin_header headers (headers "origin") ≡ ok tt
  unfolding check_origin_header
  origin_complete (no_origin e) = rw e refl
  origin_complete (own_origin text host origin e h0 h1 h2 h3 h4) = rw (e, h0, h1, h2, h3, h4) refl

  access_sound :
      (config : Access) (token : Option String)
      → config.admin_token ≡ token
      → check_token headers config token ≡ ok tt
      → HasAccess config
  unfolding check_token constant_time_equal check_local
  access_sound config (some expected) e h = by_token expected e (
      same_bytes-eq (request.digest expected) (request.digest (provided_token headers))
        (ground arith))
  access_sound config none e h =
      let (h0, h1) = then-eq-ok (bail_if (not (is_loopback config.bind_ip)) _) h in
      let (text, h2, h3) =
        bind-eq-ok (ok_or (header_text headers "host") local_host_required) _ h1 in
      let (host, h4, h5) =
        bind-eq-ok (ok_or (request.parse_authority text) local_host_required) _ h3 in
      by_locality text host e (ground arith) (ok_or-eq-ok (header_text headers "host") _ h2)
        (ok_or-eq-ok (request.parse_authority text) _ h4) (ground arith) (ground arith)

  access_complete :
      (config : Access) → HasAccess config → check_token headers config config.admin_token ≡ ok tt
  unfolding check_token constant_time_equal check_local
  access_complete config (by_token expected e h) =
      rw (e, h, same_bytes_refl (request.digest (provided_token headers))) refl
  access_complete config (by_locality text host e h0 h1 h2 h3 h4) =
      rw (e, h0, h1, h2, h3, h4) (ground arith)

  -- A refresh is authorised exactly when the request comes from no other site's page, and brings the
  -- administrative token or, where none is set, reaches a loopback server under a local name.
  pub authorize_refresh_iff :
      (config : Access)
      → (authorize_refresh headers config ≡ ok tt) ↔ (FromOwnPage × HasAccess config)
  unfolding authorize_refresh
  authorize_refresh_iff config = (
    (λ h.
        let (h0, h1) = then-eq-ok (check_origin_header headers (headers "origin")) h in
        (origin_sound (headers "origin") refl h0, access_sound config config.admin_token refl h1)),
    (λ (own, access). rw (origin_complete own) (access_complete config access)),
  )
