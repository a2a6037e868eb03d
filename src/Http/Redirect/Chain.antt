-- ===== src/Http/Redirect/Chain.antt =====
-- Every chain of redirects that the client follows.
use text.Mathlib.TextEquality.{eq_iff}
use cyberwatch_rs.Prelude.{
  ◌==◌, text_eq, length, All, length-append, All-append, is_some_and, ok, ◌≤◌, ◌<◌, ◌≡◌, true, some,
  List, [], ◌∷◌, ◌++◌, arith,
}
use cyberwatch_rs.Http.Url.{validate_outbound_url, UrlApi}
use cyberwatch_rs.Http.Redirect.{
  first, last, is_credential_host, check_origin, check_downgrade, redirect_policy, follow,
}

module _ {Url : Type 0} ⦃api : UrlApi Url⦄ where
  -- The visited URLs of one request, the newest at the end.
  pub data Visited : List Url → Type 0 where
    request : (url : Url) → validate_outbound_url url ≡ ok tt → Visited (url ∷ [])
    hop :
        {urls : List Url} (destination : Url)
        → Visited urls
        → redirect_policy urls destination ≡ follow
        → Visited (urls ++ destination ∷ [])

  -- The tests that a followed redirect has passed.
  record Passed (urls : List Url) (destination : Url) : Type 0 where
    few : length urls < 8
    outbound : validate_outbound_url destination ≡ ok tt
    origin_kept : check_origin destination (first urls) ≡ ok tt
    not_downgraded : check_downgrade destination (last urls) ≡ ok tt

  follow-Passed :
      (urls : List Url) (destination : Url)
      → redirect_policy urls destination ≡ follow
      → Passed urls destination
  unfolding redirect_policy
  follow-Passed urls destination h = record {
    few = ground arith;
    outbound = ground arith;
    origin_kept = ground arith;
    not_downgraded = ground arith;
  }

  abbrev pub IsHttps : Url → Type 0
  IsHttps url = api.scheme url ≡ "https"

  -- What holds of the URLs that one request visits.
  pub record IsSafeVisit (origin : Url) (rest : List Url) : Type 0 where
    pub bounded : length rest ≤ 7
    pub outbound : All (λ url. validate_outbound_url url ≡ ok tt) (origin ∷ rest)
    pub same_origin :
        is_credential_host (api.host_str origin) ≡ true
        → All (λ url. api.same_origin origin url ≡ true) rest
    pub stays_https : IsHttps origin → All IsHttps (origin ∷ rest)

  abbrev pub IsSafeChain : List Url → Type 0
  IsSafeChain [] = ⊥
  IsSafeChain (origin ∷ rest) = IsSafeVisit origin rest

  last-IsHttps :
      (url : Url) (urls : List Url)
      → All IsHttps (url ∷ urls)
      → is_some_and (last (url ∷ urls)) (λ u. api.scheme u == "https") ≡ true
  last-IsHttps url [] h = ground (arith, eq_iff (api.scheme url) "https")
  last-IsHttps url (next ∷ urls) h = last-IsHttps next urls h.1

  destination-IsHttps :
      (destination origin : Url) (rest : List Url)
      → All IsHttps (origin ∷ rest)
      → check_downgrade destination (last (origin ∷ rest)) ≡ ok tt
      → IsHttps destination
  unfolding check_downgrade
  destination-IsHttps destination origin rest h k =
      ground (arith, last-IsHttps origin rest h, eq_iff (api.scheme destination) "https")

  destination-same_origin :
      (destination origin : Url)
      → is_credential_host (api.host_str origin) ≡ true
      → check_origin destination (some origin) ≡ ok tt
      → api.same_origin origin destination ≡ true
  unfolding check_origin
  destination-same_origin destination origin h k = ground arith

  hop-IsSafeVisit :
      (origin destination : Url) (rest : List Url)
      → IsSafeVisit origin rest
      → Passed (origin ∷ rest) destination
      → IsSafeVisit origin (rest ++ destination ∷ [])
  hop-IsSafeVisit origin destination rest v p = record {
    bounded = omega (arith, length-append rest (destination ∷ []), p.few);
    outbound = (v.outbound.0, All-append _ rest _ v.outbound.1 (p.outbound, tt));
    same_origin = λ c.
        All-append _ rest _ (v.same_origin c)
          (destination-same_origin destination origin c p.origin_kept, tt);
    stays_https = λ s. (
      s,
      All-append IsHttps rest _ (v.stays_https s).1
          (destination-IsHttps destination origin rest (v.stays_https s) p.not_downgraded, tt),
    );
  }

  hop-IsSafeChain :
      (urls : List Url) (destination : Url)
      → IsSafeChain urls
      → Passed urls destination
      → IsSafeChain (urls ++ destination ∷ [])
  hop-IsSafeChain [] destination v p = absurd v
  hop-IsSafeChain (origin ∷ rest) destination v p = hop-IsSafeVisit origin destination rest v p

  -- Along every chain of redirects that the client follows, at most seven redirects are taken, each
  -- URL passes `validate_outbound_url`, a request to an API that carries a credential stays within
  -- its origin, and a request that began with HTTPS never leaves HTTPS.
  pub Visited-IsSafeChain : {urls : List Url} → Visited urls → IsSafeChain urls
  Visited-IsSafeChain (request url h) = record {
    bounded = omega arith;
    outbound = (h, tt);
    same_origin = λ _. tt;
    stays_https = λ s. (s, tt);
  }
  Visited-IsSafeChain (hop {urls} destination v h) =
      hop-IsSafeChain urls destination (Visited-IsSafeChain v) (follow-Passed urls destination h)
