-- ===== src/Http/Fetch/Body.antt =====
-- The size limit on a response body.
use mathlib.Core.List.{append-nil, append_assoc}
use cyberwatch_rs.Prelude.{
  ltb, ◌==◌, number_eq, if◌then◌else◌, Bool-cases, Option-cases, length, length-append, is_ok,
  is_some_and, ok, err, ℕ, ◌+◌, ◌≤◌, ◌<◌, ◌≡◌, refl, ◌↔◌, inl, inr, true, false, ◌&&◌, Option, none,
  some, List, [], ◌∷◌, ◌++◌, arith,
}
use cyberwatch_rs.Http.Fetch.{
  usize_max, read_body, is_success, response, read_reply, FetchPolicy, FetchResponse, Reply,
  body_too_large,
}

-- The bytes of the chunks, if none fails.
abbrev pub bytes : List (Option (List ℕ)) → Option (List ℕ)
bytes [] = some []
bytes (none ∷ chunks) = none
bytes (some chunk ∷ chunks) = elim (bytes chunks) [ none ↦ none | some rest ↦ some (chunk ++ rest) ]

read_body-cons :
    (max_bytes : ℕ) (body chunk : List ℕ) (chunks : List (Option (List ℕ)))
    → max_bytes < usize_max
    → read_body max_bytes body (some chunk ∷ chunks) ≡ (
        if ltb max_bytes (length body + length chunk)
        then err body_too_large
        else read_body max_bytes (body ++ chunk) chunks)
unfolding read_body
read_body-cons max_bytes body chunk chunks h = ground arith

bytes-cons :
    (chunk rest : List ℕ) (chunks : List (Option (List ℕ)))
    → bytes (some chunk ∷ chunks) ≡ some rest
    → (later : List ℕ) × (bytes chunks ≡ some later) × (rest ≡ chunk ++ later)
bytes-cons chunk rest chunks h = elim (Option-cases (bytes chunks)) [
  | inl e ↦ absurd (let h' : Path (Option (List ℕ)) none (some rest) = rw e at h in cc)
  | inr found ↦ (found.0, found.1, ground (arith, found.1))
]

-- A body that arrives whole is returned whole if it fits, and refused if it does not.
read_body-bytes :
    (max_bytes : ℕ) (body rest : List ℕ) (chunks : List (Option (List ℕ)))
    → max_bytes < usize_max
    → length body ≤ max_bytes
    → bytes chunks ≡ some rest
    → read_body max_bytes body chunks ≡ (
        if ltb max_bytes (length body + length rest) then err body_too_large else ok (body ++ rest))
read_body-bytes max_bytes body rest [] m h e = unfold read_body in ground (arith, append-nil body)
read_body-bytes max_bytes body rest (none ∷ chunks) m h e = cc
read_body-bytes max_bytes body rest (some chunk ∷ chunks) m h e =
    let (later, found, same) = bytes-cons chunk rest chunks e in
    rw (same, read_body-cons max_bytes body chunk chunks m)
      (elim (Bool-cases (ltb max_bytes (length body + length chunk))) [
        | inl big ↦ ground (arith, length-append chunk later)
        | inr fits ↦ ground (
          arith,
          length-append chunk later,
          length-append body chunk,
          append_assoc body chunk later,
          read_body-bytes max_bytes (body ++ chunk) later chunks m,
        )
      ])

read_body-failed :
    (max_bytes : ℕ) (body : List ℕ) (chunks : List (Option (List ℕ)))
    → bytes chunks ≡ none
    → is_ok (read_body max_bytes body chunks) ≡ false
unfolding read_body
read_body-failed max_bytes body [] e = cc
read_body-failed max_bytes body (none ∷ chunks) e = refl
read_body-failed max_bytes body (some chunk ∷ chunks) e =
    ground (arith, read_body-failed max_bytes (body ++ chunk) chunks)

-- A reply that is accepted, and the response that it gives.
pub data Accepts (policy : FetchPolicy) (reply : Reply) (r : FetchResponse) : Type 0 where
  unchanged :
      reply.status ≡ 304
      → policy.allow_not_modified ≡ true
      → r ≡ response reply []
      → Accepts policy reply r
  fetched :
      (body : List ℕ)
      → is_success reply.status ≡ true
      → bytes reply.chunks ≡ some body
      → length body ≤ policy.max_bytes
      → is_some_and reply.content_length (λ n. ltb policy.max_bytes n) ≡ false
      → r ≡ response reply body
      → Accepts policy reply r

not_success : (status : ℕ) → is_success status ≡ true → (status == 304) ≡ false
not_success status h = ground arith

module _ (policy : FetchPolicy) (reply : Reply) (r : FetchResponse)
    (small : policy.max_bytes < usize_max) where
  Accepts-read_reply : Accepts policy reply r → read_reply policy reply ≡ ok r
  unfolding read_reply
  Accepts-read_reply (unchanged h k e) = ground arith
  Accepts-read_reply (fetched body s found fits declared e) = ground (
    arith,
    not_success reply.status s,
    read_body-bytes policy.max_bytes [] body reply.chunks small (omega arith) found,
  )

  read_reply-Accepts : read_reply policy reply ≡ ok r → Accepts policy reply r
  unfolding read_reply
  read_reply-Accepts h = elim (Bool-cases (reply.status == 304 && policy.allow_not_modified)) [
    | inl same ↦ unchanged (ground arith) (ground arith) (ground arith)
    | inr changed ↦ elim (Option-cases (bytes reply.chunks)) [
      | inl lost ↦ absurd (ground (arith, read_body-failed policy.max_bytes [] reply.chunks lost))
      | inr (body, found) ↦
          fetched body
            (ground (
              arith,
              read_body-bytes policy.max_bytes [] body reply.chunks small (omega arith) found,
            ))
            found
            (ground (
              arith,
              read_body-bytes policy.max_bytes [] body reply.chunks small (omega arith) found,
            ))
            (ground arith)
            (ground (
              arith,
              read_body-bytes policy.max_bytes [] body reply.chunks small (omega arith) found,
            ))
    ]
  ]

  -- A reply gives a response exactly when it is an expected 304, answered with no body, or when its
  -- status is 2xx, its declared length is within the limit, and its body arrives whole and within
  -- the limit. (`max_bytes` is below the largest `usize`, at which the saturating sum says nothing.)
  pub read_reply_iff : (read_reply policy reply ≡ ok r) ↔ Accepts policy reply r
  read_reply_iff = (read_reply-Accepts, Accepts-read_reply)
