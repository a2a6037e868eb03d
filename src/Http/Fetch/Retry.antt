-- ===== src/Http/Fetch/Retry.antt =====
-- The retry loop of `send_limited`.
use mathlib.Core.List.{append-nil, append_assoc}
use native.Mathlib.Nat.{add-zero, add_assoc}
use cyberwatch_rs.Prelude.{
  is_ok, Result, ok, err, two_pow_mono, ℕ, zero, suc, ◌+◌, ◌*◌, ◌^◌, ◌≤◌, ◌<◌, min, ◌≡◌, false,
  some, List, [], ◌∷◌, ◌++◌, arith,
}
use cyberwatch_rs.Http.Url.{validate_outbound_url, UrlApi, OutboundError}
use cyberwatch_rs.Http.Fetch.{
  run_attempt, delay_ms, send_from, send_limited, FetchPolicy, FetchResponse, FetchError, Attempt,
  refused,
}

-- The delay before a retry doubles from half a second, with at most ten doublings: no saturation
-- happens, and no delay is above 512 seconds.
pub delay_ms_lem : (n : ℕ) → (delay_ms n ≡ 500 * 2 ^ min n 10) × (delay_ms n ≤ 512000)
unfolding delay_ms
delay_ms_lem n = ground (arith, two_pow_mono (min n 10) 10 (omega arith))

-- The delays before the attempts that follow attempt `a`, `count` of them.
abbrev pub delays : ℕ → ℕ → List ℕ
delays a zero = []
delays a (suc count) = delay_ms a ∷ delays (a + 1) count

module _ (policy : FetchPolicy) (network : ℕ → Attempt) where
  abbrev outcome_at : ℕ → Result FetchError FetchResponse
  outcome_at i = run_attempt policy (network i)

  abbrev pub AllFail : ℕ → ℕ → Type 0
  AllFail a count = (i : ℕ) → i < count → is_ok (outcome_at (a + i)) ≡ false

  AllFail-tail : (a count : ℕ) → AllFail a (suc count) → AllFail (a + 1) count
  AllFail-tail a count h i lt = rw (add_assoc a 1 i) (h (1 + i) (omega arith))

  AllFail-head : (a count : ℕ) → AllFail a (suc count) → is_ok (outcome_at a) ≡ false
  AllFail-head a count h = rw (add-zero a) at (h 0 (omega arith))

  send_from-suc :
      (left a : ℕ) (sleeps : List ℕ)
      → is_ok (outcome_at a) ≡ false
      → send_from policy network (suc left) a sleeps
        ≡ send_from policy network left (a + 1) (sleeps ++ delay_ms a ∷ [])
  unfolding send_from
  send_from-suc left a sleeps h = ground arith

  send_from-ok :
      (left a : ℕ) (sleeps : List ℕ) (r : FetchResponse)
      → outcome_at a ≡ ok r
      → send_from policy network left a sleeps ≡ record { outcome = ok r; sleeps = sleeps }
  unfolding send_from
  send_from-ok zero a sleeps r h = ground arith
  send_from-ok (suc left) a sleeps r h = ground arith

  send_from-success :
      (k left a : ℕ) (sleeps : List ℕ) (r : FetchResponse)
      → k ≤ left
      → AllFail a k
      → outcome_at (a + k) ≡ ok r
      → send_from policy network left a sleeps
        ≡ record { outcome = ok r; sleeps = sleeps ++ delays a k }
  send_from-success zero left a sleeps r h f e =
      rw (append-nil sleeps, send_from-ok left a sleeps r (rw (add-zero a) at e))
  send_from-success (suc k) zero a sleeps r h f e = absurd (omega arith)
  send_from-success (suc k) (suc left) a sleeps r h f e =
      let shift : a + suc k ≡ a + 1 + k = omega arith in
      rw (
        send_from-suc left a sleeps (AllFail-head a k f),
        send_from-success k left (a + 1) (sleeps ++ delay_ms a ∷ []) r (omega arith)
            (AllFail-tail a k f) (rw shift at e),
        append_assoc sleeps (delay_ms a ∷ []) (delays (a + 1) k),
      )

  send_from-failure :
      (left a : ℕ) (sleeps : List ℕ) (e : FetchError)
      → AllFail a left
      → outcome_at (a + left) ≡ err e
      → send_from policy network left a sleeps
        ≡ record { outcome = err e; sleeps = sleeps ++ delays a left }
  send_from-failure zero a sleeps e f h =
      unfold send_from in rw (append-nil sleeps) (ground (arith, add-zero a))
  send_from-failure (suc left) a sleeps e f h =
      let shift : a + suc left ≡ a + 1 + left = omega arith in
      rw (
        send_from-suc left a sleeps (AllFail-head a left f),
        send_from-failure left (a + 1) (sleeps ++ delay_ms a ∷ []) e (AllFail-tail a left f)
            (rw shift at h),
        append_assoc sleeps (delay_ms a ∷ []) (delays (a + 1) left),
      )

module _ {Url : Type 0} ⦃api : UrlApi Url⦄ (policy : FetchPolicy) (network : ℕ → Attempt)
    (url : Url) (public : validate_outbound_url url ≡ ok tt) where
  send_limited-eq :
      send_limited policy (some (some url)) network ≡ send_from policy network policy.retries 0 []
  unfolding send_limited
  send_limited-eq = rw (public, send_limited)

  -- If the first `k` attempts fail and the next succeeds, within the retries of the policy, its
  -- response is returned after exactly `k` delays.
  pub send_limited-success :
      (k : ℕ) (r : FetchResponse)
      → k ≤ policy.retries
      → AllFail policy network 0 k
      → run_attempt policy (network k) ≡ ok r
      → send_limited policy (some (some url)) network
        ≡ record { outcome = ok r; sleeps = delays 0 k }
  send_limited-success k r h f e =
      let start : 0 + k ≡ k = omega arith in
      rw send_limited-eq (send_from-success policy network k policy.retries 0 [] r h f (rw start e))

  -- If every attempt fails, the error of the last is returned, after `retries` delays and
  -- `retries + 1` attempts.
  pub send_limited-failure :
      (e : FetchError)
      → AllFail policy network 0 policy.retries
      → run_attempt policy (network policy.retries) ≡ err e
      → send_limited policy (some (some url)) network
        ≡ record { outcome = err e; sleeps = delays 0 policy.retries }
  send_limited-failure e f h =
      let start : 0 + policy.retries ≡ policy.retries = omega arith in
      rw send_limited-eq (send_from-failure policy network policy.retries 0 [] e f (rw start h))

-- A URL that is not allowed is refused before any attempt: whatever the network would answer,
-- nothing is sent and nothing is slept.
pub send_limited-refused :
    {Url : Type 0} ⦃api : UrlApi Url⦄ (policy : FetchPolicy) (network : ℕ → Attempt) (url : Url)
    (e : OutboundError)
    → validate_outbound_url url ≡ err e
    → send_limited policy (some (some url)) network
      ≡ record { outcome = err (refused e); sleeps = [] }
unfolding send_limited
send_limited-refused policy network url e h = rw (h, send_limited)
