-- ===== src/HttpRetry/Attempts.antt =====
-- How many requests are sent, which answer is returned, and the waits.
use fedi.Base.{
  ℕ, zero, suc, ◌+◌, ◌-◌, ◌≤◌, ◌<◌, ◌≡◌, refl, ap, true, List, [], ◌∷◌, arith, inl, inr, Bool-cases,
  take, ◌==◌,
}
use fedi.NetMetrics.{NetMetrics}
use fedi.HttpRetry.{
  Answer, is_retried, Sent, max_attempts, doubled, attempt_from, send_with_retry, noted,
  attempt_noted, send_with_retry_metrics,
}

module _ (answers : ℕ → Answer) where
  -- What the requests from one attempt to a last one come to.
  abbrev pub Settles : (first last : ℕ) → Sent → Type 0
  Settles first last s =
      (suc first ≤ s.requests)
      × ((s.requests ≤ suc last)
          × ((s.answer ≡ answers (s.requests - 1))
              × (((i : ℕ) → first ≤ i → suc i < s.requests → is_retried (answers i) ≡ true)
                  × (is_retried s.answer ≡ true → s.requests ≡ suc last))))

  stopped :
      (attempt last : ℕ)
      → (is_retried (answers attempt) ≡ true → suc attempt ≡ suc last)
      → attempt ≤ last
      → Settles attempt last
          (record { answer = answers attempt; requests = suc attempt; waits = [] })
  stopped attempt last h l = (
    omega arith,
    (omega arith, (ap answers (omega arith), ((λ i a b. absurd (omega (arith, a, b))), h))),
  )

  earlier :
      (attempt last : ℕ) (s : Sent)
      → Settles (suc attempt) last s
      → is_retried (answers attempt) ≡ true
      → (i : ℕ) → attempt ≤ i
      → suc i < s.requests
      → is_retried (answers i) ≡ true
  earlier attempt last s r t i a b = elim (Bool-cases (i == attempt)) [
    | inl e ↦ let same : i ≡ attempt = ground (arith, e) in rw (same) t
    | inr e ↦ r.1.1.1.0 i (ground (arith, e)) b
  ]

  attempt_from-Settles :
      (left attempt last backoff : ℕ)
      → last ≡ attempt + left
      → Settles attempt last (attempt_from answers left attempt backoff)
  unfolding attempt_from
  attempt_from-Settles zero attempt last backoff e =
      stopped attempt last (λ _. omega arith) (omega arith)
  attempt_from-Settles (suc left) attempt last backoff e =
      let rest = attempt_from answers left (suc attempt) (doubled backoff) in
      let r = attempt_from-Settles left (suc attempt) last (doubled backoff) (omega arith) in
      elim (Bool-cases (is_retried (answers attempt))) [
        | inl t ↦
            rw (t)
              (omega (arith, r.0), (r.1.0, (r.1.1.0, (earlier attempt last rest r t, r.1.1.1.1))))
        | inr t ↦ rw (t) (stopped attempt last (λ h. ground (arith, h, t)) (omega arith))
      ]

  -- Whatever the client answers, from 1 to max_attempts requests are sent, the answer to the last
  -- one is returned, every earlier answer was one to retry, and the last one is one to retry only
  -- if max_attempts requests were sent.
  pub send_with_retry-Settles :
      (attempts : ℕ) → Settles 0 (max_attempts attempts - 1) (send_with_retry answers attempts)
  unfolding send_with_retry
  send_with_retry-Settles attempts =
      attempt_from-Settles (max_attempts attempts - 1) 0 (max_attempts attempts - 1) 200
        (omega arith)

  attempt_noted_same :
      (left attempt backoff : ℕ) (m : NetMetrics)
      → (attempt_noted answers left attempt backoff m).0 ≡ attempt_from answers left attempt backoff
  unfolding attempt_noted attempt_from
  attempt_noted_same zero attempt backoff m = refl
  attempt_noted_same (suc left) attempt backoff m = ground (
    arith,
    attempt_noted_same left (suc attempt) (doubled backoff) (noted answers (answers attempt) m),
  )

  -- With counters, the answer returned, the number of requests and the waits are those of
  -- send_with_retry.
  send_with_retry_metrics_same :
      (attempts : ℕ) (m : NetMetrics)
      → (send_with_retry_metrics answers attempts m).0 ≡ send_with_retry answers attempts
  unfolding send_with_retry_metrics send_with_retry
  send_with_retry_metrics_same attempts m = attempt_noted_same (max_attempts attempts - 1) 0 200 m

  -- The waits from one on, each twice the one before and 5 seconds at most.
  abbrev pub delays : (n backoff : ℕ) → List ℕ
  delays zero backoff = []
  delays (suc n) backoff = backoff ∷ delays n (doubled backoff)

  attempt_from-waits :
      (left n attempt backoff k : ℕ)
      → left ≤ n
      → (attempt_from answers left attempt backoff).requests ≡ suc attempt + k
      → (attempt_from answers left attempt backoff).waits ≡ take k (delays n backoff)
  unfolding attempt_from
  attempt_from-waits zero n attempt backoff k h e =
      let none_left : k ≡ 0 = omega (arith, e) in rw (none_left) refl
  attempt_from-waits (suc left) zero attempt backoff k h e = absurd (omega (arith, h))
  attempt_from-waits (suc left) (suc n) attempt backoff zero h e =
      let r = attempt_from-Settles left (suc attempt) (suc attempt + left) (doubled backoff) refl in
      elim (Bool-cases (is_retried (answers attempt))) [
        | inl t ↦ absurd (omega (arith, rw (t) at e, r.0))
        | inr t ↦ rw (t) refl
      ]
  attempt_from-waits (suc left) (suc n) attempt backoff (suc k) h e =
      elim (Bool-cases (is_retried (answers attempt))) [
        | inl t ↦ rw (t) (
            ap (◌∷◌ backoff) (
              attempt_from-waits left n (suc attempt) (doubled backoff) k (omega (arith, h))
                (omega (arith, rw (t) at e))))
        | inr t ↦ absurd (omega (arith, rw (t) at e))
      ]

  -- If one request more than k was sent, the waits between the requests are the first k of 200,
  -- 400, 800 and 1600 ms.
  send_with_retry-waits :
      (attempts k : ℕ)
      → (send_with_retry answers attempts).requests ≡ suc k
      → (send_with_retry answers attempts).waits ≡ take k (200 ∷ 400 ∷ 800 ∷ 1600 ∷ [])
  unfolding send_with_retry
  send_with_retry-waits attempts k e =
      attempt_from-waits (max_attempts attempts - 1) 4 0 200 k (omega arith) (omega (arith, e))
