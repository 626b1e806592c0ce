-- ===== src/Client/Retry/Laws.antt =====
-- How the retry loops end.
use native.Mathlib.Nat.{mul-le-mul_left, pow-le-pow_right}
use rdmas.Base.{
  ℕ, zero, suc, ◌+◌, ◌*◌, ◌^◌, ◌≤◌, ◌<◌, ◌≡◌, refl, sym, ap, ◌∙◌, ◌⊎◌, inl, inr, Bool, true, false,
  not, ◌||◌, List, [], ◌∷◌, lt→ltb, leb, min, Option, some, arith, length, Bool-cases, ℕ_discrete,
  subst,
}
use rdmas.Base.Run.{Run, ok}
use rdmas.Base.Result.{Result, done, err}
use rdmas.Client.Retry.{
  RdmaError, is_retriable, RetryConfig, Ended, backoff, duration_limit, retry_loop,
  retry_with_backoff, retry_rdma_op,
}

abbrev pub AllBelow : ℕ → List ℕ → Type 0
AllBelow n [] = Unit
AllBelow n (x ∷ xs) = (x ≤ n) × AllBelow n xs

module _ {ℓ} {E : Type ℓ} {T : Type ℓ} (retriable : E → Bool) (config : RetryConfig)
    (operation : ℕ → Result E T) where
  -- Call `i` failed with an error that is retried.
  abbrev pub IsRetried : ℕ → Type ℓ
  IsRetried i = (e : E) × (operation i ≡ err e) × (retriable e ≡ true)

  -- Call `n` is where a loop stops: a success, an error that is not retried, or the last attempt.
  abbrev pub IsLast : ℕ → Type ℓ
  IsLast n =
      ((t : T) × (operation n ≡ done t))
      ⊎ ((e : E) × (operation n ≡ err e) × ((retriable e ≡ false) ⊎ (config.max_retries ≤ n)))

  -- The loop from `from` on stops at call `n`, returns its result, and has slept between the calls,
  -- never longer than the configured maximum.
  abbrev pub Stops : ℕ → Run (Option (Ended E T)) → Type ℓ
  Stops from out =
      (n : ℕ) × (x : Ended E T) × (out ≡ ok (some x))
      × (n ≤ config.max_retries)
      × ((i : ℕ) → from ≤ i → i < n → IsRetried i)
      × IsLast n
      × (x.result ≡ operation n)
      × (x.calls ≡ suc n)
      × (length x.slept ≡ n)
      × AllBelow config.max_delay x.slept

  backoff-ok :
      (attempt : ℕ)
      → attempt < 32
      → config.base_delay * 2 ^ attempt < duration_limit
      → backoff config attempt ≡ ok (min (config.base_delay * 2 ^ attempt) config.max_delay)
  unfolding backoff
  backoff-ok attempt small fits =
      rw (lt→ltb attempt 32 small, lt→ltb (config.base_delay * 2 ^ attempt) duration_limit fits)
        refl

  Result-cases : (r : Result E T) → ((t : T) × (r ≡ done t)) ⊎ ((e : E) × (r ≡ err e))
  Result-cases (done t) = inl (t, refl)
  Result-cases (err e) = inr (e, refl)

  stopped : ℕ → List ℕ → Ended E T
  stopped attempt slept = record { result = operation attempt; calls = suc attempt; slept = slept }

  round-done :
      (fuel attempt : ℕ) (slept : List ℕ) (r : Result E T)
      → operation attempt ≡ r
      → ((t : T) × (r ≡ done t))
        ⊎ ((e : E) × (r ≡ err e) × ((not (retriable e) || leb config.max_retries attempt) ≡ true))
      → retry_loop retriable config operation (suc fuel) attempt slept
        ≡ ok (some (stopped attempt slept))
  unfolding retry_loop stopped
  round-done fuel attempt slept r e (inl (t, good)) = rw (retry_loop, e, good, e, good) refl
  round-done fuel attempt slept r e (inr (x, bad, last)) =
      rw (retry_loop, e, bad, last, e, bad) refl

  product-fits :
      (attempt : ℕ)
      → attempt ≤ config.max_retries
      → config.base_delay * 2 ^ config.max_retries < duration_limit
      → config.base_delay * 2 ^ attempt < duration_limit
  product-fits attempt low fits =
      let power : 2 ^ attempt ≤ 2 ^ config.max_retries = pow-le-pow_right (omega arith) low in
      let product = mul-le-mul_left config.base_delay power in omega (arith, product, fits)

  round-again :
      (fuel attempt : ℕ) (slept : List ℕ) (x : E)
      → operation attempt ≡ err x
      → (not (retriable x) || leb config.max_retries attempt) ≡ false
      → suc attempt < 32
      → config.base_delay * 2 ^ suc attempt < duration_limit
      → retry_loop retriable config operation (suc fuel) attempt slept
        ≡ retry_loop retriable config operation fuel
            (suc attempt)
            (min (config.base_delay * 2 ^ suc attempt) config.max_delay ∷ slept)
  unfolding retry_loop
  round-again fuel attempt slept x e again small fits =
      rw (retry_loop, e, again, backoff-ok (suc attempt) small fits) refl

  retry_loop-Stops :
      (fuel attempt : ℕ) (slept : List ℕ)
      → config.max_retries < 32
      → config.base_delay * 2 ^ config.max_retries < duration_limit
      → attempt ≤ config.max_retries
      → config.max_retries < attempt + fuel
      → length slept ≡ attempt
      → AllBelow config.max_delay slept
      → Stops attempt (retry_loop retriable config operation fuel attempt slept)
  unfolding retry_loop stopped
  retry_loop-Stops zero attempt slept cap fits low enough count below = absurd (omega arith)
  retry_loop-Stops (suc fuel) attempt slept cap fits low enough count below =
      elim (Result-cases (operation attempt)) [
        | inl (t, e) ↦ (
          attempt,
          stopped attempt slept,
          round-done fuel attempt slept (operation attempt) refl (inl (t, e)),
          low,
          (λ i p q. absurd (omega arith)),
          inl (t, e),
          refl,
          refl,
          count,
          below,
        )
        | inr (x, e) ↦ elim (Bool-cases (not (retriable x) || leb config.max_retries attempt)) [
          | inl last ↦ (
            attempt,
            stopped attempt slept,
            round-done fuel attempt slept (operation attempt) refl (inr (x, e, last)),
            low,
            (λ i p q. absurd (omega arith)),
            inr (x, e, ground arith),
            refl,
            refl,
            count,
            below,
          )
          | inr again ↦
              let delay : ℕ = min (config.base_delay * 2 ^ suc attempt) config.max_delay in
              let more : suc attempt ≤ config.max_retries = ground arith in
              let (n, y, out, bound, before, ends, returns, made, times, under) =
                retry_loop-Stops fuel (suc attempt) (delay ∷ slept) cap fits more (omega arith)
                  (ap suc count) (omega arith, below) in
              (
                n,
                y,
                round-again fuel attempt slept x e again (omega arith)
                      (product-fits (suc attempt) more fits)
                    ∙ out,
                bound,
                (λ i p q. elim (ℕ_discrete i attempt) [
                  | yes same ↦ subst IsRetried (sym same) (x, e, ground arith)
                  | no other ↦ before i (omega arith) q
                ]),
                ends,
                returns,
                made,
                times,
                under,
              )
        ]
      ]

-- Unless the longest wait, the base delay times 2^max_retries, does not fit a `Duration`, `retry_with_backoff` with fewer
-- than 32 retries always returns. It calls the operation until the first success, at most `max_retries + 1` times, and
-- returns the result of its last call; it sleeps once between two calls, never longer than `max_delay` before the jitter,
-- which is left out.
pub retry_with_backoff-Stops {ℓ} :
    {E T : Type ℓ} (config : RetryConfig) (operation : ℕ → Result E T)
    → config.max_retries < 32
    → config.base_delay * 2 ^ config.max_retries < duration_limit
    → Stops (λ _. true) config operation 0 (retry_with_backoff config operation)
unfolding retry_with_backoff
retry_with_backoff-Stops config operation cap fits =
    retry_loop-Stops (λ _. true) config operation (suc config.max_retries) 0 [] cap fits
      (omega arith) (omega arith) refl tt

-- Unless the longest wait, the base delay times 2^max_retries, does not fit a `Duration`, `retry_rdma_op` with fewer than
-- 32 retries always returns. It calls the operation again only after a retriable error, at most `max_retries + 1` times
-- in all, and returns the result of its last call; it sleeps once between two calls, never longer than `max_delay` before
-- the jitter, which is left out.
pub retry_rdma_op-Stops :
    {T : Type 0} (config : RetryConfig) (operation : ℕ → Result RdmaError T)
    → config.max_retries < 32
    → config.base_delay * 2 ^ config.max_retries < duration_limit
    → Stops is_retriable config operation 0 (retry_rdma_op config operation)
unfolding retry_rdma_op
retry_rdma_op-Stops config operation cap fits =
    retry_loop-Stops is_retriable config operation (suc config.max_retries) 0 [] cap fits
      (omega arith) (omega arith) refl tt
