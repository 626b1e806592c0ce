-- ===== src/Client/Retry.antt =====
-- src/client/retry.rs and src/error.rs: which errors are retried, and the loops that retry. The
-- operation is given by the result of each of its calls; a delay is the nominal one in nanoseconds,
-- before the random jitter, whose arithmetic is left out. `2u32.pow(attempt)` panics from attempt 32 on, and
-- `Duration * u32` on a product that does not fit a `Duration`.
pub mod Laws
use rdmas.Base.{
  ℕ, zero, suc, ◌*◌, ◌^◌, Bool, true, false, not, ◌||◌, List, [], ◌∷◌, ltb, leb, min, Option, none,
  some, if◌then◌else◌,
}
use rdmas.Base.Run.{Run, ok, panic, ◌>>=◌, ◌>>◌, assert}
use rdmas.Base.Result.{Result, done, err}

pub data RdmaError : Type 0 where
  timeout cas_failed version_mismatch kv_full invalid_key not_connected : RdmaError
  hardware_error protocol_version_mismatch internal : List ℕ → RdmaError

unfoldable pub is_retriable : RdmaError → Bool
is_retriable timeout = true
is_retriable cas_failed = true
is_retriable version_mismatch = true
is_retriable kv_full = false
is_retriable invalid_key = false
is_retriable not_connected = true
is_retriable (hardware_error s) = false
is_retriable (protocol_version_mismatch s) = false
is_retriable (internal s) = false

pub record RetryConfig : Type 0 where
  pub max_retries : ℕ
  pub base_delay : ℕ
  pub max_delay : ℕ

-- How a loop ends: what it returns, the calls made, and the delays slept, the last one first.
pub record Ended {ℓ} (E : Type ℓ) (T : Type ℓ) : Type ℓ where
  pub result : Result E T
  pub calls : ℕ
  pub slept : List ℕ

-- The first number of nanoseconds that a `Duration` cannot hold: its seconds are a u64.
abbrev pub duration_limit : ℕ
duration_limit = 2 ^ 64 * 1_000_000_000

unfoldable pub backoff : RetryConfig → ℕ → Run ℕ
backoff config attempt = do
  assert (ltb attempt 32)
  assert (ltb (config.base_delay * 2 ^ attempt) duration_limit)
  ok (min (config.base_delay * 2 ^ attempt) config.max_delay)

-- The loop of both functions, from `attempt` on; `none` when the fuel is used up.
unfoldable pub retry_loop {ℓ} :
    {E : Type ℓ} {T : Type ℓ}
    → (E → Bool)
    → RetryConfig
    → (ℕ → Result E T)
    → ℕ
    → ℕ
    → List ℕ
    → Run (Option (Ended E T))
unfolding backoff
retry_loop retriable config operation zero attempt slept = ok none
retry_loop retriable config operation (suc fuel) attempt slept =
    let ends =
      ok (some (record { result = operation attempt; calls = suc attempt; slept = slept })) in
    elim (operation attempt) [
      | done t ↦ ends
      | err e ↦ elim (not (retriable e) || leb config.max_retries attempt) [
        | true ↦ ends
        | false ↦ do
          delay ← backoff config (suc attempt)
          retry_loop retriable config operation fuel (suc attempt) (delay ∷ slept)
      ]
    ]

unfoldable pub retry_with_backoff {ℓ} :
    {E : Type ℓ} {T : Type ℓ} → RetryConfig → (ℕ → Result E T) → Run (Option (Ended E T))
unfolding retry_loop
retry_with_backoff config operation =
    retry_loop (λ _. true) config operation (suc config.max_retries) 0 []

unfoldable pub retry_rdma_op :
    {T : Type 0} → RetryConfig → (ℕ → Result RdmaError T) → Run (Option (Ended RdmaError T))
unfolding retry_loop is_retriable
retry_rdma_op config operation =
    retry_loop is_retriable config operation (suc config.max_retries) 0 []
