-- ===== src/Base/Result.antt =====
-- `Result<A, E>` and the tests of the integer types that the source uses.
use Prim.Native.Nat.{ℕ, zero, suc, ◌^◌, ◌<◌}
use mathlib.Core.Path.{◌≡◌}
use mathlib.Core.Bool.{Bool, true, false, ◌||◌}
use native.Mathlib.Omega.{arith}
use mathlib.Core.Logic.{inl, inr}
use rdmas.Base.Tests.{◌==◌, ==_iff, Bool-cases}

pub data Result {ℓ} (E A : Type ℓ) : Type ℓ where
  done : A → Result E A
  err : E → Result E A

power_among : ℕ → ℕ → Bool
power_among zero n = false
power_among (suc k) n = n == 2 ^ k || power_among k n

-- `u64::is_power_of_two`
unfoldable pub is_power_of_two : ℕ → Bool
unfolding power_among
is_power_of_two n = power_among 64 n

power_among_lem : (j n : ℕ) → power_among j n ≡ true → (k : ℕ) × (k < j) × (n ≡ 2 ^ k)
unfolding power_among
power_among_lem zero n h = cc
power_among_lem (suc j) n h = elim (Bool-cases (n == 2 ^ j)) [
  | inl here ↦ (j, omega arith, (==_iff n (2 ^ j)).0 here)
  | inr miss ↦ let (k, below, e) = power_among_lem j n (rw miss at h) in (k, omega arith, e)
]

pub is_power_of_two_lem : (n : ℕ) → is_power_of_two n ≡ true → (k : ℕ) × (k < 64) × (n ≡ 2 ^ k)
unfolding is_power_of_two
is_power_of_two_lem n h = power_among_lem 64 n h
