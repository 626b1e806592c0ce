-- ===== src/Base/Run.antt =====
-- A computation that may panic: an index or a slice out of range, or a failed `assert!`.
use Prim.Native.Nat.{ℕ, ◌<◌}
use mathlib.Core.Path.{◌≡◌}
use mathlib.Core.Bool.{Bool, true, false}
use mathlib.Core.List.{List}
use native.Mathlib.Omega.{arith}
use rdmas.Base.Tests.{ltb, if◌then◌else◌}
use rdmas.Base.Lists.{length, get_or, set}

pub data Run {ℓ} (A : Type ℓ) : Type ℓ where
  ok : A → Run A
  panic : Run A

infixl 5 ◌>>=◌ ◌>>◌
abbrev pub ◌>>=◌ {ℓ κ} : {A : Type ℓ} {B : Type κ} → Run A → (A → Run B) → Run B
ok a >>= f = f a
panic >>= f = panic

abbrev pub ◌>>◌ {ℓ} : {B : Type ℓ} → Run (Unit {0}) → Run B → Run B
m >> k = m >>= λ _. k

-- `assert!(b)`
abbrev pub assert : Bool → Run (Unit {0})
assert true = ok tt
assert false = panic

module _ {ℓ} {A : Type ℓ} where
  -- `xs[i]`; `d` is never read.
  abbrev pub index : A → List A → ℕ → Run A
  index d xs i = if ltb i (length xs) then ok (get_or xs i d) else panic

  -- `xs[i] = v`
  abbrev pub assign : List A → ℕ → A → Run (List A)
  assign xs i v = if ltb i (length xs) then ok (set xs i v) else panic

  pub index-eq-ok :
      (d : A) (xs : List A) (i : ℕ) → i < length xs → index d xs i ≡ ok (get_or xs i d)
  index-eq-ok d xs i h = ground arith

  pub assign-eq-ok : (xs : List A) (i : ℕ) (v : A) → i < length xs → assign xs i v ≡ ok (set xs i v)
  assign-eq-ok xs i v h = ground arith
