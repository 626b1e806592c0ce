-- ===== src/Base/Bits.antt =====
-- `&` and `|` on native numbers at variables: the law for the lowest digit, and from it the masks
-- and shifted fields of the lock word, as arithmetic that `omega` reads.
use Prim.Native.Nat.{
  ℕ, zero, suc, ◌+◌, ◌-◌, ◌*◌, ◌/◌, ◌%◌, ◌^◌, ◌≤◌, ◌<◌, min, max, bit_and, bit_or, digits,
  bit_and-bitwise, bit_or-bitwise,
}
use mathlib.Core.Path.{◌≡◌, refl, ap, ◌∙◌}
use native.Mathlib.Nat.{pow-suc, one-le-pow, le_refl, div-add-mod', mod-lt}
use native.Mathlib.Omega.{arith}

-- The digits that come out do not depend on the count of rounds, once that is large enough.
enough_digits :
    (z : ℕ → ℕ) (f : ℕ → ℕ → ℕ) (n m a b : ℕ) → a ≤ n → a ≤ m → digits z f n a b ≡ digits z f m a b
enough_digits z f zero zero a b p q = refl
enough_digits z f zero (suc m) zero b p q = refl
enough_digits z f (suc n) zero zero b p q = refl
enough_digits z f (suc n) (suc m) zero b p q = refl
enough_digits z f zero (suc m) (suc a) b p q = absurd (omega arith)
enough_digits z f (suc n) zero (suc a) b p q = absurd (omega arith)
enough_digits z f (suc n) (suc m) (suc a) b p q =
    ap (λ (t : ℕ). t * 2 + f (suc a % 2) (b % 2))
      (enough_digits z f n m (suc a / 2) (b / 2) (omega arith) (omega arith))

pub bit_and-halves : (a b : ℕ) → bit_and a b ≡ bit_and (a / 2) (b / 2) * 2 + min (a % 2) (b % 2)
bit_and-halves zero b = simp bit_and-bitwise (omega arith)
bit_and-halves (suc a) b = simp bit_and-bitwise (
    omega (
      arith,
      enough_digits (λ b. 0) min a (suc a / 2) (suc a / 2) (b / 2) (omega arith) (le_refl _),
    ))

pub bit_or-halves : (a b : ℕ) → bit_or a b ≡ bit_or (a / 2) (b / 2) * 2 + max (a % 2) (b % 2)
bit_or-halves zero b = simp bit_or-bitwise (omega arith)
bit_or-halves (suc a) b = simp bit_or-bitwise (
    omega (
      arith,
      enough_digits (λ b. b) max a (suc a / 2) (suc a / 2) (b / 2) (omega arith) (le_refl _),
    ))

bit_and-zero_below : (n a : ℕ) → a ≤ n → bit_and a 0 ≡ 0
bit_and-zero_below n zero h = refl
bit_and-zero_below zero (suc a) h = absurd (omega arith)
bit_and-zero_below (suc n) (suc a) h =
    omega (arith, bit_and-halves (suc a) 0, bit_and-zero_below n (suc a / 2) (omega arith))

pub bit_and-zero : (a : ℕ) → bit_and a 0 ≡ 0
bit_and-zero a = bit_and-zero_below a a (le_refl a)

bit_or-zero_below : (n a : ℕ) → a ≤ n → bit_or a 0 ≡ a
bit_or-zero_below n zero h = refl
bit_or-zero_below zero (suc a) h = absurd (omega arith)
bit_or-zero_below (suc n) (suc a) h =
    omega (arith, bit_or-halves (suc a) 0, bit_or-zero_below n (suc a / 2) (omega arith))

pub bit_or-zero : (a : ℕ) → bit_or a 0 ≡ a
bit_or-zero a = bit_or-zero_below a a (le_refl a)

-- A field of `k` low bits joins what stands above it as a sum.
pub bit_or-fields : (k hi lo : ℕ) → lo < 2 ^ k → bit_or (hi * 2 ^ k) lo ≡ hi * 2 ^ k + lo
bit_or-fields zero hi lo h = ground (arith, bit_or-zero hi)
bit_or-fields (suc k) hi lo h = ground (
  arith,
  bit_or-halves (hi * 2 ^ suc k) lo,
  ap (λ (t : ℕ). hi * t) (pow-suc 2 k),
  bit_or-fields k hi (lo / 2) (omega arith),
)

-- A mask of `k` ones takes the remainder.
low_field : (k hi lo : ℕ) → lo < 2 ^ k → bit_and (hi * 2 ^ k + lo) (2 ^ k - 1) ≡ lo
low_field zero hi lo h = ground (arith, bit_and-zero (hi * 1 + lo))
low_field (suc k) hi lo h = ground (
  arith,
  bit_and-halves (hi * 2 ^ suc k + lo) (2 ^ suc k - 1),
  ap (λ (t : ℕ). hi * t) (pow-suc 2 k),
  pow-suc 2 k,
  one-le-pow k 2,
  low_field k hi (lo / 2) (omega arith),
)

pub bit_and-low_mask : (k a : ℕ) → bit_and a (2 ^ k - 1) ≡ a % 2 ^ k
bit_and-low_mask k a = ground (arith, one-le-pow k 2, low_field k (a / 2 ^ k) (a % 2 ^ k))

-- A mask whose `k` low bits are clear sees only what stands above them.
pub bit_and-high_mask :
    (k hi lo m : ℕ) → lo < 2 ^ k → bit_and (hi * 2 ^ k + lo) (m * 2 ^ k) ≡ bit_and hi m * 2 ^ k
bit_and-high_mask zero hi lo m h =
    let high : hi * 1 + lo ≡ hi = omega arith in
    let mask : m * 1 ≡ m = omega arith in rw (high, mask) (omega arith)
bit_and-high_mask (suc k) hi lo m h = ground (
  arith,
  bit_and-halves (hi * 2 ^ suc k + lo) (m * 2 ^ suc k),
  ap (λ (t : ℕ). hi * t) (pow-suc 2 k),
  ap (λ (t : ℕ). m * t) (pow-suc 2 k),
  ap (λ (t : ℕ). bit_and hi m * t) (pow-suc 2 k),
  bit_and-high_mask k hi (lo / 2) m (omega arith),
)

-- `|` with a field below the lowest set bit of the other side.
pub bit_or-above : (k a lo : ℕ) → a % 2 ^ k ≡ 0 → lo < 2 ^ k → bit_or a lo ≡ a + lo
bit_or-above k a lo clear small =
    let whole : a ≡ a / 2 ^ k * 2 ^ k = omega (arith, div-add-mod' a (2 ^ k)) in
    ground (arith, whole, ap (λ (t : ℕ). bit_or t lo) whole, bit_or-fields k (a / 2 ^ k) lo)

-- `a | 1` is the odd number of the pair of `a`.
pub bit_or-one : (a : ℕ) → bit_or a 1 ≡ a / 2 * 2 + 1
bit_or-one a = omega (arith, bit_or-halves a 1, bit_or-zero (a / 2))

pub bit_and-one : (a : ℕ) → bit_and a 1 ≡ a % 2
bit_and-one a = bit_and-low_mask 1 a

-- `&` with a mask of `k` ones shifted up by `j`.
pub bit_and-field : (j k a : ℕ) → bit_and a ((2 ^ k - 1) * 2 ^ j) ≡ a / 2 ^ j % 2 ^ k * 2 ^ j
bit_and-field j k a =
    ap (λ (t : ℕ). bit_and t ((2 ^ k - 1) * 2 ^ j)) (omega (arith, div-add-mod' a (2 ^ j)))
    ∙ bit_and-high_mask j (a / 2 ^ j) (a % 2 ^ j) (2 ^ k - 1)
        (mod-lt a (one-le-pow j 2 (omega arith)))
    ∙ ap (λ (t : ℕ). t * 2 ^ j) (bit_and-low_mask k (a / 2 ^ j))

pub bit_and-two : (a : ℕ) → bit_and a 2 ≡ a / 2 % 2 * 2
bit_and-two a = bit_and-field 1 1 a

pub bit_and-four : (a : ℕ) → bit_and a 4 ≡ a / 4 % 2 * 4
bit_and-four a = bit_and-field 2 1 a
