-- ===== src/Extent/Region/Cover.antt =====
-- How many of some spans of bytes cover a byte.
use rdmas.Base.{
  ℕ, ◌+◌, ◌-◌, ◌≤◌, ◌<◌, ◌≡◌, ◌⊎◌, ◌&&◌, List, [], ◌∷◌, ◌++◌, ltb, leb, arith, if◌then◌else◌,
}

-- One if the byte `p` is one of the `n` bytes at `a`.
abbrev pub hit : ℕ → ℕ → ℕ → ℕ
hit p a n = if leb a p && ltb p (a + n) then 1 else 0

-- One if it is at or behind the bump pointer.
abbrev pub tail : ℕ → ℕ → ℕ
tail p next = if leb next p then 1 else 0

abbrev pub cover : ℕ → List (ℕ × ℕ) → ℕ
cover p [] = 0
cover p ((a, n) ∷ xs) = hit p a n + cover p xs

pub hit_split : (p a k n : ℕ) → k ≤ n → hit p a n ≡ hit p a k + hit p (a + k) (n - k)
hit_split p a k n le = ground arith

pub hit-tail : (p a n : ℕ) → tail p a ≡ hit p a n + tail p (a + n)
hit-tail p a n = ground arith

pub hit_inside : (p a n : ℕ) → a ≤ p → p < a + n → hit p a n ≡ 1
hit_inside p a n low high = ground arith

pub tail_behind : (p next : ℕ) → tail p next ≡ 0 → p < next
tail_behind p next e = ground arith

-- Two spans that have bytes, and none in common, lie beside each other.
pub beside :
    (a n b k : ℕ)
    → 0 < n
    → 0 < k
    → ((p : ℕ) → hit p a n + hit p b k ≤ 1)
    → (a + n ≤ b) ⊎ (b + k ≤ a)
beside a n b k some_a some_b apart = ground (arith, apart a, apart b)

pub cover_append : (p : ℕ) (xs ys : List (ℕ × ℕ)) → cover p (xs ++ ys) ≡ cover p xs + cover p ys
cover_append p [] ys = omega arith
cover_append p ((a, n) ∷ xs) ys = let rest = cover_append p xs ys in omega (arith, rest)
