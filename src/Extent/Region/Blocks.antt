-- ===== src/Extent/Region/Blocks.antt =====
-- The blocks of a region: footprints, the free list, and what lies inside.

use rdmas.Base.{
  ℕ, ◌+◌, ◌-◌, ◌*◌, ◌/◌, ◌%◌, ◌^◌, ◌≤◌, ◌<◌, ◌≡◌, inl, inr, List, [], ◌∷◌, ◌++◌, ltb, leb, leb→le,
  Option, none, some, arith, if◌then◌else◌, Bool-cases, ltb→lt,
}
use rdmas.Base.Bits.{bit_and-field}
use rdmas.Extent.Header.{align_up, extent_total}
use rdmas.Extent.Region.{LargeObjectRegion, take_fit}

-- The footprint of an extent is its 32 bytes of header and its data, rounded up to 8 bytes.
pub extent_total-bounds :
    (n : ℕ) → n < 2 ^ 32 → (32 + n ≤ extent_total n) × (extent_total n ≤ n + 39)
unfolding extent_total align_up
extent_total-bounds n small =
    let plus : 32 + n + 8 - 1 ≡ n + 39 = omega arith in
    let e : extent_total n ≡ (n + 39) / 2 ^ 3 % 2 ^ 61 * 2 ^ 3 =
      rw plus (bit_and-field 3 61 (n + 39)) in
    (omega (arith, e), omega (arith, e))

abbrev pub AllInside : ℕ → List (ℕ × ℕ) → Type 0
AllInside n [] = Unit
AllInside n ((off, len) ∷ rest) = (off + len ≤ n) × AllInside n rest

-- The region's size is its buffer's, and free blocks and the bump pointer lie inside.
pub record IsBounded (r : LargeObjectRegion) : Type 0 where
  pub sized : r.buffer.size ≡ r.size
  pub free_inside : AllInside r.size r.free_list
  pub bump_inside : r.next_offset ≤ r.size

pub AllInside-append :
    (n : ℕ) (xs ys : List (ℕ × ℕ)) → AllInside n xs → AllInside n ys → AllInside n (xs ++ ys)
AllInside-append n [] ys hx hy = hy
AllInside-append n ((off, len) ∷ xs) ys hx hy = (hx.0, AllInside-append n xs ys hx.1 hy)

-- What is found is long enough and inside, and so is what is left.
abbrev pub FitsInside : ℕ → ℕ → Option ((ℕ × ℕ) × List (ℕ × ℕ)) → Type 0
FitsInside n total none = Unit
FitsInside n total (some ((off, len), others)) =
    (total ≤ len) × (off + len ≤ n) × AllInside n others

pub take_fit-FitsInside :
    (n total : ℕ) (xs : List (ℕ × ℕ)) → AllInside n xs → FitsInside n total (take_fit total xs)
unfolding take_fit
take_fit-FitsInside n total [] h = tt
take_fit-FitsInside n total ((o, l) ∷ xs) h = elim (Bool-cases (leb total l)) [
  | inl enough ↦ rw enough (leb→le total l enough, h.0, h.1)
  | inr short ↦ rw short (later (take_fit total xs) (take_fit-FitsInside n total xs h.1))
]
  where
    later :
        (res : Option ((ℕ × ℕ) × List (ℕ × ℕ)))
        → FitsInside n total res
        → FitsInside n total
            (elim res [ none ↦ none | some (block, others) ↦ some (block, (o, l) ∷ others) ])
    later none f = tt
    later (some ((a, b), others)) f = (f.0, f.1, (h.0, f.2))

-- The free list after a block of which `total` bytes are used.
abbrev pub leftover : ℕ → ℕ → ℕ → List (ℕ × ℕ) → List (ℕ × ℕ)
leftover total off len others =
    if ltb total len then others ++ ((off + total, len - total) ∷ []) else others

pub leftover-inside :
    (size total off len : ℕ) (others : List (ℕ × ℕ))
    → off + len ≤ size
    → AllInside size others
    → AllInside size (leftover total off len others)
leftover-inside size total off len others inside rest = elim (Bool-cases (ltb total len)) [
  | inl longer ↦
      let lt = ltb→lt total len longer in
      rw longer
        (AllInside-append size others ((off + total, len - total) ∷ []) rest (omega arith, tt))
  | inr exact ↦ rw exact rest
]
