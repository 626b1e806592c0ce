-- ===== src/Extent/Region/Store.antt =====
-- The region as a store of extents: allocations and releases keep it tiled, and each extent reads back.
use rdmas.Base.{
  ℕ, ◌+◌, ◌-◌, ◌^◌, ◌≤◌, ◌<◌, ◌≡◌, refl, ap, subst, ◌⊎◌, inl, inr, List, [], ◌∷◌, ltb, leb, length,
  Option, none, some, arith, Bool-cases, Option-cases,
}
use rdmas.Base.Run.{Run, ok}
use rdmas.Extent.Header.{extent_total}
use rdmas.Extent.Region.{LargeObjectRegion, take_fit, allocate}
use rdmas.Extent.Region.Blocks.{FitsInside, leftover, leftover-inside, take_fit-FitsInside}
use rdmas.Extent.Region.Cover.{hit, cover, hit_split, hit-tail, cover_append}
use rdmas.Extent.Region.Tiled.{Ext, IsTiled, place-IsTiled}

-- The block that is found covers what leaves the list.
abbrev FitsCover : ℕ → List (ℕ × ℕ) → Option ((ℕ × ℕ) × List (ℕ × ℕ)) → Type 0
FitsCover p xs none = Unit
FitsCover p xs (some ((off, len), others)) = cover p xs ≡ hit p off len + cover p others

take_fit-FitsCover : (p n : ℕ) (xs : List (ℕ × ℕ)) → FitsCover p xs (take_fit n xs)
unfolding take_fit
take_fit-FitsCover p n [] = tt
take_fit-FitsCover p n ((o, l) ∷ xs) = elim (Bool-cases (leb n l)) [
  | inl enough ↦ rw enough refl
  | inr short ↦ rw short (later (take_fit n xs) (take_fit-FitsCover p n xs))
]
  where
    later :
        (res : Option ((ℕ × ℕ) × List (ℕ × ℕ)))
        → FitsCover p xs res
        → FitsCover p
            ((o, l) ∷ xs)
            (elim res [ none ↦ none | some (block, others) ↦ some (block, (o, l) ∷ others) ])
    later none f = tt
    later (some ((a, b), others)) f = omega (arith, f)

-- What an allocation does to a store: it refuses and changes nothing, or adds an extent.
abbrev pub Adds :
    LargeObjectRegion → List Ext → List ℕ → Run (LargeObjectRegion × Option ℕ) → Type 0
Adds r exts bytes out =
    (out ≡ ok (r, none))
    ⊎ ((r' : LargeObjectRegion) × (off : ℕ) × (out ≡ ok (r', some off))
        × IsTiled r' (record { off = off; bytes = bytes; epoch = 0 } ∷ exts))

-- In a tiled region an allocation never panics. It is refused and changes nothing, or it adds the extent at an offset of the region's
-- choice, and the region is tiled again, with all the extents from before.
pub allocate-IsTiled :
    (r : LargeObjectRegion) (exts : List Ext) (bytes : List ℕ)
    → IsTiled r exts
    → length bytes < 2 ^ 32
    → Adds r exts bytes (allocate r bytes)
unfolding allocate
allocate-IsTiled r exts bytes t small = elim (Option-cases (take_fit n r.free_list)) [
  | inl empty ↦ elim (Bool-cases (ltb r.size (r.next_offset + n))) [
    | inl full ↦ inl (rw (allocate, empty, full) refl)
    | inr room ↦
        let le : r.next_offset + n ≤ r.size = ground arith in
        let (r', e, t') =
          place-IsTiled (record r { next_offset = r.next_offset + n }) exts r.next_offset bytes
            (record {
              sized = t.bounded.sized;
              free_inside = t.bounded.free_inside;
              bump_inside = le;
            })
            small le (λ p. omega (arith, t.tiled p, hit-tail p r.next_offset n)) t.held t.listed
            t.distinct in
        inr (r', r.next_offset, rw (allocate, empty, room) e, t')
  ]
  | inr (((off, len), others), found) ↦
      let (long, inside, rest) =
        subst (FitsInside r.size n) found
          (take_fit-FitsInside r.size n r.free_list t.bounded.free_inside) in
      let (r', e, t') =
        place-IsTiled (record r { free_list = leftover n off len others }) exts off bytes
          (record {
            sized = t.bounded.sized;
            free_inside = leftover-inside r.size n off len others inside rest;
            bump_inside = t.bounded.bump_inside;
          })
          small (omega (arith, long, inside))
          (λ p. omega (
            arith,
            t.tiled p,
            left-cover p off len others long,
            subst (FitsCover p r.free_list) found (take_fit-FitsCover p n r.free_list),
          ))
          t.held t.listed t.distinct in
      inr (r', off, rw (allocate, found) e, t')
]
  where
    n : ℕ
    n = extent_total (length bytes)

    left-cover :
        (p off len : ℕ) (others : List (ℕ × ℕ))
        → n ≤ len
        → cover p (leftover n off len others) + hit p off n ≡ hit p off len + cover p others
    left-cover p off len others long = elim (Bool-cases (ltb n len)) [
      | inl longer ↦ rw longer (
          omega
            (arith, cover_append p others ((off + n, len - n) ∷ []), hit_split p off n len long))
      | inr exact ↦
          let same : n ≡ len = ground arith in rw exact (omega (arith, ap (hit p off) same))
    ]
