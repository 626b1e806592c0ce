-- ===== src/Extent/Region/Tiled.antt =====
-- The whole region: the free blocks, the extents and the tail share its bytes, and none is lost.
use rdmas.Base.{
  ℕ, ◌+◌, ◌^◌, ◌≤◌, ◌<◌, ◌≡◌, refl, ap, subst, ◌∙◌, ◌⊎◌, inl, inr, Bool, true, false, ◌||◌, List,
  [], ◌∷◌, ◌==◌, ==_ne, ==_iff, length, some, arith, Bool-cases, ℕ_discrete,
}
use rdmas.Base.Bytes.{Buffer}
use rdmas.Base.Run.{ok}
use rdmas.Extent.Header.{extent_total}
use rdmas.Extent.Holds.{Holds}
use rdmas.Extent.Region.{LargeObjectRegion, contains, insert_offset, place, new}
use rdmas.Extent.Region.Blocks.{IsBounded, extent_total-bounds}
use rdmas.Extent.Region.Laws.{Keeps, write_extent-Holds}
use rdmas.Extent.Region.Cover.{hit, tail, cover, beside}

-- An extent of the abstract store.
pub record Ext : Type 0 where
  pub off : ℕ
  pub bytes : List ℕ
  pub epoch : ℕ

abbrev pub total : Ext → ℕ
total e = extent_total (length e.bytes)

abbrev pub used : ℕ → List Ext → ℕ
used p [] = 0
used p (e ∷ es) = hit p e.off (total e) + used p es

abbrev pub has : List Ext → ℕ → Bool
has [] off = false
has (e ∷ es) off = e.off == off || has es off

-- Each extent is in the buffer.
abbrev pub AllHeld : Buffer → List Ext → Type 0
AllHeld m [] = Unit
AllHeld m (e ∷ es) = (length e.bytes < 2 ^ 32) × Holds m e.off e.bytes e.epoch × AllHeld m es

abbrev pub Distinct : List ℕ → Type 0
Distinct [] = Unit
Distinct (y ∷ ys) = (contains ys y ≡ false) × Distinct ys

-- A region that is bounded, in which every byte belongs to exactly one of the free blocks, the footprints of the extents and the
-- tail, every extent is in the buffer, and the set of allocated offsets has the offsets of the extents.
pub record IsTiled (r : LargeObjectRegion) (exts : List Ext) : Type 0 where
  pub bounded : IsBounded r
  pub tiled : (p : ℕ) → cover p r.free_list + used p exts + tail p r.next_offset ≡ 1
  pub held : AllHeld r.buffer exts
  pub listed : (off : ℕ) → contains r.allocated off ≡ has exts off
  pub distinct : Distinct r.allocated

pub new-IsTiled : (size : ℕ) → IsTiled (new size) []
unfolding new contains
new-IsTiled size = record {
  bounded = record { sized = refl; free_inside = tt; bump_inside = omega arith };
  tiled = λ p. ground arith;
  held = tt;
  listed = λ off. refl;
  distinct = tt;
}

pub total_positive : (n : ℕ) → n < 2 ^ 32 → 32 + n ≤ extent_total n
total_positive n small = (extent_total-bounds n small).0

-- A change of the first `n` bytes of a block that no extent shares keeps the extents.
pub AllHeld-keep :
    (m m' : Buffer) (a n t : ℕ) (es : List Ext)
    → 0 < n
    → n ≤ t
    → Keeps m m' a n
    → ((p : ℕ) → hit p a t + used p es ≤ 1)
    → AllHeld m es
    → AllHeld m' es
AllHeld-keep m m' a n t [] some_n le keeps apart h = tt
AllHeld-keep m m' a n t (e ∷ es) some_n le keeps apart (small, held, rest) =
    let big = total_positive (length e.bytes) small in
    let sides : (a + t ≤ e.off) ⊎ (e.off + total e ≤ a) =
      beside a t e.off (total e) (omega arith) (omega (arith, big)) (λ p. omega (arith, apart p)) in
    (
      small,
      keeps e.off e.bytes e.epoch held (ground (arith, sides, big)),
      AllHeld-keep m m' a n t es some_n le keeps (λ p. omega (arith, apart p)) rest,
    )

insert_offset-contains :
    (ys : List ℕ) (x y : ℕ) → contains (insert_offset ys x) y ≡ (x == y || contains ys y)
unfolding insert_offset
insert_offset-contains ys x y = elim (Bool-cases (contains ys x)) [
  | inr fresh ↦ rw fresh refl
  | inl known ↦ elim (ℕ_discrete x y) [
    | yes p ↦ rw (known, (==_iff x y).1 p) (subst (λ (z : ℕ). contains ys z ≡ true) p known)
    | no ne ↦ rw (known, ==_ne x y ne) refl
  ]
]

insert_offset-Distinct : (ys : List ℕ) (x : ℕ) → Distinct ys → Distinct (insert_offset ys x)
unfolding insert_offset
insert_offset-Distinct ys x d = elim (Bool-cases (contains ys x)) [
  | inl known ↦ rw known d
  | inr fresh ↦ rw fresh (fresh, d)
]

-- Putting an extent in a block of its footprint, which nothing else has.
pub place-IsTiled :
    (r : LargeObjectRegion) (exts : List Ext) (off : ℕ) (bytes : List ℕ)
    → IsBounded r
    → length bytes < 2 ^ 32
    → off + extent_total (length bytes) ≤ r.size
    → ((p : ℕ)
        → cover p r.free_list
            + (hit p off (extent_total (length bytes)) + used p exts)
            + tail p r.next_offset
          ≡ 1)
    → AllHeld r.buffer exts
    → ((o : ℕ) → contains r.allocated o ≡ has exts o)
    → Distinct r.allocated
    → (r' : LargeObjectRegion) × (place r off bytes ≡ ok (r', some off))
      × IsTiled r' (record { off = off; bytes = bytes; epoch = 0 } ∷ exts)
unfolding place
place-IsTiled r exts off bytes v small room tiled held listed distinct =
    let big = total_positive (length bytes) small in
    let (m', wrote, same, holds, keeps) =
      write_extent-Holds r.buffer off bytes small (omega (arith, big, room, v.sized)) in
    (
      record r { buffer = m'; allocated = insert_offset r.allocated off },
      rw wrote refl,
      record {
        bounded = record {
          sized = same ∙ v.sized;
          free_inside = v.free_inside;
          bump_inside = v.bump_inside;
        };
        tiled = tiled;
        held = (
          small,
          holds,
          AllHeld-keep r.buffer m' off (32 + length bytes) (extent_total (length bytes)) exts
              (omega arith) big keeps (λ p. omega (arith, tiled p)) held,
        );
        listed = λ o. insert_offset-contains r.allocated off o ∙ ap (λ b. off == o || b) (listed o);
        distinct = insert_offset-Distinct r.allocated off distinct;
      },
    )
