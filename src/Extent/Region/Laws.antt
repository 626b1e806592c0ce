-- ===== src/Extent/Region/Laws.antt =====
-- Writing, allocating, reading and freeing extents of the V2 format.
use native.Mathlib.Nat.{mod-eq_of_lt}
use rdmas.Base.{
  ℕ, ◌+◌, ◌^◌, ◌≤◌, ◌<◌, ◌≡◌, refl, sym, ap, ◌∙◌, ◌⊎◌, inl, inr, false, List, ==_refl, ltb, le→leb,
  length, Option, none, some, arith, Bool-cases, Option-cases, subst, ltb→lt,
}
use rdmas.Base.Bytes.{Buffer, load, store, load-store_same, store-size}
use rdmas.Base.Run.{Run, ok, ◌>>=◌}
use rdmas.Extent.Header.{extent_magic, extent_total, ExtentHeaderV2, bytes_of, header_size}
use rdmas.Extent.Holds.{
  IsHeader, Holds, decode-IsHeader, IsHeader-in_place, Holds-store, IsHeader-store,
}
use rdmas.Extent.Region.Blocks.{
  IsBounded, FitsInside, take_fit-FitsInside, leftover, leftover-inside, extent_total-bounds,
}
use rdmas.Extent.Region.{
  LargeObjectRegion, insert_offset, copy_to, header_of, write_extent, take_fit, place, allocate,
  read,
}

-- The extents that do not touch the `n` bytes at `a` are in the second buffer as in the first.
abbrev pub Keeps : Buffer → Buffer → ℕ → ℕ → Type 0
Keeps m m' a n =
    (off : ℕ) (bytes : List ℕ) (epoch : ℕ)
    → Holds m off bytes epoch
    → (off + 32 + length bytes ≤ a) ⊎ (a + n ≤ off)
    → Holds m' off bytes epoch

pub length-bytes_of : (h : ExtentHeaderV2) → length (bytes_of h) ≡ 32
unfolding bytes_of
length-bytes_of h = refl

copy_to-ok :
    (m : Buffer) (a : ℕ) (v : List ℕ) → a + length v ≤ m.size → copy_to m a v ≡ ok (store m a v)
unfolding copy_to
copy_to-ok m a v h = rw (le→leb (a + length v) m.size h) refl

-- The bytes of an extent, with a checksum of zero, put in place.
abbrev pub in_place : Buffer → ℕ → List ℕ → Buffer
in_place m off bytes = store (store m off (bytes_of (header_of bytes 0))) (off + 32) bytes

pub in_place-Holds :
    (m : Buffer) (off : ℕ) (bytes : List ℕ)
    → length bytes < 2 ^ 32
    → off + 32 + length bytes ≤ m.size
    → Holds (in_place m off bytes) off bytes 0
      × Keeps m (in_place m off bytes) off (32 + length bytes)
unfolding header_of
in_place-Holds m off bytes small room = (
  record {
    header = header;
    inside = omega (arith, store-size m1 (off + 32) bytes, store-size m off head);
    content = load-store_same m1 (off + 32) bytes;
  },
  λ o b e h apart.
      Holds-store m1 (off + 32) bytes o b e (Holds-store m off head o b e h (near o b apart))
        (far o b apart),
)
  where
    head : List ℕ
    head = bytes_of (header_of bytes 0)

    size_head : length head ≡ 32
    size_head = length-bytes_of (header_of bytes 0)

    m1 : Buffer
    m1 = store m off head

    m2 : Buffer
    m2 = store m1 (off + 32) bytes

    near :
        (o : ℕ) (b : List ℕ)
        → (o + 32 + length b ≤ off) ⊎ (off + (32 + length bytes) ≤ o)
        → (o + 32 + length b ≤ off) ⊎ (off + length head ≤ o)
    near o b apart = ground (arith, size_head)

    far :
        (o : ℕ) (b : List ℕ)
        → (o + 32 + length b ≤ off) ⊎ (off + (32 + length bytes) ≤ o)
        → (o + 32 + length b ≤ off + 32) ⊎ (off + 32 + length bytes ≤ o)
    far o b apart = ground arith

    written :
        load m1 off 32
        ≡ bytes_of (record {
          magic = extent_magic;
          version = 1;
          data_len = length bytes;
          epoch_mark = 0;
          checksum = 0;
        })
    written =
        ap (load m1 off) (sym size_head)
        ∙ load-store_same m off head
        ∙ ap
            (λ n. bytes_of (record {
              magic = extent_magic;
              version = 1;
              data_len = n;
              epoch_mark = 0;
              checksum = 0;
            }))
            (mod-eq_of_lt small)

    header : IsHeader m2 off (length bytes) 0
    header =
        IsHeader-store m1 (off + 32) bytes off (length bytes) 0
          (IsHeader-in_place m1 off (length bytes) 0 small (omega (arith, store-size m off head))
            written)
          (inl (omega arith))

-- Writing an extent that has room leaves it in place, and keeps all extents beside it.
pub write_extent-Holds :
    (m : Buffer) (off : ℕ) (bytes : List ℕ)
    → length bytes < 2 ^ 32
    → off + 32 + length bytes ≤ m.size
    → (m' : Buffer) × (write_extent m off bytes ≡ ok m')
      × (m'.size ≡ m.size)
      × Holds m' off bytes 0
      × Keeps m m' off (32 + length bytes)
unfolding write_extent
write_extent-Holds m off bytes small room =
    let head : List ℕ = bytes_of (header_of bytes 0) in
    let size_head : length head ≡ 32 = length-bytes_of (header_of bytes 0) in
    let m1 : Buffer = store m off head in
    (
      in_place m off bytes,
      rw (copy_to-ok m off head (omega (arith, size_head)), ◌>>=◌)
          (copy_to-ok m1 (off + 32) bytes (omega (arith, store-size m off head))),
      store-size m1 (off + 32) bytes ∙ store-size m off head,
      (in_place-Holds m off bytes small room).0,
      (in_place-Holds m off bytes small room).1,
    )

pub read-Holds :
    (r : LargeObjectRegion) (off epoch : ℕ) (bytes : List ℕ)
    → Holds r.buffer off bytes epoch
    → read r off ≡ some bytes
unfolding read header_size
read-Holds r off epoch bytes h =
    rw
      (
        read,
        decode-IsHeader r.buffer off (length bytes) epoch h.header,
        ==_refl extent_magic,
        within,
        h.content,
      )
      refl
  where
    within : ltb r.buffer.size (off + 32 + length bytes) ≡ false
    within = let inside = h.inside in ground arith

-- An allocation that succeeds: a bounded region in which the new extent is inside and reads back, while
-- extents that do not touch it are kept.
abbrev pub Allocates : LargeObjectRegion → List ℕ → Run (LargeObjectRegion × Option ℕ) → Type 0
Allocates r bytes out =
    (r' : LargeObjectRegion) × (off : ℕ) × (out ≡ ok (r', some off))
    × IsBounded r'
    × (off + extent_total (length bytes) ≤ r.size)
    × (read r' off ≡ some bytes)
    × Keeps r.buffer r'.buffer off (32 + length bytes)

place-Allocates :
    (r : LargeObjectRegion) (off : ℕ) (bytes : List ℕ)
    → IsBounded r
    → length bytes < 2 ^ 32
    → off + extent_total (length bytes) ≤ r.size
    → Allocates r bytes (place r off bytes)
unfolding place
place-Allocates r off bytes v small room =
    let (low, high) = extent_total-bounds (length bytes) small in
    let (m', wrote, same, holds, keeps) =
      write_extent-Holds r.buffer off bytes small (omega (arith, low, room, v.sized)) in
    (
      record r { buffer = m'; allocated = insert_offset r.allocated off },
      off,
      rw wrote refl,
      record { sized = same ∙ v.sized; free_inside = v.free_inside; bump_inside = v.bump_inside },
      room,
      read-Holds _ off 0 bytes holds,
      keeps,
    )

-- `allocate` in a bounded region never panics. It refuses, with the region as it was, only if no free
-- block is long enough and the rest of the region is too short. Otherwise it returns the offset of an
-- extent inside the region that reads back as the data, and keeps all extents that do not touch it.
pub allocate-Allocates :
    (r : LargeObjectRegion) (bytes : List ℕ)
    → IsBounded r
    → length bytes < 2 ^ 32
    → ((allocate r bytes ≡ ok (r, none))
        × (take_fit (extent_total (length bytes)) r.free_list ≡ none)
        × (r.size < r.next_offset + extent_total (length bytes)))
      ⊎ Allocates r bytes (allocate r bytes)
unfolding allocate
allocate-Allocates r bytes v small = elim (Option-cases (take_fit total r.free_list)) [
  | inl empty ↦ elim (Bool-cases (ltb r.size (r.next_offset + total))) [
    | inl full ↦ inl (rw (allocate, empty, full) refl, empty, ltb→lt _ _ full)
    | inr room ↦
        let le : r.next_offset + total ≤ r.size = ground arith in
        inr (
          rw (allocate, empty, room)
            (place-Allocates (record r { next_offset = r.next_offset + total }) r.next_offset bytes
              (record { sized = v.sized; free_inside = v.free_inside; bump_inside = le }) small le))
  ]
  | inr (((off, len), others), found) ↦
      let (long, inside, rest) =
        subst (FitsInside r.size total) found
          (take_fit-FitsInside r.size total r.free_list v.free_inside) in
      inr (
        rw (allocate, found)
          (place-Allocates (record r { free_list = leftover total off len others }) off bytes
            (record {
              sized = v.sized;
              free_inside = leftover-inside r.size total off len others inside rest;
              bump_inside = v.bump_inside;
            })
            small (omega (arith, long, inside))))
]
  where
    total : ℕ
    total = extent_total (length bytes)
