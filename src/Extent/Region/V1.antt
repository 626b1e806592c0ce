-- ===== src/Extent/Region/V1.antt =====
-- Freeing an extent of the V1 format.
use rdmas.Base.{
  ℕ, ◌+◌, ◌≤◌, ◌≡◌, refl, ap, ap₂, ◌∙◌, inr, true, false, List, [], ◌++◌, ==_refl, ltb, le→leb,
  replicate, some, arith,
}
use rdmas.Base.Bytes.{
  from_le_bytes, Buffer, load, store, load-store_same, load-store_disjoint, load-append, store-size,
}
use rdmas.Base.Result.{done}
use rdmas.Extent.Header.{
  extent_magic, DecodedHeader, header_size, u32_at, u64_at, read_decoded_header,
}
use rdmas.Extent.Holds.{u32_at-store}
use rdmas.Extent.Region.{LargeObjectRegion, contains, read, reclaim, free}
use rdmas.Extent.Region.Free.{zero_magic-eq}

v1_header : Buffer → ℕ → DecodedHeader
v1_header m off = record {
  magic = extent_magic;
  data_len = u64_at m off;
  epoch_mark = u64_at m (off + 8);
  is_v2 = false;
}

decode-v1 :
    (m : Buffer) (off : ℕ)
    → off + 24 ≤ m.size
    → u32_at m (off + 16) ≡ extent_magic
    → read_decoded_header m off ≡ some (v1_header m off)
unfolding read_decoded_header v1_header
decode-v1 m off room magic = rw (magic, ==_refl extent_magic, le→leb (off + 24) m.size room) refl

no_length :
    (m : Buffer) (off : ℕ)
    → load m (off + 4) 4 ≡ replicate 4 0
    → u64_at (store m off (replicate 4 0)) off ≡ 0
unfolding u64_at
no_length m off short = ap from_le_bytes (
    load-append (store m off (replicate 4 0)) off 4 4
    ∙ ap₂ (λ (x y : List ℕ). x ++ y) (load-store_same m off (replicate 4 0))
        (load-store_disjoint m off (off + 4) 4 (replicate 4 0) (inr (omega arith)) ∙ short))

-- An allocated extent of the V1 format, of less than 2^32 bytes, can still be read after it was freed:
-- `zero_magic` clears the four bytes at the head, which are the length there, and the magic number at
-- byte 16 stays.
free-v1 :
    (r : LargeObjectRegion) (off : ℕ)
    → off + 24 ≤ r.buffer.size
    → u32_at r.buffer (off + 16) ≡ extent_magic
    → load r.buffer (off + 4) 4 ≡ replicate 4 0
    → contains r.allocated off ≡ true
    → (r' : LargeObjectRegion) × (free r off ≡ (r', done tt)) × (read r' off ≡ some [])
unfolding free read reclaim header_size v1_header
free-v1 r off room magic short known = (
  reclaim r off (v1_header r.buffer off),
  rw (free, known, decode-v1 r.buffer off room magic, ==_refl extent_magic) refl,
  rw
      (
        read,
        zero_magic-eq r.buffer off room,
        decode-v1 after off room' magic',
        ==_refl extent_magic,
        no_length r.buffer off short,
        zero_magic-eq r.buffer off room,
        within,
      )
      refl,
)
  where
    after : Buffer
    after = store r.buffer off (replicate 4 0)

    room' : off + 24 ≤ after.size
    room' = omega (arith, room, store-size r.buffer off (replicate 4 0))

    magic' : u32_at after (off + 16) ≡ extent_magic
    magic' = u32_at-store r.buffer off (replicate 4 0) (off + 16) (inr (omega arith)) ∙ magic

    within : ltb after.size (off + 24 + 0) ≡ false
    within = ground (arith, room')
