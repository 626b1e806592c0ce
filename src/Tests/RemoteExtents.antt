-- ===== src/Tests/RemoteExtents.antt =====
-- Distributed extents, and the 64 bytes of a bucket, at fixed inputs.
use rdmas.Base.{
  ℕ, ◌+◌, ◌^◌, ◌≡◌, refl, ap, ◌∙◌, true, false, List, [], ◌∷◌, ◌++◌, inr, replicate, arith,
}
use rdmas.Base.Bytes.{Buffer, store, to_le_bytes, from_le_bytes, load-store_same, store-size}
use rdmas.Base.Run.{ok}
use rdmas.Base.Result.{done}
use rdmas.Layout.LockWord.{extent}
use rdmas.Layout.Bucket
use rdmas.Layout.Bucket.{HashedKey, HashBucket}
use rdmas.Layout.Bucket.Wire
use rdmas.Layout.Bucket.Wire.{IsSized, length-bytes_of, of_bytes, of_bytes-bytes_of}
use rdmas.Extent.Header
use rdmas.Extent.Region.{header_of}
use rdmas.Extent.Header.{extent_magic, extent_total, u64_at}
use rdmas.Extent.Holds.{Holds, Holds-store}
use rdmas.Extent.Region.Laws.{in_place, in_place-Holds}
use rdmas.Extent.Remote.{new, allocate_remote}
use rdmas.Extent.Remote.Laws.{allocate_remote-Holds, allocate_remote-overwrites}
use rdmas.Client.Remote.{slot_addr, is_hit}
use rdmas.Client.Remote.Laws.{bucket_in, bucket_in-store}
use rdmas.Tests.Remote.{direct, IsMemory-direct, blank, table, key_one, no_hash}

abbrev four_bytes : List ℕ
four_bytes = 1 ∷ 2 ∷ 3 ∷ 4 ∷ []

-- A bucket of `key_one` that refers to four bytes at the start of the region.
abbrev referring : HashBucket
referring = record {
  lock_version = 4;
  key_hash = 1;
  key_or_digest = replicate 16 1;
  body = to_le_bytes 8 0 ++ (to_le_bytes 8 4 ++ replicate 16 0);
}

IsSized-referring : IsSized referring
IsSized-referring = record { word = omega arith; hash = omega arith; key = refl; value = refl }

abbrev with_extent : Buffer
with_extent = store (in_place blank 256 four_bytes) (slot_addr table 1) (Wire.bytes_of referring)

at_slot : bucket_in with_extent (slot_addr table 1) ≡ referring
at_slot =
    bucket_in-store (in_place blank 256 four_bytes) (slot_addr table 1) referring IsSized-referring

fields :
    (is_hit key_one referring ≡ true)
    × (Bucket.is_inline referring ≡ false)
    × (Bucket.extent_ref referring ≡ (0, 4))
unfolding is_hit Bucket.is_inline Bucket.extent_ref Bucket.is_locked rdmas.Layout.LockWord.is_inline
    Bucket.matches_key rdmas.Layout.LockWord.is_locked
fields = (refl, refl, refl)

size : with_extent.size ≡ 512
size =
    store-size (in_place blank 256 four_bytes) (slot_addr table 1) (Wire.bytes_of referring)
    ∙ store-size (store blank 256 (Header.bytes_of (header_of four_bytes 0))) 288 four_bytes
    ∙ store-size blank 256 (Header.bytes_of (header_of four_bytes 0))

Holds-region : Holds with_extent (256 + 0) four_bytes 0
unfolding slot_addr
Holds-region =
    Holds-store (in_place blank 256 four_bytes) 64 (Wire.bytes_of referring) 256 four_bytes 0
      ((in_place-Holds blank 256 four_bytes (omega arith) (omega arith)).0)
      (inr (omega (arith, length-bytes_of referring IsSized-referring)))

-- A free-list region at address 0 whose bump offset is 64.
abbrev started : Buffer
started = store blank 0 (to_le_bytes 8 64)

started_word : u64_at started 0 ≡ 64
unfolding u64_at
started_word = ap from_le_bytes (load-store_same blank 0 (to_le_bytes 8 64)) ∙ refl

started_size : started.size ≡ 512
started_size = store-size blank 0 (to_le_bytes 8 64)

footprint : extent_total 4 ≡ 40
unfolding extent_total
footprint = refl

allocate_remote-Holds_example :
    (m' : Buffer) × (allocate_remote no_hash (new direct 0 8 0) four_bytes started
      ≡ ok (m', done (u64_at started 0)))
    × Holds m' (0 + u64_at started 0) four_bytes 0
    × (u64_at m' 0 ≡ u64_at started 0 + extent_total 4)
allocate_remote-Holds_example =
    allocate_remote-Holds direct (λ m. m) IsMemory-direct no_hash started 0 8 0 four_bytes
      (omega (arith, started_word)) (omega arith) (omega (arith, started_word, footprint))
      (omega (arith, started_word, started_size)) (omega (arith, started_size))

blank_word : u64_at blank 0 ≡ 0
unfolding u64_at
blank_word = refl

allocate_remote-overwrites_example :
    (m' : Buffer) × (allocate_remote no_hash (new direct 0 8 0) four_bytes blank ≡ ok (m', done 0))
    × (u64_at m' 0 ≡ extent_magic + 2 ^ 32)
allocate_remote-overwrites_example =
    allocate_remote-overwrites direct (λ m. m) IsMemory-direct no_hash blank 0 8 0 four_bytes
      blank_word (omega (arith, footprint)) (omega arith) (omega arith)
