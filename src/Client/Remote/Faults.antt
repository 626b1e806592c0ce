-- ===== src/Client/Remote/Faults.antt =====
-- src/client/read.rs: the distributed read of a deleted key, of an extent, and into a buffer that is not
-- aligned.
use native.Mathlib.Nat.{mod-eq_of_lt}
use rdmas.Base.{
  ℕ, ◌+◌, ◌-◌, ◌%◌, ◌≤◌, ◌<◌, ◌≡◌, sym, ap, ◌∙◌, ◌≢◌, true, false, List, length, take, Option, none,
  some, arith, ==_ne,
}
use rdmas.Base.Bytes.{Buffer, load, from_le_bytes, length-load}
use rdmas.Base.Run.{ok, panic}
use rdmas.Base.Result.{done, is_power_of_two}
use rdmas.Extent.Header.{extent_magic, u32_at}
use rdmas.Extent.Holds.{Holds, load-take}
use rdmas.Extent.Remote.{add64}
use rdmas.Extent.Region.{LargeObjectRegion}
use rdmas.Cuckoo.Defs.{is_live}
use rdmas.Layout.LockWord
use rdmas.Layout.LockWord.{inline, extent}
use rdmas.Layout.LockWord.Updates.{fields-mark_tombstone}
use rdmas.Layout.LockWord.Fields.{Fields, fields}
use rdmas.Layout.Bucket
use rdmas.Layout.Bucket.{HashedKey, HashBucket}
use rdmas.Layout.Bucket.Laws.{mark_tombstone-IsTombstone}
use rdmas.Client.Write.{first_slot}
use rdmas.Client.Read.Laws.{seen, seen-of_dead}
use rdmas.Client.Remote.{Region, slot_addr, is_hit, probe_remote, get_remote}
use rdmas.Client.Remote.Laws.{bucket_in, read_bucket-unaligned}
use rdmas.Client.Remote.Probe.{IsInside, slot_addr-inside, probe_remote-inline, probe_remote-extent}
use rdmas.Transport.{Transport, crash}
use rdmas.Transport.Memory.{IsMemory}

-- A read of a key with a non-zero hash, over a transport that behaves as a memory, panics if its buffer is not
-- aligned to 64 bytes.
get_remote-unaligned :
    {M : Type 0} (T : Transport M) (memory : M → Buffer) (laws : IsMemory T memory)
    (key : HashedKey) (table large_obj : Region) (n lkey buf : ℕ) (m : M)
    → key.hash ≢ 0
    → IsInside table n (memory m)
    → is_power_of_two n ≡ true
    → first_slot n key.hash < n
    → buf % 64 ≢ 0
    → get_remote key T table large_obj n lkey buf m ≡ panic
unfolding get_remote probe_remote
get_remote-unaligned T memory laws key table large_obj n lkey buf m nz inside power small odd =
    rw (get_remote, ==_ne key.hash 0 nz, power)
      (crash _ _ (
        crash _ _ (
          read_bucket-unaligned T memory laws lkey table.rkey buf m
            (slot_addr table (first_slot n key.hash))
            (slot_addr-inside table n (memory m) inside (first_slot n key.hash) small)
            (==_ne (buf % 64) 0 odd))))

tombstone_is_dead :
    (key : HashedKey) (b : HashBucket)
    → is_live (Bucket.mark_tombstone b) key.hash key.digest ≡ false
unfolding is_live
tombstone_is_dead key b = ground (arith, mark_tombstone-IsTombstone b)

tombstone_is_hit :
    (key : HashedKey) (b : HashBucket)
    → Bucket.matches_key b key.hash key.digest ≡ true
    → is_hit key (Bucket.mark_tombstone b) ≡ true
unfolding is_hit Bucket.is_locked Bucket.mark_tombstone Bucket.matches_key fields
tombstone_is_hit key b same =
    let unlocked : LockWord.is_locked (LockWord.mark_tombstone b.lock_version) ≡ false =
      ap (λ (f : Fields). f.locked_bit) (fields-mark_tombstone b.lock_version).0 in
    rw unlocked same

tombstone_is_inline :
    (b : HashBucket) → Bucket.is_inline b ≡ true → Bucket.is_inline (Bucket.mark_tombstone b) ≡ true
unfolding Bucket.is_inline Bucket.mark_tombstone fields LockWord.is_inline LockWord.is_extent
tombstone_is_inline b inlined =
    let same : LockWord.is_extent (LockWord.mark_tombstone b.lock_version)
        ≡ LockWord.is_extent b.lock_version =
      ap (λ (f : Fields). f.extent_bit) (fields-mark_tombstone b.lock_version).0 in
    ground (arith, same, inlined)

-- A tombstone in a slot of a key, with its key and its inline body in place, as a deletion leaves it. The
-- local read sees nothing in that bucket, the distributed probe returns the deleted value.
pub probe_remote-deleted :
    {M : Type 0} (T : Transport M) (memory : M → Buffer) (laws : IsMemory T memory)
    (key : HashedKey) (table large_obj : Region) (large_objects : Option LargeObjectRegion)
    (n i lkey buf : ℕ) (m : M) (b : HashBucket)
    → IsInside table n (memory m)
    → i < n
    → buf % 64 ≡ 0
    → bucket_in (memory m) (slot_addr table i) ≡ Bucket.mark_tombstone b
    → Bucket.matches_key b key.hash key.digest ≡ true
    → Bucket.is_inline b ≡ true
    → (seen key large_objects (bucket_in (memory m) (slot_addr table i)) ≡ none)
      × (probe_remote key T table large_obj lkey buf i m
          ≡ ok (m, done (some (record { value = b.body; mode = inline }))))
unfolding Bucket.mark_tombstone
probe_remote-deleted T memory laws key table large_obj large_objects n i lkey buf m b inside small
      aligned at same inlined =
    (
      seen-of_dead large_objects (bucket_in (memory m) (slot_addr table i)) key
          (rw at (tombstone_is_dead key b)),
      probe_remote-inline T memory laws lkey key table large_obj n m inside buf aligned i small
            (rw at (tombstone_is_hit key b same)) (rw at (tombstone_is_inline b inlined))
          ∙ ap (λ (x : HashBucket). ok (m, done (some (record { value = x.body; mode = inline }))))
              at,
    )

-- A slot of a key that refers to an extent of at least 4 bytes, which is in place at that offset of the region. The
-- distributed probe reads as many bytes as the extent holds, but from its header on: the value that it returns starts with
-- the magic number of the header, whatever was stored.
probe_remote-header :
    {M : Type 0} (T : Transport M) (memory : M → Buffer) (laws : IsMemory T memory)
    (key : HashedKey) (table large_obj : Region) (n i lkey buf : ℕ) (m : M) (bytes : List ℕ)
    (offset epoch : ℕ)
    → IsInside table n (memory m)
    → i < n
    → buf % 64 ≡ 0
    → is_hit key (bucket_in (memory m) (slot_addr table i)) ≡ true
    → Bucket.is_inline (bucket_in (memory m) (slot_addr table i)) ≡ false
    → Bucket.extent_ref (bucket_in (memory m) (slot_addr table i)) ≡ (offset, length bytes)
    → Holds (memory m) (large_obj.vaddr + offset) bytes epoch
    → 4 ≤ length bytes
    → (value : List ℕ) × (probe_remote key T table large_obj lkey buf i m
        ≡ ok (m, done (some (record { value = value; mode = extent }))))
      × (length value ≡ length bytes)
      × (from_le_bytes (take 4 value) ≡ extent_magic)
unfolding u32_at
probe_remote-header T memory laws key table large_obj n i lkey buf m bytes offset epoch inside small
      aligned hit outlined refers held long =
    let r : ℕ × ℕ = Bucket.extent_ref (bucket_in (memory m) (slot_addr table i)) in
    let at : add64 large_obj.vaddr r.0 ≡ large_obj.vaddr + offset =
      ap (λ (x : ℕ × ℕ). add64 large_obj.vaddr x.0) refers
      ∙ mod-eq_of_lt (omega (arith, held.inside, inside.below)) in
    let size : r.1 ≡ length bytes = ap (λ (x : ℕ × ℕ). x.1) refers in
    (
      load (memory m) (add64 large_obj.vaddr r.0) r.1,
      probe_remote-extent T memory laws lkey key table large_obj n m inside buf aligned i small hit
          outlined (omega (arith, at, size, held.inside)),
      length-load (memory m) (add64 large_obj.vaddr r.0) r.1 ∙ size,
      ap (λ (k : ℕ). from_le_bytes (take 4 (load (memory m) (add64 large_obj.vaddr r.0) k)))
            (size ∙ split)
          ∙ ap from_le_bytes
              (sym (load-take (memory m) 0 (add64 large_obj.vaddr r.0) 4 (length bytes - 4)))
          ∙ ap (λ (a : ℕ). from_le_bytes (load (memory m) a 4)) at
          ∙ held.header.magic,
    )
  where
    split : length bytes ≡ 4 + (length bytes - 4)
    split = omega (arith, long)
