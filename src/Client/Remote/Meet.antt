-- ===== src/Client/Remote/Meet.antt =====
-- src/client/write.rs and src/client/read.rs: distributed insertions and reads that meet in one memory.
use rdmas.Base.{
  ℕ, ◌+◌, ◌%◌, ◌≤◌, ◌<◌, ◌≡◌, refl, sym, ap, ◌∙◌, ◌≢◌, true, false, ◌||◌, List, lt→ltb, none, some,
  arith, ==_ne,
}
use rdmas.Base.Bytes.{Buffer, store, to_le_bytes, store-size}
use rdmas.Base.Run.{ok}
use rdmas.Base.Result.{done, is_power_of_two}
use rdmas.Layout.LockWord.{inline}
use rdmas.Layout.Bucket
use rdmas.Layout.Bucket.{HashedKey, HashBucket}
use rdmas.Layout.Bucket.Wire
use rdmas.Client.Write.{inserted, first_slot, inline_body}
use rdmas.Client.Remote.{
  Region, slot_addr, probe_remote, get_remote, claim_remote, try_insert_remote_at, insert_remote,
}
use rdmas.Client.Remote.Laws.{
  fresh, IsKey, IsSized-fresh, bucket_in, bucket_in-store, read_bucket-aligned, claim_remote-fresh,
}
use rdmas.Client.Remote.Probe.{
  IsInside, slot_addr-inside, is_hit-fresh, is_hit-other, probe_remote-miss, probe_remote-inline,
}
use rdmas.Transport.{Transport, step}
use rdmas.Transport.Memory.{IsMemory}

is_inline-fresh : (key : HashedKey) (value : List ℕ) → Bucket.is_inline (fresh key value) ≡ true
unfolding Bucket.is_inline rdmas.Layout.LockWord.is_inline
is_inline-fresh key value = refl

module _ {M : Type 0} (T : Transport M) (memory : M → Buffer) (laws : IsMemory T memory)
    (lkey rkey : ℕ) (xxh64 : List ℕ → ℕ → ℕ) (key : HashedKey) (value : List ℕ) (k : IsKey key)
    (free_list : Region) (addr : ℕ) where
  -- What a claim leaves at its slot.
  claimed :
      (seen : HashBucket) (m : M)
      → addr + 64 ≤ (memory m).size
      → Bucket.is_locked seen ≡ false
      → (Bucket.is_empty seen || Bucket.is_tombstone seen) ≡ true
      → (bucket_in (memory m) addr).lock_version ≡ seen.lock_version
      → (m' : M) × (claim_remote xxh64 key value inline T addr rkey free_list lkey seen m
          ≡ ok (m', done true))
        × (bucket_in (memory m') addr ≡ fresh key value)
        × ((memory m').size ≡ (memory m).size)
  claimed seen m inside unlocked free same =
      let (m', e, c) =
        claim_remote-fresh T memory laws lkey rkey xxh64 key value free_list m addr seen k inside
          unlocked free same in
      (
        m',
        e,
        ap (λ (b : Buffer). bucket_in b addr) c
            ∙ bucket_in-store (store (memory m) addr (to_le_bytes 8 0)) addr (fresh key value)
                (IsSized-fresh key value k),
        ap (λ (b : Buffer). b.size) c
            ∙ store-size (store (memory m) addr (to_le_bytes 8 0)) addr
                (Wire.bytes_of (fresh key value))
            ∙ store-size (memory m) addr (to_le_bytes 8 0),
      )

  -- A whole attempt on a free slot.
  attempted :
      (buf : ℕ) (m : M)
      → buf % 64 ≡ 0
      → addr + 64 ≤ (memory m).size
      → Bucket.is_locked (bucket_in (memory m) addr) ≡ false
      → (Bucket.is_empty (bucket_in (memory m) addr)
          || Bucket.is_tombstone (bucket_in (memory m) addr))
        ≡ true
      → (m' : M) × (try_insert_remote_at xxh64 key value inline T addr rkey free_list lkey buf m
          ≡ ok (m', done true))
        × (bucket_in (memory m') addr ≡ fresh key value)
        × ((memory m').size ≡ (memory m).size)
  unfolding try_insert_remote_at
  attempted buf m aligned inside unlocked free =
      let (m', e, c, s) = claimed (bucket_in (memory m) addr) m inside unlocked free refl in
      (
        m',
        step _ _ (read_bucket-aligned T memory laws lkey rkey buf m addr inside aligned) ∙ e,
        c,
        s,
      )

module _ {M : Type 0} (T : Transport M) (memory : M → Buffer) (laws : IsMemory T memory) (lkey : ℕ)
    (key : HashedKey) (value : List ℕ) (k : IsKey key) (table large_obj : Region) (n : ℕ) (m : M)
    (inside : IsInside table n (memory m)) (buf : ℕ) (aligned : buf % 64 ≡ 0) where
  -- A read of a key whose first slot holds it inline.
  get-first :
      is_power_of_two n ≡ true
      → first_slot n key.hash < n
      → bucket_in (memory m) (slot_addr table (first_slot n key.hash)) ≡ fresh key value
      → get_remote key T table large_obj n lkey buf m
        ≡ ok (m, done (some (record { value = inline_body value; mode = inline })))
  unfolding get_remote
  get-first power small at =
      rw (get_remote, ==_ne key.hash 0 k.nonzero, power)
        (step _ _ (
          probe_remote-inline T memory laws lkey key table large_obj n m inside buf aligned
            (first_slot n key.hash) small (rw at (is_hit-fresh key value))
            (ap Bucket.is_inline at ∙ is_inline-fresh key value)
          ∙ ap (λ (b : HashBucket). ok (m, done (some (record { value = b.body; mode = inline }))))
              at))

-- A distributed inline insertion of a key with a hash that is not zero and below 2^64 and a digest of 16 bytes, over a
-- transport that behaves as a memory of less than 2^64 bytes, which has the whole table, of a power of two of slots, in
-- it; into a first slot that is unlocked and empty or a tombstone, the buffer of that slot aligned to 64 bytes. It
-- succeeds at that slot, and the distributed read of the key then returns the value, padded with zeros or cut to 32
-- bytes.
pub get_remote-insert_remote :
    {M : Type 0} (T : Transport M) (memory : M → Buffer) (laws : IsMemory T memory)
    (xxh64 : List ℕ → ℕ → ℕ) (key : HashedKey) (value : List ℕ) (table free_list large_obj : Region)
    (n lkey buf buf' : ℕ) (m : M)
    → IsKey key
    → IsInside table n (memory m)
    → is_power_of_two n ≡ true
    → first_slot n key.hash < n
    → buf % 64 ≡ 0
    → Bucket.is_locked (bucket_in (memory m) (slot_addr table (first_slot n key.hash))) ≡ false
    → (Bucket.is_empty (bucket_in (memory m) (slot_addr table (first_slot n key.hash)))
        || Bucket.is_tombstone (bucket_in (memory m) (slot_addr table (first_slot n key.hash))))
      ≡ true
    → (m' : M) × (insert_remote xxh64 key value inline T table free_list n lkey buf buf' m
        ≡ ok (m', done (inserted (first_slot n key.hash))))
      × (get_remote key T table large_obj n lkey buf m'
          ≡ ok (m', done (some (record { value = inline_body value; mode = inline }))))
unfolding insert_remote
get_remote-insert_remote T memory laws xxh64 key value table free_list large_obj n lkey buf buf' m k
      inside power small aligned unlocked free =
    let (m', e, c, s) =
      attempted T memory laws lkey table.rkey xxh64 key value k free_list
        (slot_addr table (first_slot n key.hash)) buf m aligned
        (slot_addr-inside table n (memory m) inside (first_slot n key.hash) small) unlocked free in
    (
      m',
      step _ _ (rw (lt→ltb 0 n (omega (arith, small))) refl) ∙ step _ _ e,
      get-first T memory laws lkey key value k table large_obj n m'
          (record { fits = omega (arith, inside.fits, s); below = omega (arith, inside.below, s) })
          buf aligned power small c,
    )

-- Two clients, two different keys with non-zero hashes below 2^64 and digests of 16 bytes, a transport that behaves as a
-- memory of less than 2^64 bytes with the whole table in it, all buffers aligned to 64 bytes, and one empty, unlocked
-- slot of the table whose lock word is zero. The second client has read the slot before the first one inserts there,
-- inline, and goes on after it. Both insertions report success, and the first key is no longer in the slot.
pub insert_remote-races :
    {M : Type 0} (T : Transport M) (memory : M → Buffer) (laws : IsMemory T memory)
    (xxh64 : List ℕ → ℕ → ℕ) (key other : HashedKey) (value value' : List ℕ)
    (table free_list large_obj : Region) (n i lkey buf : ℕ) (m : M)
    → IsKey key
    → IsKey other
    → key ≢ other
    → IsInside table n (memory m)
    → i < n
    → buf % 64 ≡ 0
    → (bucket_in (memory m) (slot_addr table i)).lock_version ≡ 0
    → Bucket.is_locked (bucket_in (memory m) (slot_addr table i)) ≡ false
    → Bucket.is_empty (bucket_in (memory m) (slot_addr table i)) ≡ true
    → (m1 : M) × (m2 : M) × (try_insert_remote_at xxh64 key value inline T
          (slot_addr table i)
          table.rkey
          free_list
          lkey
          buf
          m
        ≡ ok (m1, done true))
      × (claim_remote xxh64 other value' inline T
            (slot_addr table i)
            table.rkey
            free_list
            lkey
            (bucket_in (memory m) (slot_addr table i))
            m1
          ≡ ok (m2, done true))
      × (probe_remote key T table large_obj lkey buf i m2 ≡ ok (m2, done none))
insert_remote-races T memory laws xxh64 key other value value' table free_list large_obj n i lkey
      buf m k k' apart inside small aligned word unlocked empty =
    let room = slot_addr-inside table n (memory m) inside i small in
    let free : (Bucket.is_empty (bucket_in (memory m) (slot_addr table i))
          || Bucket.is_tombstone (bucket_in (memory m) (slot_addr table i)))
        ≡ true =
      rw empty refl in
    let (m1, e1, c1, s1) =
      attempted T memory laws lkey table.rkey xxh64 key value k free_list (slot_addr table i) buf m
        aligned room unlocked free in
    let (m2, e2, c2, s2) =
      claimed T memory laws lkey table.rkey xxh64 other value' k' free_list (slot_addr table i)
        (bucket_in (memory m) (slot_addr table i)) m1 (omega (arith, room, s1)) unlocked free
        (ap (λ (b : HashBucket). b.lock_version) c1 ∙ sym word) in
    (
      m1,
      m2,
      e1,
      e2,
      probe_remote-miss T memory laws lkey key table large_obj n m2
          (record {
            fits = omega (arith, inside.fits, s1, s2);
            below = omega (arith, inside.below, s1, s2);
          })
          buf aligned i small (rw c2 (is_hit-other key other value' apart)),
    )
