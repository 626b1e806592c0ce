-- ===== src/Client/Remote.antt =====
-- src/client/read.rs and src/client/write.rs: the distributed read and insertion, over a transport. Sums
-- of addresses wrap at 2^64. The address of a buffer of 64 bytes is the allocator's, so it is an argument;
-- a cast of a buffer that is not aligned panics. The hash `xxh64` is a parameter.
pub mod Laws
pub mod Probe
pub mod Meet
pub mod Faults
use rdmas.Base.{
  ℕ, ◌+◌, ◌*◌, ◌%◌, ◌^◌, Bool, true, false, not, ◌||◌, ◌&&◌, List, [], ◌==◌, ltb, leb, length,
  Option, none, some, if◌then◌else◌,
}
use rdmas.Base.Run.{Run, ok, panic, assert}
use rdmas.Base.Result.{Result, done, err, is_power_of_two}
use rdmas.Layout.LockWord.{BucketMode, inline, extent, mode_bits, shl64}
use rdmas.Layout.Bucket
use rdmas.Layout.Bucket.{HashedKey, HashBucket}
use rdmas.Layout.Bucket.Wire
use rdmas.Layout.Bucket.Wire.{bucket_size, from_bytes}
use rdmas.Extent.Remote.{add64, reserve_and_write}
use rdmas.Client.Retry.{RdmaError, invalid_key, internal}
use rdmas.Client.Write.{WriteResult, inserted, table_full, first_slot, second_slot, inline_body}
use rdmas.Client.Read.{ReadResult}
use rdmas.Transport.{Remote, Transport, pure, fail, call, lift, ◌>>=◌}

-- A remote region: its address and its key.
pub record Region : Type 0 where
  pub vaddr : ℕ
  pub rkey : ℕ

-- The address of slot `i` of a hash table.
unfoldable pub slot_addr : Region → ℕ → ℕ
slot_addr table i = add64 table.vaddr (i * bucket_size % 2 ^ 64)

unfoldable pub read_bucket : {M : Type 0} → Transport M → ℕ → ℕ → ℕ → ℕ → Remote M HashBucket
unfolding from_bytes
read_bucket transport lkey buf addr rkey = do
  bucket_buf ← call (transport.read bucket_size lkey addr rkey)
  lift (from_bytes buf bucket_buf)

unfoldable pub extract_value :
    {M : Type 0} → Transport M → Region → ℕ → HashBucket → Remote M ReadResult
extract_value transport large_obj lkey bucket = elim (Bucket.is_inline bucket) [
  | true ↦ pure (record { value = bucket.body; mode = inline })
  | false ↦ do
    let (offset, size) = Bucket.extent_ref bucket
    buf ← call (transport.read size lkey (add64 large_obj.vaddr offset) large_obj.rkey)
    pure (record { value = buf; mode = extent })
]

-- The test of both probes of `get_remote`.
unfoldable pub is_hit : HashedKey → HashBucket → Bool
is_hit key bucket = not (Bucket.is_locked bucket) && Bucket.matches_key bucket key.hash key.digest

-- One probe of `get_remote`.
unfoldable pub probe_remote :
    {M : Type 0}
    → HashedKey
    → Transport M
    → Region
    → Region
    → ℕ
    → ℕ
    → ℕ
    → Remote M (Option ReadResult)
unfolding read_bucket extract_value is_hit slot_addr
probe_remote key transport table large_obj lkey buf i = do
  bucket ← read_bucket transport lkey buf (slot_addr table i) table.rkey
  elim (is_hit key bucket) [
    | false ↦ pure none
    | true ↦ do result ← extract_value transport large_obj lkey bucket; pure (some result)
  ]

unfoldable pub get_remote :
    {M : Type 0}
    → HashedKey
    → Transport M
    → Region
    → Region
    → ℕ
    → ℕ
    → ℕ
    → Remote M (Option ReadResult)
unfolding probe_remote first_slot second_slot
get_remote key transport table large_obj bucket_count lkey buf = elim (key.hash == 0) [
  | true ↦ fail invalid_key
  | false ↦ elim (is_power_of_two bucket_count) [
    | false ↦ fail (internal [])
    | true ↦ do
      first ← probe_remote key transport table large_obj lkey buf (first_slot bucket_count key.hash)
      elim first [
        | some result ↦ pure (some result)
        | none ↦
            probe_remote key transport table large_obj lkey buf (second_slot bucket_count key.hash)
      ]
  ]
]

-- The bucket that an insertion writes; in extent mode the extent is written first.
unfoldable pub build_remote :
    {M : Type 0}
    → (List ℕ → ℕ → ℕ)
    → HashedKey
    → List ℕ
    → BucketMode
    → Transport M
    → Region
    → ℕ
    → Remote M HashBucket
unfolding reserve_and_write inline_body
build_remote xxh64 key value mode transport free_list lkey =
    let head : HashBucket = record Bucket.zeroed {
      key_hash = key.hash;
      key_or_digest = key.digest;
      lock_version = shl64 (mode_bits mode) 2;
    } in
    elim mode [
      | inline ↦ pure (Bucket.set_inline_value head (inline_body value))
      | extent ↦ do
        old_offset ← reserve_and_write xxh64 transport free_list.vaddr free_list.rkey lkey value
        pure (Bucket.set_extent_ref head old_offset (length value))
    ]

-- `try_insert_remote_at` once it has read the bucket at `addr`.
unfoldable pub claim_remote :
    {M : Type 0}
    → (List ℕ → ℕ → ℕ)
    → HashedKey
    → List ℕ
    → BucketMode
    → Transport M
    → ℕ
    → ℕ
    → Region
    → ℕ
    → HashBucket
    → Remote M Bool
unfolding build_remote
claim_remote xxh64 key value mode transport addr rkey free_list lkey bucket =
    elim (Bucket.is_locked bucket) [
      | true ↦ pure false
      | false ↦ elim (Bucket.is_empty bucket || Bucket.is_tombstone bucket) [
        | false ↦ pure false
        | true ↦ do
          new_bucket ← build_remote xxh64 key value mode transport free_list lkey
          cas_ok ← call (transport.cas bucket.lock_version new_bucket.lock_version lkey addr rkey)
          elim cas_ok [
            | false ↦ pure false
            | true ↦ do
              written ← call (transport.write (Wire.bytes_of new_bucket) lkey addr rkey)
              pure true
          ]
      ]
    ]

unfoldable pub try_insert_remote_at :
    {M : Type 0}
    → (List ℕ → ℕ → ℕ)
    → HashedKey
    → List ℕ
    → BucketMode
    → Transport M
    → ℕ
    → ℕ
    → Region
    → ℕ
    → ℕ
    → Remote M Bool
unfolding claim_remote read_bucket
try_insert_remote_at xxh64 key value mode transport addr rkey free_list lkey buf = do
  bucket ← read_bucket transport lkey buf addr rkey
  claim_remote xxh64 key value mode transport addr rkey free_list lkey bucket

-- `buf` and `buf'` are the addresses of the buffers of the two attempts.
unfoldable pub insert_remote :
    {M : Type 0}
    → (List ℕ → ℕ → ℕ)
    → HashedKey
    → List ℕ
    → BucketMode
    → Transport M
    → Region
    → Region
    → ℕ
    → ℕ
    → ℕ
    → ℕ
    → Remote M WriteResult
unfolding try_insert_remote_at slot_addr first_slot second_slot
insert_remote xxh64 key value mode transport table free_list bucket_count lkey buf buf' = do
  slots_exist ← lift (assert (ltb 0 bucket_count))
  let h1 = first_slot bucket_count key.hash
  let h2 = second_slot bucket_count key.hash
  first ←
      try_insert_remote_at xxh64 key value mode transport (slot_addr table h1) table.rkey free_list
        lkey buf
  elim first [
    | true ↦ pure (inserted h1)
    | false ↦ do
      second ←
          try_insert_remote_at xxh64 key value mode transport (slot_addr table h2) table.rkey
            free_list lkey buf'
      elim second [ true ↦ pure (inserted h2) | false ↦ pure table_full ]
  ]
