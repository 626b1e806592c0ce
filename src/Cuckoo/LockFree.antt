-- ===== src/Cuckoo/LockFree.antt =====
-- src/engine/cuckoo.rs: the calls on `&self`: `insert_lock_free`, `lookup_lock_free` and `get_fast`.
-- The source's raw pointer access of `try_cas_insert` is taken as an access in range.
pub mod Laws
use rdmas.Base.{
  ℕ, ◌/◌, ◌%◌, ◌^◌, bit_or, Bool, true, false, not, ◌&&◌, ◌||◌, List, [], ◌==◌, length, take,
  replicate, Option, none, some, min, if◌then◌else◌,
}
use rdmas.Base.Bytes.{splice}
use rdmas.Base.Run.{Run, ok, ◌>>=◌, ◌>>◌}
use rdmas.Base.Result.{Result, done, err}
use rdmas.Layout.LockWord.{BucketMode, inline, extent, mode_bits, shl64}
use rdmas.Layout.Bucket
use rdmas.Layout.Bucket.{HashedKey, HashBucket}
use rdmas.Cuckoo.Defs.{
  CuckooTable, Outcome, CuckooError, table_full, invalid_key, LookupResult, h1, h2, bucket_at,
  put_bucket, read_bucket_value,
}

-- `write_bucket_raw`: in extent mode the body stays what it was.
unfoldable pub write_bucket_raw : HashBucket → HashedKey → List ℕ → BucketMode → HashBucket
write_bucket_raw b key value mode =
    let head : HashBucket = record b {
      lock_version = shl64 (mode_bits mode) 2;
      key_hash = key.hash;
      key_or_digest = key.digest;
    } in
    elim mode [
      | inline ↦
          Bucket.set_inline_value head
            (splice 0 (take (min (length value) 32) value) (replicate 32 0))
      | extent ↦ head
    ]

unfoldable pub try_cas_insert :
    CuckooTable → HashedKey → List ℕ → BucketMode → ℕ → Run (CuckooTable × Bool)
try_cas_insert t key value mode idx = do
  bucket ← bucket_at t idx
  elim (Bucket.is_locked bucket) [
    | true ↦ ok (t, false)
    | false ↦ elim (Bucket.is_empty bucket || Bucket.is_tombstone bucket) [
      | true ↦ do t' ← put_bucket t idx (write_bucket_raw bucket key value mode); ok (t', true)
      | false ↦ ok (t, false)
    ]
  ]

unfoldable pub insert_lock_free : CuckooTable → HashedKey → List ℕ → BucketMode → Run Outcome
unfolding try_cas_insert
insert_lock_free t key value mode = if key.hash == 0 then ok (t, err invalid_key) else do
  (t1, first) ← try_cas_insert t key value mode (h1 t key.hash)
  elim first [
    | true ↦ ok (t1, done tt)
    | false ↦ do
      (t2, second) ← try_cas_insert t1 key value mode (h2 t key.hash)
      ok (t2, if second then done tt else err table_full)
  ]

-- `!is_locked() && matches_key(..)`: the tombstone bit is not tested.
unfoldable pub is_readable : HashBucket → HashedKey → Bool
is_readable b key = not (Bucket.is_locked b) && Bucket.matches_key b key.hash key.digest

unfoldable pub lookup_lock_free : CuckooTable → HashedKey → Run (Option LookupResult)
unfolding is_readable
lookup_lock_free t key = do
  b1 ← bucket_at t (h1 t key.hash % length t.buckets)
  elim (is_readable b1 key) [
    | true ↦ ok (some (read_bucket_value b1))
    | false ↦ do
      b2 ← bucket_at t (h2 t key.hash % length t.buckets)
      ok (if is_readable b2 key then some (read_bucket_value b2) else none)
  ]

unfoldable pub try_read_bucket : CuckooTable → HashedKey → ℕ → Run (Option (List ℕ × BucketMode))
unfolding is_readable
try_read_bucket t key idx = do
  bucket ← bucket_at t idx
  ok (
      if is_readable bucket key
      then some (if Bucket.is_inline bucket then (bucket.body, inline) else ([], extent))
      else none)

unfoldable pub get_fast : CuckooTable → HashedKey → Run (Option (List ℕ × BucketMode))
unfolding try_read_bucket
get_fast t key = do
  first ← try_read_bucket t key (h1 t key.hash)
  elim first [ some r ↦ ok (some r) | none ↦ try_read_bucket t key (h2 t key.hash) ]
