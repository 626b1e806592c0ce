-- ===== src/Cuckoo/Slots.antt =====
-- The slot operations of the source on a valid table: in range, and as writes of one slot.
use rdmas.Base.{ℕ, ◌<◌, ◌≡◌, refl, ap, ◌≢◌, inl, inr, true, false, length, arith, ==_ne}
use rdmas.Base.Run.{ok, index-eq-ok, assign-eq-ok}
use rdmas.Layout.LockWord
use rdmas.Layout.LockWord.{BucketMode, inline, extent, mode_bits, shl64}
use rdmas.Layout.Bucket
use rdmas.Layout.Bucket.{HashedKey, HashBucket}
use rdmas.Layout.Bucket.Laws.{key_of}
use rdmas.Cuckoo.Defs.{
  CuckooTable, Entry, bucket_at, put_bucket, write_slot, bucket_of, entry_of, alternate,
}
use rdmas.Cuckoo.View.{slot, IsOccupied, Payload, payload, IsValid, key, h1-lt, h2-lt}
use rdmas.Cuckoo.Put.{put, IsPlace}

module _ (t : CuckooTable) (v : IsValid t) (i : ℕ) (inside : i < t.bucket_count) where
  pub bucket_at-ok : bucket_at t i ≡ ok (slot t i)
  unfolding bucket_at
  bucket_at-ok = index-eq-ok Bucket.zeroed t.buckets i (rw v.sized inside)

  pub put_bucket-ok : (b : HashBucket) → put_bucket t i b ≡ ok (put t i b)
  unfolding put_bucket
  put_bucket-ok b =
      let e : length t.buckets ≡ t.bucket_count = v.sized in
      rw (assign-eq-ok t.buckets i b (rw e inside))

  pub write_slot-ok : (e : Entry) → write_slot t i e ≡ ok (put t i (bucket_of e))
  unfolding write_slot
  write_slot-ok e = put_bucket-ok (bucket_of e)

fresh_alive : (m : BucketMode) → LockWord.is_tombstone (shl64 (mode_bits m) 2) ≡ false
unfolding LockWord.is_tombstone
fresh_alive inline = refl
fresh_alive extent = refl

mode_of-bits :
    (m : BucketMode)
    → elim (LockWord.is_extent (shl64 (mode_bits m) 2)) [ true ↦ extent | false ↦ inline ] ≡ m
unfolding LockWord.is_extent
mode_of-bits inline = refl
mode_of-bits extent = refl

module _ (e : Entry) where
  pub key_of-bucket_of : key_of (bucket_of e) ≡ key e
  unfolding bucket_of
  key_of-bucket_of = refl

  pub bucket_of-IsOccupied : e.hash ≢ 0 → IsOccupied (bucket_of e)
  unfolding bucket_of Bucket.is_tombstone
  bucket_of-IsOccupied nz = rw (fresh_alive e.mode, ==_ne e.hash 0 nz)

  pub payload-bucket_of : payload (bucket_of e) ≡ (e.body, e.mode)
  unfolding bucket_of Bucket.mode_of Bucket.is_extent
  payload-bucket_of = ap {B = Payload} (λ m. (e.body, m)) (mode_of-bits e.mode)

pub key-entry_of : (b : HashBucket) → key (entry_of b) ≡ key_of b
unfolding entry_of
key-entry_of b = refl

pub payload-entry_of : (b : HashBucket) → payload b ≡ ((entry_of b).body, (entry_of b).mode)
unfolding entry_of
payload-entry_of b = refl

pub entry_of-nonzero : (b : HashBucket) → IsOccupied b → (entry_of b).hash ≢ 0
unfolding entry_of
entry_of-nonzero b occ = ground arith

-- The other slot of a hash is one of its two, and in range.
pub alternate-IsPlace : (t : CuckooTable) (hash i : ℕ) → IsPlace t (alternate t hash i) hash
unfolding alternate
alternate-IsPlace t hash i = ground arith

pub IsPlace-lt :
    (t : CuckooTable) → IsValid t → (i hash : ℕ) → IsPlace t i hash → i < t.bucket_count
IsPlace-lt t v i hash (inl e) = rw e (h1-lt t v hash)
IsPlace-lt t v i hash (inr e) = rw e (h2-lt t v hash)
