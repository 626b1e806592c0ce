-- ===== src/Client/Read.antt =====
-- src/client/read.rs: the local read path, on the buckets and the region of large objects. Text of
-- errors is left out. `panic` is an index out of range.
pub mod Laws
pub mod Agrees
use rdmas.Base.{
  ℕ, Bool, true, false, not, ◌||◌, List, [], ◌==◌, leb, length, Option, none, some, if◌then◌else◌,
}
use rdmas.Base.Run.{Run, ok, panic, ◌>>=◌, index}
use rdmas.Base.Result.{Result, done, err, is_power_of_two}
use rdmas.Layout.LockWord.{BucketMode, inline, extent}
use rdmas.Layout.Bucket
use rdmas.Layout.Bucket.{HashedKey, HashBucket}
use rdmas.Extent.Region
use rdmas.Extent.Region.{LargeObjectRegion}
use rdmas.Client.Retry.{RdmaError, invalid_key, internal}
use rdmas.Client.Write.{first_slot, second_slot}

pub record ReadResult : Type 0 where
  pub value : List ℕ
  pub mode : BucketMode

-- The end of `try_read_bucket`: the value of a bucket that has matched.
unfoldable pub read_value : Option LargeObjectRegion → HashBucket → Option ReadResult
read_value large_objects bucket =
    if Bucket.is_inline bucket
    then some (record { value = bucket.body; mode = inline })
    else elim large_objects [
      | none ↦ none
      | some region ↦ elim (Region.read region (Bucket.extent_ref bucket).0) [
        | none ↦ none
        | some bytes ↦ some (record { value = bytes; mode = extent })
      ]
    ]

unfoldable pub try_read_bucket :
    HashedKey → List HashBucket → Option LargeObjectRegion → ℕ → Run (Option ReadResult)
unfolding read_value
try_read_bucket key buckets large_objects idx = do
  bucket ← index Bucket.zeroed buckets idx
  ok (
      if Bucket.is_locked bucket
      then none
      else if Bucket.is_tombstone bucket
      then none
      else if not (Bucket.matches_key bucket key.hash key.digest)
      then none
      else read_value large_objects bucket)

-- The two phases of `get`, after its guards.
unfoldable pub probe_both :
    HashedKey
    → List HashBucket
    → Option LargeObjectRegion
    → ℕ
    → ℕ
    → Run (Result RdmaError (Option ReadResult))
unfolding try_read_bucket
probe_both key buckets large_objects h1 h2 = do
  first ← try_read_bucket key buckets large_objects h1
  elim first [
    | some result ↦ ok (done (some result))
    | none ↦ do second ← try_read_bucket key buckets large_objects h2; ok (done second)
  ]

unfoldable pub get :
    HashedKey
    → List HashBucket
    → Option LargeObjectRegion
    → ℕ
    → Run (Result RdmaError (Option ReadResult))
unfolding probe_both first_slot second_slot
get key buckets large_objects bucket_count =
    if key.hash == 0
    then ok (err invalid_key)
    else if not (is_power_of_two bucket_count)
    then ok (err (internal []))
    else let h1 = first_slot bucket_count key.hash in
      let h2 = second_slot bucket_count key.hash in
      if leb (length buckets) h1 || leb (length buckets) h2
      then ok (err (internal []))
      else probe_both key buckets large_objects h1 h2
