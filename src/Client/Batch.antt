-- ===== src/Client/Batch.antt =====
-- src/client/opt.rs: the fast read, and the batch builder that flushes through the local insertion. The ratios
-- of `PerfStats` are left out (floats).
pub mod Laws
use rdmas.Base.{ℕ, ◌+◌, Bool, List, [], ◌∷◌, ◌++◌, leb, length, Option, none, some, ◌==◌}
use rdmas.Base.Run.{Run, ok, ◌>>=◌}
use rdmas.Base.Result.{Result, done, err}
use rdmas.Layout.LockWord.{BucketMode}
use rdmas.Layout.Bucket.{HashedKey, HashBucket}
use rdmas.Extent.Region.{LargeObjectRegion}
use rdmas.Client.Retry.{RdmaError}
use rdmas.Client.Write.{Store, WriteResult, inserted, table_full, insert}
use rdmas.Client.Read.{ReadResult, get}

-- `.ok().flatten().map(|r| (r.value, r.mode))`
unfoldable pub as_pair : Result RdmaError (Option ReadResult) → Option (List ℕ × BucketMode)
as_pair (err e) = none
as_pair (done none) = none
as_pair (done (some r)) = some (r.value, r.mode)

unfoldable pub get_fast :
    HashedKey → List HashBucket → Option LargeObjectRegion → ℕ → Run (Option (List ℕ × BucketMode))
unfolding as_pair
get_fast key buckets large_objects bucket_count = do
  result ← get key buckets large_objects bucket_count
  ok (as_pair result)

pub record Pending : Type 0 where
  pub key : HashedKey
  pub value : List ℕ
  pub mode : BucketMode

pub record BatchBuilder : Type 0 where
  pub pending : List Pending
  pub max_batch : ℕ

unfoldable pub new : ℕ → BatchBuilder
new max_batch = record { pending = []; max_batch = max_batch }

unfoldable pub add : BatchBuilder → HashedKey → List ℕ → BucketMode → BatchBuilder
add b key value mode = record b {
  pending = b.pending ++ (record { key = key; value = value; mode = mode } ∷ []);
}

unfoldable pub is_full : BatchBuilder → Bool
is_full b = leb b.max_batch (length b.pending)

unfoldable pub len : BatchBuilder → ℕ
len b = length b.pending

unfoldable pub is_empty : BatchBuilder → Bool
is_empty b = length b.pending == 0

-- `matches!(result, Ok(WriteResult::Inserted { .. }))`, as a count.
unfoldable pub one_if_inserted : Result RdmaError WriteResult → ℕ
one_if_inserted (err e) = 0
one_if_inserted (done (inserted i)) = 1
one_if_inserted (done table_full) = 0

-- The loop of `flush_local`.
unfoldable pub flush_all : List Pending → Store → ℕ → Run (Store × ℕ)
unfolding one_if_inserted
flush_all [] s bucket_count = ok (s, 0)
flush_all (p ∷ ps) s bucket_count = do
  (s', result) ← insert p.key p.value p.mode s bucket_count
  (s'', later) ← flush_all ps s' bucket_count
  ok (s'', one_if_inserted result + later)

unfoldable pub flush_local : BatchBuilder → Store → ℕ → Run (BatchBuilder × Store × ℕ)
unfolding flush_all
flush_local b s bucket_count = do
  (s', success) ← flush_all b.pending s bucket_count
  ok (record b { pending = [] }, s', success)
