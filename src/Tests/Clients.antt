-- ===== src/Tests/Clients.antt =====
-- The client's retries, its write path and the start of the engine at fixed inputs.
use rdmas.Base.{ℕ, zero, suc, ◌≡◌, refl, true, false, [], ◌∷◌, replicate, none, arith}
use rdmas.Base.Run.{ok}
use rdmas.Base.Result.{Result, done, err, is_power_of_two}
use rdmas.Layout.LockWord.{inline}
use rdmas.Layout.Bucket
use rdmas.Layout.Bucket.{HashedKey, HashBucket}
use rdmas.Client.Retry.{RdmaError, timeout, is_retriable, RetryConfig, retry_rdma_op}
use rdmas.Client.Retry.Laws.{Stops, retry_rdma_op-Stops}
use rdmas.Client.Pending.{PendingTracker}
use rdmas.Client.Write
use rdmas.Client.Write.{Store, inserted, first_slot, second_slot, try_insert_at}
use rdmas.Client.Write.Laws.{slot, is_free, written, insert-duplicate}
use rdmas.Lru.{LruTracker, select_eviction_candidates}

abbrev config : RetryConfig
config = record { max_retries = 3; base_delay = 100_000; max_delay = 10_000_000 }

-- Fails once, then succeeds.
abbrev flaky : ℕ → Result RdmaError ℕ
flaky zero = err timeout
flaky (suc n) = done 7

retry_rdma_op-Stops_example : Stops is_retriable config flaky 0 (retry_rdma_op config flaky)
retry_rdma_op-Stops_example = retry_rdma_op-Stops config flaky (omega arith) (omega arith)

abbrev tracker : PendingTracker
tracker = record { pending = (1, 10) ∷ (2, 90) ∷ []; timeout = 50 }

abbrev key_four : HashedKey
key_four = record { hash = 4; digest = replicate 16 4 }

abbrev old_value : HashBucket
old_value = record {
  lock_version = 0;
  key_hash = 4;
  key_or_digest = replicate 16 4;
  body = 1 ∷ replicate 31 0;
}

abbrev store : Store
store = record {
  buckets = old_value ∷ Bucket.zeroed ∷ Bucket.zeroed ∷ Bucket.zeroed ∷ [];
  large_objects = none;
}

slots : (first_slot 4 4 ≡ 0) × (second_slot 4 4 ≡ 1)
unfolding first_slot second_slot
slots = (refl, refl)

first_taken :
    (is_free (slot store (first_slot 4 4)) ≡ false)
    × (Bucket.matches_key (slot store (first_slot 4 4)) 4 (replicate 16 4) ≡ true)
unfolding first_slot Bucket.matches_key Bucket.is_empty Bucket.is_tombstone
    rdmas.Layout.LockWord.is_tombstone
first_taken = (refl, refl)

second_free :
    (Bucket.is_locked (slot store (second_slot 4 4)) ≡ false)
    × (is_free (slot store (second_slot 4 4)) ≡ true)
unfolding second_slot Bucket.zeroed Bucket.is_locked Bucket.is_empty Bucket.is_tombstone
    rdmas.Layout.LockWord.is_tombstone rdmas.Layout.LockWord.is_locked
second_free = (refl, refl)

insert-duplicate_example :
    (s' : Store) × (Write.insert key_four (2 ∷ []) inline store 4
      ≡ ok (s', done (inserted (second_slot 4 4))))
    × (Bucket.matches_key (slot s' (first_slot 4 4)) 4 (replicate 16 4) ≡ true)
    × (slot s' (first_slot 4 4) ≡ slot store (first_slot 4 4))
    × (slot s' (second_slot 4 4) ≡ written key_four (2 ∷ []))
insert-duplicate_example =
    insert-duplicate key_four (2 ∷ []) store 4 (omega arith) (omega (arith, slots.0))
      (omega (arith, slots.1)) (λ e. omega (arith, slots.0, slots.1, e)) first_taken.0 first_taken.1
      second_free.0 second_free.1

four_buckets : is_power_of_two 4 ≡ true
unfolding is_power_of_two
four_buckets = refl

abbrev accessed : LruTracker
accessed = record {
  accesses = (1, 30) ∷ (2, 10) ∷ (1, 40) ∷ [];
  last_access = (3, 20) ∷ [];
  key_count = 4;
  watermark = 2;
  evicted = 0;
}

oldest : (select_eviction_candidates accessed 2).1 ≡ 2 ∷ 3 ∷ []
unfolding select_eviction_candidates
oldest = refl
