-- ===== src/Concurrency/Lock.antt =====
-- src/engine/concurrency.rs: `is_lease_expired`, `cas_lock`, `try_acquire_lock`, `release_lock` and
-- `force_takeover`. The atomic word is a number; `now_ms()` is a number that each call is given.
use rdmas.Base.{
  ℕ, ◌+◌, ◌/◌, ◌%◌, ◌^◌, bit_and, bit_or, Bool, not, ◌&&◌, ◌==◌, ltb, List, [], ◌∷◌, Option, none,
  some, if◌then◌else◌,
}
use rdmas.Base.Result.{Result, done, err}
use rdmas.Layout.LockWord.{BucketMode, mode_bits, shl64, u32_mod, wrapping_sub32, lease_timeout_ms}
use rdmas.Layout.Bucket
use rdmas.Layout.Bucket.{HashBucket}
use rdmas.Layout.LockWord

pub data LockError : Type 0 where
  locked expired : LockError

-- The masks leave 24 bits, the subtraction wraps at 32.
unfoldable pub is_lease_expired : ℕ → ℕ → ℕ → Bool
is_lease_expired old_ts now timeout_ms =
    let old_24 = bit_and old_ts 0xFF_FFFF in
    let now_24 = bit_and now 0xFF_FFFF in ltb timeout_ms (wrapping_sub32 now_24 old_24)

-- `compare_exchange`: the word afterwards, and the value that was found as success or as failure.
unfoldable pub cas_lock : ℕ → ℕ → ℕ → ℕ × Result ℕ ℕ
cas_lock word old new = if word == old then (new, done old) else (word, err word)

-- The test at the head of the loop of `try_acquire_lock`: another client holds the lock.
unfoldable pub is_held : ℕ → ℕ → Bool
unfolding is_lease_expired
is_held old_lv now =
    not (bit_and old_lv 0x01 == 0)
    && not (is_lease_expired (bit_and (old_lv / 2 ^ 8) 0xFF_FFFF % u32_mod) now lease_timeout_ms)

-- The new word of `try_acquire_lock`.
unfoldable pub stamped : ℕ → ℕ → BucketMode → ℕ
stamped old_lv now mode =
    let version = old_lv / 2 ^ 32 in
    let lease_bits = shl64 (bit_and now 0xFF_FFFF) 8 in
    let mode_bit = shl64 (mode_bits mode) 2 in
    bit_or (bit_or (bit_or (shl64 version 32) lease_bits) mode_bit) 0x01

-- What a round of the loop meets: the two readings of the clock, and the word that another thread
-- stores between the load and the exchange, if one does.
pub record Round : Type 0 where
  pub checked : ℕ
  pub stamp : ℕ
  pub raced : Option ℕ

abbrev pub at_exchange : ℕ → Round → ℕ
at_exchange word r = elim r.raced [ none ↦ word | some w ↦ w ]

-- The word after the loop and its result, over the rounds that the threads leave it; `none` stands
-- for a loop that still runs after them.
unfoldable pub try_acquire_lock : List Round → ℕ → BucketMode → ℕ × Option (Result LockError ℕ)
unfolding is_held stamped cas_lock
try_acquire_lock [] word mode = (word, none)
try_acquire_lock (r ∷ rs) word mode =
    if is_held word r.checked
    then (word, some (err locked))
    else let (after, outcome) = cas_lock (at_exchange word r) word (stamped word r.stamp mode) in
      elim outcome [
        | done prev ↦ (after, some (done prev))
        | err actual ↦ try_acquire_lock rs after mode
      ]

-- The word that `release_lock` stores.
unfoldable pub released : BucketMode → ℕ → ℕ
released mode version =
    let new_version = (version + 1) % u32_mod in
    let mode_bit = shl64 (mode_bits mode) 2 in bit_or (shl64 new_version 32) mode_bit

pub data TakeoverResult : Type 0 where
  success : ℕ → TakeoverResult
  not_expired not_locked : TakeoverResult

unfoldable pub force_takeover : HashBucket → ℕ → ℕ → HashBucket × TakeoverResult
unfolding is_lease_expired Bucket.is_locked
force_takeover bucket now timeout_ms =
    if not (Bucket.is_locked bucket)
    then (bucket, not_locked)
    else if not (is_lease_expired (LockWord.lease_ts bucket.lock_version) now timeout_ms)
    then (bucket, not_expired)
    else let version = LockWord.version bucket.lock_version in
      let mode_bit = bit_and bucket.lock_version 0x04 in
      let new_version = shl64 ((version + 1) % u32_mod) 32 in
      let lv = bit_or new_version mode_bit in (record bucket { lock_version = lv }, success lv)
