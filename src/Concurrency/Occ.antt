-- ===== src/Concurrency/Occ.antt =====
-- src/engine/concurrency.rs: `optimistic_read`, `verify_read`, `verify_extent_checksum` and
-- `repair_after_crash`.
use rdmas.Base.{
  ℕ, ◌/◌, ◌%◌, ◌^◌, bit_and, Bool, false, not, ◌&&◌, ◌==◌, List, replicate, if◌then◌else◌,
}
use rdmas.Base.Result.{Result, done, err}
use rdmas.Layout.LockWord
use rdmas.Layout.LockWord.{u32_mod}
use rdmas.Layout.Bucket
use rdmas.Layout.Bucket.{HashBucket}
use rdmas.Concurrency.Lock.{LockError, locked}

pub record ReadGuard : Type 0 where
  pub version : ℕ
  pub key_hash : ℕ
  pub key_or_digest : List ℕ
  pub body : List ℕ
  pub lock_version : ℕ

unfoldable pub optimistic_read : HashBucket → Result LockError ReadGuard
unfolding Bucket.is_locked
optimistic_read bucket =
    if Bucket.is_locked bucket
    then err locked
    else done (record {
      version = LockWord.version bucket.lock_version;
      key_hash = bucket.key_hash;
      key_or_digest = bucket.key_or_digest;
      body = bucket.body;
      lock_version = bucket.lock_version;
    })

-- The lock word of the bucket is what `verify_read` loads.
unfoldable pub verify_read : ReadGuard → ℕ → Bool
verify_read guard current_lv =
    let locked = not (bit_and current_lv 0x01 == 0) in
    let version = current_lv / 2 ^ 32 % u32_mod in not locked && version == guard.version

-- The checksum of the header, and `xxh64(payload, 0)` of the third-party hash.
unfoldable pub verify_extent_checksum : (List ℕ → ℕ) → ℕ → List ℕ → Bool
verify_extent_checksum xxh64 checksum payload =
    if checksum == 0 then false else xxh64 payload == checksum

unfoldable pub repair_after_crash : HashBucket → HashBucket
repair_after_crash bucket = record bucket {
  lock_version = 0;
  key_hash = 0;
  key_or_digest = replicate 16 0;
  body = replicate 32 0;
}
