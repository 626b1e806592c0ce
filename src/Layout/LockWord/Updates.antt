-- ===== src/Layout/LockWord/Updates.antt =====
-- What `set_locked`, `unlock_bucket`, `mark_tombstone` and `is_expired` do, field by field.
use rdmas.Base.{ℕ, ◌+◌, ◌%◌, ◌^◌, ◌≤◌, ◌<◌, ◌≡◌, ap, true, false, le→leb, arith}
use rdmas.Layout.LockWord.{
  BucketMode, set_locked, unlock_bucket, mark_tombstone, is_expired, is_locked, is_extent, version,
  lease_ts, wrapping_sub32,
}
use rdmas.Layout.LockWord.Fields.{
  Fields, fields, fields-word, is_extent_mode, set_locked-word, unlock_bucket-word,
  mark_tombstone-word, version-eq, bit-le,
}

pub version-lt : (lv : ℕ) → version lv < 2 ^ 32
version-lt lv = omega (arith, version-eq lv)

-- Locking a word keeps its version, stamps the lease modulo 2^24, sets the mode and the locked bit,
-- clears the tombstone bit, and stays within 64 bits.
pub fields-set_locked :
    (lv ts : ℕ) (mode : BucketMode)
    → (fields (set_locked lv ts mode) ≡ record {
      version_field = version lv;
      lease_field = ts % 2 ^ 24;
      extent_bit = is_extent_mode mode;
      tombstone_bit = false;
      locked_bit = true;
    })
      × (set_locked lv ts mode < 2 ^ 64)
fields-set_locked lv ts mode = (
  rw (set_locked-word lv ts mode) (
      fields-word (version lv) (ts % 2 ^ 24) (is_extent_mode mode) false true (version-lt lv)
        (omega arith)),
  rw (set_locked-word lv ts mode) (omega (arith, bit-le (is_extent_mode mode), version-lt lv)),
)

-- Unlocking a word writes the new version, keeps the mode bit, and clears the lease, the tombstone
-- bit and the locked bit.
pub fields-unlock_bucket :
    (lv v : ℕ)
    → v < 2 ^ 32
    → (fields (unlock_bucket lv v) ≡ record {
      version_field = v;
      lease_field = 0;
      extent_bit = is_extent lv;
      tombstone_bit = false;
      locked_bit = false;
    })
      × (unlock_bucket lv v < 2 ^ 64)
fields-unlock_bucket lv v h = (
  rw (unlock_bucket-word lv v h) (fields-word v 0 (is_extent lv) false false h (omega arith)),
  rw (unlock_bucket-word lv v h) (omega (arith, bit-le (is_extent lv))),
)

-- A tombstone keeps the version and the mode bit, and clears the lease and the locked bit.
pub fields-mark_tombstone :
    (lv : ℕ)
    → (fields (mark_tombstone lv) ≡ record {
      version_field = version lv;
      lease_field = 0;
      extent_bit = is_extent lv;
      tombstone_bit = true;
      locked_bit = false;
    })
      × (mark_tombstone lv < 2 ^ 64)
fields-mark_tombstone lv = (
  rw (mark_tombstone-word lv)
      (fields-word (version lv) 0 (is_extent lv) true false (version-lt lv) (omega arith)),
  rw (mark_tombstone-word lv) (omega (arith, bit-le (is_extent lv), version-lt lv)),
)

-- `HashBucket::is_expired` compares a 32-bit clock with the 24-bit lease. From clock 2^24 + timeout
-- on, up to 2^32, every locked word counts as expired, also one that was locked at that very moment.
pub is_expired-set_locked :
    (lv now timeout : ℕ) (mode : BucketMode)
    → 2 ^ 24 + timeout ≤ now
    → now < 2 ^ 32
    → is_expired (set_locked lv now mode) now timeout ≡ true
unfolding is_expired wrapping_sub32 fields
is_expired-set_locked lv now timeout mode late small =
    let at = (fields-set_locked lv now mode).0 in
    let locked : is_locked (set_locked lv now mode) ≡ true = ap (λ (f : Fields). f.locked_bit) at in
    let lease : lease_ts (set_locked lv now mode) ≡ now % 2 ^ 24 =
      ap (λ (f : Fields). f.lease_field) at in
    rw (locked, lease) (le→leb timeout _ (omega arith))
