-- ===== src/Tests/Words.antt =====
-- The layout of lock words and buckets at fixed inputs.
use rdmas.Base.{◌≡◌, refl, replicate}
use rdmas.Layout.LockWord
use rdmas.Layout.LockWord.{inline, extent}
use rdmas.Layout.Bucket.{HashBucket}

lock_again : LockWord.set_locked 0x700000004 0x1000005 inline ≡ 0x700000501
unfolding LockWord.set_locked
lock_again = refl

abbrev word_bucket : HashBucket
word_bucket = record {
  lock_version = 4;
  key_hash = 9;
  key_or_digest = replicate 16 7;
  body = replicate 32 1;
}
