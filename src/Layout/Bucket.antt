-- ===== src/Layout/Bucket.antt =====
-- src/engine/layout.rs: `HashedKey`, `HashBucket` and its methods. The key or digest has 16 bytes,
-- the body 32: a value in inline mode, an (offset, length) pair of `u64`s in extent mode.
pub mod Laws
pub mod Wire
use rdmas.Base.{
  ℕ, Bool, true, false, not, ◌&&◌, List, [], ◌∷◌, ◌++◌, ◌==◌, length, take, drop, replicate,
}
use rdmas.Base.Bytes.{to_le_bytes, from_le_bytes, bytes_eq, splice}
use rdmas.Layout.LockWord
use rdmas.Layout.LockWord.{BucketMode, inline, extent}

pub record HashedKey : Type 0 where
  pub hash : ℕ
  pub digest : List ℕ

pub record HashBucket : Type 0 where
  pub lock_version : ℕ
  pub key_hash : ℕ
  pub key_or_digest : List ℕ
  pub body : List ℕ

-- `HashBucket::zeroed()`
unfoldable pub zeroed : HashBucket
zeroed = record {
  lock_version = 0;
  key_hash = 0;
  key_or_digest = replicate 16 0;
  body = replicate 32 0;
}

unfoldable pub is_locked : HashBucket → Bool
is_locked b = LockWord.is_locked b.lock_version

unfoldable pub is_tombstone : HashBucket → Bool
is_tombstone b = LockWord.is_tombstone b.lock_version

unfoldable pub is_inline : HashBucket → Bool
is_inline b = LockWord.is_inline b.lock_version

unfoldable pub is_extent : HashBucket → Bool
is_extent b = LockWord.is_extent b.lock_version

-- `if bucket.is_extent() { Extent } else { Inline }`
unfoldable pub mode_of : HashBucket → BucketMode
mode_of b = elim (is_extent b) [ true ↦ extent | false ↦ inline ]

unfoldable pub mark_tombstone : HashBucket → HashBucket
mark_tombstone b = record b { lock_version = LockWord.mark_tombstone b.lock_version }

unfoldable pub set_inline_value : HashBucket → List ℕ → HashBucket
set_inline_value b value = record b { body = value }

unfoldable pub set_extent_ref : HashBucket → ℕ → ℕ → HashBucket
set_extent_ref b offset size = record b {
  body = splice 8 (to_le_bytes 8 size) (splice 0 (to_le_bytes 8 offset) b.body);
}

unfoldable pub extent_ref : HashBucket → ℕ × ℕ
extent_ref b = (from_le_bytes (take 8 b.body), from_le_bytes (take 8 (drop 8 b.body)))

unfoldable pub is_empty : HashBucket → Bool
is_empty b = b.key_hash == 0 && not (is_tombstone b)

unfoldable pub matches_key : HashBucket → ℕ → List ℕ → Bool
matches_key b hash digest = b.key_hash == hash && bytes_eq b.key_or_digest digest
