-- ===== src/Layout/Bucket/Laws.antt =====
-- Buckets: exact key match, the extent reference round trip, the three states of a slot.
use rdmas.Base.{ℕ, ◌^◌, ◌<◌, ◌≡◌, refl, ap, ◌↔◌, true, ◌&&◌, List, ◌==◌, drop, drop-drop, arith}
use rdmas.Base.Bytes.{from_le_bytes-to_le_bytes, bytes_eq, bytes_eq→eq, bytes_eq_refl}
use rdmas.Layout.LockWord.Fields.{Fields, fields}
use rdmas.Layout.LockWord.Updates.{fields-mark_tombstone}
use rdmas.Layout.Bucket.{
  HashedKey, HashBucket, is_tombstone, set_extent_ref, extent_ref, matches_key, mark_tombstone,
}

-- The key that a bucket carries.
abbrev pub key_of : HashBucket → HashedKey
key_of b = record { hash = b.key_hash; digest = b.key_or_digest }

-- A bucket matches exactly the key it carries: hash and digest.
pub matches_key_iff :
    (b : HashBucket) (k : HashedKey) → (matches_key b k.hash k.digest ≡ true) ↔ (key_of b ≡ k)
unfolding matches_key
matches_key_iff b k = (to, from)
  where
    to : (b.key_hash == k.hash && bytes_eq b.key_or_digest k.digest) ≡ true → key_of b ≡ k
    to h = ground (arith, bytes_eq→eq b.key_or_digest k.digest)

    from : key_of b ≡ k → (b.key_hash == k.hash && bytes_eq b.key_or_digest k.digest) ≡ true
    from e =
        let same_hash : b.key_hash ≡ k.hash = ap (λ (x : HashedKey). x.hash) e in
        let same_digest : b.key_or_digest ≡ k.digest = ap (λ (x : HashedKey). x.digest) e in
        ground (arith, bytes_eq_refl k.digest, ap (λ (t : List ℕ). bytes_eq t k.digest) same_digest)

-- An extent reference of two 64-bit numbers reads back, and setting it leaves the other fields and
-- the last 16 bytes of the body alone.
pub extent_ref-set_extent_ref :
    (b : HashBucket) (offset size : ℕ)
    → offset < 2 ^ 64
    → size < 2 ^ 64
    → (extent_ref (set_extent_ref b offset size) ≡ (offset, size))
      × (drop 16 (set_extent_ref b offset size).body ≡ drop 16 b.body)
      × (key_of (set_extent_ref b offset size) ≡ key_of b)
unfolding extent_ref set_extent_ref
extent_ref-set_extent_ref b offset size ho hs = (
  λ i. (from_le_bytes-to_le_bytes 8 offset ho i, from_le_bytes-to_le_bytes 8 size hs i),
  drop-drop 8 8 b.body,
  refl,
)

-- After `mark_tombstone` the slot is a tombstone, with its key and body in place.
pub mark_tombstone-IsTombstone : (b : HashBucket) → is_tombstone (mark_tombstone b) ≡ true
unfolding is_tombstone mark_tombstone fields
mark_tombstone-IsTombstone b =
    ap (λ (f : Fields). f.tombstone_bit) (fields-mark_tombstone b.lock_version).0
