-- ===== src/Layout/Bucket/Wire.antt =====
-- src/engine/layout.rs: the 64 bytes of a `HashBucket`, as `#[repr(C, align(64))]` lays them out on a
-- little-endian machine, and a free-list header's 8 bytes of `bump_offset`.
use rdmas.Base.{
  ℕ, zero, suc, ◌^◌, ◌%◌, ◌<◌, ◌≡◌, refl, ap, ◌∙◌, List, [], ◌∷◌, ◌++◌, ◌==◌, length, take, drop,
  take-all, arith, length-append,
}
use rdmas.Base.Bytes.{to_le_bytes, from_le_bytes, from_le_bytes-to_le_bytes}
use rdmas.Base.Run.{Run, ok, ◌>>◌, assert}
use rdmas.Layout.Bucket.{HashBucket}

-- `size_of::<HashBucket>()`
abbrev pub bucket_size : ℕ
bucket_size = 64

-- `bytemuck::bytes_of`
unfoldable pub bytes_of : HashBucket → List ℕ
bytes_of b =
    to_le_bytes 8 b.lock_version ++ (to_le_bytes 8 b.key_hash ++ (b.key_or_digest ++ b.body))

unfoldable pub of_bytes : List ℕ → HashBucket
of_bytes l = record {
  lock_version = from_le_bytes (take 8 l);
  key_hash = from_le_bytes (take 8 (drop 8 l));
  key_or_digest = take 16 (drop 16 l);
  body = take 32 (drop 32 l);
}

-- `bytemuck::from_bytes` of a buffer of 64 bytes at address `buf`: a reference to a bucket is aligned to
-- 64 bytes.
unfoldable pub from_bytes : ℕ → List ℕ → Run HashBucket
unfolding of_bytes
from_bytes buf l = do assert (buf % 64 == 0); ok (of_bytes l)

-- The fields have the sizes of their types.
pub record IsSized (b : HashBucket) : Type 0 where
  pub word : b.lock_version < 2 ^ 64
  pub hash : b.key_hash < 2 ^ 64
  pub key : length b.key_or_digest ≡ 16
  pub value : length b.body ≡ 32

pub length-bytes_of : (b : HashBucket) → IsSized b → length (bytes_of b) ≡ 64
unfolding bytes_of
length-bytes_of b s = omega (arith, length-append b.key_or_digest b.body, s.key, s.value)

take-front : (n : ℕ) (xs ys : List ℕ) → length xs ≡ n → take n (xs ++ ys) ≡ xs
take-front zero [] ys h = refl
take-front zero (x ∷ xs) ys h = absurd (omega arith)
take-front (suc n) [] ys h = absurd (omega arith)
take-front (suc n) (x ∷ xs) ys h = ap (◌∷◌ x) (take-front n xs ys (omega arith))

drop-front : (n : ℕ) (xs ys : List ℕ) → length xs ≡ n → drop n (xs ++ ys) ≡ ys
drop-front zero [] ys h = refl
drop-front zero (x ∷ xs) ys h = absurd (omega arith)
drop-front (suc n) [] ys h = absurd (omega arith)
drop-front (suc n) (x ∷ xs) ys h = drop-front n xs ys (omega arith)

-- A bucket whose fields have their sizes is read back from its 64 bytes.
pub of_bytes-bytes_of : (b : HashBucket) → IsSized b → of_bytes (bytes_of b) ≡ b
unfolding of_bytes bytes_of
of_bytes-bytes_of b s i = record {
  lock_version = from_le_bytes-to_le_bytes 8 b.lock_version (omega (arith, s.word)) i;
  key_hash = from_le_bytes-to_le_bytes 8 b.key_hash (omega (arith, s.hash)) i;
  key_or_digest = take-front 16 b.key_or_digest b.body s.key i;
  body =
      (ap (λ (l : List ℕ). take 32 l) (drop-front 16 b.key_or_digest b.body s.key)
          ∙ take-all 32 b.body (omega (arith, s.value)))
        i;
}
