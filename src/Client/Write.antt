-- ===== src/Client/Write.antt =====
-- src/client/write.rs: the local write path, on the buckets and the region of large objects. Text of
-- errors is left out. `panic` is an index out of range, or a table of no buckets.
pub mod Laws
pub mod Plain
pub mod Kick
pub mod Agrees
use rdmas.Base.{
  ℕ, zero, suc, ◌/◌, ◌%◌, ◌^◌, bit_or, Bool, true, false, not, ◌||◌, List, [], ◌==◌, ltb, length,
  take, replicate, min, Option, none, some, if◌then◌else◌,
}
use rdmas.Base.Bytes.{splice}
use rdmas.Base.Run.{Run, ok, panic, ◌>>=◌, ◌>>◌, assert, index, assign}
use rdmas.Base.Result.{Result, done, err}
use rdmas.Layout.LockWord.{BucketMode, inline, extent, mode_bits, shl64}
use rdmas.Layout.Bucket
use rdmas.Layout.Bucket.{HashedKey, HashBucket}
use rdmas.Extent.Region.{LargeObjectRegion, allocate}
use rdmas.Client.Retry.{RdmaError, internal}

-- `MAX_KICK`
unfoldable pub max_kick : ℕ
max_kick = 16

pub data WriteResult : Type 0 where
  inserted : ℕ → WriteResult
  table_full : WriteResult

-- What the calls change: the slice of buckets and the region, if there is one.
pub record Store : Type 0 where
  pub buckets : List HashBucket
  pub large_objects : Option LargeObjectRegion

abbrev pub Answer : Type 0 → Type 0
Answer A = Run (Store × Result RdmaError A)

unfoldable pub first_slot : ℕ → ℕ → ℕ
first_slot bucket_count hash = hash % bucket_count

unfoldable pub second_slot : ℕ → ℕ → ℕ
second_slot bucket_count hash = bit_or (hash / 2 ^ 32 % bucket_count) 1

-- The bytes of a value in a body of 32, cut off there.
unfoldable pub inline_body : List ℕ → List ℕ
inline_body value = splice 0 (take (min (length value) 32) value) (replicate 32 0)

-- The body of the bucket in its mode: both writers fill it this way, from the bucket `b`.
unfoldable pub fill :
    Store → HashBucket → List ℕ → BucketMode → Run (Store × Result RdmaError HashBucket)
unfolding inline_body
fill s b value mode = elim mode [
  | inline ↦ ok (s, done (Bucket.set_inline_value b (inline_body value)))
  | extent ↦ elim s.large_objects [
    | none ↦ ok (s, err (internal []))
    | some region ↦ do
      (region', offset) ← allocate region value
      let s' = record s { large_objects = some region' }
      elim offset [
        | none ↦ ok (s', err (internal []))
        | some o ↦ ok (s', done (Bucket.set_extent_ref b o (length value)))
      ]
  ]
]

unfoldable pub try_insert_at : HashedKey → List ℕ → BucketMode → Store → ℕ → Answer Bool
unfolding fill
try_insert_at key value mode s idx = do
  bucket ← index Bucket.zeroed s.buckets idx
  elim (Bucket.is_locked bucket) [
    | true ↦ ok (s, done false)
    | false ↦ elim (Bucket.is_empty bucket || Bucket.is_tombstone bucket) [
      | false ↦ ok (s, done false)
      | true ↦ do
        (s', filled) ←
            fill s
              (record Bucket.zeroed {
                key_hash = key.hash;
                key_or_digest = key.digest;
                lock_version = shl64 (mode_bits mode) 2;
              })
              value mode
        elim filled [
          | err e ↦ ok (s', err e)
          | done b ↦ do bs ← assign s'.buckets idx b; ok (record s' { buckets = bs }, done true)
        ]
    ]
  ]

-- The hash, the digest and the lock word are written before the body, and stay when that fails.
unfoldable pub write_to_bucket_internal :
    ℕ → List ℕ → List ℕ → BucketMode → Store → ℕ → Answer (Unit {0})
unfolding fill
write_to_bucket_internal hash digest value mode s idx = do
  bucket ← index Bucket.zeroed s.buckets idx
  let head = record bucket {
    key_hash = hash;
    key_or_digest = digest;
    lock_version = shl64 (mode_bits mode) 2;
  }
  (s', filled) ← fill s head value mode
  elim filled [
    | err e ↦ do bs ← assign s'.buckets idx head; ok (record s' { buckets = bs }, err e)
    | done b ↦ do bs ← assign s'.buckets idx b; ok (record s' { buckets = bs }, done tt)
  ]

-- The loop over `0..MAX_KICK`, by the rounds left.
unfoldable pub kick_chain :
    ℕ → ℕ → ℕ → List ℕ → List ℕ → BucketMode → Store → ℕ → Answer WriteResult
unfolding write_to_bucket_internal first_slot second_slot
kick_chain zero bucket_count hash digest value mode s idx = ok (s, done table_full)
kick_chain (suc rounds) bucket_count hash digest value mode s idx = do
  occupant ← index Bucket.zeroed s.buckets idx
  elim (Bucket.is_locked occupant || Bucket.is_extent occupant) [
    | true ↦ ok (s, done table_full)
    | false ↦ do
      (s1, written) ← write_to_bucket_internal hash digest value mode s idx
      elim written [
        | err e ↦ ok (s1, err e)
        | done u ↦ do
          let occ_h1 = first_slot bucket_count occupant.key_hash
          let alt = (if idx == occ_h1 then second_slot bucket_count occupant.key_hash else occ_h1)
          there ← index Bucket.zeroed s1.buckets alt
          elim (Bucket.is_empty there || Bucket.is_tombstone there) [
            | true ↦ do
              (s2, moved) ←
                  write_to_bucket_internal occupant.key_hash occupant.key_or_digest occupant.body
                    inline s1 alt
              elim moved [ err e ↦ ok (s2, err e) | done w ↦ ok (s2, done (inserted alt)) ]
            | false ↦
                kick_chain rounds bucket_count occupant.key_hash occupant.key_or_digest
                  occupant.body inline s1 alt
          ]
      ]
  ]

unfoldable pub insert : HashedKey → List ℕ → BucketMode → Store → ℕ → Answer WriteResult
unfolding try_insert_at kick_chain first_slot second_slot max_kick
insert key value mode s bucket_count = do
  assert (ltb 0 bucket_count)
  let h1 = first_slot bucket_count key.hash
  let h2 = second_slot bucket_count key.hash
  (s1, first) ← try_insert_at key value mode s h1
  elim first [
    | err e ↦ ok (s1, err e)
    | done true ↦ ok (s1, done (inserted h1))
    | done false ↦ do
      (s2, second) ← try_insert_at key value mode s1 h2
      elim second [
        | err e ↦ ok (s2, err e)
        | done true ↦ ok (s2, done (inserted h2))
        | done false ↦ kick_chain max_kick bucket_count key.hash key.digest value mode s2 h1
      ]
  ]
