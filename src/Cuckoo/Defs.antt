-- ===== src/Cuckoo/Defs.antt =====
-- src/engine/cuckoo.rs: the table, its hash functions and the calls on `&mut self`.
use rdmas.Base.{
  ℕ, zero, suc, ◌/◌, ◌%◌, ◌^◌, bit_or, Bool, true, false, not, ◌&&◌, ◌||◌, List, ◌==◌, ltb, length,
  take, replicate, Option, none, some, min, if◌then◌else◌,
}
use rdmas.Base.Bytes.{to_le_bytes, splice}
use rdmas.Base.Run.{Run, ok, ◌>>=◌, ◌>>◌, assert, index, assign}
use rdmas.Base.Result.{Result, done, err, is_power_of_two}
use rdmas.Layout.LockWord.{BucketMode, inline, extent, mode_bits, shl64}
use rdmas.Layout.Bucket
use rdmas.Layout.Bucket.{HashedKey, HashBucket}

pub record CuckooTable : Type 0 where
  pub buckets : List HashBucket
  pub bucket_count : ℕ
  pub max_kick : ℕ

pub data CuckooError : Type 0 where
  table_full invalid_key : CuckooError

pub record LookupResult : Type 0 where
  pub value : List ℕ
  pub mode : BucketMode
  pub extent_offset : ℕ
  pub extent_length : ℕ

-- The table after a call, with what the call returns.
abbrev pub Outcome : Type 0
Outcome = CuckooTable × Result CuckooError (Unit {0})

-- What a write puts into a slot: the arguments of `write_slot`, the `cur_` variables of the chain.
pub record Entry : Type 0 where
  pub hash : ℕ
  pub digest : List ℕ
  pub body : List ℕ
  pub mode : BucketMode

unfoldable pub new : ℕ → ℕ → Run CuckooTable
new bucket_count max_kick = do
  assert (ltb 0 bucket_count)
  assert (is_power_of_two bucket_count)
  ok (record {
    buckets = replicate bucket_count Bucket.zeroed;
    bucket_count = bucket_count;
    max_kick = max_kick;
  })

-- `new` has seen to it that `bucket_count` is not zero.
unfoldable pub h1 : CuckooTable → ℕ → ℕ
h1 t hash = hash % t.bucket_count

unfoldable pub h2 : CuckooTable → ℕ → ℕ
h2 t hash = bit_or (hash / 2 ^ 32 % t.bucket_count) 1

unfoldable pub bucket_at : CuckooTable → ℕ → Run HashBucket
bucket_at t idx = index Bucket.zeroed t.buckets idx

-- The test `matches_key(..) && !is_tombstone()` of lookups and overwrites.
unfoldable pub is_live : HashBucket → ℕ → List ℕ → Bool
is_live b hash digest = Bucket.matches_key b hash digest && not (Bucket.is_tombstone b)

-- The test `is_empty() || is_tombstone()` of insertions.
unfoldable pub is_free : HashBucket → Bool
is_free b = Bucket.is_empty b || Bucket.is_tombstone b

unfoldable pub pack_body : List ℕ → BucketMode → List ℕ
pack_body value mode =
    let max_len : ℕ = elim mode [ inline ↦ 32 | extent ↦ 16 ] in
    splice 0 (take (min (length value) max_len) value) (replicate 32 0)

-- What a lookup returns of the bucket it has found.
unfoldable pub read_bucket_value : HashBucket → LookupResult
read_bucket_value b = record {
  value = b.body;
  mode = Bucket.mode_of b;
  extent_offset = if Bucket.is_extent b then (Bucket.extent_ref b).0 else 0;
  extent_length = if Bucket.is_extent b then (Bucket.extent_ref b).1 else 0;
}

-- The body of the loop in `lookup`.
unfoldable pub probe : CuckooTable → HashedKey → ℕ → Run (Option LookupResult)
unfolding bucket_at
probe t key idx = do
  bucket ← bucket_at t idx
  ok (if is_live bucket key.hash key.digest then some (read_bucket_value bucket) else none)

unfoldable pub lookup : CuckooTable → HashedKey → Run (Option LookupResult)
unfolding probe
lookup t key = do
  first ← probe t key (h1 t key.hash)
  elim first [ some r ↦ ok (some r) | none ↦ probe t key (h2 t key.hash) ]

unfoldable pub find_key_idx : CuckooTable → HashedKey → Run (Option ℕ)
unfolding bucket_at
find_key_idx t key = do
  first ← bucket_at t (h1 t key.hash)
  elim (is_live first key.hash key.digest) [
    | true ↦ ok (some (h1 t key.hash))
    | false ↦ do
      second ← bucket_at t (h2 t key.hash)
      ok (if is_live second key.hash key.digest then some (h2 t key.hash) else none)
  ]

unfoldable pub put_bucket : CuckooTable → ℕ → HashBucket → Run CuckooTable
put_bucket t idx b = do bs ← assign t.buckets idx b; ok (record t { buckets = bs })

unfoldable pub delete : CuckooTable → HashedKey → Run (CuckooTable × Bool)
unfolding find_key_idx put_bucket
delete t key = do
  found ← find_key_idx t key
  elim found [
    | none ↦ ok (t, false)
    | some idx ↦ do
      bucket ← bucket_at t idx
      t' ← put_bucket t idx (Bucket.mark_tombstone bucket)
      ok (t', true)
  ]

unfoldable pub bucket_of : Entry → HashBucket
bucket_of e = record {
  lock_version = shl64 (mode_bits e.mode) 2;
  key_hash = e.hash;
  key_or_digest = e.digest;
  body = e.body;
}

unfoldable pub write_slot : CuckooTable → ℕ → Entry → Run CuckooTable
unfolding put_bucket
write_slot t idx e = put_bucket t idx (bucket_of e)

-- The snapshot of an occupant in `kick_chain`.
unfoldable pub entry_of : HashBucket → Entry
entry_of b = record {
  hash = b.key_hash;
  digest = b.key_or_digest;
  body = b.body;
  mode = Bucket.mode_of b;
}

-- Of the two slots of a hash, the one that is not `idx`.
unfoldable pub alternate : CuckooTable → ℕ → ℕ → ℕ
alternate t hash idx = if idx == h1 t hash then h2 t hash else h1 t hash

-- The loop over `0..max_kick`, by the rounds left.
unfoldable pub kick_chain : ℕ → CuckooTable → ℕ → Entry → Run Outcome
kick_chain zero t idx cur = ok (t, err table_full)
kick_chain (suc rounds) t idx cur = do
  occupant ← bucket_at t idx
  let occ = entry_of occupant
  t' ← write_slot t idx cur
  let alt = alternate t' occ.hash idx
  there ← bucket_at t' alt
  elim (is_free there) [
    | true ↦ do t'' ← write_slot t' alt occ; ok (t'', done tt)
    | false ↦ kick_chain rounds t' alt occ
  ]

write_done : CuckooTable → ℕ → Entry → Run Outcome
unfolding write_slot
write_done t idx e = do t' ← write_slot t idx e; ok (t', done tt)

unfoldable pub insert_raw : CuckooTable → Entry → Run Outcome
unfolding bucket_at write_done
insert_raw t e = do
  first ← bucket_at t (h1 t e.hash)
  elim (is_live first e.hash e.digest) [
    | true ↦ write_done t (h1 t e.hash) e
    | false ↦ do
      second ← bucket_at t (h2 t e.hash)
      elim (is_live second e.hash e.digest) [
        | true ↦ write_done t (h2 t e.hash) e
        | false ↦ elim (is_free first) [
          | true ↦ write_done t (h1 t e.hash) e
          | false ↦ elim (is_free second) [
            | true ↦ write_done t (h2 t e.hash) e
            | false ↦ kick_chain t.max_kick t (h1 t e.hash) e
          ]
        ]
      ]
  ]

unfoldable pub insert : CuckooTable → HashedKey → List ℕ → BucketMode → Run Outcome
unfolding insert_raw
insert t key value mode =
    if key.hash == 0
    then ok (t, err invalid_key)
    else insert_raw t
        (record { hash = key.hash; digest = key.digest; body = pack_body value mode; mode = mode })

unfoldable pub insert_extent : CuckooTable → HashedKey → ℕ → ℕ → Run Outcome
unfolding insert_raw
insert_extent t key offset size =
    if key.hash == 0
    then ok (t, err invalid_key)
    else insert_raw t (record {
      hash = key.hash;
      digest = key.digest;
      body = splice 8 (to_le_bytes 8 size) (splice 0 (to_le_bytes 8 offset) (replicate 32 0));
      mode = extent;
    })
