-- ===== src/Connector.antt =====
-- crates/lmcache-connector/src/lib.rs: `RDMANativeConnector` without the `director` feature. A key is the
-- bytes of its string, a memory view the bytes that `tobytes` returns, if it does. The hash `xxh64` is a
-- parameter, the clock a function of the index of the key. `panic` is a panic, which poisons the locks.
pub mod Director
pub mod Batches
pub mod Evictions
pub mod Sets
pub mod SubmitSet
use rdmas.Base.{
  ◌||◌, ◌==◌, ℕ, zero, suc, ◌+◌, ◌*◌, ◌/◌, Bool, true, false, not, ◌&&◌, List, [], ◌∷◌, ◌++◌, ltb,
  leb, length, get_or, set, max, replicate, Option, none, some, if◌then◌else◌, ◌%◌, ◌^◌,
}
use rdmas.Base.Bytes.{to_le_bytes}
use rdmas.Base.Run.{Run, ok, panic, ◌>>=◌, index, assign}
use rdmas.Base.Result.{Result, done, err}
use rdmas.Layout.LockWord.{inline}
use rdmas.Layout.Bucket.{HashedKey}
use rdmas.Cuckoo.Defs
use rdmas.Cuckoo.Defs.{CuckooTable, CuckooError, lookup, delete, insert, insert_extent}
use rdmas.Extent.Region
use rdmas.Extent.Region.{LargeObjectRegion, allocate}
use rdmas.Lru
use rdmas.Lru.{
  LruTracker, record_access, needs_eviction, select_eviction_candidates, increment_evicted,
}

abbrev pub Hash : Type 0
Hash = List ℕ → ℕ → ℕ

unfoldable pub hash_lmcache_key : Hash → List ℕ → HashedKey
hash_lmcache_key xxh64 key = record {
  hash = xxh64 key 0;
  digest = to_le_bytes 8 (xxh64 key 0) ++ to_le_bytes 8 (xxh64 key 1);
}

pub record Completion : Type 0 where
  pub future_id : ℕ
  pub is_ok : Bool
  pub error : List ℕ
  pub per_key_bools : Option (List Bool)

-- The state of the connector; `closes` counts the calls of `close` on the event descriptor.
pub record Connector : Type 0 where
  pub table : CuckooTable
  pub large_objects : LargeObjectRegion
  pub next_id : ℕ
  pub completions : List Completion
  pub shutdown : Bool
  pub closed : Bool
  pub closes : ℕ
  pub lru : LruTracker

unfoldable pub new : ℕ → Run Connector
new batch_chunk_num_bytes = do
  table ← Defs.new 0x100000 16
  ok (record {
    table = table;
    large_objects = Region.new (batch_chunk_num_bytes * 10);
    next_id = 1;
    completions = [];
    shutdown = false;
    closed = false;
    closes = 0;
    lru = Lru.new (max (batch_chunk_num_bytes * 10 / 256) 1000);
  })

unfoldable pub push_completion : Connector → ℕ → List Bool → Connector
push_completion c future_id results = record c {
  completions =
      c.completions
      ++ (record { future_id = future_id; is_ok = true; error = []; per_key_bools = some results }
          ∷ []);
}

-- `table.lookup(&hk).is_some()` of all keys.
unfoldable pub lookup_all : Hash → CuckooTable → List (List ℕ) → Run (List Bool)
unfolding hash_lmcache_key
lookup_all xxh64 t [] = ok []
lookup_all xxh64 t (key ∷ keys) = do
  found ← lookup t (hash_lmcache_key xxh64 key)
  rest ← lookup_all xxh64 t keys
  ok (elim found [ none ↦ false | some r ↦ true ] ∷ rest)

unfoldable pub submit_batch_exists : Hash → Connector → List (List ℕ) → Run (Connector × ℕ)
unfolding lookup_all push_completion
submit_batch_exists xxh64 c keys = do
  results ← lookup_all xxh64 c.table keys
  ok (
    push_completion (record c { next_id = (c.next_id + 1) % 2 ^ 64 }) c.next_id results,
    c.next_id,
  )

-- The memory views are not used.
unfoldable pub submit_batch_get : Hash → Connector → List (List ℕ) → Run (Connector × ℕ)
unfolding lookup_all push_completion
submit_batch_get xxh64 c keys = do
  results ← lookup_all xxh64 c.table keys
  ok (
    push_completion (record c { next_id = (c.next_id + 1) % 2 ^ 64 }) c.next_id results,
    c.next_id,
  )

unfoldable pub delete_all : Hash → CuckooTable → List (List ℕ) → Run (CuckooTable × List Bool)
unfolding hash_lmcache_key
delete_all xxh64 t [] = ok (t, [])
delete_all xxh64 t (key ∷ keys) = do
  (t', was_there) ← delete t (hash_lmcache_key xxh64 key)
  (t'', rest) ← delete_all xxh64 t' keys
  ok (t'', was_there ∷ rest)

unfoldable pub submit_batch_delete : Hash → Connector → List (List ℕ) → Run (Connector × ℕ)
unfolding delete_all push_completion
submit_batch_delete xxh64 c keys = do
  (t, results) ← delete_all xxh64 c.table keys
  ok (
    push_completion (record c { table = t; next_id = (c.next_id + 1) % 2 ^ 64 }) c.next_id results,
    c.next_id,
  )

-- `is_ok()`
unfoldable pub succeeded : {A : Type 0} → Result CuckooError A → Bool
succeeded (done a) = true
succeeded (err e) = false

-- An allocation and the insertion of its offset; the flag says that the allocation failed.
unfoldable pub set_extent :
    CuckooTable
    → LargeObjectRegion
    → HashedKey
    → List ℕ
    → Run (CuckooTable × LargeObjectRegion × Bool × Bool)
unfolding succeeded
set_extent t large hk bytes = do
  (large', offset) ← allocate large bytes
  elim offset [
    | none ↦ ok (t, large', false, true)
    | some o ↦ do
      (t', outcome) ← insert_extent t hk o (length bytes)
      ok (t', large', succeeded outcome, false)
  ]

-- An insertion in inline mode.
unfoldable pub set_inline :
    CuckooTable
    → LargeObjectRegion
    → HashedKey
    → List ℕ
    → Run (CuckooTable × LargeObjectRegion × Bool × Bool)
unfolding succeeded
set_inline t large hk bytes = do
  (t', outcome) ← insert t hk bytes inline
  ok (t', large, succeeded outcome, false)

-- The body of the first loop of `submit_batch_set`: the result, and whether an allocation has failed.
unfoldable pub set_one :
    Hash
    → CuckooTable
    → LargeObjectRegion
    → List ℕ
    → List ℕ
    → Run (CuckooTable × LargeObjectRegion × Bool × Bool)
unfolding set_extent set_inline hash_lmcache_key
set_one xxh64 t large key bytes = elim (length bytes == 0 && not (length key == 0)) [
  | true ↦ set_inline t large (hash_lmcache_key xxh64 key) bytes
  | false ↦ elim (leb (length bytes) 32) [
    | true ↦ set_inline t large (hash_lmcache_key xxh64 key) bytes
    | false ↦ set_extent t large (hash_lmcache_key xxh64 key) bytes
  ]
]

-- `unwrap_or_default()` of the bytes of a memory view.
unfoldable pub bytes_or_empty : Option (List ℕ) → List ℕ
bytes_or_empty none = []
bytes_or_empty (some bytes) = bytes

-- The first loop, over `keys.iter().zip(mvs.iter())`; the clock is that of the first key left.
unfoldable pub set_all :
    Hash
    → (ℕ → ℕ)
    → ℕ
    → CuckooTable
    → LargeObjectRegion
    → LruTracker
    → List (List ℕ)
    → List (Option (List ℕ))
    → Run (CuckooTable × LargeObjectRegion × LruTracker × List Bool × Bool)
unfolding set_one bytes_or_empty
set_all xxh64 clock i t large lru [] mvs = ok (t, large, lru, [], false)
set_all xxh64 clock i t large lru (key ∷ keys) [] = ok (t, large, lru, [], false)
set_all xxh64 clock i t large lru (key ∷ keys) (mv ∷ mvs) = do
  let lru' = record_access lru (xxh64 key 0) (clock i)
  (t1, large1, result, full) ← set_one xxh64 t large key (bytes_or_empty mv)
  (t2, large2, lru2, results, full') ← set_all xxh64 clock (suc i) t1 large1 lru' keys mvs
  ok (t2, large2, lru2, result ∷ results, full || full')

-- The loop of `evict_if_needed`.
unfoldable pub delete_hashes : CuckooTable → List ℕ → Run CuckooTable
delete_hashes t [] = ok t
delete_hashes t (hash ∷ hashes) = do
  (t', was_there) ← delete t (record { hash = hash; digest = to_le_bytes 8 hash ++ replicate 8 0 })
  delete_hashes t' hashes

unfoldable pub evict_if_needed : CuckooTable → LruTracker → Run (CuckooTable × LruTracker)
unfolding delete_hashes
evict_if_needed t lru = elim (needs_eviction lru) [
  | false ↦ ok (t, lru)
  | true ↦ do
    let (lru', candidates) = select_eviction_candidates lru (max (lru.key_count / 10) 1)
    elim (length candidates == 0) [
      | true ↦ ok (t, lru')
      | false ↦ do
        t' ← delete_hashes t candidates
        ok (t', increment_evicted lru' (length candidates))
    ]
]

-- The second attempt at the extent of key `i`.
unfoldable pub retry_one :
    Hash
    → CuckooTable
    → LargeObjectRegion
    → List ℕ
    → ℕ
    → List ℕ
    → List Bool
    → Run (CuckooTable × LargeObjectRegion × List Bool)
unfolding succeeded hash_lmcache_key
retry_one xxh64 t large key i bytes results = elim (ltb 32 (length bytes)) [
  | false ↦ ok (t, large, results)
  | true ↦ do
    (large', offset) ← allocate large bytes
    elim offset [
      | none ↦ ok (t, large', results)
      | some o ↦ do
        (t', outcome) ← insert_extent t (hash_lmcache_key xxh64 key) o (length bytes)
        results' ← assign results i (succeeded outcome)
        ok (t', large', results')
    ]
]

-- The second loop, from index `i` on: `results[i]` is an index.
unfoldable pub retry_all :
    Hash
    → CuckooTable
    → LargeObjectRegion
    → List (List ℕ)
    → ℕ
    → List (Option (List ℕ))
    → List Bool
    → Run (CuckooTable × LargeObjectRegion × List Bool)
unfolding retry_one bytes_or_empty
retry_all xxh64 t large [] i mvs results = ok (t, large, results)
retry_all xxh64 t large (key ∷ keys) i mvs results = do
  already ← index false results i
  elim already [
    | true ↦ retry_all xxh64 t large keys (suc i) mvs results
    | false ↦ do
      (t', large', results') ←
          retry_one xxh64 t large key i (bytes_or_empty (get_or mvs i none)) results
      retry_all xxh64 t' large' keys (suc i) mvs results'
  ]

unfoldable pub submit_batch_set :
    Hash → (ℕ → ℕ) → Connector → List (List ℕ) → List (Option (List ℕ)) → Run (Connector × ℕ)
unfolding set_all evict_if_needed retry_all push_completion
submit_batch_set xxh64 clock c keys mvs = do
  (t, large, lru, results, eviction_needed) ←
      set_all xxh64 clock 0 c.table c.large_objects c.lru keys mvs
  let c' = record c {
    table = t;
    large_objects = large;
    lru = lru;
    next_id = (c.next_id + 1) % 2 ^ 64;
  }
  elim eviction_needed [
    | false ↦ ok (push_completion c' c.next_id results, c.next_id)
    | true ↦ do
      (t1, lru1) ← evict_if_needed t lru
      (t2, large2, results') ← retry_all xxh64 t1 large keys 0 mvs results
      ok (
        push_completion (record c' { table = t2; large_objects = large2; lru = lru1 }) c.next_id
            results',
        c.next_id,
      )
  ]

unfoldable pub drain_completions : Connector → Connector × List Completion
drain_completions c = (record c { completions = [] }, c.completions)

unfoldable pub close : Connector → Connector
close c = if c.closed then c else record c { closed = true; shutdown = true; closes = suc c.closes }
