-- ===== src/Connector/SubmitSet.antt =====
-- The whole batch of insertions of the connector, with the eviction and the second attempt.
use rdmas.Base.{
  ℕ, zero, suc, ◌+◌, ◌^◌, ◌<◌, ◌≤◌, ◌≡◌, refl, ap, ◌∙◌, ◌≢◌, inl, inr, Bool, true, false, not, ◌&&◌,
  List, [], ◌∷◌, ◌==◌, ltb, length, get_or, set, Option, none, some, arith, Bool-cases, length-set,
  le→leb, ◌%◌,
}
use rdmas.Base.Run.{Run, ok, ◌>>=◌, index-eq-ok, assign-eq-ok}
use rdmas.Base.Result.{Result, done, err}
use rdmas.Layout.LockWord.{inline}
use rdmas.Layout.Bucket.{HashedKey}
use rdmas.Cuckoo.Defs
use rdmas.Cuckoo.Defs.{
  CuckooTable, CuckooError, Entry, h1, h2, is_live, delete, find_key_idx, bucket_at, insert,
  insert_extent,
}
use rdmas.Cuckoo.View.{view, IsValid}
use mathlib.Core.Logic.{if_pos}
use rdmas.Cuckoo.Chain.{HashedKey-discrete}
use rdmas.Cuckoo.Insert.{insert-Ends}
use rdmas.Extent.Region.{LargeObjectRegion}
use rdmas.Extent.Region.Blocks.{IsBounded}
use rdmas.Extent.Region.Laws.{allocate-Allocates}
use rdmas.Lru.{LruTracker, record_access}
use rdmas.Connector.{
  Hash, hash_lmcache_key, Connector, push_completion, succeeded, set_inline, set_one,
  bytes_or_empty, set_all, retry_one, retry_all, submit_batch_set, submit_batch_get,
}
use rdmas.Connector.Batches.{Completes, is_bound, lookup_all-bound_all}
use rdmas.Connector.Evictions.{evict_if_needed-IsValid}
use rdmas.Connector.Sets.{insert_extent-Returns, AllSmall, set_all-Sets}

-- What the second attempt leaves.
abbrev Retries : ℕ → Run (CuckooTable × LargeObjectRegion × List Bool) → Type 0
Retries n r =
    (t' : CuckooTable) × (large' : LargeObjectRegion) × (results : List Bool) × (r
      ≡ ok (t', large', results))
    × IsValid t'
    × IsBounded large'
    × (length results ≡ n)

module _ (xxh64 : Hash) where
  small_at :
      (mvs : List (Option (List ℕ))) (i : ℕ)
      → AllSmall mvs
      → length (bytes_or_empty (get_or mvs i none)) < 2 ^ 32
  unfolding bytes_or_empty
  small_at [] i small = omega arith
  small_at (mv ∷ mvs) zero (small, smalls) = small
  small_at (mv ∷ mvs) (suc i) (small, smalls) = small_at mvs i smalls

  retry_one-Retries :
      (t : CuckooTable) (large : LargeObjectRegion)
      → IsValid t
      → IsBounded large
      → (key : List ℕ) (i : ℕ) (bytes : List ℕ) (results : List Bool) → length bytes < 2 ^ 32
      → i < length results
      → Retries (length results) (retry_one xxh64 t large key i bytes results)
  unfolding retry_one
  retry_one-Retries t large v bounded key i bytes results small inside =
      elim (Bool-cases (ltb 32 (length bytes))) [
        | inr short ↦ (t, large, results, rw (retry_one, short) refl, v, bounded, refl)
        | inl long ↦ elim (allocate-Allocates large bytes bounded small) [
          | inl (e, _, _) ↦
              (t, large, results, rw (retry_one, long, e, ◌>>=◌) refl, v, bounded, refl)
          | inr (large', o, e, bounded', _, _, _) ↦
              let (t', outcome, e', v') =
                insert_extent-Returns t (hash_lmcache_key xxh64 key) o (length bytes) v in
              (
                t',
                large',
                set results i (succeeded outcome),
                rw
                    (
                      retry_one,
                      long,
                      e,
                      ◌>>=◌,
                      e',
                      ◌>>=◌,
                      assign-eq-ok results i (succeeded outcome) inside,
                      ◌>>=◌,
                    )
                    refl,
                v',
                bounded',
                length-set results i (succeeded outcome),
              )
        ]
      ]

  retry_all-Retries :
      (keys : List (List ℕ)) (t : CuckooTable) (large : LargeObjectRegion)
      → IsValid t
      → IsBounded large
      → (i : ℕ) (mvs : List (Option (List ℕ))) (results : List Bool) → AllSmall mvs
      → i + length keys ≤ length results
      → Retries (length results) (retry_all xxh64 t large keys i mvs results)
  unfolding retry_all
  retry_all-Retries [] t large v bounded i mvs results small inside =
      (t, large, results, refl, v, bounded, refl)
  retry_all-Retries (key ∷ keys) t large v bounded i mvs results small inside =
      elim (Bool-cases (get_or results i false)) [
        | inl already ↦
            rw (index-eq-ok false results i (omega (arith, inside)), ◌>>=◌, already)
              (retry_all-Retries keys t large v bounded (suc i) mvs results small
                (omega (arith, inside)))
        | inr failed ↦
            let (t1, large1, results1, e, v1, bounded1, counted) =
              retry_one-Retries t large v bounded key i (bytes_or_empty (get_or mvs i none)) results
                (small_at mvs i small) (omega (arith, inside)) in
            let (t2, large2, results2, e2, v2, bounded2, counted2) =
              retry_all-Retries keys t1 large1 v1 bounded1 (suc i) mvs results1 small
                (omega (arith, inside, counted)) in
            (
              t2,
              large2,
              results2,
              rw (index-eq-ok false results i (omega (arith, inside)), ◌>>=◌, failed, e, ◌>>=◌) e2,
              v2,
              bounded2,
              counted2 ∙ counted,
            )
      ]

-- A batch of insertions, on a valid table and a bounded region, with one memory view of less than 2^32 bytes for each
-- key. It never panics, on any path: also when allocations fail, entries are evicted and the extents tried again. The table
-- stays valid and the region bounded, and a completion with one answer per key is queued under the id that is returned.
pub submit_batch_set-Completes :
    (xxh64 : Hash) (clock : ℕ → ℕ) (c : Connector) (keys : List (List ℕ))
    (mvs : List (Option (List ℕ)))
    → IsValid c.table
    → IsBounded c.large_objects
    → AllSmall mvs
    → length mvs ≡ length keys
    → (c' : Connector) × (results : List Bool) × (submit_batch_set xxh64 clock c keys mvs
        ≡ ok (c', c.next_id))
      × IsValid c'.table
      × IsBounded c'.large_objects
      × Completes c c' results
      × (length results ≡ length keys)
unfolding submit_batch_set push_completion
submit_batch_set-Completes xxh64 clock c keys mvs v bounded small same =
    let (t, large, lru, results, full, e, v1, bounded1, counted) =
      set_all-Sets xxh64 clock 0 c.table c.large_objects c.lru keys mvs v bounded small same in
    let c1 : Connector = record c {
      table = t;
      large_objects = large;
      lru = lru;
      next_id = (c.next_id + 1) % 2 ^ 64;
    } in
    elim (Bool-cases full) [
      | inr enough ↦ (
        push_completion c1 c.next_id results,
        results,
        rw (e, ◌>>=◌, enough) refl,
        v1,
        bounded1,
        record { queued = refl; next = refl },
        counted,
      )
      | inl needed ↦
          let (t2, lru2, e2, v2) = evict_if_needed-IsValid t lru v1 in
          let (t3, large3, results3, e3, v3, bounded3, counted3) =
            retry_all-Retries xxh64 keys t2 large v2 bounded1 0 mvs results small
              (omega (arith, counted)) in
          (
            push_completion (record c1 { table = t3; large_objects = large3; lru = lru2 }) c.next_id
                results3,
            results3,
            rw (e, ◌>>=◌, needed, e2, ◌>>=◌, e3, ◌>>=◌) refl,
            v3,
            bounded3,
            record { queued = refl; next = refl },
            counted3 ∙ counted,
          )
    ]

insert-Finds :
    (t : CuckooTable) (k : HashedKey) (bytes : List ℕ)
    → IsValid t
    → k.hash ≢ 0
    → (t' : CuckooTable) × (outcome : Result CuckooError (Unit {0})) × (insert t k bytes inline
        ≡ ok (t', outcome))
      × IsValid t'
      × (succeeded outcome ≡ true → is_bound (view t' k) ≡ true)
unfolding succeeded
insert-Finds t k bytes v nz = elim (insert-Ends t k bytes inline v) [
  | inl (zero_hash, _) ↦ absurd (nz zero_hash)
  | inr (inl (t', e, (v', binds))) ↦ (
    t',
    done tt,
    e,
    v',
    λ s. ap is_bound (binds k nz ∙ if_pos (HashedKey-discrete k k) refl _ (view t k)),
  )
  | inr (inr (t', lost, e, (v', _, _, _))) ↦ (t', err Defs.table_full, e, v', λ s. cc)
]

set_one-inline :
    (xxh64 : Hash) (t : CuckooTable) (large : LargeObjectRegion) (key bytes : List ℕ)
    (t' : CuckooTable) (outcome : Result CuckooError (Unit {0}))
    → insert t (hash_lmcache_key xxh64 key) bytes inline ≡ ok (t', outcome)
    → length bytes ≤ 32
    → set_one xxh64 t large key bytes ≡ ok (t', large, succeeded outcome, false)
unfolding set_one set_inline
set_one-inline xxh64 t large key bytes t' outcome e short =
    elim (Bool-cases (length bytes == 0 && not (length key == 0))) [
      | inl empty ↦ rw (set_one, empty, e, ◌>>=◌) refl
      | inr filled ↦ rw (set_one, filled, le→leb (length bytes) 32 short, e, ◌>>=◌) refl
    ]

-- One key with a non-zero hash and at most 32 bytes, on a valid table: it is set and then read, in two batches. Neither
-- panics, and if the completion of the first says that the key is stored, that of the second says that it is found.
pub submit_batch_get-submit_batch_set :
    (xxh64 : Hash) (clock : ℕ → ℕ) (c : Connector) (key bytes : List ℕ)
    → IsValid c.table
    → xxh64 key 0 ≢ 0
    → length bytes ≤ 32
    → (c' : Connector) × (c'' : Connector) × (stored : Bool) × (found : Bool) × (submit_batch_set
          xxh64 clock c
          (key ∷ [])
          (some bytes ∷ [])
        ≡ ok (c', c.next_id))
      × Completes c c' (stored ∷ [])
      × (submit_batch_get xxh64 c' (key ∷ []) ≡ ok (c'', c'.next_id))
      × Completes c' c'' (found ∷ [])
      × (stored ≡ true → found ≡ true)
unfolding submit_batch_set submit_batch_get push_completion set_all
submit_batch_get-submit_batch_set xxh64 clock c key bytes v nz short =
    let hk : HashedKey = hash_lmcache_key xxh64 key in
    let (t', outcome, e, v', bound) = insert-Finds c.table hk bytes v nz in
    let lru' : LruTracker = record_access c.lru (xxh64 key 0) (clock 0) in
    let c' : Connector =
      push_completion (record c { table = t'; lru = lru'; next_id = (c.next_id + 1) % 2 ^ 64 })
        c.next_id (succeeded outcome ∷ []) in
    (
      c',
      push_completion (record c' { next_id = (c'.next_id + 1) % 2 ^ 64 }) c'.next_id
          (is_bound (view t' hk) ∷ []),
      succeeded outcome,
      is_bound (view t' hk),
      rw (set_one-inline xxh64 c.table c.large_objects key bytes t' outcome e short, ◌>>=◌) refl,
      record { queued = refl; next = refl },
      rw (lookup_all-bound_all xxh64 t' v' (key ∷ []), ◌>>=◌) refl,
      record { queued = refl; next = refl },
      bound,
    )
