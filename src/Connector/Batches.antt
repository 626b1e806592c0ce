-- ===== src/Connector/Batches.antt =====
-- The batches of the connector: existence, deletion, eviction, and the order of completions.
use rdmas.Base.{
  ℕ, suc, ◌/◌, ◌==◌, max, ◌≡◌, refl, ap, ◌∙◌, ◌≢◌, ◌⊎◌, inl, inr, Bool, true, false, List, [], ◌∷◌,
  ◌++◌, length, Option, none, some, arith, Bool-cases, drop, replicate, ◌+◌, ◌%◌, ◌^◌,
}
use rdmas.Base.Bytes.{to_le_bytes}
use rdmas.Base.Run.{ok, ◌>>=◌}
use rdmas.Layout.Bucket.{HashedKey}
use rdmas.Cuckoo.Defs.{CuckooTable, delete}
use rdmas.Cuckoo.View.{slot, IsOccupied, IsValid, view, view-inverse}
use mathlib.Core.Logic.{if_pos, if_neg}
use rdmas.Cuckoo.Chain.{HashedKey-discrete}
use rdmas.Cuckoo.Lookup.{lookup-view, delete-Deletes}
use rdmas.Lru.{LruTracker, needs_eviction, select_eviction_candidates, increment_evicted}
use rdmas.Connector.{
  evict_if_needed, Hash, hash_lmcache_key, Connector, lookup_all, submit_batch_exists, delete_all,
  submit_batch_delete, delete_hashes, push_completion,
}

-- Whether a key is bound.
abbrev pub is_bound : {A : Type 0} → Option A → Bool
is_bound none = false
is_bound (some a) = true

-- The bindings of all keys of a batch.
abbrev pub bound_all : Hash → CuckooTable → List (List ℕ) → List Bool
bound_all xxh64 t [] = []
bound_all xxh64 t (key ∷ keys) =
    is_bound (view t (hash_lmcache_key xxh64 key)) ∷ bound_all xxh64 t keys

module _ (xxh64 : Hash) (t : CuckooTable) (v : IsValid t) where
  pub lookup_all-bound_all :
      (keys : List (List ℕ)) → lookup_all xxh64 t keys ≡ ok (bound_all xxh64 t keys)
  unfolding lookup_all
  lookup_all-bound_all [] = refl
  lookup_all-bound_all (key ∷ keys) =
      rw (lookup-view t v (hash_lmcache_key xxh64 key), ◌>>=◌, lookup_all-bound_all keys, ◌>>=◌)
        (ground arith)

-- The completion of a batch, appended to the others, and the next id.
pub record Completes (c c' : Connector) (results : List Bool) : Type 0 where
  pub queued :
      c'.completions
      ≡ c.completions
        ++ (record { future_id = c.next_id; is_ok = true; error = []; per_key_bools = some results }
            ∷ [])
  pub next : c'.next_id ≡ (c.next_id + 1) % 2 ^ 64

-- On a valid table, a batch of existence checks never panics. It leaves the table alone, returns the next id, and
-- queues a completion under that id with one answer per key: whether the table binds it.
submit_batch_exists-bound_all :
    (xxh64 : Hash) (c : Connector) (keys : List (List ℕ))
    → IsValid c.table
    → (c' : Connector) × (submit_batch_exists xxh64 c keys ≡ ok (c', c.next_id))
      × (c'.table ≡ c.table)
      × Completes c c' (bound_all xxh64 c.table keys)
unfolding submit_batch_exists push_completion
submit_batch_exists-bound_all xxh64 c keys v = (
  push_completion (record c { next_id = (c.next_id + 1) % 2 ^ 64 }) c.next_id
      (bound_all xxh64 c.table keys),
  rw (lookup_all-bound_all xxh64 c.table v keys, ◌>>=◌) refl,
  refl,
  record { queued = refl; next = refl },
)

-- One of the keys of a batch.
abbrev pub InBatch : Hash → List (List ℕ) → HashedKey → Type 0
InBatch xxh64 [] k = ⊥
InBatch xxh64 (key ∷ keys) k = (k ≡ hash_lmcache_key xxh64 key) ⊎ InBatch xxh64 keys k

abbrev pub AllNonzero : Hash → List (List ℕ) → Type 0
AllNonzero xxh64 [] = Unit
AllNonzero xxh64 (key ∷ keys) = (xxh64 key 0 ≢ 0) × AllNonzero xxh64 keys

-- The keys of a batch are gone, all others as before.
pub record Clears (xxh64 : Hash) (t : CuckooTable) (keys : List (List ℕ)) (t' : CuckooTable)
    : Type 0 where
  pub valid : IsValid t'
  pub gone : (k : HashedKey) → k.hash ≢ 0 → InBatch xxh64 keys k → view t' k ≡ none
  pub kept : (k : HashedKey) → k.hash ≢ 0 → (InBatch xxh64 keys k → ⊥) → view t' k ≡ view t k

-- One deletion: the key is gone, all others as before.
abbrev OneGone : CuckooTable → HashedKey → CuckooTable → Type 0
OneGone t key t' =
    IsValid t'
    × (view t' key ≡ none)
    × ((k : HashedKey) → k.hash ≢ 0 → k ≢ key → view t' k ≡ view t k)

delete-OneGone :
    (t : CuckooTable) (v : IsValid t) (key : HashedKey)
    → key.hash ≢ 0
    → (t' : CuckooTable) × (b : Bool) × (delete t key ≡ ok (t', b)) × OneGone t key t'
delete-OneGone t v key nz = elim (delete-Deletes t v key nz) [
  | inl (absent, e) ↦ (t, false, e, (v, absent, λ k nzk ne. refl))
  | inr (t', _, e, (v', views)) ↦ (
    t',
    true,
    e,
    (
      v',
      views key nz ∙ if_pos (HashedKey-discrete key key) refl none (view t key),
      λ k nzk ne. views k nzk ∙ if_neg (HashedKey-discrete k key) ne none (view t k),
    ),
  )
]

module _ (xxh64 : Hash) where
  -- A binding that is gone stays so.
  pub record Deleted (t : CuckooTable) (keys : List (List ℕ)) (t' : CuckooTable)
      (results : List Bool) : Type 0 where
    pub clears : Clears xxh64 t keys t'
    pub counted : length results ≡ length keys
    pub stays : (k : HashedKey) → k.hash ≢ 0 → view t k ≡ none → view t' k ≡ none

  delete_all-Deleted :
      (keys : List (List ℕ)) (t : CuckooTable)
      → IsValid t
      → AllNonzero xxh64 keys
      → (t' : CuckooTable) × (results : List Bool) × (delete_all xxh64 t keys ≡ ok (t', results))
        × Deleted t keys t' results
  unfolding delete_all
  delete_all-Deleted [] t v nz = (
    t,
    [],
    refl,
    record {
      clears = record { valid = v; gone = λ k nzk h. absurd h; kept = λ k nzk h. refl };
      counted = refl;
      stays = λ k nzk h. h;
    },
  )
  delete_all-Deleted (key ∷ keys) t v (nz, nzs) =
      let hk : HashedKey = hash_lmcache_key xxh64 key in
      let (t1, b, e, (v1, absent, others)) = delete-OneGone t v (hash_lmcache_key xxh64 key) nz in
      let (t', results, e', d) = delete_all-Deleted keys t1 v1 nzs in
      (
        t',
        b ∷ results,
        rw (e, ◌>>=◌, e', ◌>>=◌) refl,
        record {
          clears = record {
            valid = d.clears.valid;
            gone = λ k nzk h. elim h [
              | inl same ↦ d.stays k nzk (ap (view t1) same ∙ absent)
              | inr later ↦ d.clears.gone k nzk later
            ];
            kept = λ k nzk h.
                d.clears.kept k nzk (λ l. h (inr l)) ∙ others k nzk (λ same. h (inl same));
          };
          counted = ap suc d.counted;
          stays = λ k nzk none_before. d.stays k nzk (elim (HashedKey-discrete k hk) [
            | yes same ↦ ap (view t1) same ∙ absent
            | no ne ↦ others k nzk ne ∙ none_before
          ]);
        },
      )

-- On a valid table, a batch of deletions of keys with non-zero hashes never panics. Afterwards the table is valid, none of
-- the keys is bound, and every other key with a non-zero hash is bound as before. A completion with one answer per key is
-- queued under the id that is returned.
pub submit_batch_delete-Clears :
    (xxh64 : Hash) (c : Connector) (keys : List (List ℕ))
    → IsValid c.table
    → AllNonzero xxh64 keys
    → (c' : Connector) × (results : List Bool) × (submit_batch_delete xxh64 c keys
        ≡ ok (c', c.next_id))
      × Clears xxh64 c.table keys c'.table
      × Completes c c' results
      × (length results ≡ length keys)
unfolding submit_batch_delete push_completion
submit_batch_delete-Clears xxh64 c keys v nzs =
    let (t', results, e, d) = delete_all-Deleted xxh64 keys c.table v nzs in
    (
      push_completion (record c { table = t'; next_id = (c.next_id + 1) % 2 ^ 64 }) c.next_id
          results,
      results,
      rw (e, ◌>>=◌) refl,
      d.clears,
      record { queued = refl; next = refl },
      d.counted,
    )

-- Hashes of keys, none of them zero.
abbrev pub NonzeroHashes : List ℕ → Type 0
NonzeroHashes [] = Unit
NonzeroHashes (h ∷ hs) = (h ≢ 0) × NonzeroHashes hs

-- A digest whose second half is the hash of a key under the second seed, and not zero.
abbrev pub HasDigests : CuckooTable → Type 0
HasDigests t = (i : ℕ) → IsOccupied (slot t i) → drop 8 (slot t i).key_or_digest ≢ replicate 8 0

-- The loop of the eviction looks for keys whose digest ends in zeros. On a valid table whose keys all have another
-- second half of the digest, it deletes nothing, whatever the candidates are.
pub delete_hashes-idle :
    (t : CuckooTable) (hashes : List ℕ)
    → IsValid t
    → HasDigests t
    → NonzeroHashes hashes
    → delete_hashes t hashes ≡ ok t
unfolding delete_hashes
delete_hashes-idle t [] v digests nz = refl
delete_hashes-idle t (h ∷ hs) v digests (nz, nzs) = elim (delete-Deletes t v k nz) [
  | inl (absent, e) ↦ rw (e, ◌>>=◌) (delete_hashes-idle t hs v digests nzs)
  | inr (t', bound, e, _) ↦ elim (view-inverse t k nz) [
    | inl absent ↦ absurd (bound absent)
    | inr (i, place, occ, same, _) ↦
        absurd (digests i occ (ap (λ (x : HashedKey). drop 8 x.digest) same))
  ]
]
  where
    k : HashedKey
    k = record { hash = h; digest = to_le_bytes 8 h ++ replicate 8 0 }

-- The eviction of a connector whose table is valid and holds only keys with digests whose second half is not zero, with
-- candidates of non-zero hashes: it frees no slot, the table is the one before.
pub evict_if_needed-idle :
    (t : CuckooTable) (lru : LruTracker)
    → IsValid t
    → HasDigests t
    → NonzeroHashes (select_eviction_candidates lru (max (lru.key_count / 10) 1)).1
    → (lru' : LruTracker) × (evict_if_needed t lru ≡ ok (t, lru'))
unfolding evict_if_needed
evict_if_needed-idle t lru v digests nzs = elim (Bool-cases (needs_eviction lru)) [
  | inr calm ↦ (lru, rw (evict_if_needed, calm) refl)
  | inl needed ↦ elim (Bool-cases (length picked == 0)) [
    | inl none_picked ↦ (lru', rw (evict_if_needed, needed, none_picked) refl)
    | inr some_picked ↦ (
      increment_evicted lru' (length picked),
      rw (evict_if_needed, needed, some_picked, delete_hashes-idle t picked v digests nzs, ◌>>=◌)
          refl,
    )
  ]
]
  where
    lru' : LruTracker
    lru' = (select_eviction_candidates lru (max (lru.key_count / 10) 1)).0

    picked : List ℕ
    picked = (select_eviction_candidates lru (max (lru.key_count / 10) 1)).1
