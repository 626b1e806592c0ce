-- ===== src/Connector/Evictions.antt =====
-- The eviction of the connector keeps the table valid.
use rdmas.Base.{
  ℕ, ◌<◌, ◌/◌, max, replicate, ◌≡◌, refl, inl, inr, Bool, true, false, List, [], ◌∷◌, ◌++◌, ◌==◌,
  length, arith, Bool-cases,
}
use rdmas.Base.Bytes.{to_le_bytes}
use rdmas.Base.Run.{ok, ◌>>=◌}
use rdmas.Layout.Bucket
use rdmas.Layout.Bucket.{HashedKey}
use rdmas.Layout.Bucket.Laws.{mark_tombstone-IsTombstone}
use rdmas.Cuckoo.Defs.{CuckooTable, h1, h2, is_live, delete, find_key_idx, bucket_at}
use rdmas.Cuckoo.View.{slot, IsOccupied, IsValid, h1-lt, h2-lt}
use rdmas.Cuckoo.Put.{put, put-IsValid}
use rdmas.Cuckoo.Slots.{bucket_at-ok, put_bucket-ok}
use rdmas.Lru.{LruTracker, needs_eviction, select_eviction_candidates, increment_evicted}
use rdmas.Connector.{delete_hashes, evict_if_needed}

-- A deletion of any key, also one of hash zero, returns and leaves the table valid.
delete-IsValid :
    (t : CuckooTable) (v : IsValid t) (k : HashedKey)
    → (t' : CuckooTable) × (b : Bool) × (delete t k ≡ ok (t', b)) × IsValid t'
unfolding delete find_key_idx
delete-IsValid t v k = elim (Bool-cases (is_live (slot t (h1 t k.hash)) k.hash k.digest)) [
  | inl live ↦ (
    put t (h1 t k.hash) (Bucket.mark_tombstone (slot t (h1 t k.hash))),
    true,
    rw
        (
          first,
          ◌>>=◌,
          live,
          ◌>>=◌,
          first,
          ◌>>=◌,
          put_bucket-ok t v (h1 t k.hash) (h1-lt t v k.hash)
              (Bucket.mark_tombstone (slot t (h1 t k.hash))),
        )
        refl,
    dead-IsValid (h1 t k.hash) (h1-lt t v k.hash),
  )
  | inr dead ↦ elim (Bool-cases (is_live (slot t (h2 t k.hash)) k.hash k.digest)) [
    | inl live ↦ (
      put t (h2 t k.hash) (Bucket.mark_tombstone (slot t (h2 t k.hash))),
      true,
      rw
          (
            first,
            ◌>>=◌,
            dead,
            second,
            ◌>>=◌,
            live,
            ◌>>=◌,
            second,
            ◌>>=◌,
            put_bucket-ok t v (h2 t k.hash) (h2-lt t v k.hash)
                (Bucket.mark_tombstone (slot t (h2 t k.hash))),
          )
          refl,
      dead-IsValid (h2 t k.hash) (h2-lt t v k.hash),
    )
    | inr dead' ↦ (t, false, rw (first, ◌>>=◌, dead, second, ◌>>=◌, dead') refl, v)
  ]
]
  where
    first : bucket_at t (h1 t k.hash) ≡ ok (slot t (h1 t k.hash))
    first = bucket_at-ok t v (h1 t k.hash) (h1-lt t v k.hash)

    second : bucket_at t (h2 t k.hash) ≡ ok (slot t (h2 t k.hash))
    second = bucket_at-ok t v (h2 t k.hash) (h2-lt t v k.hash)

    gone : (i : ℕ) → IsOccupied (Bucket.mark_tombstone (slot t i)) → ⊥
    gone i occ = let m = mark_tombstone-IsTombstone (slot t i) in ground arith

    dead-IsValid :
        (i : ℕ) → i < t.bucket_count → IsValid (put t i (Bucket.mark_tombstone (slot t i)))
    dead-IsValid i inside =
        put-IsValid t v i (Bucket.mark_tombstone (slot t i)) inside (λ occ. absurd (gone i occ))
          (λ occ. absurd (gone i occ))

delete_hashes-IsValid :
    (hashes : List ℕ) (t : CuckooTable)
    → IsValid t
    → (t' : CuckooTable) × (delete_hashes t hashes ≡ ok t') × IsValid t'
unfolding delete_hashes
delete_hashes-IsValid [] t v = (t, refl, v)
delete_hashes-IsValid (h ∷ hs) t v =
    let (t1, b, e, v1) =
      delete-IsValid t v (record { hash = h; digest = to_le_bytes 8 h ++ replicate 8 0 }) in
    let (t', e', v') = delete_hashes-IsValid hs t1 v1 in (t', rw (e, ◌>>=◌) e', v')

pub evict_if_needed-IsValid :
    (t : CuckooTable) (lru : LruTracker)
    → IsValid t
    → (t' : CuckooTable) × (lru' : LruTracker) × (evict_if_needed t lru ≡ ok (t', lru'))
      × IsValid t'
unfolding evict_if_needed
evict_if_needed-IsValid t lru v = elim (Bool-cases (needs_eviction lru)) [
  | inr calm ↦ (t, lru, rw (evict_if_needed, calm) refl, v)
  | inl needed ↦ elim (Bool-cases (length picked == 0)) [
    | inl none_picked ↦ (t, lru', rw (evict_if_needed, needed, none_picked) refl, v)
    | inr some_picked ↦
        let (t', e, v') = delete_hashes-IsValid picked t v in
        (
          t',
          increment_evicted lru' (length picked),
          rw (evict_if_needed, needed, some_picked, e, ◌>>=◌) refl,
          v',
        )
  ]
]
  where
    lru' : LruTracker
    lru' = (select_eviction_candidates lru (max (lru.key_count / 10) 1)).0

    picked : List ℕ
    picked = (select_eviction_candidates lru (max (lru.key_count / 10) 1)).1
