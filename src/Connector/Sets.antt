-- ===== src/Connector/Sets.antt =====
-- The batch of insertions of the connector: what it keeps, on every path through it.
use rdmas.Base.{
  ℕ, suc, ◌^◌, ◌<◌, ◌≡◌, refl, ap, inl, inr, Bool, true, false, not, ◌&&◌, ◌||◌, List, [], ◌∷◌,
  ◌==◌, ==_ne, leb, length, Option, arith, Bool-cases, ℕ_discrete,
}
use rdmas.Base.Run.{Run, ok, ◌>>=◌}
use rdmas.Base.Result.{Result, done, err}
use rdmas.Layout.LockWord.{inline}
use rdmas.Layout.Bucket.{HashedKey}
use rdmas.Cuckoo.Defs
use rdmas.Cuckoo.Defs.{
  CuckooTable, CuckooError, Entry, h1, h2, is_live, delete, find_key_idx, bucket_at, insert,
  insert_extent,
}
use rdmas.Cuckoo.View.{IsValid}
use rdmas.Cuckoo.Chain.{Ends}
use rdmas.Cuckoo.Insert.{insert-Ends, insert_raw-Ends}
use rdmas.Extent.Region.{LargeObjectRegion}
use rdmas.Extent.Region.Blocks.{IsBounded}
use rdmas.Extent.Region.Laws.{allocate-Allocates}
use rdmas.Lru.{LruTracker, record_access}
use rdmas.Connector.{
  Hash, hash_lmcache_key, succeeded, set_inline, set_extent, set_one, bytes_or_empty, set_all,
}

-- A call on the table that returns, and leaves it valid.
abbrev pub Returns : Run (CuckooTable × Result CuckooError (Unit {0})) → Type 0
Returns r =
    (t' : CuckooTable) × (outcome : Result CuckooError (Unit {0})) × (r ≡ ok (t', outcome))
    × IsValid t'

Returns-of_Ends :
    (t : CuckooTable) (e : Entry) (r : Run (CuckooTable × Result CuckooError (Unit {0})))
    → Ends t e r
    → Returns r
Returns-of_Ends t e r (inl (t', eq, (v, _))) = (t', done tt, eq, v)
Returns-of_Ends t e r (inr (t', lost, eq, (v, _, _, _))) = (t', err _, eq, v)

insert-Returns :
    (t : CuckooTable) (k : HashedKey) (bytes : List ℕ)
    → IsValid t
    → Returns (insert t k bytes inline)
insert-Returns t k bytes v = elim (insert-Ends t k bytes inline v) [
  | inl (_, e) ↦ (t, err _, e, v)
  | inr ends ↦ Returns-of_Ends t _ (insert t k bytes inline) ends
]

pub insert_extent-Returns :
    (t : CuckooTable) (k : HashedKey) (offset size : ℕ)
    → IsValid t
    → Returns (insert_extent t k offset size)
unfolding insert_extent
insert_extent-Returns t k offset size v = elim (ℕ_discrete k.hash 0) [
  | yes zero_hash ↦ (t, err Defs.invalid_key, rw zero_hash refl, v)
  | no nz ↦ rw (==_ne k.hash 0 nz) (Returns-of_Ends t _ _ (insert_raw-Ends t v _ nz))
]

-- The two stores of the connector, and an answer for a key.
abbrev Sets : Run (CuckooTable × LargeObjectRegion × Bool × Bool) → Type 0
Sets r =
    (t' : CuckooTable) × (large' : LargeObjectRegion) × (result : Bool) × (full : Bool) × (r
      ≡ ok (t', large', result, full))
    × IsValid t'
    × IsBounded large'

-- A length that 32 bits hold, in every memory view that is given.
abbrev pub AllSmall : List (Option (List ℕ)) → Type 0
AllSmall [] = Unit
AllSmall (mv ∷ mvs) = (length (bytes_or_empty mv) < 2 ^ 32) × AllSmall mvs

module _ (xxh64 : Hash) where
  module _ (t : CuckooTable) (large : LargeObjectRegion) (v : IsValid t) (bounded : IsBounded large)
      (bytes : List ℕ) where
    set_inline-Sets : (k : HashedKey) → Sets (set_inline t large k bytes)
    unfolding set_inline
    set_inline-Sets k =
        let (t', outcome, e, v') = insert-Returns t k bytes v in
        (t', large, succeeded outcome, false, rw (e, ◌>>=◌) refl, v', bounded)

    set_extent-Sets : length bytes < 2 ^ 32 → (k : HashedKey) → Sets (set_extent t large k bytes)
    unfolding set_extent
    set_extent-Sets small k = elim (allocate-Allocates large bytes bounded small) [
      | inl (e, _, _) ↦ (t, large, false, true, rw (e, ◌>>=◌) refl, v, bounded)
      | inr (large', o, e, bounded', _, _, _) ↦
          let (t', outcome, e', v') = insert_extent-Returns t k o (length bytes) v in
          (t', large', succeeded outcome, false, rw (e, ◌>>=◌, e', ◌>>=◌) refl, v', bounded')
    ]

    set_one-Sets : length bytes < 2 ^ 32 → (key : List ℕ) → Sets (set_one xxh64 t large key bytes)
    unfolding set_one
    set_one-Sets small key = elim (Bool-cases (length bytes == 0 && not (length key == 0))) [
      | inl empty ↦ rw (set_one, empty) (set_inline-Sets (hash_lmcache_key xxh64 key))
      | inr filled ↦ elim (Bool-cases (leb (length bytes) 32)) [
        | inl short ↦ rw (set_one, filled, short) (set_inline-Sets (hash_lmcache_key xxh64 key))
        | inr long ↦ rw (set_one, filled, long) (set_extent-Sets small (hash_lmcache_key xxh64 key))
      ]
    ]

  -- The first loop, with one answer for each key that has a memory view.
  pub set_all-Sets :
      (clock : ℕ → ℕ) (i : ℕ) (t : CuckooTable) (large : LargeObjectRegion) (lru : LruTracker)
      (keys : List (List ℕ)) (mvs : List (Option (List ℕ)))
      → IsValid t
      → IsBounded large
      → AllSmall mvs
      → length mvs ≡ length keys
      → (t' : CuckooTable) × (large' : LargeObjectRegion) × (lru' : LruTracker) × (results : List
          Bool)
        × (full : Bool) × (set_all xxh64 clock i t large lru keys mvs
            ≡ ok (t', large', lru', results, full))
        × IsValid t'
        × IsBounded large'
        × (length results ≡ length keys)
  unfolding set_all
  set_all-Sets clock i t large lru [] mvs v bounded small same =
      (t, large, lru, [], false, refl, v, bounded, refl)
  set_all-Sets clock i t large lru (key ∷ keys) [] v bounded small same = absurd (omega arith)
  set_all-Sets clock i t large lru (key ∷ keys) (mv ∷ mvs) v bounded (small, smalls) same =
      let (t1, large1, result, full, e, v1, bounded1) =
        set_one-Sets t large v bounded (bytes_or_empty mv) small key in
      let (t2, large2, lru2, results, full', e', v2, bounded2, counted) =
        set_all-Sets clock (suc i) t1 large1 (record_access lru (xxh64 key 0) (clock i)) keys mvs v1
          bounded1 smalls (omega (arith, same)) in
      (
        t2,
        large2,
        lru2,
        result ∷ results,
        full || full',
        rw (e, ◌>>=◌, e', ◌>>=◌) refl,
        v2,
        bounded2,
        ap suc counted,
      )
