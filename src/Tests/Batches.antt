-- ===== src/Tests/Batches.antt =====
-- Batches of the connector at fixed inputs: a table of four slots, a region of 64 bytes, the hash that counts bytes.
use rdmas.Base.{
  ℕ, zero, suc, ◌+◌, ◌^◌, ◌<◌, ◌≡◌, ◌≢◌, refl, true, false, Bool, List, [], ◌∷◌, ◌++◌, length, some,
  arith, replicate, get_or, subst, sym, inl, inr, ap,
}
use rdmas.Base.Run.{ok}
use rdmas.Base.Result.{is_power_of_two}
use rdmas.Layout.Bucket
use rdmas.Cuckoo.Defs
use rdmas.Layout.LockWord
use rdmas.Layout.LockWord.{inline}
use rdmas.Layout.Bucket.{HashedKey}
use rdmas.Base.Result.{done}
use rdmas.Cuckoo.Insert.{entry, insert-Ends}
use rdmas.Cuckoo.Lookup.{Ends-Binds}
use rdmas.Cuckoo.Defs.{CuckooTable, insert}
use rdmas.Cuckoo.View.{IsOccupied, IsValid}
use rdmas.Cuckoo.New.{fresh, fresh-IsValid}
use rdmas.Extent.Region
use rdmas.Extent.Region.Blocks.{IsBounded}
use rdmas.Lru
use rdmas.Lru.{LruTracker, record_access, select_eviction_candidates}
use rdmas.Connector.{
  Connector, Hash, submit_batch_get, submit_batch_set, submit_batch_delete, evict_if_needed,
  bytes_or_empty,
}
use rdmas.Connector.Batches.{
  Completes, Clears, submit_batch_delete-Clears, HasDigests, evict_if_needed-idle, NonzeroHashes,
}
use rdmas.Connector.SubmitSet.{submit_batch_set-Completes, submit_batch_get-submit_batch_set}

-- A hash of four slots: the length, and the seed.
abbrev len_hash : Hash
len_hash key seed = length key + seed

abbrev connector : Connector
connector = record {
  table = fresh 4 16;
  large_objects = Region.new 64;
  next_id = 1;
  completions = [];
  shutdown = false;
  closed = false;
  closes = 0;
  lru = Lru.new 1000;
}

four : is_power_of_two 4 ≡ true
unfolding is_power_of_two
four = refl

valid : IsValid connector.table
valid = fresh-IsValid 4 16 (omega arith) four

bounded : IsBounded connector.large_objects
unfolding Region.new
bounded = record { sized = refl; free_inside = tt; bump_inside = omega arith }

abbrev clock : ℕ → ℕ
clock i = 100 + i

abbrev name : List ℕ
name = 65 ∷ 66 ∷ []

nonzero : len_hash name 0 ≢ 0
nonzero e = omega (arith, e)

submit_batch_delete-Clears_example :
    (c' : Connector) × (results : List Bool) × (submit_batch_delete len_hash connector (name ∷ [])
      ≡ ok (c', 1))
    × Clears len_hash connector.table (name ∷ []) c'.table
    × Completes connector c' results
    × (length results ≡ 1)
submit_batch_delete-Clears_example =
    submit_batch_delete-Clears len_hash connector (name ∷ []) valid (nonzero, tt)

small :
    (length (bytes_or_empty (some (replicate 40 7))) < 2 ^ 32)
    × (length (bytes_or_empty (some (1 ∷ 2 ∷ []))) < 2 ^ 32)
unfolding bytes_or_empty
small = (omega arith, omega arith)

-- Forty bytes do not fit into the region, so that there is a second attempt.
submit_batch_set-Completes_example :
    (c' : Connector) × (results : List Bool) × (submit_batch_set len_hash clock connector
        (name ∷ (7 ∷ []) ∷ [])
        (some (replicate 40 7) ∷ some (1 ∷ 2 ∷ []) ∷ [])
      ≡ ok (c', 1))
    × IsValid c'.table
    × IsBounded c'.large_objects
    × Completes connector c' results
    × (length results ≡ 2)
submit_batch_set-Completes_example =
    submit_batch_set-Completes len_hash clock connector (name ∷ (7 ∷ []) ∷ [])
      (some (replicate 40 7) ∷ some (1 ∷ 2 ∷ []) ∷ []) valid bounded (small.0, (small.1, tt)) refl

submit_batch_get-submit_batch_set_example :
    (c' : Connector) × (c'' : Connector) × (stored : Bool) × (found : Bool) × (submit_batch_set
        len_hash clock connector
        (name ∷ [])
        (some (1 ∷ 2 ∷ []) ∷ [])
      ≡ ok (c', 1))
    × Completes connector c' (stored ∷ [])
    × (submit_batch_get len_hash c' (name ∷ []) ≡ ok (c'', c'.next_id))
    × Completes c' c'' (found ∷ [])
    × (stored ≡ true → found ≡ true)
submit_batch_get-submit_batch_set_example =
    submit_batch_get-submit_batch_set len_hash clock connector name (1 ∷ 2 ∷ []) valid nonzero
      (omega arith)

-- A table that holds `name`, and a tracker of one key over a watermark of zero.
abbrev holding : CuckooTable
holding = record {
  buckets =
      Bucket.zeroed
      ∷ Bucket.zeroed
      ∷ record {
        lock_version = 0;
        key_hash = 2;
        key_or_digest = 2 ∷ (replicate 7 0 ++ (3 ∷ replicate 7 0));
        body = replicate 32 7;
      }
      ∷ Bucket.zeroed
      ∷ [];
  bucket_count = 4;
  max_kick = 16;
}

abbrev tracker : LruTracker
tracker = record {
  accesses = (2, 30) ∷ [];
  last_access = [];
  key_count = 1;
  watermark = 0;
  evicted = 0;
}

abbrev key_two : HashedKey
key_two = record { hash = 2; digest = 2 ∷ (replicate 7 0 ++ (3 ∷ replicate 7 0)) }

stored : insert (fresh 4 16) key_two (replicate 32 7) inline ≡ ok (holding, done tt)
unfolding insert Defs.h1 Defs.is_live Bucket.matches_key Bucket.zeroed Defs.h2 Defs.is_free
    Bucket.is_empty Bucket.is_tombstone LockWord.is_tombstone Defs.bucket_of Defs.pack_body
stored = refl

IsValid-holding : IsValid holding
IsValid-holding = elim (insert-Ends (fresh 4 16) key_two (replicate 32 7) inline valid) [
  | inl (zero_hash, _) ↦ absurd (omega (arith, zero_hash))
  | inr ends ↦
      (Ends-Binds (fresh 4 16) holding (entry key_two (replicate 32 7) inline)
        (insert (fresh 4 16) key_two (replicate 32 7) inline) ends stored).0
]

blank : IsOccupied Bucket.zeroed → ⊥
unfolding Bucket.zeroed
blank e = cc

digests : HasDigests holding
digests zero occ = absurd (blank occ)
digests (suc zero) occ = absurd (blank occ)
digests (suc (suc zero)) occ = λ e. omega (arith, ap (λ (l : List ℕ). get_or l 0 0) e)
digests (suc (suc (suc zero))) occ = absurd (blank occ)
digests (suc (suc (suc (suc i)))) occ = absurd (blank occ)

candidates : (select_eviction_candidates tracker 1).1 ≡ 2 ∷ []
unfolding select_eviction_candidates
candidates = refl

evict_if_needed-idle_example :
    (lru' : LruTracker) × (evict_if_needed holding tracker ≡ ok (holding, lru'))
evict_if_needed-idle_example =
    evict_if_needed-idle holding tracker IsValid-holding digests
      (subst (λ l. NonzeroHashes l) (sym candidates) ((λ e. omega (arith, e)), tt))
