-- ===== src/Tests/Reads.antt =====
-- The client's read, and its insertion on a server's table, at fixed inputs: tables of four slots.
use mathlib.Core.Logic.{ite}
use rdmas.Base.{
  ℕ, zero, suc, ◌≡◌, ◌≢◌, refl, ◌⊎◌, true, false, [], ◌∷◌, replicate, Option, none, some, arith,
}
use rdmas.Base.Run.{ok}
use rdmas.Base.Result.{done, is_power_of_two}
use rdmas.Layout.LockWord.{inline}
use rdmas.Layout.Bucket
use rdmas.Layout.Bucket.{HashedKey, HashBucket}
use rdmas.Cuckoo.Defs
use rdmas.Cuckoo.Defs.{CuckooTable, LookupResult, h1, h2, is_live, is_free, lookup}
use rdmas.Cuckoo.View.{slot, IsValid}
use rdmas.Cuckoo.Chain.{HashedKey-discrete}
use rdmas.Cuckoo.New.{fresh, fresh-IsValid}
use rdmas.Client.Write.{Store, inserted, table_full, max_kick, insert}
use rdmas.Client.Write.Plain.{IsPlain, AllPlain}
use rdmas.Client.Write.Kick.{SameEnd, store_of}
use rdmas.Client.Write.Agrees.{insert-agrees}
use rdmas.Client.Read.{get}
use rdmas.Client.Read.Agrees.{fetch, get-lookup}
use rdmas.Client.RoundTrip.{as_written, get-insert}

abbrev key_one : HashedKey
key_one = record { hash = 1; digest = replicate 16 1 }

abbrev table : CuckooTable
table = fresh 4 16

four : is_power_of_two 4 ≡ true
unfolding is_power_of_two
four = refl

valid : IsValid table
valid = fresh-IsValid 4 16 (omega arith) four

nonzero : key_one.hash ≢ 0
nonzero e = omega (arith, e)

IsPlain-zeroed : IsPlain Bucket.zeroed
unfolding Bucket.zeroed Bucket.is_locked Bucket.is_extent rdmas.Layout.LockWord.is_locked
    rdmas.Layout.LockWord.is_extent
IsPlain-zeroed = record { unlocked = refl; inlined = refl; sized = refl }

plain : AllPlain table
unfolding Defs.new
plain zero = IsPlain-zeroed
plain (suc zero) = IsPlain-zeroed
plain (suc (suc zero)) = IsPlain-zeroed
plain (suc (suc (suc zero))) = IsPlain-zeroed
plain (suc (suc (suc (suc i)))) = IsPlain-zeroed

sixteen : table.max_kick ≡ max_kick
unfolding max_kick
sixteen = refl

not_held :
    (is_live (slot table (h1 table 1)) 1 (replicate 16 1) ≡ false)
    × (is_live (slot table (h2 table 1)) 1 (replicate 16 1) ≡ false)
unfolding is_live h1 h2 Bucket.zeroed Bucket.matches_key
not_held = (refl, refl)

get-lookup_example :
    (l : Option LookupResult) × (lookup table key_one ≡ ok l)
    × (get key_one table.buckets none 4 ≡ ok (done (fetch none l)))
get-lookup_example =
    get-lookup table key_one none valid four nonzero (plain (h1 table 1)).unlocked
      (plain (h2 table 1)).unlocked

insert-agrees_example :
    SameEnd 4 none
      (Defs.insert table key_one (7 ∷ []) inline)
      (insert key_one (7 ∷ []) inline (store_of table none) 4)
insert-agrees_example =
    insert-agrees table none key_one (7 ∷ []) valid plain sixteen nonzero not_held.0 not_held.1

get-insert_example :
    (s' : Store) × (((at : ℕ) × (insert key_one (7 ∷ []) inline (store_of table none) 4
          ≡ ok (s', done (inserted at)))
        × ((k : HashedKey)
            → k.hash ≢ 0
            → get k s'.buckets s'.large_objects 4
              ≡ ite
                  (HashedKey-discrete k key_one)
                  (ok (done (some (as_written (7 ∷ [])))))
                  (get k table.buckets none 4)))
      ⊎ ((insert key_one (7 ∷ []) inline (store_of table none) 4 ≡ ok (s', done table_full))
          × (is_free (slot table (h1 table 1)) ≡ false)
          × (is_free (slot table (h2 table 1)) ≡ false)))
get-insert_example =
    get-insert table none key_one (7 ∷ []) valid plain sixteen four nonzero not_held.0 not_held.1
