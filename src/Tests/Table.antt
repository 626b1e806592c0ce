-- ===== src/Tests/Table.antt =====
-- The cuckoo table at fixed inputs: a table of four slots and keys of hash 1, 5 and 9.
use mathlib.Core.Logic.{ite}
use mathlib.Core.Option
use rdmas.Base.{
  ℕ, zero, suc, ◌≡◌, ◌≢◌, refl, ◌⊎◌, inl, inr, true, false, [], ◌∷◌, replicate, none, some, arith,
}
use rdmas.Base.Run.{ok}
use rdmas.Base.Result.{done, err, is_power_of_two}
use rdmas.Layout.LockWord.{BucketMode, inline, extent}
use rdmas.Layout.Bucket
use rdmas.Layout.Bucket.{HashedKey, HashBucket}
use rdmas.Cuckoo.Defs.{
  CuckooTable, CuckooError, invalid_key, LookupResult, new, h1, insert, lookup, delete, pack_body,
  is_live,
}
use rdmas.Cuckoo.View.{slot, IsValid, view}
use rdmas.Cuckoo.Chain.{HashedKey-discrete, Ends}
use rdmas.Cuckoo.Insert.{entry, insert-Ends}
use rdmas.Cuckoo.Lookup.{found, lookup-view, Ends-Binds, lookup-insert, Deletes, delete-Deletes}
use rdmas.Cuckoo.New.{fresh, fresh-IsValid}

abbrev key_one : HashedKey
key_one = record { hash = 1; digest = replicate 16 1 }

abbrev key_five : HashedKey
key_five = record { hash = 5; digest = replicate 16 5 }

abbrev empty_table : CuckooTable
empty_table = fresh 4 8

four : is_power_of_two 4 ≡ true
unfolding is_power_of_two
four = refl

IsValid-empty : IsValid empty_table
IsValid-empty = fresh-IsValid 4 8 (omega arith) four

abbrev bucket_one : HashBucket
bucket_one = record {
  lock_version = 0;
  key_hash = 1;
  key_or_digest = replicate 16 1;
  body = 7 ∷ 8 ∷ replicate 30 0;
}

abbrev one_key : CuckooTable
one_key = record {
  buckets = Bucket.zeroed ∷ bucket_one ∷ Bucket.zeroed ∷ Bucket.zeroed ∷ [];
  bucket_count = 4;
  max_kick = 8;
}

inserted : insert empty_table key_one (7 ∷ 8 ∷ []) inline ≡ ok (one_key, done tt)
unfolding insert h1 is_live Bucket.matches_key Bucket.zeroed rdmas.Cuckoo.Defs.h2
    rdmas.Cuckoo.Defs.is_free Bucket.is_empty Bucket.is_tombstone rdmas.Layout.LockWord.is_tombstone
    rdmas.Cuckoo.Defs.bucket_of pack_body
inserted = refl

live_one : is_live (slot one_key (h1 one_key 1)) 1 (replicate 16 1) ≡ true
unfolding h1 is_live Bucket.matches_key Bucket.is_tombstone rdmas.Layout.LockWord.is_tombstone
live_one = refl

one_nonzero : key_one.hash ≢ 0
one_nonzero e = omega arith

five_nonzero : key_five.hash ≢ 0
five_nonzero e = omega arith

IsValid-one : IsValid one_key
IsValid-one = elim (insert-Ends empty_table key_one (7 ∷ 8 ∷ []) inline IsValid-empty) [
  | inl (zero_hash, _) ↦ absurd (one_nonzero zero_hash)
  | inr ends ↦
      (Ends-Binds empty_table one_key (entry key_one (7 ∷ 8 ∷ []) inline)
        (insert empty_table key_one (7 ∷ 8 ∷ []) inline) ends inserted).0
]

insert-Ends_example :
    ((key_five.hash ≡ 0)
      × (insert one_key key_five (3 ∷ []) inline ≡ ok (one_key, err invalid_key)))
    ⊎ Ends one_key (entry key_five (3 ∷ []) inline) (insert one_key key_five (3 ∷ []) inline)
insert-Ends_example = insert-Ends one_key key_five (3 ∷ []) inline IsValid-one

lookup-view_example : lookup one_key key_one ≡ ok (Option.map found (view one_key key_one))
lookup-view_example = lookup-view one_key IsValid-one key_one

lookup-insert_example :
    lookup one_key key_five
    ≡ ite
        (HashedKey-discrete key_five key_one)
        (ok (some (found (pack_body (7 ∷ 8 ∷ []) inline, inline))))
        (lookup empty_table key_five)
lookup-insert_example =
    lookup-insert empty_table one_key key_one (7 ∷ 8 ∷ []) inline IsValid-empty one_nonzero inserted
      key_five five_nonzero

delete-Deletes_example :
    ((view one_key key_one ≡ none) × (delete one_key key_one ≡ ok (one_key, false)))
    ⊎ ((t' : CuckooTable) × (view one_key key_one ≢ none)
        × (delete one_key key_one ≡ ok (t', true))
        × Deletes one_key key_one t')
delete-Deletes_example = delete-Deletes one_key IsValid-one key_one one_nonzero

no_marks :
    (b : HashBucket)
    → b.lock_version ≡ 0
    → (Bucket.is_locked b ≡ false) × (Bucket.is_tombstone b ≡ false)
unfolding Bucket.is_locked Bucket.is_tombstone rdmas.Layout.LockWord.is_locked
    rdmas.Layout.LockWord.is_tombstone
no_marks b e = (rw e, rw e)

unmarked : (i : ℕ) → (slot one_key i).lock_version ≡ 0
unfolding Bucket.zeroed
unmarked zero = refl
unmarked (suc zero) = refl
unmarked (suc (suc zero)) = refl
unmarked (suc (suc (suc zero))) = refl
unmarked (suc (suc (suc (suc i)))) = refl

quiet_one :
    (i : ℕ)
    → (Bucket.is_locked (slot one_key i) ≡ false) × (Bucket.is_tombstone (slot one_key i) ≡ false)
quiet_one i = no_marks (slot one_key i) (unmarked i)
