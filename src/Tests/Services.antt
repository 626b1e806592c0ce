-- ===== src/Tests/Services.antt =====
-- The lock protocol, the slab allocator and the replication at fixed inputs.
use rdmas.Base.{
  ℕ, ◌≡◌, ◌^◌, ◌%◌, ◌+◌, ◌-◌, ◌<◌, ◌≤◌, ◌≢◌, ◌⊎◌, ◌↔◌, refl, Bool, true, false, List, [], ◌∷◌, ◌++◌,
  replicate, Option, none, some, arith,
}
use rdmas.Base.Result.{done}
use rdmas.Layout.LockWord.{BucketMode, inline, extent, is_locked, is_extent, version, lease_ts}
use rdmas.Layout.Bucket
use rdmas.Layout.Bucket.{HashBucket}
use rdmas.Cuckoo.Defs.{Entry}
use rdmas.Concurrency.Lock.{stamped, Round, try_acquire_lock, released, is_held}
use rdmas.Concurrency.Occ.{ReadGuard, optimistic_read, verify_read}
use rdmas.Concurrency.Words.{verify_read-write}
use rdmas.Concurrency.Acquire.{Refuses, Acquires, AllRaced, try_acquire_lock-ends}
use rdmas.Concurrency.Exclusion.{
  System, outside, seen, checked, ready, holding, load, check, stamp, take, Reach, start, later,
  move,
}
use rdmas.Concurrency.Safety.{mutual_exclusion}

abbrev plain : HashBucket
plain = record {
  lock_version = 0;
  key_hash = 3;
  key_or_digest = replicate 16 3;
  body = replicate 32 1;
}

abbrev plain_guard : ReadGuard
plain_guard = record {
  version = 0;
  key_hash = 3;
  key_or_digest = replicate 16 3;
  body = replicate 32 1;
  lock_version = 0;
}

plain_read : optimistic_read plain ≡ done plain_guard
unfolding optimistic_read Bucket.is_locked rdmas.Layout.LockWord.is_locked version
plain_read = refl

verify_read-write_example :
    (verify_read plain_guard (stamped 0 77 inline) ≡ false)
    × (verify_read plain_guard (released inline (version 0)) ≡ false)
verify_read-write_example = verify_read-write plain plain_guard 77 inline plain_read

first_version : version 0 ≡ 0
unfolding version
first_version = refl

abbrev other_entry : Entry
other_entry = record { hash = 9; digest = replicate 16 9; body = replicate 32 2; mode = extent }

abbrev two_rounds : List Round
two_rounds =
    record { checked = 10; stamp = 11; raced = some 4294967296 }
    ∷ record { checked = 12; stamp = 13; raced = none }
    ∷ []

try_acquire_lock-ends_example :
    Refuses two_rounds (try_acquire_lock two_rounds 0 inline)
    ⊎ Acquires two_rounds inline (try_acquire_lock two_rounds 0 inline)
    ⊎ ((last : ℕ) × (try_acquire_lock two_rounds 0 inline ≡ (last, none)) × AllRaced two_rounds)
try_acquire_lock-ends_example = try_acquire_lock-ends two_rounds 0 inline

abbrev s0 : System
s0 = record { word = 0; clock = 5; phase = λ _. outside }

abbrev s1 : System
s1 = record s0 { phase = move s0.phase 1 (seen 0) }

abbrev s2 : System
s2 = record s1 { phase = move s1.phase 1 (checked 0) }

abbrev s3 : System
s3 = record s2 { phase = move s2.phase 1 (ready 0 5) }

abbrev s4 : System
s4 = record s3 { word = stamped 0 5 inline; phase = move s3.phase 1 (holding 5) }

free_word : is_held 0 5 ≡ false
unfolding is_held
free_word = refl

zero_word : (is_locked 0 ≡ false) × (lease_ts 0 ≤ 5)
unfolding is_locked lease_ts
zero_word = (refl, omega arith)

Reach-four : Reach inline s0 s4
unfolding rdmas.Base.ℕ_discrete
Reach-four =
    later (later (later (later start (load 1 refl)) (check 1 refl free_word)) (stamp 1 refl))
      (take 1 refl refl (omega arith))

one_holds : s4.phase 1 ≡ holding 5
unfolding rdmas.Base.ℕ_discrete
one_holds = refl

mutual_exclusion_example : ◌≡◌ {A = ℕ} 1 1
mutual_exclusion_example =
    mutual_exclusion inline 0 5 (omega arith) zero_word.0 zero_word.1 s4 Reach-four 1 1 5 5
      one_holds one_holds

-- A bucket of version 2 in extent mode, locked at 5.
abbrev locked_bucket : HashBucket
locked_bucket = record plain { lock_version = 0x200000505 }
