-- ===== src/Client/Write/Agrees.antt =====
-- The client's insertion and the server's, on one table of inline entries.
use rdmas.Base.{
  ℕ, ◌<◌, ◌≡◌, refl, ap, ◌∙◌, ◌≢◌, inl, inr, true, false, List, Option, arith, Bool-cases, length,
  lt→ltb, ltb, ==_ne, take, min, replicate, drop, length-append, length-take, length-drop, ◌+◌,
}
use rdmas.Base.Run.{ok, ◌>>=◌}
use rdmas.Base.Result.{done}
use rdmas.Layout.LockWord.{inline}
use rdmas.Layout.Bucket.{HashedKey}
use rdmas.Extent.Region.{LargeObjectRegion}
use rdmas.Cuckoo.Defs
use rdmas.Cuckoo.Defs.{CuckooTable, Outcome, Entry, h1, h2, is_live, is_free, bucket_of, pack_body}
use rdmas.Cuckoo.View.{slot, IsValid, h1-lt, h2-lt}
use rdmas.Cuckoo.Chain.{placed_at, IsOccupied-of_taken}
use rdmas.Cuckoo.Insert.{entry, IsAbsent-of_dead, raw_free, raw_free_second, raw_kick}
use rdmas.Client.Write.{
  Store, inserted, first_slot, second_slot, inline_body, max_kick, insert, try_insert_at,
  kick_chain,
}
use rdmas.Client.Write.Laws.{try-free, try-taken}
use rdmas.Client.Write.Plain.{AllPlain, AllPlain-placed, IsPlainEntry}
use rdmas.Client.Write.Kick.{SameEnd, store_of, kick_chain-agrees}

pub length-inline_body : (value : List ℕ) → length (inline_body value) ≡ 32
unfolding inline_body
length-inline_body value =
    let start : List ℕ = take (min (length value) 32) value in
    let rest : List ℕ = drop (0 + length start) (replicate 32 0) in
    omega (
      arith,
      length-append start rest,
      length-take (min (length value) 32) value,
      length-drop {A = ℕ} (0 + length start) (replicate 32 0),
    )

same_body : (value : List ℕ) → inline_body value ≡ pack_body value inline
unfolding inline_body pack_body
same_body value = refl

pub IsPlainEntry-entry : (key : HashedKey) (value : List ℕ) → IsPlainEntry (entry key value inline)
unfolding pack_body inline_body
IsPlainEntry-entry key value = record { mode = refl; full = length-inline_body value }

module _ (t : CuckooTable) (v : IsValid t) (plain : AllPlain t)
    (large_objects : Option LargeObjectRegion) (key : HashedKey) (value : List ℕ) where
  abbrev pub s : Store
  s = store_of t large_objects

  try_free :
      (i : ℕ)
      → i < t.bucket_count
      → is_free (slot t i) ≡ true
      → try_insert_at key value inline s i
        ≡ ok (store_of (placed_at t i (entry key value inline)) large_objects, done true)
  unfolding is_free bucket_of pack_body inline_body
  try_free i inside free =
      try-free key value s i (omega (arith, v.sized, inside)) (plain i).unlocked free

  try_taken :
      (i : ℕ)
      → i < t.bucket_count
      → is_free (slot t i) ≡ false
      → try_insert_at key value inline s i ≡ ok (s, done false)
  unfolding is_free
  try_taken i inside taken =
      try-taken key value s i (omega (arith, v.sized, inside)) (ground (arith, taken))

  some_slots : ltb 0 t.bucket_count ≡ true
  some_slots = lt→ltb 0 t.bucket_count (omega (arith, v.even, v.half_pos))

  in1 : first_slot t.bucket_count key.hash < t.bucket_count
  unfolding h1 first_slot
  in1 = h1-lt t v key.hash

  in2 : second_slot t.bucket_count key.hash < t.bucket_count
  unfolding h2 second_slot
  in2 = h2-lt t v key.hash

  pub client_first :
      is_free (slot t (h1 t key.hash)) ≡ true
      → insert key value inline s t.bucket_count
        ≡ ok (
          store_of (placed_at t (h1 t key.hash) (entry key value inline)) large_objects,
          done (inserted (h1 t key.hash)),
        )
  unfolding insert h1 first_slot
  client_first free =
      rw (some_slots, ◌>>=◌, try_free (first_slot t.bucket_count key.hash) in1 free, ◌>>=◌) refl

  module _ (taken : is_free (slot t (h1 t key.hash)) ≡ false) where
    pub client_second :
        is_free (slot t (h2 t key.hash)) ≡ true
        → insert key value inline s t.bucket_count
          ≡ ok (
            store_of (placed_at t (h2 t key.hash) (entry key value inline)) large_objects,
            done (inserted (h2 t key.hash)),
          )
    unfolding insert h1 h2 first_slot second_slot
    client_second free =
        rw
          (
            some_slots,
            ◌>>=◌,
            try_taken (first_slot t.bucket_count key.hash) in1 taken,
            ◌>>=◌,
            try_free (second_slot t.bucket_count key.hash) in2 free,
            ◌>>=◌,
          )
          refl

    client_kick :
        is_free (slot t (h2 t key.hash)) ≡ false
        → insert key value inline s t.bucket_count
          ≡ kick_chain max_kick t.bucket_count key.hash key.digest value inline s (h1 t key.hash)
    unfolding insert h1 h2 first_slot second_slot
    client_kick taken' =
        rw
          (
            some_slots,
            ◌>>=◌,
            try_taken (first_slot t.bucket_count key.hash) in1 taken,
            ◌>>=◌,
            try_taken (second_slot t.bucket_count key.hash) in2 taken',
            ◌>>=◌,
          )
          refl

-- On a valid table of inline entries, none of them locked, with the server's bound of 16 on kicks, the client's inline
-- insertion of a key with a non-zero hash that the table does not hold does what the server's does: both succeed and
-- leave the same buckets, or both report a full table and leave the same buckets.
pub insert-agrees :
    (t : CuckooTable) (large_objects : Option LargeObjectRegion) (key : HashedKey) (value : List ℕ)
    → IsValid t
    → AllPlain t
    → t.max_kick ≡ max_kick
    → key.hash ≢ 0
    → is_live (slot t (h1 t key.hash)) key.hash key.digest ≡ false
    → is_live (slot t (h2 t key.hash)) key.hash key.digest ≡ false
    → SameEnd t.bucket_count large_objects
        (Defs.insert t key value inline)
        (insert key value inline (store_of t large_objects) t.bucket_count)
unfolding Defs.insert
insert-agrees t large_objects key value v plain kicks nz dead dead' =
    rw (==_ne key.hash 0 nz) (elim (Bool-cases (is_free (slot t (h1 t key.hash)))) [
      | inl free ↦ (
        placed_at t (h1 t key.hash) e,
        refl,
        AllPlain-placed t v (h1 t key.hash) e (h1-lt t v key.hash) plain pe,
        inl (
          raw_free t v e nz dead dead' free,
          h1 t key.hash,
          client_first t v plain large_objects key value free,
        ),
      )
      | inr taken ↦ elim (Bool-cases (is_free (slot t (h2 t key.hash)))) [
        | inl free ↦ (
          placed_at t (h2 t key.hash) e,
          refl,
          AllPlain-placed t v (h2 t key.hash) e (h2-lt t v key.hash) plain pe,
          inl (
            raw_free_second t v e nz dead dead' taken free,
            h2 t key.hash,
            client_second t v plain large_objects key value taken free,
          ),
        )
        | inr taken' ↦
            rw
              (
                raw_kick t v e nz dead dead' taken taken'
                    ∙ ap (λ (n : ℕ). Defs.kick_chain n t (h1 t key.hash) e) kicks,
                client_kick t v plain large_objects key value taken taken',
              )
              (kick_chain-agrees large_objects max_kick t v plain (h1 t key.hash) e
                (record {
                  nonzero = nz;
                  place = inl refl;
                  absent = IsAbsent-of_dead t v e nz dead dead';
                })
                (IsOccupied-of_taken (slot t (h1 t key.hash)) taken) pe value (same_body value))
      ]
    ])
  where
    e : Entry
    e = entry key value inline

    pe : IsPlainEntry (entry key value inline)
    pe = IsPlainEntry-entry key value
