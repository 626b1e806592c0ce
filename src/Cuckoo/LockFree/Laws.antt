-- ===== src/Cuckoo/LockFree/Laws.antt =====
-- Where the lock-free calls agree with the locked ones, and where they do not.
use mathlib.Core.Option
use mathlib.Core.Logic.{if_pos}
use native.Mathlib.Nat.{mod-eq_of_lt}
use rdmas.Base.{
  ℕ, ◌%◌, ◌<◌, ◌≡◌, refl, ap, ◌∙◌, ◌≢◌, inl, inr, true, false, List, [], length, Option, none, some,
  arith, Bool-cases, if◌then◌else◌,
}
use rdmas.Base.Run.{ok, ◌>>=◌}
use rdmas.Layout.LockWord.{BucketMode, inline, extent}
use rdmas.Layout.LockWord.Fields.{Fields, fields}
use rdmas.Layout.LockWord.Updates.{fields-mark_tombstone}
use rdmas.Layout.Bucket
use rdmas.Layout.Bucket.{HashedKey, HashBucket}
use rdmas.Cuckoo.Defs.{CuckooTable, h1, h2, is_live, bucket_at, probe, lookup, delete}
use rdmas.Cuckoo.View.{slot, IsValid, view, h1-lt, h2-lt, Payload}
use rdmas.Cuckoo.Put.{put, slot-put_self}
use rdmas.Cuckoo.Slots.{bucket_at-ok}
use rdmas.Cuckoo.Lookup.{found, lookup-view, Deletes, tombstone-Deletes, delete-first}
use rdmas.Cuckoo.LockFree.{is_readable, lookup_lock_free, try_read_bucket, get_fast}

-- A slot that was marked as a tombstone can still be read by the test of the lock-free calls.
pub is_readable-mark_tombstone :
    (b : HashBucket) (k : HashedKey)
    → Bucket.matches_key b k.hash k.digest ≡ true
    → is_readable (Bucket.mark_tombstone b) k ≡ true
unfolding is_readable Bucket.is_locked Bucket.mark_tombstone Bucket.matches_key fields
is_readable-mark_tombstone b k m =
    let free = ap (λ (f : Fields). f.locked_bit) (fields-mark_tombstone b.lock_version).0 in
    rw (free, m)

matches_of_live :
    (b : HashBucket) (k : HashedKey)
    → is_live b k.hash k.digest ≡ true
    → Bucket.matches_key b k.hash k.digest ≡ true
unfolding is_live
matches_of_live b k live = ground arith

-- After a deletion of a key from its first slot, `get_fast` still finds the key.
get_fast-delete :
    (t : CuckooTable) (k : HashedKey)
    → k.hash ≢ 0
    → IsValid t
    → is_live (slot t (h1 t k.hash)) k.hash k.digest ≡ true
    → (t' : CuckooTable) × (r : List ℕ × BucketMode) × (delete t k ≡ ok (t', true))
      × (lookup t' k ≡ ok none)
      × (get_fast t' k ≡ ok (some r))
unfolding get_fast try_read_bucket bucket_at Bucket.is_inline h1 rdmas.Layout.LockWord.is_inline
get_fast-delete t k nz v live =
    let i = h1 t k.hash in
    (
      put t i tomb,
      read,
      delete-first t v k nz live,
      lookup-view (put t i tomb) gone.0 k
          ∙ ap (λ (o : Option Payload). ok (Option.map found o))
              (gone.1 k nz ∙ if_pos _ refl none (view t k)),
      rw (
        bucket_at-ok (put t i tomb) gone.0 i inside,
        ◌>>=◌,
        slot-put_self t v i tomb inside,
        readable,
      ),
    )
  where
    inside : h1 t k.hash < t.bucket_count
    inside = h1-lt t v k.hash

    tomb : HashBucket
    tomb = Bucket.mark_tombstone (slot t (h1 t k.hash))

    gone : Deletes t k (put t (h1 t k.hash) tomb)
    gone = tombstone-Deletes t v k nz (h1 t k.hash) inside live

    readable : is_readable tomb k ≡ true
    readable = is_readable-mark_tombstone (slot t (h1 t k.hash)) k (matches_of_live _ k live)

    read : List ℕ × BucketMode
    read = if Bucket.is_inline tomb then (tomb.body, inline) else ([], extent)

quiet_test :
    (b : HashBucket) (k : HashedKey)
    → (Bucket.is_locked b ≡ false) × (Bucket.is_tombstone b ≡ false)
    → is_readable b k ≡ is_live b k.hash k.digest
unfolding is_readable is_live
quiet_test b k (a, d) = ground (arith, a, d)

-- On a valid table without locks and tombstones the lock-free lookup is the lookup.
lookup_lock_free-eq-lookup :
    (t : CuckooTable) (k : HashedKey)
    → IsValid t
    → ((i : ℕ) → (Bucket.is_locked (slot t i) ≡ false) × (Bucket.is_tombstone (slot t i) ≡ false))
    → lookup_lock_free t k ≡ lookup t k
unfolding lookup_lock_free lookup probe
lookup_lock_free-eq-lookup t k v quiet =
    elim (Bool-cases (is_live (slot t (h1 t k.hash)) k.hash k.digest)) [
      | inl hit ↦ rw (
        in_range (h1 t k.hash) in1,
        bucket_at-ok t v (h1 t k.hash) in1,
        ◌>>=◌,
        quiet_test (slot t (h1 t k.hash)) k (quiet (h1 t k.hash)),
        hit,
      )
      | inr miss ↦ rw (
        in_range (h1 t k.hash) in1,
        bucket_at-ok t v (h1 t k.hash) in1,
        ◌>>=◌,
        quiet_test (slot t (h1 t k.hash)) k (quiet (h1 t k.hash)),
        miss,
        in_range (h2 t k.hash) in2,
        bucket_at-ok t v (h2 t k.hash) in2,
        ◌>>=◌,
        quiet_test (slot t (h2 t k.hash)) k (quiet (h2 t k.hash)),
      )
    ]
  where
    in1 : h1 t k.hash < t.bucket_count
    in1 = h1-lt t v k.hash

    in2 : h2 t k.hash < t.bucket_count
    in2 = h2-lt t v k.hash

    in_range : (i : ℕ) → i < t.bucket_count → i % length t.buckets ≡ i
    in_range i lt = mod-eq_of_lt (omega (arith, v.sized))
