-- ===== src/Client/Read/Laws.antt =====
-- The local read: it never panics, and on a valid table it is the server's lookup followed by a read
-- of the extent.
use rdmas.Base.{
  ℕ, ◌<◌, ◌≤◌, ◌≡◌, refl, ◌≢◌, ◌⊎◌, inl, inr, true, false, not, ◌||◌, List, [], ◌==◌, leb, leb→le,
  ==_iff, length, get_or, Option, none, some, if◌then◌else◌, arith, Bool-cases,
}
use rdmas.Base.Run.{Run, ok, ◌>>=◌, index-eq-ok}
use rdmas.Base.Result.{Result, done, err, is_power_of_two}
use rdmas.Layout.Bucket
use rdmas.Layout.Bucket.{HashedKey, HashBucket}
use rdmas.Extent.Region.{LargeObjectRegion}
use rdmas.Cuckoo.Defs.{is_live}
use rdmas.Client.Retry.{RdmaError, invalid_key, internal}
use rdmas.Client.Write.{first_slot, second_slot}
use rdmas.Client.Read.{ReadResult, read_value, try_read_bucket, probe_both, get}

-- What a read makes of one bucket.
pub seen : HashedKey → Option LargeObjectRegion → HashBucket → Option ReadResult
seen key large_objects b =
    if Bucket.is_locked b || Bucket.is_tombstone b || not (Bucket.matches_key b key.hash key.digest)
    then none
    else read_value large_objects b

module _ (large_objects : Option LargeObjectRegion) (b : HashBucket) (key : HashedKey) where
  pub seen-of_dead : is_live b key.hash key.digest ≡ false → seen key large_objects b ≡ none
  unfolding seen is_live
  seen-of_dead dead = ground arith

  pub seen-of_live :
      is_live b key.hash key.digest ≡ true
      → Bucket.is_locked b ≡ false
      → seen key large_objects b ≡ read_value large_objects b
  unfolding seen is_live
  seen-of_live live unlocked = ground arith

-- The first of two options that is there.
abbrev pub or_else : Option ReadResult → Option ReadResult → Option ReadResult
or_else (some a) o = some a
or_else none o = o

abbrev pub Answer : Type 0
Answer = Run (Result RdmaError (Option ReadResult))

-- The answer of a read of two slots.
abbrev pub answers : Option ReadResult → Option ReadResult → Answer
answers a b = ok (done (or_else a b))

module _ (key : HashedKey) (buckets : List HashBucket)
    (large_objects : Option LargeObjectRegion) where
  pub try_read_bucket-seen :
      (idx : ℕ)
      → idx < length buckets
      → try_read_bucket key buckets large_objects idx
        ≡ ok (seen key large_objects (get_or buckets idx Bucket.zeroed))
  unfolding try_read_bucket seen
  try_read_bucket-seen idx inside =
      rw (index-eq-ok Bucket.zeroed buckets idx inside, ◌>>=◌) (ground arith)

  pub probe_both-seen :
      (i j : ℕ)
      → i < length buckets
      → j < length buckets
      → probe_both key buckets large_objects i j
        ≡ answers
            (seen key large_objects (get_or buckets i Bucket.zeroed))
            (seen key large_objects (get_or buckets j Bucket.zeroed))
  unfolding probe_both
  probe_both-seen i j in1 in2 =
      rw (try_read_bucket-seen i in1, ◌>>=◌) (ground (arith, try_read_bucket-seen j in2))

-- A read either stops at one of its guards, or it reads its two slots and returns the first value that
-- it sees there. It never panics.
pub get-seen :
    (key : HashedKey) (buckets : List HashBucket) (large_objects : Option LargeObjectRegion) (n : ℕ)
    → ((key.hash ≡ 0) × (get key buckets large_objects n ≡ ok (err invalid_key)))
      ⊎ ((key.hash ≢ 0)
          × ((is_power_of_two n ≡ false)
              ⊎ (length buckets ≤ first_slot n key.hash)
              ⊎ (length buckets ≤ second_slot n key.hash))
          × (get key buckets large_objects n ≡ ok (err (internal []))))
      ⊎ ((key.hash ≢ 0)
          × (is_power_of_two n ≡ true)
          × (first_slot n key.hash < length buckets)
          × (second_slot n key.hash < length buckets)
          × (get key buckets large_objects n
              ≡ answers
                  (seen key large_objects (get_or buckets (first_slot n key.hash) Bucket.zeroed))
                  (seen key large_objects (get_or buckets (second_slot n key.hash) Bucket.zeroed))))
unfolding get
get-seen key buckets large_objects n = elim (Bool-cases (key.hash == 0)) [
  | inl zero_hash ↦ inl ((==_iff key.hash 0).0 zero_hash, rw (get, zero_hash) refl)
  | inr nonzero ↦
      let nz : key.hash ≢ 0 = ground arith in
      elim (Bool-cases (is_power_of_two n)) [
        | inr odd ↦ inr (inl (nz, inl odd, rw (get, nonzero, odd) refl))
        | inl power ↦ elim (Bool-cases (leb (length buckets) i)) [
          | inl out ↦ inr (inl (nz, inr (inl (leb→le _ _ out)), rw (get, nonzero, power, out) refl))
          | inr in1 ↦ elim (Bool-cases (leb (length buckets) j)) [
            | inl out ↦
                inr (inl (nz, inr (inr (leb→le _ _ out)), rw (get, nonzero, power, in1, out) refl))
            | inr in2 ↦ inr (
                inr (
                  nz,
                  power,
                  ground arith,
                  ground arith,
                  rw (get, nonzero, power, in1, in2)
                      (probe_both-seen key buckets large_objects i j (ground arith) (ground arith)),
                ))
          ]
        ]
      ]
]
  where
    i : ℕ
    i = first_slot n key.hash

    j : ℕ
    j = second_slot n key.hash
