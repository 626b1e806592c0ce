-- ===== src/Cuckoo/New.antt =====
-- The table that `new` makes, and the size at which the second hash function leaves the table.
use native.Mathlib.Nat.{pow-suc}
use rdmas.Base.{
  ℕ, zero, suc, ◌*◌, ◌^◌, ◌/◌, ◌%◌, ◌≤◌, ◌<◌, ◌≡◌, refl, ◌≢◌, inl, inr, true, false, none, arith,
  lt→ltb, replicate, length-replicate, get_or-replicate, Bool-cases,
}
use rdmas.Base.Bits.{bit_or-one}
use rdmas.Base.Run.{ok, panic, ◌>>=◌}
use rdmas.Base.Result.{is_power_of_two, is_power_of_two_lem}
use rdmas.Layout.Bucket
use rdmas.Layout.Bucket.{HashedKey}
use rdmas.Cuckoo.Defs.{CuckooTable, new, h1, h2, is_live, bucket_at, probe, lookup}
use rdmas.Cuckoo.View.{slot, IsOccupied, IsValid, view, view-absent, IsOccupied-of_live}

abbrev pub fresh : ℕ → ℕ → CuckooTable
fresh n max_kick = record {
  buckets = replicate n Bucket.zeroed;
  bucket_count = n;
  max_kick = max_kick;
}

new-fresh : (n m : ℕ) → 0 < n → is_power_of_two n ≡ true → new n m ≡ ok (fresh n m)
unfolding new
new-fresh n m pos power = rw (lt→ltb 0 n pos, power)

zeroed-free : IsOccupied Bucket.zeroed → ⊥
unfolding Bucket.zeroed
zeroed-free occ = cc

halves : (n : ℕ) → 2 ≤ n → is_power_of_two n ≡ true → (h : ℕ) × (0 < h) × (n ≡ h * 2)
halves n two power = let (k, _, e) = is_power_of_two_lem n power in split k e
  where
    split : (k : ℕ) → n ≡ 2 ^ k → (h : ℕ) × (0 < h) × (n ≡ h * 2)
    split zero e = absurd (omega arith)
    split (suc k) e = (2 ^ k, omega (arith, pow-suc 2 k), omega (arith, pow-suc 2 k))

unoccupied : (n m i : ℕ) → IsOccupied (slot (fresh n m) i) → ⊥
unoccupied n m i = rw (get_or-replicate n i Bucket.zeroed) zeroed-free

pub fresh-IsValid : (n m : ℕ) → 2 ≤ n → is_power_of_two n ≡ true → IsValid (fresh n m)
fresh-IsValid n m two power =
    let (h, pos, e) = halves n two power in
    record {
      half = h;
      half_pos = pos;
      even = e;
      sized = length-replicate n Bucket.zeroed;
      placed = λ i occ. absurd (unoccupied n m i occ);
      unique = λ i j occ _ _. absurd (unoccupied n m i occ);
    }

-- `new` with a power of two of at least two buckets makes a valid table in which no key is bound.
pub new-IsValid :
    (n m : ℕ)
    → 2 ≤ n
    → is_power_of_two n ≡ true
    → (t : CuckooTable) × (new n m ≡ ok t)
      × IsValid t
      × ((k : HashedKey) → k.hash ≢ 0 → view t k ≡ none)
new-IsValid n m two power = (
  fresh n m,
  new-fresh n m (omega arith) power,
  fresh-IsValid n m two power,
  λ k nz. view-absent (fresh n m) k nz (λ i occ. absurd (unoccupied n m i occ)),
)

h1_one : (m hash : ℕ) → h1 (fresh 1 m) hash ≡ 0
unfolding h1
h1_one m hash = omega arith

h2_one : (m hash : ℕ) → h2 (fresh 1 m) hash ≡ 1
unfolding h2
h2_one m hash = omega (arith, bit_or-one (hash / 2 ^ 32 % 1))

-- A table of one bucket, which `new` accepts, has its second slot out of range: a lookup of any key
-- with a non-zero hash panics.
pub lookup-one_bucket :
    (m : ℕ) (k : HashedKey)
    → k.hash ≢ 0
    → (new 1 m ≡ ok (fresh 1 m)) × (lookup (fresh 1 m) k ≡ panic)
unfolding lookup probe bucket_at is_power_of_two
lookup-one_bucket m k nz =
    (new-fresh 1 m (omega arith) refl, rw (h1_one m k.hash, ◌>>=◌, dead, h2_one m k.hash))
  where
    dead : is_live Bucket.zeroed k.hash k.digest ≡ false
    dead = elim (Bool-cases (is_live Bucket.zeroed k.hash k.digest)) [
      | inl live ↦ absurd (zeroed-free (IsOccupied-of_live Bucket.zeroed k nz live).0)
      | inr no_match ↦ no_match
    ]
