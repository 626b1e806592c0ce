-- ===== src/Cuckoo/View.antt =====
-- The table seen as a map: the occupied slots, the invariant, and the entry under a key.

use native.Mathlib.Nat.{mod-lt}
use rdmas.Base.{
  ℕ, ◌*◌, ◌/◌, ◌%◌, ◌^◌, ◌<◌, ◌≡◌, refl, sym, ap, subst, ◌≢◌, ◌⊎◌, inl, inr, Bool, true, false, not,
  ◌&&◌, List, ◌==◌, length, get_or, Option, none, some, arith, if◌then◌else◌, Bool-cases,
}
use rdmas.Base.Bits.{bit_or-one}
use rdmas.Layout.LockWord.{BucketMode}
use rdmas.Layout.Bucket
use rdmas.Layout.Bucket.{HashedKey, HashBucket}
use rdmas.Layout.Bucket.Laws.{key_of, matches_key_iff}
use rdmas.Cuckoo.Defs.{CuckooTable, Entry, h1, h2, is_live, is_free}

abbrev pub slot : CuckooTable → ℕ → HashBucket
slot t i = get_or t.buckets i Bucket.zeroed

-- A slot that holds an entry: its hash is not the mark of an empty slot, and it is no tombstone.
abbrev pub is_occupied : HashBucket → Bool
is_occupied b = not (b.key_hash == 0) && not (Bucket.is_tombstone b)

abbrev pub IsOccupied : HashBucket → Type 0
IsOccupied b = is_occupied b ≡ true

-- What a key is bound to.
abbrev pub Payload : Type 0
Payload = List ℕ × BucketMode

abbrev pub payload : HashBucket → Payload
payload b = (b.body, Bucket.mode_of b)

abbrev pub key : Entry → HashedKey
key e = record { hash = e.hash; digest = e.digest }

-- A table from `new` on: an even count of slots, every entry in one of its two slots, no key twice.
pub record IsValid (t : CuckooTable) : Type 0 where
  pub half : ℕ
  pub half_pos : 0 < half
  pub even : t.bucket_count ≡ half * 2
  pub sized : length t.buckets ≡ t.bucket_count
  pub placed :
      (i : ℕ)
      → IsOccupied (slot t i)
      → (i ≡ h1 t (slot t i).key_hash) ⊎ (i ≡ h2 t (slot t i).key_hash)
  pub unique :
      (i j : ℕ)
      → IsOccupied (slot t i)
      → IsOccupied (slot t j)
      → key_of (slot t i) ≡ key_of (slot t j)
      → i ≡ j

-- The entry under a key, first slot first.
unfoldable pub view : CuckooTable → HashedKey → Option Payload
view t k =
    if is_live (slot t (h1 t k.hash)) k.hash k.digest
    then some (payload (slot t (h1 t k.hash)))
    else if is_live (slot t (h2 t k.hash)) k.hash k.digest
    then some (payload (slot t (h2 t k.hash)))
    else none

module _ (b : HashBucket) where
  pub is_free-eq : is_free b ≡ not (is_occupied b)
  unfolding is_free Bucket.is_empty
  is_free-eq = ground arith

  pub live_of_occupied :
      (k : HashedKey) → IsOccupied b → key_of b ≡ k → is_live b k.hash k.digest ≡ true
  unfolding is_live
  live_of_occupied k occ e = ground (arith, (matches_key_iff b k).1 e)

  pub IsOccupied-of_live :
      (k : HashedKey)
      → k.hash ≢ 0
      → is_live b k.hash k.digest ≡ true
      → IsOccupied b × (key_of b ≡ k)
  unfolding is_live
  IsOccupied-of_live k nz live =
      let e : key_of b ≡ k = (matches_key_iff b k).0 (ground arith) in
      (ground (arith, ap (λ (x : HashedKey). x.hash) e), e)

  pub not_live_of_ne : (k : HashedKey) → key_of b ≢ k → is_live b k.hash k.digest ≡ false
  unfolding is_live
  not_live_of_ne k ne = elim (Bool-cases (Bucket.matches_key b k.hash k.digest)) [
    | inl m ↦ absurd (ne ((matches_key_iff b k).0 m))
    | inr m ↦ rw m
  ]

module _ (t : CuckooTable) (v : IsValid t) where
  pub h1-lt : (hash : ℕ) → h1 t hash < t.bucket_count
  unfolding h1
  h1-lt hash = mod-lt hash (omega (arith, v.even, v.half_pos))

  pub h2-lt : (hash : ℕ) → h2 t hash < t.bucket_count
  unfolding h2
  h2-lt hash =
      let small : hash / 2 ^ 32 % t.bucket_count < t.bucket_count =
        mod-lt (hash / 2 ^ 32) (omega (arith, v.even, v.half_pos)) in
      rw (bit_or-one (hash / 2 ^ 32 % t.bucket_count)) (omega (arith, v.even))

  view-first :
      (i : ℕ) (k : HashedKey)
      → is_live (slot t i) k.hash k.digest ≡ true
      → i ≡ h1 t k.hash
      → view t k ≡ some (payload (slot t i))
  unfolding view
  view-first i k live e = rw (← e, live)

  -- An occupied slot is what its key is bound to.
  pub view-slot :
      (i : ℕ) → IsOccupied (slot t i) → view t (key_of (slot t i)) ≡ some (payload (slot t i))
  unfolding view
  view-slot i occ = elim (v.placed i occ) [
    | inl e ↦ view-first i k live e
    | inr e ↦ elim (Bool-cases (is_live (slot t (h1 t k.hash)) k.hash k.digest)) [
      | inl other ↦
          let (occ', same) = IsOccupied-of_live (slot t (h1 t k.hash)) k nz other in
          view-first i k live (v.unique i (h1 t k.hash) occ occ' (sym same))
      | inr miss ↦ rw (miss, ← e, live)
    ]
  ]
    where
      k : HashedKey
      k = key_of (slot t i)

      nz : k.hash ≢ 0
      nz = ground arith

      live : is_live (slot t i) k.hash k.digest ≡ true
      live = live_of_occupied (slot t i) k occ refl

  pub view-key :
      (i : ℕ) (k : HashedKey)
      → IsOccupied (slot t i)
      → key_of (slot t i) ≡ k
      → view t k ≡ some (payload (slot t i))
  view-key i k occ e = subst (λ x. view t x ≡ some (payload (slot t i))) e (view-slot i occ)

-- A key that no slot carries is not bound.
pub view-absent :
    (t : CuckooTable) (k : HashedKey)
    → k.hash ≢ 0
    → ((i : ℕ) → IsOccupied (slot t i) → key_of (slot t i) ≢ k)
    → view t k ≡ none
unfolding view
view-absent t k nz absent = rw (dead (h1 t k.hash), dead (h2 t k.hash))
  where
    dead : (i : ℕ) → is_live (slot t i) k.hash k.digest ≡ false
    dead i = elim (Bool-cases (is_live (slot t i) k.hash k.digest)) [
      | inl live ↦ let (occ, e) = IsOccupied-of_live (slot t i) k nz live in absurd (absent i occ e)
      | inr no_match ↦ no_match
    ]

-- A bound key sits in an occupied slot.
pub view-inverse :
    (t : CuckooTable) (k : HashedKey)
    → k.hash ≢ 0
    → (view t k ≡ none)
      ⊎ ((i : ℕ) × ((i ≡ h1 t k.hash) ⊎ (i ≡ h2 t k.hash))
          × IsOccupied (slot t i)
          × (key_of (slot t i) ≡ k)
          × (view t k ≡ some (payload (slot t i))))
unfolding view
view-inverse t k nz = elim (Bool-cases (is_live (slot t (h1 t k.hash)) k.hash k.digest)) [
  | inl live ↦
      let (occ, e) = IsOccupied-of_live (slot t (h1 t k.hash)) k nz live in
      inr (h1 t k.hash, inl refl, occ, e, rw live)
  | inr miss ↦ elim (Bool-cases (is_live (slot t (h2 t k.hash)) k.hash k.digest)) [
    | inl live ↦
        let (occ, e) = IsOccupied-of_live (slot t (h2 t k.hash)) k nz live in
        inr (h2 t k.hash, inr refl, occ, e, rw (miss, live))
    | inr miss' ↦ inl (rw (miss, miss'))
  ]
]
