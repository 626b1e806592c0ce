-- ===== src/Client/Write/Laws.antt =====
-- What the local write path does with a free slot, and with a key that is already in the table.
use rdmas.Base.{
  ℕ, ◌<◌, ◌≡◌, refl, ◌≢◌, ◌⊎◌, inl, inr, Bool, true, false, not, ◌||◌, List, lt→ltb, length, get_or,
  set, get_or-set_self, get_or-set_ne, arith, Bool-cases,
}
use rdmas.Base.Run.{ok, ◌>>=◌, index-eq-ok, assign-eq-ok}
use rdmas.Base.Result.{done}
use rdmas.Layout.LockWord.{inline}
use rdmas.Layout.Bucket
use rdmas.Layout.Bucket.{HashedKey, HashBucket}
use rdmas.Client.Write.{
  inserted, Store, first_slot, second_slot, inline_body, fill, try_insert_at, insert,
}

abbrev pub slot : Store → ℕ → HashBucket
slot s i = get_or s.buckets i Bucket.zeroed

-- A slot that is empty or a tombstone.
abbrev pub is_free : HashBucket → Bool
is_free b = Bucket.is_empty b || Bucket.is_tombstone b

abbrev pub written : HashedKey → List ℕ → HashBucket
written key value = record {
  lock_version = 0;
  key_hash = key.hash;
  key_or_digest = key.digest;
  body = inline_body value;
}

abbrev pub with_bucket : Store → ℕ → HashBucket → Store
with_bucket s i b = record s { buckets = set s.buckets i b }

module _ (key : HashedKey) (value : List ℕ) (s : Store) (idx : ℕ)
    (inside : idx < length s.buckets) where
  pub try-free :
      Bucket.is_locked (slot s idx) ≡ false
      → is_free (slot s idx) ≡ true
      → try_insert_at key value inline s idx ≡ ok (with_bucket s idx (written key value), done true)
  unfolding try_insert_at fill Bucket.set_inline_value
  try-free unlocked free =
      rw
        (
          index-eq-ok Bucket.zeroed s.buckets idx inside,
          ◌>>=◌,
          unlocked,
          free,
          assign-eq-ok s.buckets idx (written key value) inside,
        )
        refl

  pub try-taken :
      (Bucket.is_locked (slot s idx) || not (is_free (slot s idx))) ≡ true
      → try_insert_at key value inline s idx ≡ ok (s, done false)
  unfolding try_insert_at
  try-taken taken = elim (Bool-cases (Bucket.is_locked (slot s idx))) [
    | inl locked ↦ rw (index-eq-ok Bucket.zeroed s.buckets idx inside, ◌>>=◌, locked) refl
    | inr unlocked ↦
        let full : is_free (slot s idx) ≡ false = ground (arith, taken, unlocked) in
        rw (index-eq-ok Bucket.zeroed s.buckets idx inside, ◌>>=◌, unlocked, full) refl
  ]

-- An inline insertion into a slot in range either takes the slot, which must be unlocked and empty or a
-- tombstone, and writes the key with its value there, or leaves the store as it is.
pub try_insert_at-inline :
    (key : HashedKey) (value : List ℕ) (s : Store) (idx : ℕ)
    → idx < length s.buckets
    → ((Bucket.is_locked (slot s idx) ≡ false)
        × (is_free (slot s idx) ≡ true)
        × (try_insert_at key value inline s idx
            ≡ ok (with_bucket s idx (written key value), done true)))
      ⊎ (((Bucket.is_locked (slot s idx) || not (is_free (slot s idx))) ≡ true)
          × (try_insert_at key value inline s idx ≡ ok (s, done false)))
try_insert_at-inline key value s idx inside =
    elim (Bool-cases (Bucket.is_locked (slot s idx) || not (is_free (slot s idx)))) [
      | inl taken ↦ inr (taken, try-taken key value s idx inside taken)
      | inr open_slot ↦
          let unlocked : Bucket.is_locked (slot s idx) ≡ false = ground (arith, open_slot) in
          let free : is_free (slot s idx) ≡ true = ground (arith, open_slot) in
          inl (unlocked, free, try-free key value s idx inside unlocked free)
    ]

-- The client's inline insertion does not look for the key. If the two slots of a key are different and both in the
-- buckets, the first slot holds the key already, not as a tombstone, and the second one is free and unlocked, the new
-- value goes to the second slot and the old one stays in the first.
pub insert-duplicate :
    (key : HashedKey) (value : List ℕ) (s : Store) (n : ℕ)
    → 0 < n
    → first_slot n key.hash < length s.buckets
    → second_slot n key.hash < length s.buckets
    → second_slot n key.hash ≢ first_slot n key.hash
    → is_free (slot s (first_slot n key.hash)) ≡ false
    → Bucket.matches_key (slot s (first_slot n key.hash)) key.hash key.digest ≡ true
    → Bucket.is_locked (slot s (second_slot n key.hash)) ≡ false
    → is_free (slot s (second_slot n key.hash)) ≡ true
    → (s' : Store) × (insert key value inline s n
        ≡ ok (s', done (inserted (second_slot n key.hash))))
      × (Bucket.matches_key (slot s' (first_slot n key.hash)) key.hash key.digest ≡ true)
      × (slot s' (first_slot n key.hash) ≡ slot s (first_slot n key.hash))
      × (slot s' (second_slot n key.hash) ≡ written key value)
unfolding insert
insert-duplicate key value s n pos in1 in2 apart held same unlocked free = (
  s',
  rw
      (
        lt→ltb 0 n pos,
        ◌>>=◌,
        try-taken key value s i1 in1 taken,
        ◌>>=◌,
        try-free key value s i2 in2 unlocked free,
      )
      refl,
  rw kept same,
  kept,
  get_or-set_self s.buckets i2 (written key value) Bucket.zeroed in2,
)
  where
    i1 : ℕ
    i1 = first_slot n key.hash

    i2 : ℕ
    i2 = second_slot n key.hash

    s' : Store
    s' = with_bucket s i2 (written key value)

    taken : (Bucket.is_locked (slot s i1) || not (is_free (slot s i1))) ≡ true
    taken = ground (arith, held)

    kept : slot s' i1 ≡ slot s i1
    kept = get_or-set_ne s.buckets i2 i1 (written key value) Bucket.zeroed apart
