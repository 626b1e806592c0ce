-- ===== src/Concurrency/Words.antt =====
-- The words that `release_lock` and `force_takeover` store, field by field, and what the readers
-- without the lock see of them.
use rdmas.Base.{
  ℕ, ◌+◌, ◌%◌, ◌^◌, ◌≡◌, refl, sym, ap, ◌∙◌, ◌↔◌, ◌⊎◌, inl, inr, Bool, true, false, arith,
  Bool-cases,
}
use rdmas.Base.Result.{Result, done, err}
use rdmas.Layout.LockWord.{
  BucketMode, inline, extent, version, lease_ts, is_locked, is_extent, unlock_bucket, mode_bits,
  shl64,
}
use rdmas.Layout.LockWord.Fields.{Fields, fields, is_extent_mode}
use rdmas.Layout.LockWord.Updates.{fields-set_locked, fields-unlock_bucket, version-lt}
use rdmas.Layout.Bucket
use rdmas.Layout.Bucket.{HashBucket}
use rdmas.Cuckoo.Defs.{Entry, bucket_of}
use rdmas.Concurrency.Laws.{stamped-set_locked}
use rdmas.Concurrency.Lock.{
  LockError, is_lease_expired, stamped, released, force_takeover, success, not_expired, not_locked,
}
use rdmas.Concurrency.Occ.{ReadGuard, optimistic_read, verify_read}

abbrev pub unlocked_fields : ℕ → Bool → Fields
unlocked_fields v e = record {
  version_field = v;
  lease_field = 0;
  extent_bit = e;
  tombstone_bit = false;
  locked_bit = false;
}

-- `release_lock` stores the next version, modulo 2^32, and the mode; the lease, the tombstone bit and
-- the locked bit are clear.
pub fields-released :
    (mode : BucketMode) (v : ℕ)
    → fields (released mode v) ≡ unlocked_fields ((v + 1) % 2 ^ 32) (is_extent_mode mode)
unfolding released unlock_bucket is_extent
fields-released inline v = (fields-unlock_bucket 0 ((v + 1) % 2 ^ 32) (omega arith)).0
fields-released extent v = (fields-unlock_bucket 4 ((v + 1) % 2 ^ 32) (omega arith)).0

-- `force_takeover` on every branch: a bucket that is not locked, or whose lease has not expired, stays
-- as it is; otherwise only the lock word changes, to the next version, unlocked, in its mode.
force_takeover-branches :
    (b : HashBucket) (now timeout : ℕ)
    → ((is_locked b.lock_version ≡ false) × (force_takeover b now timeout ≡ (b, not_locked)))
      ⊎ ((is_locked b.lock_version ≡ true)
          × (is_lease_expired (lease_ts b.lock_version) now timeout ≡ false)
          × (force_takeover b now timeout ≡ (b, not_expired)))
      ⊎ ((is_locked b.lock_version ≡ true)
          × (is_lease_expired (lease_ts b.lock_version) now timeout ≡ true)
          × ((lv : ℕ) × (force_takeover b now timeout
                ≡ (record b { lock_version = lv }, success lv))
              × (fields lv
                  ≡ unlocked_fields
                      ((version b.lock_version + 1) % 2 ^ 32)
                      (is_extent b.lock_version))))
unfolding force_takeover Bucket.is_locked unlock_bucket
force_takeover-branches b now timeout = elim (Bool-cases (is_locked b.lock_version)) [
  | inr free ↦ inl (free, rw free)
  | inl held ↦ elim (Bool-cases (is_lease_expired (lease_ts b.lock_version) now timeout)) [
    | inr young ↦ inr (inl (held, young, rw (held, young)))
    | inl old ↦ inr (
        inr (
          held,
          old,
          (
            unlock_bucket b.lock_version ((version b.lock_version + 1) % 2 ^ 32),
            rw (held, old) refl,
            (fields-unlock_bucket b.lock_version ((version b.lock_version + 1) % 2 ^ 32)
                (omega arith)).0,
          ),
        ))
  ]
]

version_read : Result LockError ReadGuard → ℕ
version_read (done g) = g.version
version_read (err e) = 0

guard_version :
    (b : HashBucket) (g : ReadGuard)
    → optimistic_read b ≡ done g
    → (is_locked b.lock_version ≡ false) × (g.version ≡ version b.lock_version)
unfolding optimistic_read Bucket.is_locked version_read
guard_version b g read = elim (Bool-cases (is_locked b.lock_version)) [
  | inl held ↦ absurd (cc (rw held at read))
  | inr free ↦ (free, sym (ap version_read (rw free at read)))
]

-- `verify_read` accepts exactly an unlocked word with the version that the optimistic read saw.
pub verify_read-optimistic_read :
    (b : HashBucket) (g : ReadGuard) (lv : ℕ)
    → optimistic_read b ≡ done g
    → (verify_read g lv ≡ true) ↔ ((is_locked lv ≡ false) × (version lv ≡ version b.lock_version))
unfolding verify_read is_locked version
verify_read-optimistic_read b g lv read =
    let e = (guard_version b g read).1 in
    (λ h. (ground (arith, h), ground (arith, h, e)), λ (u, v). ground (arith, u, v, e))

-- A write cycle that takes the lock of a bucket is seen by a reader that has read before it: while the
-- lock is held, and after its release with the version that the lock word had.
pub verify_read-write :
    (b : HashBucket) (g : ReadGuard) (now : ℕ) (mode : BucketMode)
    → optimistic_read b ≡ done g
    → (verify_read g (stamped b.lock_version now mode) ≡ false)
      × (verify_read g (released mode (version b.lock_version)) ≡ false)
unfolding fields
verify_read-write b g now mode read = (ruled_out _ held, ruled_out _ moved)
  where
    ruled_out :
        (lv : ℕ)
        → ((is_locked lv ≡ false) × (version lv ≡ version b.lock_version) → ⊥)
        → verify_read g lv ≡ false
    ruled_out lv clash = elim (Bool-cases (verify_read g lv)) [
      | inl accepts ↦ absurd (clash ((verify_read-optimistic_read b g lv read).0 accepts))
      | inr rejects ↦ rejects
    ]

    held :
        (is_locked (stamped b.lock_version now mode) ≡ false)
          × (version (stamped b.lock_version now mode) ≡ version b.lock_version)
        → ⊥
    held (free, _) =
        let at = (fields-set_locked b.lock_version now mode).0 in
        let taken = ap (λ (f : Fields). f.locked_bit) at in
        cc (taken, free, stamped-set_locked b.lock_version now mode)

    moved :
        (is_locked (released mode (version b.lock_version)) ≡ false)
          × (version (released mode (version b.lock_version)) ≡ version b.lock_version)
        → ⊥
    moved (_, same) =
        let next =
          ap (λ (f : Fields). f.version_field) (fields-released mode (version b.lock_version)) in
        omega (arith, same, next, version-lt b.lock_version)

first_word :
    (mode : BucketMode)
    → (is_locked (shl64 (mode_bits mode) 2) ≡ false) × (version (shl64 (mode_bits mode) 2) ≡ 0)
unfolding is_locked version
first_word inline = (refl, refl)
first_word extent = (refl, refl)

-- The table writes a slot with version 0. A reader that has read an unlocked bucket of version 0
-- accepts it after the table has put any other entry there.
pub verify_read-bucket_of :
    (b : HashBucket) (g : ReadGuard) (e : Entry)
    → optimistic_read b ≡ done g
    → version b.lock_version ≡ 0
    → verify_read g (bucket_of e).lock_version ≡ true
unfolding bucket_of
verify_read-bucket_of b g e read first =
    (verify_read-optimistic_read b g (bucket_of e).lock_version read).1
      ((first_word e.mode).0, (first_word e.mode).1 ∙ sym first)
