-- ===== src/Client/Remote/Probe.antt =====
-- One probe of the distributed read: what it returns of each kind of bucket.
use native.Mathlib.Nat.{mod-eq_of_lt}
use rdmas.Base.{
  ℕ, ◌+◌, ◌*◌, ◌%◌, ◌^◌, ◌≤◌, ◌<◌, ◌≡◌, refl, sym, ap, ◌∙◌, ◌≢◌, true, false, List, none, some,
  arith, ==_refl, Bool-cases, inl, inr,
}
use rdmas.Base.Bytes.{Buffer, load, bytes_eq_refl}
use rdmas.Base.Run.{ok}
use rdmas.Base.Result.{done}
use rdmas.Extent.Remote.{add64}
use rdmas.Layout.LockWord.{inline, extent}
use rdmas.Layout.Bucket
use rdmas.Layout.Bucket.{HashedKey, HashBucket}
use rdmas.Layout.Bucket.Laws.{matches_key_iff}
use rdmas.Client.Remote.{Region, slot_addr, read_bucket, extract_value, is_hit, probe_remote}
use rdmas.Client.Remote.Laws.{fresh, bucket_in, read_bucket-aligned}
use rdmas.Transport.{Transport, step}
use rdmas.Transport.Memory.{IsMemory}

-- The table of `n` slots lies inside a memory, whose addresses have 64 bits.
pub record IsInside (table : Region) (n : ℕ) (b : Buffer) : Type 0 where
  pub fits : table.vaddr + n * 64 ≤ b.size
  pub below : b.size < 2 ^ 64

module _ (table : Region) (n : ℕ) (b : Buffer) (inside : IsInside table n b) (i : ℕ)
    (small : i < n) where
  pub slot_addr-eq : slot_addr table i ≡ table.vaddr + i * 64
  unfolding slot_addr
  slot_addr-eq =
      ap (λ (a : ℕ). add64 table.vaddr a) (mod-eq_of_lt (omega (arith, inside.fits, inside.below)))
      ∙ mod-eq_of_lt (omega (arith, inside.fits, inside.below))

  pub slot_addr-inside : slot_addr table i + 64 ≤ b.size
  slot_addr-inside = omega (arith, slot_addr-eq, inside.fits)

pub is_hit-fresh : (key : HashedKey) (value : List ℕ) → is_hit key (fresh key value) ≡ true
unfolding is_hit Bucket.is_locked rdmas.Layout.LockWord.is_locked Bucket.matches_key
is_hit-fresh key value = rw (==_refl key.hash, bytes_eq_refl key.digest) refl

pub is_hit-other :
    (key other : HashedKey) (value : List ℕ) → key ≢ other → is_hit key (fresh other value) ≡ false
unfolding is_hit Bucket.is_locked rdmas.Layout.LockWord.is_locked
is_hit-other key other value ne =
    elim (Bool-cases (Bucket.matches_key (fresh other value) key.hash key.digest)) [
      | inl m ↦ absurd (ne (sym ((matches_key_iff (fresh other value) key).0 m)))
      | inr m ↦ m
    ]

module _ {M : Type 0} (T : Transport M) (memory : M → Buffer) (laws : IsMemory T memory) (lkey : ℕ)
    (key : HashedKey) (table large_obj : Region) (n : ℕ) (m : M)
    (inside : IsInside table n (memory m)) (buf : ℕ) where
  module _ (aligned : buf % 64 ≡ 0) (i : ℕ) (small : i < n) where
    looked :
        read_bucket T lkey buf (slot_addr table i) table.rkey m
        ≡ ok (m, done (bucket_in (memory m) (slot_addr table i)))
    looked =
        read_bucket-aligned T memory laws lkey table.rkey buf m (slot_addr table i)
          (slot_addr-inside table n (memory m) inside i small) aligned

    pub probe_remote-miss :
        is_hit key (bucket_in (memory m) (slot_addr table i)) ≡ false
        → probe_remote key T table large_obj lkey buf i m ≡ ok (m, done none)
    unfolding probe_remote
    probe_remote-miss miss = step _ _ looked ∙ rw miss refl

    pub probe_remote-inline :
        is_hit key (bucket_in (memory m) (slot_addr table i)) ≡ true
        → Bucket.is_inline (bucket_in (memory m) (slot_addr table i)) ≡ true
        → probe_remote key T table large_obj lkey buf i m
          ≡ ok (
            m,
            done (
                some (record {
                  value = (bucket_in (memory m) (slot_addr table i)).body;
                  mode = inline;
                })),
          )
    unfolding probe_remote extract_value
    probe_remote-inline hit inlined =
        step _ _ looked ∙ rw hit (step _ _ (rw (extract_value, inlined) refl))

    pub probe_remote-extent :
        is_hit key (bucket_in (memory m) (slot_addr table i)) ≡ true
        → Bucket.is_inline (bucket_in (memory m) (slot_addr table i)) ≡ false
        → add64 large_obj.vaddr (Bucket.extent_ref (bucket_in (memory m) (slot_addr table i))).0
            + (Bucket.extent_ref (bucket_in (memory m) (slot_addr table i))).1
          ≤ (memory m).size
        → probe_remote key T table large_obj lkey buf i m
          ≡ ok (
            m,
            done (
                some (record {
                  value =
                      load
                        (memory m)
                        (add64 large_obj.vaddr
                          (Bucket.extent_ref (bucket_in (memory m) (slot_addr table i))).0)
                        (Bucket.extent_ref (bucket_in (memory m) (slot_addr table i))).1;
                  mode = extent;
                })),
          )
    unfolding probe_remote extract_value
    probe_remote-extent hit outlined room =
        step _ _ looked
        ∙ rw hit (
            step _ _ (
              rw (extract_value, outlined)
                (step _ _ (
                  ap ok (
                    laws.reads m (Bucket.extent_ref (bucket_in (memory m) (slot_addr table i))).1
                      lkey
                      (add64 large_obj.vaddr
                        (Bucket.extent_ref (bucket_in (memory m) (slot_addr table i))).0)
                      large_obj.rkey room)))))
