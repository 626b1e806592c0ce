-- ===== src/Client/Remote/Laws.antt =====
-- The distributed operations over a transport that behaves as a memory: one bucket, and one attempt.

use rdmas.Base.{
  ℕ, ◌+◌, ◌%◌, ◌^◌, ◌≤◌, ◌<◌, ◌≡◌, refl, sym, ap, ◌∙◌, ◌≢◌, true, false, ◌||◌, List, ◌==◌, length,
  arith,
}
use rdmas.Base.Bytes.{Buffer, load, store, to_le_bytes, from_le_bytes, load-store_same, store-size}
use rdmas.Base.Run.{ok, panic}
use rdmas.Base.Result.{done}
use rdmas.Extent.Holds.{load-take}
use rdmas.Layout.LockWord.{inline}
use rdmas.Layout.Bucket
use rdmas.Layout.Bucket.{HashedKey, HashBucket}
use rdmas.Layout.Bucket.Wire
use rdmas.Layout.Bucket.Wire.{
  bucket_size, of_bytes, from_bytes, IsSized, length-bytes_of, of_bytes-bytes_of,
}
use rdmas.Client.Write.{inline_body}
use rdmas.Client.Write.Agrees.{length-inline_body}
use rdmas.Client.Remote.{Region, read_bucket, build_remote, claim_remote}
use rdmas.Transport.{Transport, step}
use rdmas.Transport.Memory.{IsMemory}

-- The bucket that an inline insertion writes.
abbrev pub fresh : HashedKey → List ℕ → HashBucket
fresh key value = record {
  lock_version = 0;
  key_hash = key.hash;
  key_or_digest = key.digest;
  body = inline_body value;
}

-- A key as it is in memory: 64 bits and 16 bytes.
pub record IsKey (key : HashedKey) : Type 0 where
  pub nonzero : key.hash ≢ 0
  pub word : key.hash < 2 ^ 64
  pub digest : length key.digest ≡ 16

pub IsSized-fresh : (key : HashedKey) (value : List ℕ) → IsKey key → IsSized (fresh key value)
IsSized-fresh key value k = record {
  word = omega arith;
  hash = k.word;
  key = k.digest;
  value = length-inline_body value;
}

-- The bucket at an address of a memory.
abbrev pub bucket_in : Buffer → ℕ → HashBucket
bucket_in b addr = of_bytes (load b addr bucket_size)

pub bucket_in-store :
    (b : Buffer) (addr : ℕ) (x : HashBucket)
    → IsSized x
    → bucket_in (store b addr (Wire.bytes_of x)) addr ≡ x
bucket_in-store b addr x s =
    ap of_bytes (
      ap (load (store b addr (Wire.bytes_of x)) addr) (sym (length-bytes_of x s))
      ∙ load-store_same b addr (Wire.bytes_of x))
    ∙ of_bytes-bytes_of x s

pub lock_word :
    (b : Buffer) (addr : ℕ) → from_le_bytes (load b addr 8) ≡ (bucket_in b addr).lock_version
unfolding of_bytes
lock_word b addr = ap from_le_bytes (load-take b addr addr 8 56)

module _ {M : Type 0} (T : Transport M) (memory : M → Buffer) (laws : IsMemory T memory)
    (lkey rkey : ℕ) where
  module _ (buf : ℕ) (m : M) (addr : ℕ) (inside : addr + 64 ≤ (memory m).size) where
    pub read_bucket-aligned :
        buf % 64 ≡ 0 → read_bucket T lkey buf addr rkey m ≡ ok (m, done (bucket_in (memory m) addr))
    unfolding read_bucket from_bytes
    read_bucket-aligned aligned =
        step _ _ (ap ok (laws.reads m 64 lkey addr rkey inside)) ∙ rw aligned refl

    pub read_bucket-unaligned : (buf % 64 == 0) ≡ false → read_bucket T lkey buf addr rkey m ≡ panic
    unfolding read_bucket from_bytes
    read_bucket-unaligned odd =
        step _ _ (ap ok (laws.reads m 64 lkey addr rkey inside)) ∙ rw odd refl

  claim_calls :
      (xxh64 : List ℕ → ℕ → ℕ) (key : HashedKey) (value : List ℕ) (free_list : Region) (m m1 m2 : M)
      (addr : ℕ) (seen : HashBucket)
      → Bucket.is_locked seen ≡ false
      → (Bucket.is_empty seen || Bucket.is_tombstone seen) ≡ true
      → T.cas seen.lock_version 0 lkey addr rkey m ≡ (m1, done true)
      → T.write (Wire.bytes_of (fresh key value)) lkey addr rkey m1 ≡ (m2, done tt)
      → claim_remote xxh64 key value inline T addr rkey free_list lkey seen m ≡ ok (m2, done true)
  unfolding claim_remote build_remote Bucket.set_inline_value
  claim_calls xxh64 key value free_list m m1 m2 addr seen unlocked free e1 e2 =
      rw (claim_remote, unlocked, free) (step _ _ refl ∙ step _ _ (ap ok e1) ∙ step _ _ (ap ok e2))

  -- A claim of a free slot whose lock word is the one that was read.
  pub claim_remote-fresh :
      (xxh64 : List ℕ → ℕ → ℕ) (key : HashedKey) (value : List ℕ) (free_list : Region) (m : M)
      (addr : ℕ) (seen : HashBucket)
      → IsKey key
      → addr + 64 ≤ (memory m).size
      → Bucket.is_locked seen ≡ false
      → (Bucket.is_empty seen || Bucket.is_tombstone seen) ≡ true
      → (bucket_in (memory m) addr).lock_version ≡ seen.lock_version
      → (m' : M) × (claim_remote xxh64 key value inline T addr rkey free_list lkey seen m
          ≡ ok (m', done true))
        × (memory m'
            ≡ store
                (store (memory m) addr (to_le_bytes 8 0))
                addr
                (Wire.bytes_of (fresh key value)))
  claim_remote-fresh xxh64 key value free_list m addr seen k inside unlocked free same =
      let (m1, e1, c1) =
        laws.swaps m seen.lock_version 0 lkey addr rkey (omega (arith, inside))
          (lock_word (memory m) addr ∙ same) in
      let s1 : (memory m1).size ≡ (memory m).size =
        ap (λ (b : Buffer). b.size) c1 ∙ store-size (memory m) addr (to_le_bytes 8 0) in
      let size : length (Wire.bytes_of (fresh key value)) ≡ 64 =
        length-bytes_of (fresh key value) (IsSized-fresh key value k) in
      let (m2, e2, c2) =
        laws.writes m1 (Wire.bytes_of (fresh key value)) lkey addr rkey
          (omega (arith, inside, s1, size)) in
      (
        m2,
        claim_calls xxh64 key value free_list m m1 m2 addr seen unlocked free e1 e2,
        c2 ∙ ap (λ (b : Buffer). store b addr (Wire.bytes_of (fresh key value))) c1,
      )
