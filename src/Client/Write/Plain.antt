-- ===== src/Client/Write/Plain.antt =====
-- Tables of inline entries, which the client may kick.
use rdmas.Base.{ℕ, ◌<◌, ◌≡◌, refl, false, arith, ℕ_discrete, length}
use rdmas.Layout.LockWord.{BucketMode, inline, extent}
use rdmas.Layout.Bucket
use rdmas.Layout.Bucket.{HashedKey, HashBucket}
use rdmas.Cuckoo.Defs.{CuckooTable, Entry, bucket_of, entry_of}
use rdmas.Cuckoo.View.{slot, IsValid}
use rdmas.Cuckoo.Put.{slot-put_self, slot-put_ne}
use rdmas.Cuckoo.Chain.{placed_at}

-- A bucket that a kick may move: not locked, in inline mode, its body of 32 bytes.
pub record IsPlain (b : HashBucket) : Type 0 where
  pub unlocked : Bucket.is_locked b ≡ false
  pub inlined : Bucket.is_extent b ≡ false
  pub sized : length b.body ≡ 32

abbrev pub AllPlain : CuckooTable → Type 0
AllPlain t = (i : ℕ) → IsPlain (slot t i)

-- An entry that leaves a plain bucket.
pub record IsPlainEntry (e : Entry) : Type 0 where
  pub mode : e.mode ≡ inline
  pub full : length e.body ≡ 32

IsPlain-bucket_of : (e : Entry) → IsPlainEntry e → IsPlain (bucket_of e)
unfolding bucket_of Bucket.is_locked Bucket.is_extent rdmas.Layout.LockWord.is_locked
    rdmas.Layout.LockWord.is_extent
IsPlain-bucket_of e p = record {
  unlocked = rw p.mode refl;
  inlined = rw p.mode refl;
  sized = p.full;
}

pub IsPlainEntry-entry_of : (b : HashBucket) → IsPlain b → IsPlainEntry (entry_of b)
unfolding entry_of Bucket.mode_of
IsPlainEntry-entry_of b p = record { mode = ground (arith, p.inlined); full = p.sized }

pub AllPlain-placed :
    (t : CuckooTable)
    → IsValid t
    → (i : ℕ) (e : Entry) → i < t.bucket_count
    → AllPlain t
    → IsPlainEntry e
    → AllPlain (placed_at t i e)
AllPlain-placed t v i e inside plain p j = elim (ℕ_discrete j i) [
  | yes same ↦ rw (same, slot-put_self t v i (bucket_of e) inside) (IsPlain-bucket_of e p)
  | no ne ↦ rw (slot-put_ne t v i (bucket_of e) inside j ne) (plain j)
]
