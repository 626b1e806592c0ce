-- ===== src/Cuckoo/Put.antt =====
-- Writing one slot: the invariant, and the view before and after.
use mathlib.Core.Option.{or_else}
use rdmas.Base.{
  ℕ, ◌<◌, ◌≡◌, sym, ap, ap₂, ◌∙◌, ◌≢◌, ◌⊎◌, inl, inr, false, set, Option, none, some, arith,
  if◌then◌else◌, Bool-cases, get_or-set_self, get_or-set_ne, length-set, ℕ_discrete,
}
use rdmas.Layout.Bucket
use rdmas.Layout.Bucket.{HashedKey, HashBucket}
use rdmas.Layout.Bucket.Laws.{key_of}
use rdmas.Cuckoo.Defs.{CuckooTable, h1, h2, is_live}
use rdmas.Cuckoo.View.{
  slot, IsOccupied, Payload, payload, IsValid, view, view-key, view-absent, IsOccupied-of_live,
}

abbrev pub put : CuckooTable → ℕ → HashBucket → CuckooTable
put t i b = record t { buckets = set t.buckets i b }

-- What one slot has under a key.
look : CuckooTable → ℕ → HashedKey → Option Payload
look t x k = if is_live (slot t x) k.hash k.digest then some (payload (slot t x)) else none

view-look :
    (t : CuckooTable) (k : HashedKey)
    → view t k ≡ or_else (look t (h1 t k.hash) k) (look t (h2 t k.hash) k)
unfolding view look or_else
view-look t k = ground arith

-- No slot but `i` carries the key.
abbrev pub IsElsewhere : CuckooTable → ℕ → HashedKey → Type 0
IsElsewhere t i k = (j : ℕ) → j ≢ i → IsOccupied (slot t j) → key_of (slot t j) ≢ k

abbrev pub IsPlace : CuckooTable → ℕ → ℕ → Type 0
IsPlace t i hash = (i ≡ h1 t hash) ⊎ (i ≡ h2 t hash)

module _ (t : CuckooTable) (v : IsValid t) (i : ℕ) (b : HashBucket)
    (inside : i < t.bucket_count) where
  pub slot-put_self : slot (put t i b) i ≡ b
  slot-put_self = get_or-set_self t.buckets i b Bucket.zeroed (rw v.sized inside)

  pub slot-put_ne : (j : ℕ) → j ≢ i → slot (put t i b) j ≡ slot t j
  slot-put_ne j ne = get_or-set_ne t.buckets i j b Bucket.zeroed (λ e. ne (sym e))

  pub put-IsValid :
      (IsOccupied b → IsPlace t i b.key_hash)
      → (IsOccupied b → IsElsewhere t i (key_of b))
      → IsValid (put t i b)
  unfolding h1 h2 look
  put-IsValid place else_where = record {
    half = v.half;
    half_pos = v.half_pos;
    even = v.even;
    sized = length-set t.buckets i b ∙ v.sized;
    placed = placed;
    unique = unique;
  }
    where
      placed : (j : ℕ) → IsOccupied (slot (put t i b) j) → IsPlace t j (slot (put t i b) j).key_hash
      placed j = elim (ℕ_discrete j i) [
        | yes e ↦ rw (e, slot-put_self) place
        | no ne ↦ rw (slot-put_ne j ne) (v.placed j)
      ]

      one :
          (j : ℕ)
          → j ≢ i
          → IsOccupied (slot (put t i b) i)
          → IsOccupied (slot (put t i b) j)
          → key_of (slot (put t i b) i) ≡ key_of (slot (put t i b) j)
          → ⊥
      one j ne = rw (slot-put_self, slot-put_ne j ne) (λ p q e. else_where p j ne q (sym e))

      unique :
          (j k : ℕ)
          → IsOccupied (slot (put t i b) j)
          → IsOccupied (slot (put t i b) k)
          → key_of (slot (put t i b) j) ≡ key_of (slot (put t i b) k)
          → j ≡ k
      unique j k = elim (ℕ_discrete j i) [
        | yes e ↦ elim (ℕ_discrete k i) [
          | yes f ↦ λ p q r. e ∙ sym f
          | no ne ↦ rw e (λ p q r. absurd (one k ne p q r))
        ]
        | no ne ↦ elim (ℕ_discrete k i) [
          | yes f ↦ rw f (λ p q r. absurd (one j ne q p (sym r)))
          | no ne' ↦ rw (slot-put_ne j ne, slot-put_ne k ne') (v.unique j k)
        ]
      ]

  -- A key that neither the old nor the new occupant carries keeps its binding.
  pub view-put_other :
      (k : HashedKey)
      → k.hash ≢ 0
      → (IsOccupied (slot t i) → key_of (slot t i) ≢ k)
      → (IsOccupied b → key_of b ≢ k)
      → view (put t i b) k ≡ view t k
  unfolding h1 h2 look
  view-put_other k nz old new =
      view-look (put t i b) k
      ∙ ap₂ or_else (same (h1 t k.hash)) (same (h2 t k.hash))
      ∙ sym (view-look t k)
    where
      dead : (s : HashBucket) → (IsOccupied s → key_of s ≢ k) → is_live s k.hash k.digest ≡ false
      dead s ne = elim (Bool-cases (is_live s k.hash k.digest)) [
        | inl live ↦ let (occ, e) = IsOccupied-of_live s k nz live in absurd (ne occ e)
        | inr no_match ↦ no_match
      ]

      blank :
          (u : CuckooTable) (x : ℕ) → is_live (slot u x) k.hash k.digest ≡ false → look u x k ≡ none
      blank u x e = rw (look, e)

      same : (x : ℕ) → look (put t i b) x k ≡ look t x k
      same x = elim (ℕ_discrete x i) [
        | yes e ↦ rw e (
            blank (put t i b) i (rw slot-put_self (dead b new))
            ∙ sym (blank t i (dead (slot t i) old)))
        | no ne ↦ rw (look, slot-put_ne x ne)
      ]

  -- The new occupant is bound.
  pub view-put_self :
      IsValid (put t i b) → IsOccupied b → view (put t i b) (key_of b) ≡ some (payload b)
  view-put_self valid occ =
      view-key (put t i b) valid i (key_of b) (rw slot-put_self occ) (ap key_of slot-put_self)
      ∙ ap (λ (s : HashBucket). some (payload s)) slot-put_self

  -- A key that only the old occupant carried is bound no more.
  pub view-put_gone :
      (k : HashedKey)
      → k.hash ≢ 0
      → IsElsewhere t i k
      → (IsOccupied b → key_of b ≢ k)
      → view (put t i b) k ≡ none
  view-put_gone k nz others new = view-absent (put t i b) k nz absent
    where
      absent : (j : ℕ) → IsOccupied (slot (put t i b) j) → key_of (slot (put t i b) j) ≢ k
      absent j = elim (ℕ_discrete j i) [
        | yes e ↦ rw (e, slot-put_self) new
        | no ne ↦ rw (slot-put_ne j ne) (others j ne)
      ]
