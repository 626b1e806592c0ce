-- ===== src/Cuckoo/Lookup.antt =====
-- Lookup and deletion, and what a lookup finds after an insertion.
use mathlib.Core.Logic.{ite, if_pos, if_neg}
use mathlib.Core.Option
use rdmas.Base.{
  ℕ, ◌<◌, ◌≡◌, refl, sym, ap, subst, ◌∙◌, ◌≢◌, ◌⊎◌, inl, inr, true, false, List, Option, none, some,
  arith, Bool-cases, if◌then◌else◌, take, drop,
}
use rdmas.Base.Bytes.{from_le_bytes}
use rdmas.Base.Run.{Run, ok, panic, ◌>>=◌}
use rdmas.Base.Result.{done}
use rdmas.Layout.LockWord.{BucketMode, inline, extent}
use rdmas.Layout.Bucket
use rdmas.Layout.Bucket.{HashedKey, HashBucket}
use rdmas.Layout.Bucket.Laws.{key_of, mark_tombstone-IsTombstone}
use rdmas.Cuckoo.Defs.{
  CuckooTable, Outcome, LookupResult, Entry, h1, h2, is_live, read_bucket_value, probe, lookup,
  delete, find_key_idx, bucket_at, insert, pack_body,
}
use rdmas.Cuckoo.View.{
  slot, IsOccupied, Payload, payload, IsValid, view, h1-lt, h2-lt, IsOccupied-of_live,
}
use rdmas.Cuckoo.Put.{put, put-IsValid, view-put_other, view-put_gone}
use rdmas.Cuckoo.Slots.{bucket_at-ok, put_bucket-ok}
use rdmas.Cuckoo.Chain.{HashedKey-discrete, Ends, Binds}
use rdmas.Cuckoo.Insert.{entry, insert-Ends}

-- The result of a lookup, from the payload alone.
unfoldable pub found : Payload → LookupResult
found (body, inline) = record { value = body; mode = inline; extent_offset = 0; extent_length = 0 }
found (body, extent) = record {
  value = body;
  mode = extent;
  extent_offset = from_le_bytes (take 8 body);
  extent_length = from_le_bytes (take 8 (drop 8 body));
}

read_bucket_value-found : (b : HashBucket) → read_bucket_value b ≡ found (payload b)
unfolding read_bucket_value found Bucket.mode_of Bucket.extent_ref
read_bucket_value-found b = ground arith

module _ (t : CuckooTable) (v : IsValid t) where
  probe-ok :
      (k : HashedKey) (i : ℕ)
      → i < t.bucket_count
      → probe t k i
        ≡ ok
            (if is_live (slot t i) k.hash k.digest then some (found (payload (slot t i))) else none)
  unfolding probe
  probe-ok k i inside = rw (bucket_at-ok t v i inside, read_bucket_value-found (slot t i))

  -- A lookup in a valid table never panics and returns what the key is bound to.
  pub lookup-view : (k : HashedKey) → lookup t k ≡ ok (Option.map found (view t k))
  unfolding lookup view
  lookup-view k = elim (Bool-cases (is_live (slot t (h1 t k.hash)) k.hash k.digest)) [
    | inl live ↦ rw (probe-ok k (h1 t k.hash) (h1-lt t v k.hash), ◌>>=◌, live)
    | inr dead ↦
        rw (probe-ok k (h1 t k.hash) (h1-lt t v k.hash), ◌>>=◌, dead)
          (rw (probe-ok k (h2 t k.hash) (h2-lt t v k.hash)) (ground arith))
  ]

-- The table after an insertion that returns `Ok`.
ok-injective :
    {t t' : CuckooTable} → ◌≡◌ {A = Run Outcome} (ok (t, done tt)) (ok (t', done tt)) → t ≡ t'
ok-injective {t} e = ap pick e
  where
    pick : Run Outcome → CuckooTable
    pick (ok (u, r)) = u
    pick panic = t

pub Ends-Binds :
    (t t' : CuckooTable) (e : Entry) (r : Run Outcome)
    → Ends t e r
    → r ≡ ok (t', done tt)
    → Binds t e t'
Ends-Binds t t' e r (inl (u, eq, binds)) h = subst (Binds t e) (ok-injective (sym eq ∙ h)) binds
Ends-Binds t t' e r (inr (u, lost, eq, drops)) h = cc (eq, h)

ite_map {ℓ} :
    {P : Type ℓ} {A B : Type 0} (d : Dec P) (f : A → B) (a b : A)
    → f (ite d a b) ≡ ite d (f a) (f b)
ite_map (yes p) f a b = refl
ite_map (no p) f a b = refl

-- On a valid table, after a successful insertion of a key with a non-zero hash, a lookup of that key finds the packed
-- value in its mode, and a lookup of any other key with a non-zero hash finds what it found before.
pub lookup-insert :
    (t t' : CuckooTable) (k : HashedKey) (value : List ℕ) (mode : BucketMode)
    → IsValid t
    → k.hash ≢ 0
    → insert t k value mode ≡ ok (t', done tt)
    → (k' : HashedKey) → k'.hash ≢ 0
    → lookup t' k'
      ≡ ite (HashedKey-discrete k' k) (ok (some (found (pack_body value mode, mode)))) (lookup t k')
lookup-insert t t' k value mode v nz inserted k' nz' = elim (insert-Ends t k value mode v) [
  | inl (zero_hash, _) ↦ absurd (nz zero_hash)
  | inr ends ↦
      let (v', binds) =
        Ends-Binds t t' (entry k value mode) (insert t k value mode) ends inserted in
      rw (lookup-view t' v' k', lookup-view t v k', binds k' nz')
        (ite_map (HashedKey-discrete k' k) answer (some (pack_body value mode, mode)) (view t k'))
]
  where
    answer : Option Payload → Run (Option LookupResult)
    answer o = ok (Option.map found o)

-- Deletion removes the binding of its key and nothing else.
abbrev pub Deletes : CuckooTable → HashedKey → CuckooTable → Type 0
Deletes t k t' =
    IsValid t'
    × ((k' : HashedKey) → k'.hash ≢ 0 → view t' k' ≡ ite (HashedKey-discrete k' k) none (view t k'))

module _ (t : CuckooTable) (v : IsValid t) (k : HashedKey) (nz : k.hash ≢ 0) where
  pub tombstone-Deletes :
      (i : ℕ)
      → i < t.bucket_count
      → is_live (slot t i) k.hash k.digest ≡ true
      → Deletes t k (put t i (Bucket.mark_tombstone (slot t i)))
  tombstone-Deletes i inside live = (valid, views)
    where
      held : IsOccupied (slot t i) × (key_of (slot t i) ≡ k)
      held = IsOccupied-of_live (slot t i) k nz live

      dead : IsOccupied (Bucket.mark_tombstone (slot t i)) → ⊥
      dead occ = let m = mark_tombstone-IsTombstone (slot t i) in ground arith

      valid : IsValid (put t i (Bucket.mark_tombstone (slot t i)))
      valid =
          put-IsValid t v i (Bucket.mark_tombstone (slot t i)) inside (λ occ. absurd (dead occ))
            (λ occ. absurd (dead occ))

      views :
          (k' : HashedKey)
          → k'.hash ≢ 0
          → view (put t i (Bucket.mark_tombstone (slot t i))) k'
            ≡ ite (HashedKey-discrete k' k) none (view t k')
      views k' nz' = elim (HashedKey-discrete k' k) [
        | yes same ↦
            rw (if_pos _ same, same)
              (view-put_gone t v i (Bucket.mark_tombstone (slot t i)) inside k nz
                (λ j ne occ p. ne (v.unique j i occ held.0 (p ∙ sym held.1)))
                (λ occ. absurd (dead occ)))
        | no ne ↦ rw (if_neg _ ne) (
            view-put_other t v i (Bucket.mark_tombstone (slot t i)) inside k' nz'
              (λ _ p. ne (sym p ∙ held.1)) (λ occ. absurd (dead occ)))
      ]

  pub delete-first :
      is_live (slot t (h1 t k.hash)) k.hash k.digest ≡ true
      → delete t k ≡ ok (put t (h1 t k.hash) (Bucket.mark_tombstone (slot t (h1 t k.hash))), true)
  unfolding delete find_key_idx
  delete-first live = rw (
    bucket_at-ok t v (h1 t k.hash) (h1-lt t v k.hash),
    ◌>>=◌,
    live,
    ◌>>=◌,
    bucket_at-ok t v (h1 t k.hash) (h1-lt t v k.hash),
    ◌>>=◌,
    put_bucket-ok t v (h1 t k.hash) (h1-lt t v k.hash)
        (Bucket.mark_tombstone (slot t (h1 t k.hash))),
  )

  -- A deletion of a key with a non-zero hash in a valid table never panics. It returns `false` and the table as it was if
  -- the key is not bound; otherwise `true` and a valid table in which that key is not bound and every other one with a
  -- non-zero hash is bound as before.
  pub delete-Deletes :
      ((view t k ≡ none) × (delete t k ≡ ok (t, false)))
      ⊎ ((t' : CuckooTable) × (view t k ≢ none) × (delete t k ≡ ok (t', true)) × Deletes t k t')
  unfolding delete find_key_idx view
  delete-Deletes = elim (Bool-cases (is_live (slot t (h1 t k.hash)) k.hash k.digest)) [
    | inl live ↦ inr (
      put t (h1 t k.hash) (Bucket.mark_tombstone (slot t (h1 t k.hash))),
      rw live (λ e. cc),
      delete-first live,
      tombstone-Deletes (h1 t k.hash) in1 live,
    )
    | inr dead ↦ elim (Bool-cases (is_live (slot t (h2 t k.hash)) k.hash k.digest)) [
      | inl live ↦ inr (
        put t (h2 t k.hash) (Bucket.mark_tombstone (slot t (h2 t k.hash))),
        rw (dead, live) (λ e. cc),
        rw (
          first,
          ◌>>=◌,
          dead,
          second,
          ◌>>=◌,
          live,
          ◌>>=◌,
          second,
          ◌>>=◌,
          put_bucket-ok t v (h2 t k.hash) in2 _,
        ),
        tombstone-Deletes (h2 t k.hash) in2 live,
      )
      | inr dead' ↦ inl (rw (dead, dead'), rw (first, ◌>>=◌, dead, second, ◌>>=◌, dead'))
    ]
  ]
    where
      in1 : h1 t k.hash < t.bucket_count
      in1 = h1-lt t v k.hash

      in2 : h2 t k.hash < t.bucket_count
      in2 = h2-lt t v k.hash

      first : bucket_at t (h1 t k.hash) ≡ ok (slot t (h1 t k.hash))
      first = bucket_at-ok t v (h1 t k.hash) in1

      second : bucket_at t (h2 t k.hash) ≡ ok (slot t (h2 t k.hash))
      second = bucket_at-ok t v (h2 t k.hash) in2
