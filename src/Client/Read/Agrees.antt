-- ===== src/Client/Read/Agrees.antt =====
-- The client's read and the server's lookup, on one table.
use mathlib.Core.Option
use rdmas.Base.{
  ℕ, ◌≡◌, refl, sym, ap, ◌∙◌, ◌≢◌, inl, inr, true, false, Option, none, some, arith, Bool-cases,
}
use rdmas.Base.Run.{ok}
use rdmas.Base.Result.{done, is_power_of_two}
use rdmas.Layout.LockWord.{inline, extent}
use rdmas.Layout.Bucket
use rdmas.Layout.Bucket.{HashedKey, HashBucket}
use rdmas.Extent.Region
use rdmas.Extent.Region.{LargeObjectRegion}
use rdmas.Client.Write.{first_slot, second_slot}
use rdmas.Cuckoo.Defs.{CuckooTable, LookupResult, h1, h2, is_live, lookup}
use rdmas.Cuckoo.View.{slot, payload, IsValid, view, h1-lt, h2-lt, IsOccupied-of_live}
use rdmas.Cuckoo.Lookup.{found, lookup-view}
use rdmas.Client.Read.{ReadResult, read_value, get}
use rdmas.Client.Read.Laws.{seen, or_else, get-seen, seen-of_dead, seen-of_live}

-- What the client makes of a result of the server's lookup: it copies the body of an inline entry, and
-- reads the extent of the other ones.
unfoldable pub fetch : Option LargeObjectRegion → Option LookupResult → Option ReadResult
fetch large_objects none = none
fetch large_objects (some r) = elim r.mode [
  | inline ↦ some (record { value = r.value; mode = inline })
  | extent ↦ elim large_objects [
    | none ↦ none
    | some region ↦ elim (Region.read region r.extent_offset) [
      | none ↦ none
      | some bytes ↦ some (record { value = bytes; mode = extent })
    ]
  ]
]

module _ (large_objects : Option LargeObjectRegion) (b : HashBucket) (key : HashedKey) where
  read_value-fetch : read_value large_objects b ≡ fetch large_objects (some (found (payload b)))
  unfolding read_value fetch found Bucket.mode_of Bucket.extent_ref Bucket.is_inline
      Bucket.is_extent rdmas.Layout.LockWord.is_inline rdmas.Layout.LockWord.is_extent
  read_value-fetch = ground arith

or_else-none : (a : Option ReadResult) → or_else a none ≡ a
or_else-none none = refl
or_else-none (some a) = refl

or_else_self : (a : Option ReadResult) → or_else a a ≡ a
or_else_self none = refl
or_else_self (some a) = refl

module _ (t : CuckooTable) (v : IsValid t) (key : HashedKey)
    (large_objects : Option LargeObjectRegion) (nz : key.hash ≢ 0)
    (unlocked : Bucket.is_locked (slot t (h1 t key.hash)) ≡ false)
    (unlocked' : Bucket.is_locked (slot t (h2 t key.hash)) ≡ false) where
  shown :
      is_live (slot t (h1 t key.hash)) key.hash key.digest ≡ true
      → seen key large_objects (slot t (h1 t key.hash))
        ≡ fetch large_objects (Option.map found (view t key))
  unfolding view fetch
  shown live =
      rw (live, seen-of_live large_objects (slot t (h1 t key.hash)) key live unlocked)
        (read_value-fetch large_objects (slot t (h1 t key.hash)) key)

  -- The two slots of a key show what the table binds it to.
  both_seen :
      or_else
        (seen key large_objects (slot t (h1 t key.hash)))
        (seen key large_objects (slot t (h2 t key.hash)))
      ≡ fetch large_objects (Option.map found (view t key))
  unfolding view fetch
  both_seen = elim (Bool-cases (is_live (slot t (h1 t key.hash)) key.hash key.digest)) [
    | inl live ↦ elim (Bool-cases (is_live (slot t (h2 t key.hash)) key.hash key.digest)) [
      | inl live' ↦
          let (occ, e) = IsOccupied-of_live (slot t (h1 t key.hash)) key nz live in
          let (occ', e') = IsOccupied-of_live (slot t (h2 t key.hash)) key nz live' in
          let one_slot : h1 t key.hash ≡ h2 t key.hash =
            v.unique (h1 t key.hash) (h2 t key.hash) occ occ' (e ∙ sym e') in
          ap
            (λ (i : ℕ).
              or_else (seen key large_objects (slot t (h1 t key.hash)))
                (seen key large_objects (slot t i)))
            (sym one_slot)
          ∙ or_else_self (seen key large_objects (slot t (h1 t key.hash)))
          ∙ shown live
      | inr dead' ↦
          rw (seen-of_dead large_objects (slot t (h2 t key.hash)) key dead', or_else-none)
            (shown live)
    ]
    | inr dead ↦ elim (Bool-cases (is_live (slot t (h2 t key.hash)) key.hash key.digest)) [
      | inl live ↦
          rw
            (
              seen-of_dead large_objects (slot t (h1 t key.hash)) key dead,
              dead,
              live,
              seen-of_live large_objects (slot t (h2 t key.hash)) key live unlocked',
            )
            (read_value-fetch large_objects (slot t (h2 t key.hash)) key)
      | inr dead' ↦
          rw
            (
              seen-of_dead large_objects (slot t (h1 t key.hash)) key dead,
              dead,
              dead',
              seen-of_dead large_objects (slot t (h2 t key.hash)) key dead',
            )
            refl
    ]
  ]

-- On a valid table of a power of two of slots, neither slot of the key locked, the client's read of a key
-- with a non-zero hash never panics nor fails: it returns what the server's lookup finds, an inline body as
-- it is and an extent as it is read from the region.
pub get-lookup :
    (t : CuckooTable) (key : HashedKey) (large_objects : Option LargeObjectRegion)
    → IsValid t
    → is_power_of_two t.bucket_count ≡ true
    → key.hash ≢ 0
    → Bucket.is_locked (slot t (h1 t key.hash)) ≡ false
    → Bucket.is_locked (slot t (h2 t key.hash)) ≡ false
    → (l : Option LookupResult) × (lookup t key ≡ ok l)
      × (get key t.buckets large_objects t.bucket_count ≡ ok (done (fetch large_objects l)))
unfolding first_slot second_slot h1 h2
get-lookup t key large_objects v power nz u1 u2 = (
  Option.map found (view t key),
  lookup-view t v key,
  elim (get-seen key t.buckets large_objects t.bucket_count) [
    | inl (zero_hash, _) ↦ absurd (nz zero_hash)
    | inr (inl (_, inl odd, _)) ↦ cc
    | inr (inl (_, inr (inl out), _)) ↦ absurd (omega (arith, out, v.sized, h1-lt t v key.hash))
    | inr (inl (_, inr (inr out), _)) ↦ absurd (omega (arith, out, v.sized, h2-lt t v key.hash))
    | inr (inr (_, _, _, _, e)) ↦
        e ∙ ap (λ o. ok (done o)) (both_seen t v key large_objects nz u1 u2)
  ],
)
