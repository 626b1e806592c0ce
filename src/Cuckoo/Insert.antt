-- ===== src/Cuckoo/Insert.antt =====
-- Insertion: it never panics on a valid table, it binds the key and nothing else, or it drops one
-- entry and says `TableFull`.
use rdmas.Base.{
  ℕ, ◌<◌, ◌≡◌, refl, sym, ap, subst, ◌∙◌, ◌≢◌, ◌⊎◌, inl, inr, true, false, List, some, Bool-cases,
  ℕ_discrete, ==_ne,
}
use mathlib.Core.Logic.{if_pos, if_neg}
use rdmas.Base.Run.{ok, ◌>>=◌}
use rdmas.Base.Result.{done, err}
use rdmas.Layout.LockWord.{BucketMode}
use rdmas.Layout.Bucket.{HashedKey}
use rdmas.Layout.Bucket.Laws.{key_of}
use rdmas.Cuckoo.Defs.{
  CuckooTable, Entry, h1, h2, is_live, is_free, bucket_of, insert_raw, insert, invalid_key,
  kick_chain, pack_body,
}
use rdmas.Cuckoo.View.{
  slot, IsOccupied, payload, IsValid, view, key, h1-lt, h2-lt, live_of_occupied, IsOccupied-of_live,
}
use rdmas.Cuckoo.Put.{IsPlace, put-IsValid, view-put_other, view-put_self}
use rdmas.Cuckoo.Slots.{
  bucket_at-ok, write_slot-ok, key_of-bucket_of, bucket_of-IsOccupied, payload-bucket_of,
  IsPlace-lt,
}
use rdmas.Cuckoo.Chain.{
  HashedKey-discrete, after, IsAbsent, IsInHand, placed_at, placed_at-IsValid, view-placed_free,
  Binds, Ends, kick_chain-Ends, IsOccupied-of_taken,
}

module _ (t : CuckooTable) (v : IsValid t) (e : Entry) (nz : e.hash ≢ 0) where
  -- A write over the key's own slot.
  overwrite-Binds :
      (i : ℕ)
      → IsPlace t i e.hash
      → is_live (slot t i) e.hash e.digest ≡ true
      → Binds t e (placed_at t i e)
  overwrite-Binds i place live = (valid, views)
    where
      inside : i < t.bucket_count
      inside = IsPlace-lt t v i e.hash place

      held : IsOccupied (slot t i) × (key_of (slot t i) ≡ key e)
      held = IsOccupied-of_live (slot t i) (key e) nz live

      valid : IsValid (placed_at t i e)
      valid =
          put-IsValid t v i (bucket_of e) inside
            (λ _. rw (ap (λ (k : HashedKey). k.hash) (key_of-bucket_of e)) place)
            (λ _ j ne occ p. ne (v.unique j i occ held.0 (p ∙ key_of-bucket_of e ∙ sym held.1)))

      bound : view (placed_at t i e) (key e) ≡ some (e.body, e.mode)
      bound =
          subst (λ k. view (placed_at t i e) k ≡ some (payload (bucket_of e))) (key_of-bucket_of e)
            (view-put_self t v i (bucket_of e) inside valid (bucket_of-IsOccupied e nz))
          ∙ ap some (payload-bucket_of e)

      views : (k : HashedKey) → k.hash ≢ 0 → view (placed_at t i e) k ≡ after e (view t) k
      views k nzk = elim (HashedKey-discrete k (key e)) [
        | yes same ↦ rw (if_pos _ same, same) bound
        | no ne ↦ rw (if_neg _ ne) (
            view-put_other t v i (bucket_of e) inside k nzk (λ _ p. ne (sym p ∙ held.1))
              (λ _ p. ne (sym p ∙ key_of-bucket_of e)))
      ]

  -- Neither slot has the key, so no slot has it.
  pub IsAbsent-of_dead :
      is_live (slot t (h1 t e.hash)) e.hash e.digest ≡ false
      → is_live (slot t (h2 t e.hash)) e.hash e.digest ≡ false
      → IsAbsent t (key e)
  IsAbsent-of_dead dead dead' j occ p = elim (v.placed j occ) [
    | inl q ↦ cc (live, dead, q, same_hash)
    | inr q ↦ cc (live, dead', q, same_hash)
  ]
    where
      live : is_live (slot t j) e.hash e.digest ≡ true
      live = live_of_occupied (slot t j) (key e) occ p

      same_hash : (slot t j).key_hash ≡ e.hash
      same_hash = ap (λ (k : HashedKey). k.hash) p

  fill-Binds :
      (i : ℕ)
      → IsPlace t i e.hash
      → IsAbsent t (key e)
      → is_free (slot t i) ≡ true
      → Binds t e (placed_at t i e)
  fill-Binds i place absent free =
      let hand : IsInHand t i e = record { nonzero = nz; place = place; absent = absent } in
      (placed_at-IsValid t v i e hand, view-placed_free t v i e hand free)

  -- The five ways through `insert_raw`.
  module _ (let_first : is_live (slot t (h1 t e.hash)) e.hash e.digest ≡ true) where
    raw_first : insert_raw t e ≡ ok (placed_at t (h1 t e.hash) e, done tt)
    unfolding insert_raw
    raw_first = rw (
      bucket_at-ok t v (h1 t e.hash) (h1-lt t v e.hash),
      ◌>>=◌,
      let_first,
      write_slot-ok t v (h1 t e.hash) (h1-lt t v e.hash) e,
    )

  module _ (dead : is_live (slot t (h1 t e.hash)) e.hash e.digest ≡ false) where
    raw_second :
        is_live (slot t (h2 t e.hash)) e.hash e.digest ≡ true
        → insert_raw t e ≡ ok (placed_at t (h2 t e.hash) e, done tt)
    unfolding insert_raw
    raw_second live = rw (
      bucket_at-ok t v (h1 t e.hash) (h1-lt t v e.hash),
      ◌>>=◌,
      dead,
      bucket_at-ok t v (h2 t e.hash) (h2-lt t v e.hash),
      ◌>>=◌,
      live,
      write_slot-ok t v (h2 t e.hash) (h2-lt t v e.hash) e,
    )

    module _ (dead' : is_live (slot t (h2 t e.hash)) e.hash e.digest ≡ false) where
      pub raw_free :
          is_free (slot t (h1 t e.hash)) ≡ true
          → insert_raw t e ≡ ok (placed_at t (h1 t e.hash) e, done tt)
      unfolding insert_raw
      raw_free free = rw (
        bucket_at-ok t v (h1 t e.hash) (h1-lt t v e.hash),
        ◌>>=◌,
        dead,
        bucket_at-ok t v (h2 t e.hash) (h2-lt t v e.hash),
        ◌>>=◌,
        dead',
        free,
        write_slot-ok t v (h1 t e.hash) (h1-lt t v e.hash) e,
      )

      pub raw_free_second :
          is_free (slot t (h1 t e.hash)) ≡ false
          → is_free (slot t (h2 t e.hash)) ≡ true
          → insert_raw t e ≡ ok (placed_at t (h2 t e.hash) e, done tt)
      unfolding insert_raw
      raw_free_second taken free = rw (
        bucket_at-ok t v (h1 t e.hash) (h1-lt t v e.hash),
        ◌>>=◌,
        dead,
        bucket_at-ok t v (h2 t e.hash) (h2-lt t v e.hash),
        ◌>>=◌,
        dead',
        taken,
        free,
        write_slot-ok t v (h2 t e.hash) (h2-lt t v e.hash) e,
      )

      pub raw_kick :
          is_free (slot t (h1 t e.hash)) ≡ false
          → is_free (slot t (h2 t e.hash)) ≡ false
          → insert_raw t e ≡ kick_chain t.max_kick t (h1 t e.hash) e
      unfolding insert_raw
      raw_kick taken taken' = rw (
        bucket_at-ok t v (h1 t e.hash) (h1-lt t v e.hash),
        ◌>>=◌,
        dead,
        bucket_at-ok t v (h2 t e.hash) (h2-lt t v e.hash),
        ◌>>=◌,
        dead',
        taken,
        taken',
      )

  -- An insertion of an entry with a non-zero hash into a valid table returns. Either it succeeds, and
  -- the table is valid, binds the key to the new value and keeps every other binding; or it reports
  -- `TableFull`, and the table is valid and lacks one entry, which its list of bindings would
  -- complete.
  pub insert_raw-Ends : Ends t e (insert_raw t e)
  insert_raw-Ends = elim (Bool-cases (is_live (slot t (h1 t e.hash)) e.hash e.digest)) [
    | inl live ↦
        inl (
          placed_at t (h1 t e.hash) e,
          raw_first live,
          overwrite-Binds (h1 t e.hash) (inl refl) live,
        )
    | inr dead ↦ elim (Bool-cases (is_live (slot t (h2 t e.hash)) e.hash e.digest)) [
      | inl live ↦ inl (
        placed_at t (h2 t e.hash) e,
        raw_second dead live,
        overwrite-Binds (h2 t e.hash) (inr refl) live,
      )
      | inr dead' ↦
          let absent = IsAbsent-of_dead dead dead' in
          elim (Bool-cases (is_free (slot t (h1 t e.hash)))) [
            | inl free ↦ inl (
              placed_at t (h1 t e.hash) e,
              raw_free dead dead' free,
              fill-Binds (h1 t e.hash) (inl refl) absent free,
            )
            | inr taken ↦ elim (Bool-cases (is_free (slot t (h2 t e.hash)))) [
              | inl free ↦ inl (
                placed_at t (h2 t e.hash) e,
                raw_free_second dead dead' taken free,
                fill-Binds (h2 t e.hash) (inr refl) absent free,
              )
              | inr taken' ↦ rw (raw_kick dead dead' taken taken') (
                  kick_chain-Ends t.max_kick t v (h1 t e.hash) e
                    (record { nonzero = nz; place = inl refl; absent = absent })
                    (IsOccupied-of_taken (slot t (h1 t e.hash)) taken))
            ]
          ]
    ]
  ]

-- The entry that `insert` writes.
abbrev pub entry : HashedKey → List ℕ → BucketMode → Entry
entry k value mode = record {
  hash = k.hash;
  digest = k.digest;
  body = pack_body value mode;
  mode = mode;
}

-- `insert` on a valid table never panics. A zero hash is refused and the table stays as it is. With any other key it
-- either succeeds: the table is valid, binds the key to the packed value and mode, and keeps all other bindings; or it
-- reports `TableFull`: the table is valid and one entry, old or new, has dropped out of it, while all other bindings are
-- those that a success would have left. The bindings are those of the keys with a non-zero hash.
pub insert-Ends :
    (t : CuckooTable) (k : HashedKey) (value : List ℕ) (mode : BucketMode)
    → IsValid t
    → ((k.hash ≡ 0) × (insert t k value mode ≡ ok (t, err invalid_key)))
      ⊎ Ends t (entry k value mode) (insert t k value mode)
unfolding insert
insert-Ends t k value mode v = elim (ℕ_discrete k.hash 0) [
  | yes zero_hash ↦ inl (zero_hash, rw zero_hash)
  | no nz ↦ inr (rw (==_ne k.hash 0 nz) (insert_raw-Ends t v (entry k value mode) nz))
]
