-- ===== src/Cuckoo/Chain.antt =====
-- The kick chain: every round moves one entry and keeps all others, whether a free slot turns up or
-- the rounds run out.
use mathlib.Core.Logic.{ite, if_pos, if_neg}
use rdmas.Base.{
  ℕ, zero, suc, ◌<◌, ◌≡◌, refl, sym, ap, subst, ◌∙◌, ◌≢◌, ◌⊎◌, inl, inr, true, false, Option, some,
  arith, Bool-cases, ℕ_discrete,
}
use rdmas.Base.Run.{Run, ok, ◌>>=◌}
use rdmas.Base.Result.{done, err}
use rdmas.Layout.Bucket.{HashedKey, HashBucket}
use rdmas.Layout.Bucket.Laws.{key_of}
use rdmas.Cuckoo.Defs.{
  CuckooTable, Outcome, table_full, Entry, bucket_of, entry_of, alternate, is_free, kick_chain,
}
use rdmas.Cuckoo.View.{slot, IsOccupied, Payload, payload, IsValid, view, view-key, key, is_free-eq}
use rdmas.Cuckoo.Put.{
  put, IsPlace, slot-put_self, slot-put_ne, put-IsValid, view-put_other, view-put_self,
}
use rdmas.Cuckoo.Slots.{
  bucket_at-ok, write_slot-ok, key_of-bucket_of, bucket_of-IsOccupied, payload-bucket_of,
  key-entry_of, payload-entry_of, entry_of-nonzero, alternate-IsPlace, IsPlace-lt,
}

pub HashedKey-discrete : Discrete HashedKey
HashedKey-discrete = hlevel ℕ_discrete

-- A map of keys with one entry bound anew.
abbrev pub after : Entry → (HashedKey → Option Payload) → HashedKey → Option Payload
after e f k = ite (HashedKey-discrete k (key e)) (some (e.body, e.mode)) (f k)

abbrev pub IsAbsent : CuckooTable → HashedKey → Type 0
IsAbsent t k = (j : ℕ) → IsOccupied (slot t j) → key_of (slot t j) ≢ k

-- An entry on its way to slot `i`, whose occupant it will push out.
pub record IsInHand (t : CuckooTable) (i : ℕ) (e : Entry) : Type 0 where
  pub nonzero : e.hash ≢ 0
  pub place : IsPlace t i e.hash
  pub absent : IsAbsent t (key e)

-- The table after `e` has been placed at `i`.
abbrev pub placed_at : CuckooTable → ℕ → Entry → CuckooTable
placed_at t i e = put t i (bucket_of e)

abbrev pub next_slot : CuckooTable → ℕ → Entry → ℕ
next_slot t i e = alternate (placed_at t i e) (entry_of (slot t i)).hash i

module _ (t : CuckooTable) (v : IsValid t) (i : ℕ) (e : Entry) (hand : IsInHand t i e) where
  inside : i < t.bucket_count
  inside = IsPlace-lt t v i e.hash hand.place

  pub placed_at-IsValid : IsValid (placed_at t i e)
  placed_at-IsValid =
      put-IsValid t v i (bucket_of e) inside (λ _. rw hash_of hand.place)
        (λ _ j ne occ. rw (key_of-bucket_of e) (hand.absent j occ))
    where
      hash_of : (bucket_of e).key_hash ≡ e.hash
      hash_of = ap (λ (k : HashedKey). k.hash) (key_of-bucket_of e)

  IsOccupied-new : IsOccupied (bucket_of e)
  IsOccupied-new = bucket_of-IsOccupied e hand.nonzero

  pub view-placed_self : view (placed_at t i e) (key e) ≡ some (e.body, e.mode)
  view-placed_self =
      subst (λ k. view (placed_at t i e) k ≡ some (payload (bucket_of e))) (key_of-bucket_of e)
        (view-put_self t v i (bucket_of e) inside placed_at-IsValid IsOccupied-new)
      ∙ ap some (payload-bucket_of e)

  pub view-placed_other :
      (k : HashedKey)
      → k.hash ≢ 0
      → (IsOccupied (slot t i) → key_of (slot t i) ≢ k)
      → k ≢ key e
      → view (placed_at t i e) k ≡ view t k
  view-placed_other k nz old ne =
      view-put_other t v i (bucket_of e) inside k nz old
        (λ _. rw (key_of-bucket_of e) (λ p. ne (sym p)))

  -- Into a free slot: the entry is bound, nothing else changes.
  pub view-placed_free :
      is_free (slot t i) ≡ true
      → (k : HashedKey) → k.hash ≢ 0
      → view (placed_at t i e) k ≡ after e (view t) k
  view-placed_free free k nz = elim (HashedKey-discrete k (key e)) [
    | yes same ↦ rw (if_pos _ same, same) view-placed_self
    | no ne ↦ rw (if_neg _ ne) (view-placed_other k nz (λ occ. absurd (clash occ)) ne)
  ]
    where
      clash : IsOccupied (slot t i) → ⊥
      clash occ = let f = is_free-eq (slot t i) in cc (f, occ, free)

  -- Onto an occupant: with the occupant in hand again, the entry is bound, nothing else changes.
  pub view-placed_occupied :
      IsOccupied (slot t i)
      → (k : HashedKey) → k.hash ≢ 0
      → after (entry_of (slot t i)) (view (placed_at t i e)) k ≡ after e (view t) k
  view-placed_occupied occ k nz = elim (HashedKey-discrete k (key (entry_of (slot t i)))) [
    | yes same ↦
        rw
          (
            if_pos _ same,
            if_neg _ (λ p. hand.absent i occ (sym (key-entry_of (slot t i)) ∙ sym same ∙ p)),
          )
          (ap some (sym (payload-entry_of (slot t i)))
            ∙ sym (view-key t v i k occ (sym (key-entry_of (slot t i)) ∙ sym same)))
    | no ne ↦ elim (HashedKey-discrete k (key e)) [
      | yes new ↦ rw (if_neg _ ne, if_pos _ new, new) view-placed_self
      | no ne' ↦
          rw (if_neg _ ne, if_neg _ ne')
            (view-placed_other k nz (λ _ p. ne (sym p ∙ sym (key-entry_of (slot t i)))) ne')
    ]
  ]

  -- The occupant that was pushed out is on its way to its other slot.
  pub pushed_out :
      IsOccupied (slot t i) → IsInHand (placed_at t i e) (next_slot t i e) (entry_of (slot t i))
  pushed_out occ = record {
    nonzero = entry_of-nonzero (slot t i) occ;
    place = alternate-IsPlace (placed_at t i e) (entry_of (slot t i)).hash i;
    absent = absent;
  }
    where
      absent : IsAbsent (placed_at t i e) (key (entry_of (slot t i)))
      absent j = rw (key-entry_of (slot t i)) (elim (ℕ_discrete j i) [
        | yes at ↦
            rw (at, slot-put_self t v i (bucket_of e) inside, key_of-bucket_of e)
              (λ _ p. hand.absent i occ (sym p))
        | no ne ↦
            rw (slot-put_ne t v i (bucket_of e) inside j ne)
              (λ occ' p. ne (v.unique j i occ' occ p))
      ])

  pub next_lt : next_slot t i e < (placed_at t i e).bucket_count
  next_lt =
      IsPlace-lt (placed_at t i e) placed_at-IsValid (next_slot t i e) (entry_of (slot t i)).hash
        (alternate-IsPlace (placed_at t i e) (entry_of (slot t i)).hash i)

  -- One round that ends the chain, and one that goes on.
  pub kick_chain-stop :
      (rounds : ℕ)
      → is_free (slot (placed_at t i e) (next_slot t i e)) ≡ true
      → kick_chain (suc rounds) t i e
        ≡ ok (placed_at (placed_at t i e) (next_slot t i e) (entry_of (slot t i)), done tt)
  unfolding kick_chain
  kick_chain-stop rounds free = rw (
    bucket_at-ok t v i inside,
    write_slot-ok t v i inside e,
    bucket_at-ok (placed_at t i e) placed_at-IsValid (next_slot t i e) next_lt,
    ◌>>=◌,
    free,
    write_slot-ok (placed_at t i e) placed_at-IsValid (next_slot t i e) next_lt
        (entry_of (slot t i)),
  )

  pub kick_chain-on :
      (rounds : ℕ)
      → is_free (slot (placed_at t i e) (next_slot t i e)) ≡ false
      → kick_chain (suc rounds) t i e
        ≡ kick_chain rounds (placed_at t i e) (next_slot t i e) (entry_of (slot t i))
  unfolding kick_chain
  kick_chain-on rounds taken = rw (
    bucket_at-ok t v i inside,
    write_slot-ok t v i inside e,
    bucket_at-ok (placed_at t i e) placed_at-IsValid (next_slot t i e) next_lt,
    ◌>>=◌,
    taken,
  )

-- The chain ends well: the entry is bound, every other binding is as before.
abbrev pub Binds : CuckooTable → Entry → CuckooTable → Type 0
Binds t e t' = IsValid t' × ((k : HashedKey) → k.hash ≢ 0 → view t' k ≡ after e (view t) k)

-- The chain gives up: one entry has dropped out, which would complete the table.
abbrev pub Drops : CuckooTable → Entry → CuckooTable → Entry → Type 0
Drops t e t' lost =
    IsValid t'
    × (lost.hash ≢ 0)
    × IsAbsent t' (key lost)
    × ((k : HashedKey) → k.hash ≢ 0 → after lost (view t') k ≡ after e (view t) k)

abbrev pub Ends : CuckooTable → Entry → Run Outcome → Type 0
Ends t e r =
    ((t' : CuckooTable) × (r ≡ ok (t', done tt)) × Binds t e t')
    ⊎ ((t' : CuckooTable) × (lost : Entry) × (r ≡ ok (t', err table_full)) × Drops t e t' lost)

pub IsOccupied-of_taken : (b : HashBucket) → is_free b ≡ false → IsOccupied b
IsOccupied-of_taken b taken = let f = is_free-eq b in ground arith

-- What holds of the chain from the second round on holds of the whole chain.
Ends-step :
    (t t' : CuckooTable) (e c : Entry) {r : Run Outcome}
    → ((k : HashedKey) → k.hash ≢ 0 → after c (view t') k ≡ after e (view t) k)
    → Ends t' c r
    → Ends t e r
Ends-step t t' e c step (inl (u, eq, (v, binds))) = inl (u, eq, (v, λ k nz. binds k nz ∙ step k nz))
Ends-step t t' e c step (inr (u, lost, eq, (v, nz, absent, drops))) =
    inr (u, lost, eq, (v, nz, absent, λ k nz. drops k nz ∙ step k nz))

pub kick_chain-Ends :
    (rounds : ℕ) (t : CuckooTable) (v : IsValid t) (i : ℕ) (e : Entry)
    → IsInHand t i e
    → IsOccupied (slot t i)
    → Ends t e (kick_chain rounds t i e)
unfolding kick_chain
kick_chain-Ends zero t v i e hand occ =
    inr (t, e, refl, (v, hand.nonzero, hand.absent, λ k nz. refl))
kick_chain-Ends (suc rounds) t v i e hand occ =
    let t' = placed_at t i e in
    let v' = placed_at-IsValid t v i e hand in
    let hand' = pushed_out t v i e hand occ in
    let there = slot (placed_at t i e) (next_slot t i e) in
    let step = view-placed_occupied t v i e hand occ in
    elim (Bool-cases (is_free (slot (placed_at t i e) (next_slot t i e)))) [
      | inl free ↦ inl (
        placed_at (placed_at t i e) (next_slot t i e) (entry_of (slot t i)),
        kick_chain-stop t v i e hand rounds free,
        (
          placed_at-IsValid (placed_at t i e) v' (next_slot t i e) (entry_of (slot t i)) hand',
          λ k nz.
              view-placed_free (placed_at t i e) v' (next_slot t i e) (entry_of (slot t i)) hand'
                free k nz
              ∙ step k nz,
        ),
      )
      | inr taken ↦ rw (kick_chain-on t v i e hand rounds taken) (
          Ends-step t (placed_at t i e) e (entry_of (slot t i)) step (
            kick_chain-Ends rounds (placed_at t i e) v' (next_slot t i e) (entry_of (slot t i))
              hand' (IsOccupied-of_taken there taken)))
    ]
