-- ===== src/Client/Write/Kick.antt =====
-- The client's kick chain and the server's, on one table of inline entries.
use rdmas.Base.{
  ℕ, zero, suc, ◌<◌, ◌≡◌, refl, ap, ◌⊎◌, inl, inr, true, false, List, [], ◌∷◌, ◌++◌, Option,
  if◌then◌else◌, arith, Bool-cases, length, take-all, take, min, ◌==◌,
}
use rdmas.Base.Run.{Run, ok, index, ◌>>=◌, index-eq-ok, assign-eq-ok}
use rdmas.Base.Result.{done, err}
use rdmas.Layout.LockWord.{inline}
use rdmas.Layout.Bucket
use rdmas.Layout.Bucket.{HashedKey, HashBucket}
use rdmas.Extent.Region.{LargeObjectRegion}
use rdmas.Cuckoo.Defs
use rdmas.Cuckoo.Defs.{
  CuckooTable, Outcome, Entry, h1, h2, is_live, is_free, bucket_of, entry_of, alternate, pack_body,
}
use rdmas.Cuckoo.View.{slot, IsOccupied, IsValid}
use rdmas.Cuckoo.Slots.{IsPlace-lt}
use rdmas.Cuckoo.Chain.{
  IsInHand, placed_at, next_slot, placed_at-IsValid, kick_chain-stop, kick_chain-on, pushed_out,
  next_lt, IsOccupied-of_taken,
}
use rdmas.Client.Write.Plain.{AllPlain, AllPlain-placed, IsPlainEntry, IsPlainEntry-entry_of}
use rdmas.Client.Write.{
  Store, WriteResult, inserted, table_full, Answer, first_slot, second_slot, inline_body, fill,
  write_to_bucket_internal, kick_chain,
}

-- The server's table as the client's store.
abbrev pub store_of : CuckooTable → Option LargeObjectRegion → Store
store_of t large_objects = record { buckets = t.buckets; large_objects = large_objects }

append-nil : (xs : List ℕ) → xs ++ [] ≡ xs
append-nil [] = refl
append-nil (x ∷ xs) = ap (◌∷◌ x) (append-nil xs)

-- A value of 32 bytes is the body.
inline_body-full : (value : List ℕ) → length value ≡ 32 → inline_body value ≡ value
unfolding inline_body
inline_body-full value full =
    let whole : min (length value) 32 ≡ 32 = omega (arith, full) in
    let all : take 32 value ≡ value = take-all 32 value (omega (arith, full)) in
    rw (whole, all, full) (append-nil value)

module _ (t : CuckooTable) (v : IsValid t) (large_objects : Option LargeObjectRegion) (i : ℕ)
    (inside : i < t.bucket_count) where
  write-agrees :
      (e : Entry) (value : List ℕ)
      → e.mode ≡ inline
      → inline_body value ≡ e.body
      → write_to_bucket_internal e.hash e.digest value inline (store_of t large_objects) i
        ≡ ok (store_of (placed_at t i e) large_objects, done tt)
  unfolding write_to_bucket_internal fill bucket_of Bucket.set_inline_value inline_body
  write-agrees e value mode body =
      let room : i < length t.buckets = omega (arith, v.sized, inside) in
      rw
        (
          index-eq-ok Bucket.zeroed t.buckets i room,
          ◌>>=◌,
          assign-eq-ok t.buckets i _ room,
          mode,
          ← body,
        )
        refl

-- The same answer of the server's insertion and of the client's, on tables of `n` slots.
abbrev pub SameEnd : ℕ → Option LargeObjectRegion → Run Outcome → Answer WriteResult → Type 0
SameEnd n large_objects server client =
    (t' : CuckooTable) × (t'.bucket_count ≡ n)
    × AllPlain t'
    × (((server ≡ ok (t', done tt))
          × (at : ℕ) × (client ≡ ok (store_of t' large_objects, done (inserted at))))
        ⊎ ((server ≡ ok (t', err Defs.table_full))
            × (client ≡ ok (store_of t' large_objects, done table_full))))

module _ (t : CuckooTable) (v : IsValid t) (plain : AllPlain t)
    (large_objects : Option LargeObjectRegion) (i : ℕ) (e : Entry) (hand : IsInHand t i e)
    (pe : e.mode ≡ inline) (value : List ℕ) (body : inline_body value ≡ e.body) (rounds : ℕ) where
  inside : i < t.bucket_count
  inside = IsPlace-lt t v i e.hash hand.place

  there : HashBucket
  there = slot (placed_at t i e) (next_slot t i e)

  abbrev client_alt : ℕ
  client_alt =
      if i == first_slot t.bucket_count (slot t i).key_hash
      then second_slot t.bucket_count (slot t i).key_hash
      else first_slot t.bucket_count (slot t i).key_hash

  same_alt : client_alt ≡ next_slot t i e
  unfolding alternate h1 h2 first_slot second_slot entry_of
  same_alt = refl

  room : i < length t.buckets
  room = omega (arith, v.sized, inside)

  valid : IsValid (placed_at t i e)
  valid = placed_at-IsValid t v i e hand

  alt_room : next_slot t i e < (placed_at t i e).bucket_count
  alt_room = next_lt t v i e hand

  alt_index :
      index Bucket.zeroed (placed_at t i e).buckets (next_slot t i e)
      ≡ ok (slot (placed_at t i e) (next_slot t i e))
  alt_index =
      index-eq-ok Bucket.zeroed (placed_at t i e).buckets (next_slot t i e)
        (omega (arith, valid.sized, alt_room))

  moved :
      write_to_bucket_internal
        (slot t i).key_hash
        (slot t i).key_or_digest
        (slot t i).body
        inline
        (store_of (placed_at t i e) large_objects)
        (next_slot t i e)
      ≡ ok (
        store_of
            (placed_at (placed_at t i e) (next_slot t i e) (entry_of (slot t i)))
            large_objects,
        done tt,
      )
  unfolding entry_of
  moved =
      write-agrees (placed_at t i e) valid large_objects (next_slot t i e) alt_room
        (entry_of (slot t i)) (slot t i).body (IsPlainEntry-entry_of (slot t i) (plain i)).mode
        (inline_body-full (slot t i).body (plain i).sized)

  client_stop :
      is_free (slot (placed_at t i e) (next_slot t i e)) ≡ true
      → kick_chain
          (suc rounds)
          t.bucket_count
          e.hash
          e.digest
          value
          inline
          (store_of t large_objects)
          i
        ≡ ok (
          store_of
              (placed_at (placed_at t i e) (next_slot t i e) (entry_of (slot t i)))
              large_objects,
          done (inserted (next_slot t i e)),
        )
  unfolding kick_chain is_free
  client_stop free =
      rw
        (
          index-eq-ok Bucket.zeroed t.buckets i room,
          ◌>>=◌,
          (plain i).unlocked,
          (plain i).inlined,
          write-agrees t v large_objects i inside e value pe body,
          ◌>>=◌,
          same_alt,
          alt_index,
          ◌>>=◌,
          free,
          same_alt,
          moved,
          ◌>>=◌,
          same_alt,
        )
        refl

  client_on :
      is_free (slot (placed_at t i e) (next_slot t i e)) ≡ false
      → kick_chain
          (suc rounds)
          t.bucket_count
          e.hash
          e.digest
          value
          inline
          (store_of t large_objects)
          i
        ≡ kick_chain rounds t.bucket_count
            (slot t i).key_hash
            (slot t i).key_or_digest
            (slot t i).body
            inline
            (store_of (placed_at t i e) large_objects)
            (next_slot t i e)
  unfolding kick_chain is_free
  client_on taken =
      rw
        (
          index-eq-ok Bucket.zeroed t.buckets i room,
          ◌>>=◌,
          (plain i).unlocked,
          (plain i).inlined,
          write-agrees t v large_objects i inside e value pe body,
          ◌>>=◌,
          same_alt,
          alt_index,
          ◌>>=◌,
          taken,
          same_alt,
        )
        refl

module _ (large_objects : Option LargeObjectRegion) where
  pub kick_chain-agrees :
      (rounds : ℕ) (t : CuckooTable) (v : IsValid t) (plain : AllPlain t) (i : ℕ) (e : Entry)
      → IsInHand t i e
      → IsOccupied (slot t i)
      → IsPlainEntry e
      → (value : List ℕ) → inline_body value ≡ e.body
      → SameEnd t.bucket_count large_objects (Defs.kick_chain rounds t i e) (
          kick_chain rounds t.bucket_count e.hash e.digest value inline
            (store_of t large_objects)
            i)
  unfolding kick_chain Defs.kick_chain entry_of
  kick_chain-agrees zero t v plain i e hand occ pe value body = (t, refl, plain, inr (refl, refl))
  kick_chain-agrees (suc rounds) t v plain i e hand occ pe value body =
      let t' = placed_at t i e in
      let v' = placed_at-IsValid t v i e hand in
      let hand' = pushed_out t v i e hand occ in
      let plain' = AllPlain-placed t v i e (IsPlace-lt t v i e.hash hand.place) plain pe in
      let pe' = IsPlainEntry-entry_of (slot t i) (plain i) in
      elim (Bool-cases (is_free (slot (placed_at t i e) (next_slot t i e)))) [
        | inl free ↦ (
          placed_at (placed_at t i e) (next_slot t i e) (entry_of (slot t i)),
          refl,
          AllPlain-placed (placed_at t i e) v' (next_slot t i e) (entry_of (slot t i))
              (next_lt t v i e hand) plain' pe',
          inl (
            kick_chain-stop t v i e hand rounds free,
            next_slot t i e,
            client_stop t v plain large_objects i e hand pe.mode value body rounds free,
          ),
        )
        | inr taken ↦
            rw
              (
                kick_chain-on t v i e hand rounds taken,
                client_on t v plain large_objects i e hand pe.mode value body rounds taken,
              )
              (kick_chain-agrees rounds (placed_at t i e) v' plain' (next_slot t i e)
                (entry_of (slot t i)) hand'
                (IsOccupied-of_taken (slot (placed_at t i e) (next_slot t i e)) taken) pe'
                (slot t i).body (inline_body-full (slot t i).body (plain i).sized))
      ]
