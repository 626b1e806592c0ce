-- ===== src/Tests/Remote.antt =====
-- The distributed operations over a memory of 512 bytes with a table of four slots.
use rdmas.Base.{
  ℕ, ◌≡◌, ◌≢◌, refl, ap, true, false, ◌||◌, List, [], ◌∷◌, ◌==◌, replicate, none, some, arith,
  if◌then◌else◌, ==_refl,
}
use rdmas.Base.Bytes
use rdmas.Base.Bytes.{
  Buffer, load, store, to_le_bytes, from_le_bytes, from_le_bytes-to_le_bytes, load-store_same,
  store-size,
}
use rdmas.Base.Run.{ok}
use rdmas.Base.Result.{done, is_power_of_two}
use rdmas.Layout.LockWord.{inline, extent}
use rdmas.Layout.Bucket
use rdmas.Layout.Bucket.{HashedKey, HashBucket}
use rdmas.Layout.Bucket.Wire.{of_bytes}
use rdmas.Client.Write.{first_slot, inserted, inline_body}
use rdmas.Client.Remote.{
  Region, slot_addr, probe_remote, get_remote, claim_remote, try_insert_remote_at, insert_remote,
}
use rdmas.Client.Remote.Laws.{IsKey, bucket_in}
use rdmas.Client.Remote.Probe.{IsInside}
use rdmas.Client.Remote.Meet.{get_remote-insert_remote, insert_remote-races}
use rdmas.Transport.{Transport}
use rdmas.Transport.Memory.{IsMemory}

-- A transport to a memory that nobody else uses.
abbrev pub direct : Transport Buffer
direct = record {
  read = λ len lkey addr rkey m. (m, done (load m addr len));
  write = λ bytes lkey addr rkey m. (store m addr bytes, done tt);
  cas = λ compare swap lkey addr rkey m.
      if from_le_bytes (load m addr 8) == compare
      then (store m addr (to_le_bytes 8 swap), done true)
      else (m, done false);
}

pub IsMemory-direct : IsMemory direct (λ m. m)
IsMemory-direct = record {
  reads = λ m len lkey addr rkey h. refl;
  writes = λ m bytes lkey addr rkey h. (store m addr bytes, refl, refl);
  swaps = λ m compare swap lkey addr rkey h e.
      (store m addr (to_le_bytes 8 swap), rw (e, ==_refl compare) refl, refl);
}

abbrev pub blank : Buffer
blank = Bytes.zeroed 512

abbrev pub table : Region
table = record { vaddr = 0; rkey = 7 }

abbrev pub region : Region
region = record { vaddr = 256; rkey = 8 }

abbrev pub key_one : HashedKey
key_one = record { hash = 1; digest = replicate 16 1 }

abbrev key_four : HashedKey
key_four = record { hash = 4; digest = replicate 16 4 }

IsKey-one : IsKey key_one
IsKey-one = record { nonzero = λ e. omega (arith, e); word = omega arith; digest = refl }

IsKey-four : IsKey key_four
IsKey-four = record { nonzero = λ e. omega (arith, e); word = omega arith; digest = refl }

apart : key_one ≢ key_four
apart e = omega (arith, ap (λ (k : HashedKey). k.hash) e)

inside : IsInside table 4 blank
inside = record { fits = omega arith; below = omega arith }

four : is_power_of_two 4 ≡ true
unfolding is_power_of_two
four = refl

abbrev pub no_hash : List ℕ → ℕ → ℕ
no_hash bytes seed = 0

slot_one : (first_slot 4 1 ≡ 1) × (slot_addr table 1 ≡ 64)
unfolding first_slot slot_addr
slot_one = (refl, refl)

blank_slot :
    (Bucket.is_locked (bucket_in blank (slot_addr table 1)) ≡ false)
    × (Bucket.is_empty (bucket_in blank (slot_addr table 1)) ≡ true)
    × ((bucket_in blank (slot_addr table 1)).lock_version ≡ 0)
unfolding slot_addr of_bytes Bucket.is_locked Bucket.is_empty Bucket.is_tombstone
    rdmas.Layout.LockWord.is_locked rdmas.Layout.LockWord.is_tombstone
blank_slot = (refl, refl, refl)

first_blank :
    (Bucket.is_locked (bucket_in blank (slot_addr table (first_slot 4 1))) ≡ false)
    × ((Bucket.is_empty (bucket_in blank (slot_addr table (first_slot 4 1)))
          || Bucket.is_tombstone (bucket_in blank (slot_addr table (first_slot 4 1))))
        ≡ true)
unfolding first_slot slot_addr of_bytes Bucket.is_locked Bucket.is_empty Bucket.is_tombstone
    rdmas.Layout.LockWord.is_locked rdmas.Layout.LockWord.is_tombstone
first_blank = (refl, refl)

get_remote-insert_remote_example :
    (m' : Buffer) × (insert_remote no_hash key_one
        (7 ∷ [])
        inline
        direct
        table
        region
        4
        0
        64
        128
        blank
      ≡ ok (m', done (inserted (first_slot 4 1))))
    × (get_remote key_one direct table region 4 0 64 m'
        ≡ ok (m', done (some (record { value = inline_body (7 ∷ []); mode = inline }))))
get_remote-insert_remote_example =
    get_remote-insert_remote direct (λ m. m) IsMemory-direct no_hash key_one (7 ∷ []) table region
      region 4 0 64 128 blank IsKey-one inside four (omega (arith, slot_one.0)) refl first_blank.0
      first_blank.1

insert_remote-races_example :
    (m1 : Buffer) × (m2 : Buffer) × (try_insert_remote_at no_hash key_one
        (7 ∷ [])
        inline
        direct
        (slot_addr table 1)
        7
        region
        0
        64
        blank
      ≡ ok (m1, done true))
    × (claim_remote no_hash key_four
          (8 ∷ [])
          inline
          direct
          (slot_addr table 1)
          7
          region
          0
          (bucket_in blank (slot_addr table 1))
          m1
        ≡ ok (m2, done true))
    × (probe_remote key_one direct table region 0 64 1 m2 ≡ ok (m2, done none))
insert_remote-races_example =
    insert_remote-races direct (λ m. m) IsMemory-direct no_hash key_one key_four (7 ∷ []) (8 ∷ [])
      table region region 4 1 0 64 blank IsKey-one IsKey-four apart inside (omega arith) refl
      blank_slot.2 blank_slot.0 blank_slot.1
