-- ===== src/Extent/Region/Free.antt =====
-- Freeing, marking and sweeping extents of the V2 format.
use rdmas.Base.{
  ℕ, ◌+◌, ◌^◌, ◌≤◌, ◌<◌, ◌≡◌, refl, sym, ap, ◌∙◌, ◌≢◌, ◌⊎◌, inl, inr, true, false, ◌&&◌, List, [],
  ◌∷◌, ◌++◌, ◌==◌, ==_refl, ==_ne, ltb, le→leb, length, take, replicate, none, some, arith,
  Bool-cases,
}
use rdmas.Base.Bytes.{
  to_le_bytes, from_le_bytes, from_le_bytes-to_le_bytes, Buffer, load, store, load-store_same,
  load-store_disjoint, store-size, store-outside,
}
use rdmas.Base.Result.{done}
use rdmas.Extent.Header.{
  extent_magic, extent_total, DecodedHeader, u32_at, u64_at, decode_v2, read_decoded_header,
}
use rdmas.Extent.Holds.{Holds, decode-IsHeader, Holds-store, magic_nonzero, u32_at-store, load-take}
use rdmas.Extent.Region.{
  LargeObjectRegion, contains, remove_offset, read, zero_magic, footprint, reclaim, free,
  mark_for_gc, sweep_one,
}
use rdmas.Extent.Region.Laws.{Keeps}

module _ (m : Buffer) (off : ℕ) (room : off + 24 ≤ m.size) where
  pub zero_magic-eq : zero_magic m off ≡ store m off (replicate 4 0)
  unfolding zero_magic
  zero_magic-eq = rw (le→leb (off + 4) m.size (omega (arith, room))) refl

  zeroed_word : u32_at (store m off (replicate 4 0)) off ≡ 0
  unfolding u32_at
  zeroed_word = ap from_le_bytes (load-store_same m off (replicate 4 0))

pub remove_offset-contains : (ys : List ℕ) (x : ℕ) → contains (remove_offset ys x) x ≡ false
unfolding remove_offset contains
remove_offset-contains [] x = refl
remove_offset-contains (y ∷ ys) x = elim (Bool-cases (y == x)) [
  | inl e ↦ rw e (remove_offset-contains ys x)
  | inr ne ↦ rw (ne, ne) (remove_offset-contains ys x)
]

abbrev pub v2_header : ℕ → ℕ → DecodedHeader
v2_header size epoch = record {
  magic = extent_magic;
  data_len = size;
  epoch_mark = epoch;
  is_v2 = true;
}

-- What a reclaimed extent leaves behind: it cannot be read and is not allocated, its footprint is the
-- last free block, and the extents beside its header are kept.
abbrev pub IsReclaimed : LargeObjectRegion → LargeObjectRegion → ℕ → ℕ → Type 0
IsReclaimed r r' off size =
    (read r' off ≡ none)
    × (contains r'.allocated off ≡ false)
    × (r'.free_list ≡ r.free_list ++ ((off, extent_total size) ∷ []))
    × Keeps r.buffer r'.buffer off 4

module _ (r : LargeObjectRegion) (off : ℕ) (bytes : List ℕ) (epoch : ℕ)
    (h : Holds r.buffer off bytes epoch) where
  abbrev gone : Buffer
  gone = store r.buffer off (replicate 4 0)

  room24 : off + 24 ≤ r.buffer.size
  room24 = omega (arith, h.header.room)

  decode-gone :
      read_decoded_header gone off
      ≡ some (record { magic = 0; data_len = 0; epoch_mark = 0; is_v2 = false })
  unfolding read_decoded_header decode_v2
  decode-gone =
      let v1 : u32_at gone (off + 16) ≡ u32_at r.buffer (off + 16) =
        u32_at-store r.buffer off (replicate 4 0) (off + 16) (inr (omega arith)) in
      rw
        (
          v1,
          ==_ne (u32_at r.buffer (off + 16)) extent_magic h.header.not_v1,
          le→leb (off + 24) gone.size
              (omega (arith, room24, store-size r.buffer off (replicate 4 0))),
          le→leb (off + 5) gone.size
              (omega (arith, room24, store-size r.buffer off (replicate 4 0))),
          zeroed_word r.buffer off room24,
          ==_ne 0 extent_magic (λ e. magic_nonzero (sym e)),
        )
        refl

  reclaim-IsReclaimed :
      IsReclaimed r
        (reclaim r off (record {
          magic = extent_magic;
          data_len = length bytes;
          epoch_mark = epoch;
          is_v2 = true;
        }))
        off
        (length bytes)
  unfolding reclaim footprint read
  reclaim-IsReclaimed = (
    rw
        (
          read,
          zero_magic-eq r.buffer off room24,
          decode-gone,
          ==_ne 0 extent_magic (λ e. magic_nonzero (sym e)),
        )
        refl,
    remove_offset-contains r.allocated off,
    refl,
    rw (zero_magic-eq r.buffer off room24)
        (λ o b e held apart. Holds-store r.buffer off (replicate 4 0) o b e held apart),
  )

  -- Freeing an allocated extent succeeds and reclaims it.
  free-IsReclaimed :
      contains r.allocated off ≡ true
      → (r' : LargeObjectRegion) × (free r off ≡ (r', done tt))
        × IsReclaimed r r' off (length bytes)
  unfolding free
  free-IsReclaimed known = (
    _,
    rw
        (
          free,
          known,
          decode-IsHeader r.buffer off (length bytes) epoch h.header,
          ==_refl extent_magic,
        )
        refl,
    reclaim-IsReclaimed,
  )

  -- A round of `sweep` reclaims an extent that is marked with an epoch below the least active one, and
  -- leaves the region alone at any other.
  pub sweep_one-IsReclaimed :
      (least : ℕ)
      → (((0 < epoch) × (epoch < least))
          × ((r' : LargeObjectRegion) × (sweep_one r off least ≡ (r', 1))
              × IsReclaimed r r' off (length bytes)))
        ⊎ (((epoch ≡ 0) ⊎ (least ≤ epoch)) × (sweep_one r off least ≡ (r, 0)))
  unfolding sweep_one
  sweep_one-IsReclaimed least = elim (Bool-cases (ltb 0 epoch && ltb epoch least)) [
    | inl stale ↦ inl (
      (ground arith, ground arith),
      (
        _,
        rw (sweep_one, decode-IsHeader r.buffer off (length bytes) epoch h.header, stale) refl,
        reclaim-IsReclaimed,
      ),
    )
    | inr live ↦ inr (
      ground arith,
      rw (sweep_one, decode-IsHeader r.buffer off (length bytes) epoch h.header, live) refl,
    )
  ]

  -- Marking an extent for collection writes the epoch, which can be read back with the data, and keeps
  -- the extents beside it; this holds for an epoch whose low four bytes are not the magic number.
  pub mark_for_gc-Holds :
      (mark : ℕ)
      → mark < 2 ^ 64
      → from_le_bytes (to_le_bytes 4 mark) ≢ extent_magic
      → (r' : LargeObjectRegion) × (mark_for_gc r off mark ≡ (r', done tt))
        × Holds r'.buffer off bytes mark
        × Keeps r.buffer r'.buffer off 32
  unfolding mark_for_gc u32_at u64_at
  mark_for_gc-Holds mark small plain = (
    record r { buffer = marked },
    rw
        (
          mark_for_gc,
          decode-IsHeader r.buffer off (length bytes) epoch h.header,
          ==_refl extent_magic,
          le→leb (off + 16 + 8) r.buffer.size (omega (arith, h.header.room)),
        )
        refl,
    record {
      header = record {
        room = omega (arith, h.header.room, store-size r.buffer (off + 16) (to_le_bytes 8 mark));
        magic =
            u32_at-store r.buffer (off + 16) (to_le_bytes 8 mark) off (inl (omega arith))
            ∙ h.header.magic;
        version =
            store-outside r.buffer (off + 16) (off + 4) (to_le_bytes 8 mark) (inl (omega arith))
            ∙ h.header.version;
        data_len =
            u32_at-store r.buffer (off + 16) (to_le_bytes 8 mark) (off + 8) (inl (omega arith))
            ∙ h.header.data_len;
        epoch_mark = ap from_le_bytes stored ∙ from_le_bytes-to_le_bytes 8 mark small;
        not_v1 = λ e.
            plain (
              sym (ap from_le_bytes (load-take marked off (off + 16) 4 4 ∙ ap (take 4) stored))
              ∙ e);
      };
      inside = omega (arith, h.inside, store-size r.buffer (off + 16) (to_le_bytes 8 mark));
      content =
          load-store_disjoint r.buffer (off + 16) (off + 32) (length bytes) (to_le_bytes 8 mark)
            (inr (omega arith))
          ∙ h.content;
    },
    λ o b e held apart.
        Holds-store r.buffer (off + 16) (to_le_bytes 8 mark) o b e held (beside o b apart),
  )
    where
      marked : Buffer
      marked = store r.buffer (off + 16) (to_le_bytes 8 mark)

      stored : load marked (off + 16) 8 ≡ to_le_bytes 8 mark
      stored = load-store_same r.buffer (off + 16) (to_le_bytes 8 mark)

      beside :
          (o : ℕ) (b : List ℕ)
          → (o + 32 + length b ≤ off) ⊎ (off + 32 ≤ o)
          → (o + 32 + length b ≤ off + 16) ⊎ (off + 16 + 8 ≤ o)
      beside o b apart = ground arith
