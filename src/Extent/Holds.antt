-- ===== src/Extent/Holds.antt =====
-- An extent in place: its header and its data, what a read of it finds, and what leaves it alone.
use rdmas.Base.{
  ℕ, zero, suc, ◌+◌, ◌^◌, ◌≤◌, ◌<◌, ◌≡◌, refl, sym, ap, ◌∙◌, ◌≢◌, ◌⊎◌, true, List, ◌∷◌, ==_refl,
  ==_ne, le→leb, length, some, arith, get_or, take, drop,
}
use rdmas.Base.Bytes.{
  from_le_bytes, Buffer, load, store, load-store_disjoint, from_le_bytes-to_le_bytes, store-size,
  store-outside,
}
use rdmas.Extent.Header.{extent_magic, bytes_of, u32_at, u64_at, decode_v2, read_decoded_header}

-- The fields of a V2 header with its magic and version in place, at `off`.
pub record IsHeader (m : Buffer) (off size epoch : ℕ) : Type 0 where
  pub room : off + 32 ≤ m.size
  pub magic : u32_at m off ≡ extent_magic
  pub version : m.byte (off + 4) ≡ 1
  pub data_len : u32_at m (off + 8) ≡ size
  pub epoch_mark : u64_at m (off + 16) ≡ epoch
  pub not_v1 : u32_at m (off + 16) ≢ extent_magic

-- An extent with its data.
pub record Holds (m : Buffer) (off : ℕ) (bytes : List ℕ) (epoch : ℕ) : Type 0 where
  pub header : IsHeader m off (length bytes) epoch
  pub inside : off + 32 + length bytes ≤ m.size
  pub content : load m (off + 32) (length bytes) ≡ bytes

pub decode-IsHeader :
    (m : Buffer) (off size epoch : ℕ)
    → IsHeader m off size epoch
    → read_decoded_header m off
      ≡ some (record { magic = extent_magic; data_len = size; epoch_mark = epoch; is_v2 = true })
unfolding read_decoded_header decode_v2
decode-IsHeader m off size epoch h =
    rw
      (
        ==_ne (u32_at m (off + 16)) extent_magic h.not_v1,
        le→leb (off + 24) m.size (omega (arith, h.room)),
        le→leb (off + 5) m.size (omega (arith, h.room)),
        h.magic,
        ==_refl extent_magic,
        h.version,
        le→leb (off + 32) m.size (omega (arith, h.room)),
        h.data_len,
        h.epoch_mark,
      )
      refl

module _ (m : Buffer) (off : ℕ) where
  load-drop : (i k : ℕ) → load m (off + i) k ≡ drop i (load m off (i + k))
  load-drop i k = go off i k (off + i) refl (i + k) refl
    where
      go : (a i k b : ℕ) → b ≡ a + i → (n : ℕ) → n ≡ i + k → load m b k ≡ drop i (load m a n)
      go a zero k b e n c =
          let same : b ≡ a = omega arith in let whole : n ≡ k = omega arith in rw (same, whole) refl
      go a (suc i) k b e zero c = absurd (omega arith)
      go a (suc i) k b e (suc n) c = go (suc a) i k b (omega arith) n (omega arith)

  pub load-take : (a n r : ℕ) → load m a n ≡ take n (load m a (n + r))
  load-take a zero r = refl
  load-take a (suc n) r =
      let more : suc n + r ≡ suc (n + r) = omega arith in
      rw more (ap (◌∷◌ (m.byte a)) (load-take (suc a) n r))

  load-part : (i n r : ℕ) → load m (off + i) n ≡ take n (drop i (load m off (i + (n + r))))
  load-part i n r = load-take (off + i) n r ∙ ap (take n) (load-drop i (n + r))

pub magic-lt : extent_magic < 256 ^ 4
unfolding extent_magic
magic-lt = omega arith

pub magic_nonzero : extent_magic ≢ 0
unfolding extent_magic
magic_nonzero e = omega arith

-- A buffer with the bytes of a V2 header at `off`.
pub IsHeader-in_place :
    (m : Buffer) (off size checksum : ℕ)
    → size < 2 ^ 32
    → off + 32 ≤ m.size
    → load m off 32
      ≡ bytes_of (record {
        magic = extent_magic;
        version = 1;
        data_len = size;
        epoch_mark = 0;
        checksum = checksum;
      })
    → IsHeader m off size 0
unfolding bytes_of u32_at u64_at
IsHeader-in_place m off size checksum small room at = record {
  room = room;
  magic =
      ap from_le_bytes
        (ap (λ a. load m a 4) (omega arith) ∙ load-part m off 0 4 28 ∙ ap (λ l. take 4 l) at)
      ∙ from_le_bytes-to_le_bytes 4 extent_magic magic-lt;
  version = ap (λ l. get_or l 0 0) (load-part m off 4 1 27 ∙ ap (λ l. take 1 (drop 4 l)) at);
  data_len =
      ap from_le_bytes (load-part m off 8 4 20 ∙ ap (λ l. take 4 (drop 8 l)) at)
      ∙ from_le_bytes-to_le_bytes 4 size (omega arith);
  epoch_mark = ap from_le_bytes (load-part m off 16 8 8 ∙ ap (λ l. take 8 (drop 16 l)) at);
  not_v1 = λ e.
      magic_nonzero
        (sym e ∙ ap from_le_bytes (load-part m off 16 4 12 ∙ ap (λ l. take 4 (drop 16 l)) at));
}

module _ (m : Buffer) (a : ℕ) (v : List ℕ) where
  pub u32_at-store :
      (b : ℕ) → (b + 4 ≤ a) ⊎ (a + length v ≤ b) → u32_at (store m a v) b ≡ u32_at m b
  unfolding u32_at
  u32_at-store b apart = ap from_le_bytes (load-store_disjoint m a b 4 v apart)

  pub u64_at-store :
      (b : ℕ) → (b + 8 ≤ a) ⊎ (a + length v ≤ b) → u64_at (store m a v) b ≡ u64_at m b
  unfolding u64_at
  u64_at-store b apart = ap from_le_bytes (load-store_disjoint m a b 8 v apart)

  pub IsHeader-store :
      (off size epoch : ℕ)
      → IsHeader m off size epoch
      → (off + 32 ≤ a) ⊎ (a + length v ≤ off)
      → IsHeader (store m a v) off size epoch
  IsHeader-store off size epoch h apart = record {
    room = omega (arith, h.room, store-size m a v);
    magic = u32_at-store off (near off 4 (omega arith) (omega arith)) ∙ h.magic;
    version = store-outside m a (off + 4) v (ground arith) ∙ h.version;
    data_len = u32_at-store (off + 8) (near (off + 8) 4 (omega arith) (omega arith)) ∙ h.data_len;
    epoch_mark =
        u64_at-store (off + 16) (near (off + 16) 8 (omega arith) (omega arith)) ∙ h.epoch_mark;
    not_v1 = λ e.
        h.not_v1
          (sym (u32_at-store (off + 16) (near (off + 16) 4 (omega arith) (omega arith))) ∙ e);
  }
    where
      near : (b n : ℕ) → off ≤ b → b + n ≤ off + 32 → (b + n ≤ a) ⊎ (a + length v ≤ b)
      near b n p q = ground arith

  -- A store beside an extent leaves it in place.
  pub Holds-store :
      (off : ℕ) (bytes : List ℕ) (epoch : ℕ)
      → Holds m off bytes epoch
      → (off + 32 + length bytes ≤ a) ⊎ (a + length v ≤ off)
      → Holds (store m a v) off bytes epoch
  Holds-store off bytes epoch h apart = record {
    header = IsHeader-store off (length bytes) epoch h.header (ground arith);
    inside = omega (arith, h.inside, store-size m a v);
    content = load-store_disjoint m a (off + 32) (length bytes) v (ground arith) ∙ h.content;
  }
