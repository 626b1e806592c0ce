-- ===== src/Extent/Remote/Laws.antt =====
-- Remote allocation: what it leaves in the remote memory.
use native.Mathlib.Nat.{mod-eq_of_lt}
use rdmas.Base.{
  ℕ, ◌+◌, ◌^◌, ◌≤◌, ◌<◌, ◌≡◌, refl, sym, ap, ap₂, subst, ◌∙◌, inl, inr, true, List, length, take,
  arith,
}
use rdmas.Base.Bytes.{
  Buffer, load, store, to_le_bytes, from_le_bytes, length-to_le_bytes, from_le_bytes-to_le_bytes,
  store-size, store-outside, load-store_disjoint, load-store_same,
}
use rdmas.Base.Run.{ok}
use rdmas.Base.Result.{done}
use rdmas.Extent.Header.{extent_magic, header_bytes, extent_total, bytes_of, u64_at}
use rdmas.Extent.Holds.{Holds, u32_at-store, u64_at-store, load-take}
use rdmas.Extent.Region.{header_of}
use rdmas.Extent.Region.Laws.{in_place, in_place-Holds, length-bytes_of}
use rdmas.Extent.Remote.{add64, reserve_and_write, new, allocate_remote}
use rdmas.Transport.{Transport, step}
use rdmas.Transport.Memory.{IsMemory}

module _ (m : Buffer) (off : ℕ) (bytes : List ℕ) (v : List ℕ) (eight : length v ≡ 8) where
  -- The checksum of an extent may change.
  pub Holds-checksum :
      (epoch : ℕ) → Holds m off bytes epoch → Holds (store m (off + 24) v) off bytes epoch
  Holds-checksum epoch h = record {
    header = record {
      room = omega (arith, h.header.room, store-size m (off + 24) v);
      magic = u32_at-store m (off + 24) v off (inl (omega arith)) ∙ h.header.magic;
      version = store-outside m (off + 24) (off + 4) v (inl (omega arith)) ∙ h.header.version;
      data_len = u32_at-store m (off + 24) v (off + 8) (inl (omega arith)) ∙ h.header.data_len;
      epoch_mark = u64_at-store m (off + 24) v (off + 16) (inl (omega arith)) ∙ h.header.epoch_mark;
      not_v1 = λ e.
          h.header.not_v1 (sym (u32_at-store m (off + 24) v (off + 16) (inl (omega arith))) ∙ e);
    };
    inside = omega (arith, h.inside, store-size m (off + 24) v);
    content =
        load-store_disjoint m (off + 24) (off + 32) (length bytes) v (inr (omega (arith, eight)))
        ∙ h.content;
  }

-- The remote memory after an allocation at offset `o` of the region at `fl`, from the memory `b`.
abbrev pub allocated : (List ℕ → ℕ → ℕ) → Buffer → ℕ → ℕ → List ℕ → Buffer
allocated xxh64 b fl o bytes =
    store (in_place (store b fl (to_le_bytes 8 (o + extent_total (length bytes)))) (fl + o) bytes)
      (fl + o + 24) (to_le_bytes 8 (xxh64 bytes 0))

module _ {M : Type 0} (T : Transport M) (memory : M → Buffer) (laws : IsMemory T memory)
    (xxh64 : List ℕ → ℕ → ℕ) (m : M) (fl rkey lkey : ℕ) (bytes : List ℕ) where
  -- The calls of an allocation, one after the other.
  calls :
      (m1 m2 m3 m4 : M)
      → T.read 8 lkey fl rkey m ≡ (m, done (load (memory m) fl 8))
      → T.cas
          (u64_at (memory m) fl)
          (add64 (u64_at (memory m) fl) (extent_total (length bytes)))
          lkey
          fl
          rkey
          m
        ≡ (m1, done true)
      → T.write (bytes_of (header_of bytes 0)) lkey (add64 fl (u64_at (memory m) fl)) rkey m1
        ≡ (m2, done tt)
      → T.write bytes lkey (add64 (add64 fl (u64_at (memory m) fl)) header_bytes) rkey m2
        ≡ (m3, done tt)
      → T.write
          (to_le_bytes 8 (xxh64 bytes 0))
          lkey
          (add64 (add64 fl (u64_at (memory m) fl)) 24)
          rkey
          m3
        ≡ (m4, done tt)
      → reserve_and_write xxh64 T fl rkey lkey bytes m ≡ ok (m4, done (u64_at (memory m) fl))
  unfolding reserve_and_write u64_at
  calls m1 m2 m3 m4 e0 e1 e2 e3 e4 =
      step _ _ (ap ok e0)
      ∙ step _ _ (ap ok e1)
      ∙ step _ _ (ap ok e2)
      ∙ step _ _ (ap ok e3)
      ∙ step _ _ (ap ok e4)

  -- An allocation when no sum of addresses wraps.
  pub reserve_and_write-allocated :
      u64_at (memory m) fl + extent_total (length bytes) < 2 ^ 64
      → fl + 8 ≤ (memory m).size
      → fl + u64_at (memory m) fl + 32 + length bytes ≤ (memory m).size
      → (memory m).size < 2 ^ 64
      → (m' : M) × (reserve_and_write xxh64 T fl rkey lkey bytes m
          ≡ ok (m', done (u64_at (memory m) fl)))
        × (memory m' ≡ allocated xxh64 (memory m) fl (u64_at (memory m) fl) bytes)
  unfolding u64_at
  reserve_and_write-allocated small word room below =
      let o : ℕ = u64_at (memory m) fl in
      let new_offset : add64 o (extent_total (length bytes)) ≡ o + extent_total (length bytes) =
        mod-eq_of_lt small in
      let extent_addr : add64 fl o ≡ fl + o = mod-eq_of_lt (omega (arith, room, below)) in
      let payload_addr : add64 (add64 fl o) header_bytes ≡ fl + o + 32 =
        ap (λ (a : ℕ). add64 a 32) extent_addr ∙ mod-eq_of_lt (omega (arith, room, below)) in
      let checksum_addr : add64 (add64 fl o) 24 ≡ fl + o + 24 =
        ap (λ (a : ℕ). add64 a 24) extent_addr ∙ mod-eq_of_lt (omega (arith, room, below)) in
      let head_size : length (bytes_of (header_of bytes 0)) ≡ 32 =
        length-bytes_of (header_of bytes 0) in
      let (m1, e1, c1) =
        laws.swaps m o (add64 o (extent_total (length bytes))) lkey fl rkey word refl in
      let s1 : (memory m1).size ≡ (memory m).size =
        ap (λ (b : Buffer). b.size) c1
        ∙ store-size (memory m) fl (to_le_bytes 8 (add64 o (extent_total (length bytes)))) in
      let (m2, e2, c2) =
        laws.writes m1 (bytes_of (header_of bytes 0)) lkey (add64 fl o) rkey
          (omega (arith, head_size, s1, extent_addr, room)) in
      let s2 : (memory m2).size ≡ (memory m1).size =
        ap (λ (b : Buffer). b.size) c2
        ∙ store-size (memory m1) (add64 fl o) (bytes_of (header_of bytes 0)) in
      let (m3, e3, c3) =
        laws.writes m2 bytes lkey (add64 (add64 fl o) header_bytes) rkey
          (omega (arith, s1, s2, payload_addr, room)) in
      let s3 : (memory m3).size ≡ (memory m2).size =
        ap (λ (b : Buffer). b.size) c3
        ∙ store-size (memory m2) (add64 (add64 fl o) header_bytes) bytes in
      let (m4, e4, c4) =
        laws.writes m3 (to_le_bytes 8 (xxh64 bytes 0)) lkey (add64 (add64 fl o) 24) rkey
          (omega (arith, s1, s2, s3, checksum_addr, room)) in
      (
        m4,
        calls m1 m2 m3 m4 (laws.reads m 8 lkey fl rkey word) e1 e2 e3 e4,
        c4
            ∙ ap₂ (λ (b : Buffer) (a : ℕ). store b a (to_le_bytes 8 (xxh64 bytes 0)))
                (c3
                  ∙ ap₂ (λ (b : Buffer) (a : ℕ). store b a bytes)
                      (c2
                        ∙ ap₂ (λ (b : Buffer) (a : ℕ). store b a (bytes_of (header_of bytes 0)))
                            (c1 ∙ ap (λ (n : ℕ). store (memory m) fl (to_le_bytes 8 n)) new_offset)
                            extent_addr)
                      payload_addr)
                checksum_addr,
      )

module _ (xxh64 : List ℕ → ℕ → ℕ) (b : Buffer) (fl o : ℕ) (bytes : List ℕ) where
  abbrev bump : Buffer
  bump = store b fl (to_le_bytes 8 (o + extent_total (length bytes)))

  allocated-Holds :
      length bytes < 2 ^ 32
      → fl + o + 32 + length bytes ≤ b.size
      → Holds (allocated xxh64 b fl o bytes) (fl + o) bytes 0
  allocated-Holds small room =
      Holds-checksum (in_place bump (fl + o) bytes) (fl + o) bytes (to_le_bytes 8 (xxh64 bytes 0))
        (length-to_le_bytes 8 (xxh64 bytes 0)) 0
        (in_place-Holds bump (fl + o) bytes small (
          omega (arith, room, store-size b fl (to_le_bytes 8 (o + extent_total (length bytes)))))).0

  -- The stores of the extent leave a word below it as it is.
  word-allocated :
      8 ≤ o
      → o + extent_total (length bytes) < 2 ^ 64
      → u64_at (allocated xxh64 b fl o bytes) fl ≡ o + extent_total (length bytes)
  unfolding u64_at
  word-allocated past small =
      u64_at-store (in_place bump (fl + o) bytes) (fl + o + 24) (to_le_bytes 8 (xxh64 bytes 0)) fl
        (inl (omega arith))
      ∙ u64_at-store (store bump (fl + o) (bytes_of (header_of bytes 0))) (fl + o + 32) bytes fl
          (inl (omega arith))
      ∙ u64_at-store bump (fl + o) (bytes_of (header_of bytes 0)) fl (inl (omega arith))
      ∙ ap from_le_bytes (load-store_same b fl (to_le_bytes 8 (o + extent_total (length bytes))))
      ∙ from_le_bytes-to_le_bytes 8 (o + extent_total (length bytes)) (omega arith)

head_word :
    (bytes : List ℕ) → from_le_bytes (take 8 (bytes_of (header_of bytes 0))) ≡ extent_magic + 2 ^ 32
unfolding bytes_of header_of extent_magic
head_word bytes = refl

word-overwritten :
    (xxh64 : List ℕ → ℕ → ℕ) (b : Buffer) (fl : ℕ) (bytes : List ℕ)
    → u64_at (allocated xxh64 b fl 0 bytes) fl ≡ extent_magic + 2 ^ 32
unfolding u64_at
word-overwritten xxh64 b fl bytes =
    let at : fl + 0 ≡ fl = omega arith in
    let head : List ℕ = bytes_of (header_of bytes 0) in
    let b1 : Buffer = store b fl (to_le_bytes 8 (0 + extent_total (length bytes))) in
    u64_at-store (in_place b1 (fl + 0) bytes) (fl + 0 + 24) (to_le_bytes 8 (xxh64 bytes 0)) fl
      (inl (omega arith))
    ∙ u64_at-store (store b1 (fl + 0) head) (fl + 0 + 32) bytes fl (inl (omega arith))
    ∙ ap (λ (a : ℕ). u64_at (store b1 a head) fl) at
    ∙ ap from_le_bytes (load-take (store b1 fl head) fl fl 8 24)
    ∙ ap (λ (l : List ℕ). from_le_bytes (take 8 l))
        (ap (load (store b1 fl head) fl) (sym (length-bytes_of (header_of bytes 0)))
          ∙ load-store_same b1 fl head)
    ∙ head_word bytes

-- A remote allocation of less than 2^32 bytes, over a transport that behaves as a memory of less than 2^64 bytes, at the
-- bump offset that the region has. The offset must be at least 8, header and data must fit the memory there, and the
-- offset with the footprint must be below 2^64. The allocation succeeds and returns that offset, the extent is in place
-- there, and the bump offset moves by its footprint.
pub allocate_remote-Holds :
    {M : Type 0} (T : Transport M) (memory : M → Buffer) (laws : IsMemory T memory)
    (xxh64 : List ℕ → ℕ → ℕ) (m : M) (fl rkey lkey : ℕ) (bytes : List ℕ)
    → 8 ≤ u64_at (memory m) fl
    → length bytes < 2 ^ 32
    → u64_at (memory m) fl + extent_total (length bytes) < 2 ^ 64
    → fl + u64_at (memory m) fl + 32 + length bytes ≤ (memory m).size
    → (memory m).size < 2 ^ 64
    → (m' : M) × (allocate_remote xxh64 (new T fl rkey lkey) bytes m
        ≡ ok (m', done (u64_at (memory m) fl)))
      × Holds (memory m') (fl + u64_at (memory m) fl) bytes 0
      × (u64_at (memory m') fl ≡ u64_at (memory m) fl + extent_total (length bytes))
unfolding allocate_remote new
allocate_remote-Holds T memory laws xxh64 m fl rkey lkey bytes past small no_wrap room below =
    let o : ℕ = u64_at (memory m) fl in
    let (m', e, c) =
      reserve_and_write-allocated T memory laws xxh64 m fl rkey lkey bytes no_wrap (omega arith)
        room below in
    (
      m',
      e,
      subst (λ b. Holds b (fl + o) bytes 0) (sym c)
          (allocated-Holds xxh64 (memory m) fl o bytes small room),
      ap (λ b. u64_at b fl) c ∙ word-allocated xxh64 (memory m) fl o bytes past no_wrap,
    )

-- The first remote allocation of a region, whose bump offset is 0, starts at offset 0, where the bump offset itself is.
-- Over a transport that behaves as a memory of less than 2^64 bytes, if header and data fit the memory and the footprint
-- is below 2^64, it succeeds, and its header overwrites the bump offset, which reads as the magic number and the version
-- from then on.
pub allocate_remote-overwrites :
    {M : Type 0} (T : Transport M) (memory : M → Buffer) (laws : IsMemory T memory)
    (xxh64 : List ℕ → ℕ → ℕ) (m : M) (fl rkey lkey : ℕ) (bytes : List ℕ)
    → u64_at (memory m) fl ≡ 0
    → extent_total (length bytes) < 2 ^ 64
    → fl + 32 + length bytes ≤ (memory m).size
    → (memory m).size < 2 ^ 64
    → (m' : M) × (allocate_remote xxh64 (new T fl rkey lkey) bytes m ≡ ok (m', done 0))
      × (u64_at (memory m') fl ≡ extent_magic + 2 ^ 32)
unfolding allocate_remote new
allocate_remote-overwrites T memory laws xxh64 m fl rkey lkey bytes fresh no_wrap room below =
    let (m', e, c) =
      reserve_and_write-allocated T memory laws xxh64 m fl rkey lkey bytes (omega (arith, fresh))
        (omega arith) (omega (arith, fresh)) below in
    (
      m',
      e ∙ ap (λ (n : ℕ). ok (m', done n)) fresh,
      ap (λ (b : Buffer). u64_at b fl)
            (c ∙ ap (λ (n : ℕ). allocated xxh64 (memory m) fl n bytes) fresh)
          ∙ word-overwritten xxh64 (memory m) fl bytes,
    )
