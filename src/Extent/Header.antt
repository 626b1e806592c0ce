-- ===== src/Extent/Header.antt =====
-- src/engine/extent.rs and src/engine/layout.rs: the extent headers, their encoding and detection.
use rdmas.Base.{
  ℕ, ◌+◌, ◌-◌, ◌^◌, bit_and, Bool, true, false, not, ◌&&◌, List, ◌∷◌, ◌++◌, ◌==◌, leb, replicate,
  Option, none, some, if◌then◌else◌,
}
use rdmas.Base.Bytes.{to_le_bytes, from_le_bytes, Buffer, load}

-- `EXTENT_MAGIC`
unfoldable pub extent_magic : ℕ
extent_magic = 0x52444D41

-- `HEADER_SIZE`
abbrev pub header_bytes : ℕ
header_bytes = 32

-- `(val + align - 1) & !(align - 1)` in 64 bits; the complement of `m` is `2^64 - 1 - m`.
unfoldable pub align_up : ℕ → ℕ → ℕ
align_up val align = bit_and (val + align - 1) (2 ^ 64 - 1 - (align - 1))

unfoldable pub extent_total : ℕ → ℕ
unfolding align_up
extent_total data_len = align_up (header_bytes + data_len) 8

pub record ExtentHeaderV2 : Type 0 where
  pub magic : ℕ
  pub version : ℕ
  pub data_len : ℕ
  pub epoch_mark : ℕ
  pub checksum : ℕ

-- `bytemuck::bytes_of`: the 32 bytes of the header, paddings zero.
unfoldable pub bytes_of : ExtentHeaderV2 → List ℕ
bytes_of h =
    to_le_bytes 4 h.magic
    ++ ((h.version ∷ replicate 3 0)
        ++ (to_le_bytes 4 h.data_len
            ++ (replicate 4 0 ++ (to_le_bytes 8 h.epoch_mark ++ to_le_bytes 8 h.checksum))))

pub record DecodedHeader : Type 0 where
  pub magic : ℕ
  pub data_len : ℕ
  pub epoch_mark : ℕ
  pub is_v2 : Bool

unfoldable pub header_size : DecodedHeader → ℕ
header_size d = if d.is_v2 then 32 else 24

unfoldable pub header_total : ℕ → ℕ
unfolding align_up
header_total data_len = align_up (header_bytes + data_len) 8

-- `u32::from_le_bytes` and `u64::from_le_bytes` of a slice of the buffer.
unfoldable pub u32_at : Buffer → ℕ → ℕ
u32_at m a = from_le_bytes (load m a 4)

unfoldable pub u64_at : Buffer → ℕ → ℕ
u64_at m a = from_le_bytes (load m a 8)

-- The V2 layout of `read_decoded_header`, which is tried second.
unfoldable pub decode_v2 : Buffer → ℕ → Option DecodedHeader
decode_v2 m off =
    if leb (off + 5) m.size
    then (if not (u32_at m off == extent_magic)
        then some (record { magic = u32_at m off; data_len = 0; epoch_mark = 0; is_v2 = false })
        else if m.byte (off + 4) == 0
        then (if not (leb (off + 24) m.size)
            then none
            else some (record {
              magic = u32_at m off;
              data_len = u64_at m off;
              epoch_mark = u64_at m (off + 8);
              is_v2 = false;
            }))
        else if m.byte (off + 4) == 1
        then (if not (leb (off + 32) m.size)
            then none
            else some (record {
              magic = u32_at m off;
              data_len = u32_at m (off + 8);
              epoch_mark = u64_at m (off + 16);
              is_v2 = true;
            }))
        else none)
    else none

-- The V1 layout comes first: its magic is at byte 16.
unfoldable pub read_decoded_header : Buffer → ℕ → Option DecodedHeader
unfolding decode_v2
read_decoded_header m off =
    if leb (off + 24) m.size && (u32_at m (off + 16) == extent_magic)
    then some (record {
      magic = u32_at m (off + 16);
      data_len = u64_at m off;
      epoch_mark = u64_at m (off + 8);
      is_v2 = false;
    })
    else decode_v2 m off
