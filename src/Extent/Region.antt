-- ===== src/Extent/Region.antt =====
-- src/engine/extent.rs: `LargeObjectRegion`. A slice out of range panics; sums of offsets stay below
-- 2^64, as the region does.
pub mod Blocks
pub mod Laws
pub mod Free
pub mod V1
pub mod Cover
pub mod Tiled
pub mod Store
pub mod Found
pub mod Release
pub mod Runs
pub mod Sweeps
use rdmas.Base.{
  ℕ, zero, suc, ◌+◌, ◌-◌, ◌%◌, ◌^◌, Bool, true, false, not, ◌&&◌, ◌||◌, List, [], ◌∷◌, ◌++◌, ◌==◌,
  ltb, leb, length, replicate, Option, none, some, if◌then◌else◌,
}
use rdmas.Base.Bytes
use rdmas.Base.Bytes.{to_le_bytes, Buffer, load, store}
use rdmas.Base.Run.{Run, ok, panic, ◌>>=◌, ◌>>◌, assert}
use rdmas.Base.Result.{Result, done, err}
use rdmas.Extent.Header.{
  extent_magic, header_bytes, extent_total, ExtentHeaderV2, bytes_of, DecodedHeader, header_size,
  u64_at, read_decoded_header,
}

pub data ExtentError : Type 0 where
  invalid_offset invalid_magic out_of_space not_allocated : ExtentError

pub record LargeObjectRegion : Type 0 where
  pub buffer : Buffer
  pub free_list : List (ℕ × ℕ)
  pub allocated : List ℕ
  pub next_offset : ℕ
  pub size : ℕ

unfoldable pub new : ℕ → LargeObjectRegion
new size = record {
  buffer = Bytes.zeroed size;
  free_list = [];
  allocated = [];
  next_offset = 0;
  size = size;
}

-- The set operations on `allocated`.
unfoldable pub contains : List ℕ → ℕ → Bool
contains [] x = false
contains (y ∷ ys) x = y == x || contains ys x

unfoldable pub insert_offset : List ℕ → ℕ → List ℕ
unfolding contains
insert_offset ys x = if contains ys x then ys else x ∷ ys

unfoldable pub remove_offset : List ℕ → ℕ → List ℕ
remove_offset [] x = []
remove_offset (y ∷ ys) x = let rest = remove_offset ys x in if y == x then rest else y ∷ rest

-- `self.buffer[a..a + v.len()].copy_from_slice(v)`
unfoldable pub copy_to : Buffer → ℕ → List ℕ → Run Buffer
copy_to m a v = do assert (leb (a + length v) m.size); ok (store m a v)

unfoldable pub header_of : List ℕ → ℕ → ExtentHeaderV2
header_of bytes checksum = record {
  magic = extent_magic;
  version = 1;
  data_len = length bytes % 2 ^ 32;
  epoch_mark = 0;
  checksum = checksum;
}

unfoldable pub write_extent : Buffer → ℕ → List ℕ → Run Buffer
unfolding copy_to header_of
write_extent m off bytes = do
  m1 ← copy_to m off (bytes_of (header_of bytes 0))
  copy_to m1 (off + header_bytes) bytes

-- `position` and `remove`: the first block of at least `total` bytes, and the list without it.
unfoldable pub take_fit : ℕ → List (ℕ × ℕ) → Option ((ℕ × ℕ) × List (ℕ × ℕ))
take_fit total [] = none
take_fit total ((off, len) ∷ rest) =
    let later = take_fit total rest in
    if leb total len
    then some ((off, len), rest)
    else elim later [ none ↦ none | some (block, others) ↦ some (block, (off, len) ∷ others) ]

-- The end of both branches of `allocate`.
unfoldable pub place : LargeObjectRegion → ℕ → List ℕ → Run (LargeObjectRegion × Option ℕ)
unfolding write_extent insert_offset
place r offset bytes = do
  m ← write_extent r.buffer offset bytes
  ok (record r { buffer = m; allocated = insert_offset r.allocated offset }, some offset)

unfoldable pub allocate : LargeObjectRegion → List ℕ → Run (LargeObjectRegion × Option ℕ)
unfolding take_fit place
allocate r bytes =
    let total_needed = extent_total (length bytes) in
    elim (take_fit total_needed r.free_list) [
      | some ((offset, len), others) ↦
          let list : List (ℕ × ℕ) =
            if ltb total_needed len
            then others ++ ((offset + total_needed, len - total_needed) ∷ [])
            else others in
          place (record r { free_list = list }) offset bytes
      | none ↦
          if ltb r.size (r.next_offset + total_needed)
          then ok (r, none)
          else place (record r { next_offset = r.next_offset + total_needed }) r.next_offset bytes
    ]

unfoldable pub read : LargeObjectRegion → ℕ → Option (List ℕ)
read r offset = elim (read_decoded_header r.buffer offset) [
  | none ↦ none
  | some d ↦
      if not (d.magic == extent_magic)
      then none
      else let data_start = offset + header_size d in
        if ltb r.buffer.size (data_start + d.data_len)
        then none
        else some (load r.buffer data_start d.data_len)
]

unfoldable pub zero_magic : Buffer → ℕ → Buffer
zero_magic m offset = if leb (offset + 4) m.size then store m offset (replicate 4 0) else m

-- The footprint that `free` and `sweep` give back.
unfoldable pub footprint : DecodedHeader → ℕ
footprint d = if d.is_v2 then extent_total d.data_len else 24 + d.data_len

-- The end of `free`, and of a round of `sweep`.
unfoldable pub reclaim : LargeObjectRegion → ℕ → DecodedHeader → LargeObjectRegion
unfolding zero_magic footprint remove_offset
reclaim r offset d = record r {
  buffer = zero_magic r.buffer offset;
  free_list = r.free_list ++ ((offset, footprint d) ∷ []);
  allocated = remove_offset r.allocated offset;
}

unfoldable pub free : LargeObjectRegion → ℕ → LargeObjectRegion × Result ExtentError (Unit {0})
unfolding contains reclaim
free r offset =
    if not (contains r.allocated offset)
    then (r, err not_allocated)
    else elim (read_decoded_header r.buffer offset) [
      | none ↦ (r, err invalid_offset)
      | some d ↦
          if not (d.magic == extent_magic)
          then (r, err invalid_magic)
          else (reclaim r offset d, done tt)
    ]

unfoldable pub mark_for_gc :
    LargeObjectRegion → ℕ → ℕ → LargeObjectRegion × Result ExtentError (Unit {0})
mark_for_gc r offset epoch = elim (read_decoded_header r.buffer offset) [
  | none ↦ (r, err invalid_offset)
  | some d ↦
      if not (d.magic == extent_magic)
      then (r, err invalid_magic)
      else if leb (offset + 16 + 8) r.buffer.size
      then (record r { buffer = store r.buffer (offset + 16) (to_le_bytes 8 epoch) }, done tt)
      else (r, done tt)
]

-- A round of the loop of `sweep`: the region, and 1 if the extent was collected.
unfoldable pub sweep_one : LargeObjectRegion → ℕ → ℕ → LargeObjectRegion × ℕ
unfolding reclaim
sweep_one r offset min_active_epoch = elim (read_decoded_header r.buffer offset) [
  | none ↦ (r, 0)
  | some d ↦
      if ltb 0 d.epoch_mark && ltb d.epoch_mark min_active_epoch
      then (reclaim r offset d, 1)
      else (r, 0)
]

-- The loop, in the order in which the set gives the offsets.
unfoldable pub sweep_all : List ℕ → LargeObjectRegion → ℕ → LargeObjectRegion × ℕ
unfolding sweep_one
sweep_all [] r min_active_epoch = (r, 0)
sweep_all (offset ∷ rest) r min_active_epoch =
    let (r1, one) = sweep_one r offset min_active_epoch in
    let (r2, count) = sweep_all rest r1 min_active_epoch in (r2, one + count)

unfoldable pub sweep : LargeObjectRegion → ℕ → LargeObjectRegion × ℕ
unfolding sweep_all
sweep r min_active_epoch = sweep_all r.allocated r min_active_epoch

unfoldable pub used_of : Buffer → List ℕ → ℕ
used_of m [] = 0
used_of m (off ∷ rest) =
    let later = used_of m rest in
    elim (read_decoded_header m off) [ none ↦ later | some d ↦ extent_total d.data_len + later ]

unfoldable pub used_bytes : LargeObjectRegion → ℕ
unfolding used_of
used_bytes r = used_of r.buffer r.allocated

unfoldable pub write_extent_v1 : LargeObjectRegion → List ℕ → Run (LargeObjectRegion × Option ℕ)
unfolding copy_to insert_offset
write_extent_v1 r bytes =
    let total = 24 + length bytes in
    if ltb r.size (r.next_offset + total) then ok (r, none) else do
      let off = r.next_offset
      m1 ← copy_to r.buffer off (to_le_bytes 8 (length bytes))
      m2 ← copy_to m1 (off + 8) (to_le_bytes 8 0)
      m3 ← copy_to m2 (off + 16) (to_le_bytes 4 extent_magic)
      m4 ← copy_to m3 (off + 20) (replicate 4 0)
      m5 ← copy_to m4 (off + 24) bytes
      ok (
        record r {
          buffer = m5;
          next_offset = off + total;
          allocated = insert_offset r.allocated off;
        },
        some off,
      )

-- `xxh64(data, 0)` of the third-party hash.
unfoldable pub write_extent_v2_checksummed :
    (List ℕ → ℕ) → LargeObjectRegion → List ℕ → Run (LargeObjectRegion × Option ℕ)
unfolding copy_to header_of insert_offset
write_extent_v2_checksummed xxh64 r bytes =
    let total_needed = extent_total (length bytes) in
    if ltb r.size (r.next_offset + total_needed) then ok (r, none) else do
      let off = r.next_offset
      m1 ← copy_to r.buffer off (bytes_of (header_of bytes (xxh64 bytes)))
      m2 ← copy_to m1 (off + header_bytes) bytes
      ok (
        record r {
          buffer = m2;
          next_offset = off + total_needed;
          allocated = insert_offset r.allocated off;
        },
        some off,
      )

unfoldable pub read_checksum : LargeObjectRegion → ℕ → Option ℕ
read_checksum r offset = elim (read_decoded_header r.buffer offset) [
  | none ↦ none
  | some d ↦
      if not d.is_v2
      then none
      else if ltb r.buffer.size (offset + 32)
      then none
      else some (u64_at r.buffer (offset + 24))
]
