-- ===== src/Slab.antt =====
-- src/engine/slab.rs: the allocator of chunks of one size. Chunks are numbers below `total_chunks`.
pub mod Laws
use rdmas.Base.{
  ℕ, suc, ◌+◌, ◌-◌, ◌*◌, ◌/◌, ◌%◌, ◌^◌, Bool, List, [], ◌∷◌, length, ltb, Option, none, some,
  if◌then◌else◌, bit_and,
}

-- `(val + align - 1) & !(align - 1)` in 64 bits; the complement of `m` is `2^64 - 1 - m`.
unfoldable pub align_up : ℕ → ℕ → ℕ
align_up val align = bit_and (val + align - 1) (2 ^ 64 - 1 - (align - 1))

-- The vector of free chunks is a list, its end first.
pub record SlabAllocator : Type 0 where
  pub chunk_size : ℕ
  pub total_chunks : ℕ
  pub next_chunk : ℕ
  pub free_chunks : List ℕ
  pub capacity : ℕ

unfoldable pub new : ℕ → ℕ → SlabAllocator
unfolding align_up
new region_size chunk_size =
    let aligned_chunk = align_up chunk_size 8 in
    let total = if ltb 0 aligned_chunk then region_size / aligned_chunk else 0 in
    record {
      chunk_size = aligned_chunk;
      total_chunks = total;
      next_chunk = 0;
      free_chunks = [];
      capacity = total * aligned_chunk;
    }

unfoldable pub allocate_chunk : SlabAllocator → SlabAllocator × Option ℕ
allocate_chunk s = elim s.free_chunks [
  | idx ∷ rest ↦ (record s { free_chunks = rest }, some idx)
  | [] ↦
      if ltb s.next_chunk s.total_chunks
      then (record s { next_chunk = suc s.next_chunk }, some s.next_chunk)
      else (s, none)
]

unfoldable pub free_chunk : SlabAllocator → ℕ → SlabAllocator
free_chunk s chunk_index = record s { free_chunks = chunk_index ∷ s.free_chunks }

-- `next_chunk - free_chunks.len()`, which does not stop at 0 in the source.
unfoldable pub allocated_count : SlabAllocator → ℕ
allocated_count s = s.next_chunk - length s.free_chunks

unfoldable pub free_count : SlabAllocator → ℕ
unfolding allocated_count
free_count s = s.total_chunks - allocated_count s

unfoldable pub chunk_offset : SlabAllocator → ℕ → ℕ
chunk_offset s chunk_index = chunk_index * s.chunk_size
