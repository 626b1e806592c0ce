-- ===== src/Extent/Remote.antt =====
-- src/engine/extent.rs: `DistributedExtentAllocator`, and the same calls inside `try_insert_remote_at` of
-- src/client/write.rs. Sums of addresses wrap at 2^64; the hash `xxh64` of the xxhash-rust package is a
-- parameter.
pub mod Laws
use rdmas.Base.{ℕ, ◌+◌, ◌%◌, ◌^◌, Bool, true, false, List, [], length}
use rdmas.Base.Bytes.{to_le_bytes, from_le_bytes}
use rdmas.Base.Run.{Run, ok, panic}
use rdmas.Base.Result.{Result, done, err}
use rdmas.Client.Retry.{RdmaError, cas_failed}
use rdmas.Extent.Header.{header_bytes, extent_total, bytes_of}
use rdmas.Extent.Region.{header_of}
use rdmas.Transport.{Remote, Transport, pure, fail, call, ◌>>=◌}

-- `a + b` of `u64`s.
abbrev pub add64 : ℕ → ℕ → ℕ
add64 a b = (a + b) % 2 ^ 64

-- Read the bump offset, move it by CAS, write the header, the data and the checksum.
unfoldable pub reserve_and_write :
    {M : Type 0} → (List ℕ → ℕ → ℕ) → Transport M → ℕ → ℕ → ℕ → List ℕ → Remote M ℕ
unfolding header_of
reserve_and_write xxh64 transport free_list_vaddr free_list_rkey lkey bytes = do
  old_buf ← call (transport.read 8 lkey free_list_vaddr free_list_rkey)
  let old_offset = from_le_bytes old_buf
  let new_offset = add64 old_offset (extent_total (length bytes))
  cas_ok ← call (transport.cas old_offset new_offset lkey free_list_vaddr free_list_rkey)
  elim cas_ok [
    | false ↦ fail cas_failed
    | true ↦ do
      let extent_addr = add64 free_list_vaddr old_offset
      header_done ←
          call (transport.write (bytes_of (header_of bytes 0)) lkey extent_addr free_list_rkey)
      payload_done ←
          call (transport.write bytes lkey (add64 extent_addr header_bytes) free_list_rkey)
      checksum_done ← call (
          transport.write (to_le_bytes 8 (xxh64 bytes 0)) lkey (add64 extent_addr 24)
            free_list_rkey)
      pure old_offset
  ]

pub record DistributedExtentAllocator (M : Type 0) : Type 0 where
  pub transport : Transport M
  pub free_list_vaddr : ℕ
  pub free_list_rkey : ℕ
  pub local_lkey : ℕ
  pub local_free_offsets : List ℕ

unfoldable pub new : {M : Type 0} → Transport M → ℕ → ℕ → ℕ → DistributedExtentAllocator M
new transport free_list_vaddr free_list_rkey local_lkey = record {
  transport = transport;
  free_list_vaddr = free_list_vaddr;
  free_list_rkey = free_list_rkey;
  local_lkey = local_lkey;
  local_free_offsets = [];
}

unfoldable pub allocate_remote :
    {M : Type 0} → (List ℕ → ℕ → ℕ) → DistributedExtentAllocator M → List ℕ → Remote M ℕ
unfolding reserve_and_write
allocate_remote xxh64 a bytes =
    reserve_and_write xxh64 a.transport a.free_list_vaddr a.free_list_rkey a.local_lkey bytes
