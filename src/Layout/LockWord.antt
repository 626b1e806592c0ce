-- ===== src/Layout/LockWord.antt =====
-- src/engine/layout.rs: the bits of `HashBucket::lock_version`, as functions of the word.
pub mod Fields
pub mod Updates
use rdmas.Base.{ℕ, ◌+◌, ◌-◌, ◌*◌, ◌/◌, ◌%◌, ◌^◌, bit_and, bit_or, Bool, not, ◌&&◌, ◌==◌, leb}

abbrev pub u64_mod : ℕ
u64_mod = 2 ^ 64

abbrev pub u32_mod : ℕ
u32_mod = 2 ^ 32

-- `LEASE_TIMEOUT_MS`
abbrev pub lease_timeout_ms : ℕ
lease_timeout_ms = 100

pub data BucketMode : Type 0 where
  inline extent : BucketMode

-- `mode as u64`
abbrev pub mode_bits : BucketMode → ℕ
mode_bits inline = 0
mode_bits extent = 1

abbrev pub shl64 : ℕ → ℕ → ℕ
shl64 x k = x * 2 ^ k % u64_mod

-- `u32::wrapping_sub`
unfoldable pub wrapping_sub32 : ℕ → ℕ → ℕ
wrapping_sub32 a b = (a + u32_mod - b) % u32_mod

unfoldable pub is_locked : ℕ → Bool
is_locked lv = not (bit_and lv 0x01 == 0)

unfoldable pub is_tombstone : ℕ → Bool
is_tombstone lv = not (bit_and lv 0x02 == 0)

unfoldable pub is_inline : ℕ → Bool
is_inline lv = bit_and lv 0x04 == 0

unfoldable pub is_extent : ℕ → Bool
is_extent lv = not (bit_and lv 0x04 == 0)

-- `(lv >> 32) as u32`
unfoldable pub version : ℕ → ℕ
version lv = lv / 2 ^ 32 % u32_mod

-- `((lv >> 8) & 0xFF_FFFF) as u32`
unfoldable pub lease_ts : ℕ → ℕ
lease_ts lv = bit_and (lv / 2 ^ 8) 0xFF_FFFF % u32_mod

unfoldable pub set_locked : ℕ → ℕ → BucketMode → ℕ
set_locked lv lease_ts_ms mode =
    let version = lv / 2 ^ 32 in
    let lease = shl64 (bit_and lease_ts_ms 0xFF_FFFF) 8 in
    let mode_bit = shl64 (mode_bits mode) 2 in
    bit_or (bit_or (bit_or (shl64 version 32) lease) mode_bit) 0x01

unfoldable pub unlock_bucket : ℕ → ℕ → ℕ
unlock_bucket lv new_version = let mode = bit_and lv 0x04 in bit_or (shl64 new_version 32) mode

unfoldable pub mark_tombstone : ℕ → ℕ
mark_tombstone lv =
    let mode = bit_and lv 0x04 in
    let version = bit_and lv 0xFFFF_FFFF_0000_0000 in bit_or (bit_or version mode) 0x02

-- `HashBucket::is_expired`
unfoldable pub is_expired : ℕ → ℕ → ℕ → Bool
unfolding is_locked lease_ts wrapping_sub32
is_expired lv now_ms timeout_ms =
    is_locked lv && leb timeout_ms (wrapping_sub32 now_ms (lease_ts lv))
