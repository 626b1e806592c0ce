-- ===== src/Mem/Region.antt =====
-- src/mem/region.rs: a region of huge pages. The calls of the system and of the verbs library are arguments; a registered memory
-- region is a number. Sums wrap at 2^64. Reading the region as a slice is left out.
pub mod Laws
use rdmas.Base.{ℕ, ◌+◌, ◌*◌, ◌/◌, ◌%◌, ◌^◌, List, [], ◌==◌, Option, none, some, if◌then◌else◌}
use rdmas.Base.Result.{Result, done, err}
use rdmas.Client.Retry.{RdmaError, internal}

abbrev pub huge_page_size : ℕ
huge_page_size = 2097152

unfoldable pub round_up : ℕ → ℕ
round_up size =
    if size == 0
    then huge_page_size
    else (size + 2097151) % 2 ^ 64 / huge_page_size * huge_page_size

-- `mmap`, `mlock` and `munmap` of libc, and the registration; a return code of 0 is a success.
pub record Os (W : Type 0) : Type 0 where
  pub mmap : (size : ℕ) → W → W × Option ℕ
  pub mlock : (ptr size : ℕ) → W → W × ℕ
  pub munmap : (ptr size : ℕ) → W → W × ℕ
  pub register : (ptr size access : ℕ) → W → W × Result RdmaError ℕ
  pub deregister : (mr : ℕ) → W → W

pub record HugePageRegion : Type 0 where
  pub ptr : ℕ
  pub size : ℕ
  pub mr : Option ℕ

module _ {W : Type 0} (os : Os W) where
  -- Step 3, the registration of mapped and locked memory.
  unfoldable pub registered : ℕ → ℕ → ℕ → W → W × Result RdmaError HugePageRegion
  registered ptr rounded access w =
      let (w', result) = os.register ptr rounded access w in
      elim result [
        | err e ↦ (w', err e)
        | done mr ↦ (w', done (record { ptr = ptr; size = rounded; mr = some mr }))
      ]

  -- Step 2, locking.
  unfoldable pub locked : ℕ → ℕ → ℕ → W → W × Result RdmaError HugePageRegion
  unfolding registered
  locked ptr rounded access w =
      let (w', ret) = os.mlock ptr rounded w in
      if ret == 0
      then registered ptr rounded access w'
      else ((os.munmap ptr rounded w').0, err (internal []))

  unfoldable pub allocate_with_access : ℕ → ℕ → W → W × Result RdmaError HugePageRegion
  unfolding round_up locked
  allocate_with_access size access w =
      let (w', mapped) = os.mmap (round_up size) w in
      elim mapped [
        | none ↦ (w', err (internal []))
        | some ptr ↦ locked ptr (round_up size) access w'
      ]

  -- `drop(self.mr.take())`
  unfoldable pub drop_mr : Option ℕ → W → W
  drop_mr none w = w
  drop_mr (some mr) w = os.deregister mr w

  -- `Drop`
  unfoldable pub drop_region : HugePageRegion → W → W
  unfolding drop_mr
  drop_region region w = (os.munmap region.ptr region.size (drop_mr region.mr w)).0
