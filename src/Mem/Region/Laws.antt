-- ===== src/Mem/Region/Laws.antt =====
-- Sizes of regions, and what stays mapped.
use rdmas.Base.{ℕ, ◌+◌, ◌≤◌, ◌≡◌, ◌⊎◌, Option, none, some}
use rdmas.Base.Result.{Result, done, err}
use rdmas.Client.Retry.{RdmaError}
use rdmas.Mem.Region.{Os, HugePageRegion, drop_region}

-- The bytes that are mapped after a call of `mmap`.
abbrev pub mapped_after : ℕ → ℕ → Option ℕ → ℕ
mapped_after before size none = before
mapped_after before size (some ptr) = before + size

-- The number of bytes that are mapped in a state is `bytes`, and only `mmap` and `munmap` change it.
pub record IsOs {W : Type 0} (os : Os W) (bytes : W → ℕ) : Type 0 where
  pub maps :
      (size : ℕ) (w : W) → bytes (os.mmap size w).0 ≡ mapped_after (bytes w) size (os.mmap size w).1
  pub locks : (ptr size : ℕ) (w : W) → bytes (os.mlock ptr size w).0 ≡ bytes w
  pub unmaps :
      (ptr size : ℕ) (w : W) → size ≤ bytes w → bytes (os.munmap ptr size w).0 + size ≡ bytes w
  pub registers : (ptr size access : ℕ) (w : W) → bytes (os.register ptr size access w).0 ≡ bytes w
  pub deregisters : (mr : ℕ) (w : W) → bytes (os.deregister mr w) ≡ bytes w

-- The end of an allocation of `n` bytes.
abbrev pub Ends :
    {W : Type 0} → Os W → (W → ℕ) → ℕ → W → W × Result RdmaError HugePageRegion → Type 0
Ends os bytes n w (w', done region) =
    (region.size ≡ n) × (bytes w' ≡ bytes w + n) × (bytes (drop_region os region w') ≡ bytes w)
Ends {W} os bytes n w (w', err e) =
    (bytes w' ≡ bytes w)
    ⊎ ((bytes w' ≡ bytes w + n)
        × (ptr : ℕ) × (access : ℕ) × (w0 : W) × ((os.register ptr n access w0).1 ≡ err e))
