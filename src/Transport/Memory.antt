-- ===== src/Transport/Memory.antt =====
-- What a transport promises when no other client writes and no call fails.
use rdmas.Base.{ℕ, ◌+◌, ◌≤◌, ◌≡◌, true, List, length}
use rdmas.Base.Bytes.{Buffer, load, store, to_le_bytes, from_le_bytes}
use rdmas.Base.Result.{done}
use rdmas.Transport.{Transport}

-- The remote memory in a state of the world is `memory m`; within it, reads return its bytes, writes store
-- them, and `cas` compares and swaps a word of 8 bytes.
pub record IsMemory {M : Type 0} (T : Transport M) (memory : M → Buffer) : Type 0 where
  pub reads :
      (m : M) (len lkey addr rkey : ℕ)
      → addr + len ≤ (memory m).size
      → T.read len lkey addr rkey m ≡ (m, done (load (memory m) addr len))
  pub writes :
      (m : M) (bytes : List ℕ) (lkey addr rkey : ℕ)
      → addr + length bytes ≤ (memory m).size
      → (m' : M) × (T.write bytes lkey addr rkey m ≡ (m', done tt))
        × (memory m' ≡ store (memory m) addr bytes)
  pub swaps :
      (m : M) (compare swap lkey addr rkey : ℕ)
      → addr + 8 ≤ (memory m).size
      → from_le_bytes (load (memory m) addr 8) ≡ compare
      → (m' : M) × (T.cas compare swap lkey addr rkey m ≡ (m', done true))
        × (memory m' ≡ store (memory m) addr (to_le_bytes 8 swap))
