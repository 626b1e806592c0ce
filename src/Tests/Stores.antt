-- ===== src/Tests/Stores.antt =====
-- The slab allocator and the replication at fixed inputs.
use rdmas.Base.{
  ℕ, ◌≡◌, ◌≢◌, ◌+◌, ◌*◌, ◌/◌, ◌<◌, ◌≤◌, ◌⊎◌, ◌↔◌, refl, Bool, true, false, List, [], ◌∷◌, ◌++◌,
  length, replicate, Option, none, some, arith,
}
use rdmas.Base.Run.{ok}
use rdmas.Slab
use rdmas.Slab.{SlabAllocator, align_up, allocate_chunk, free_chunk, chunk_offset}
use rdmas.Slab.Laws.{
  IsInUse, align_up-eight, new-inside, allocate_chunk-IsInUse, free_chunk-IsInUse,
}
use rdmas.Slab.Laws
use rdmas.Replication
use rdmas.Replication.{BackupStore, ReplicationManager, write_all, flush, copy_all}
use rdmas.Replication.Laws.{write_all-flush}

abbrev slab : SlabAllocator
slab = record {
  chunk_size = 64;
  total_chunks = 3;
  next_chunk = 2;
  free_chunks = 1 ∷ [];
  capacity = 192;
}

once_listed : (c : ℕ) → Laws.occurrences c (1 ∷ []) ≤ 1
once_listed c = elim (rdmas.Base.ℕ_discrete c 1) as (λ d. elim d [ yes e ↦ 1 | no ne ↦ 0 ] ≤ 1) [
  | yes e ↦ omega arith
  | no ne ↦ omega arith
]

given_listed : (c : ℕ) → 0 < Laws.occurrences c (1 ∷ []) → c < 2
given_listed c =
    elim (rdmas.Base.ℕ_discrete c 1) as (λ d. 0 < elim d [ yes e ↦ 1 | no ne ↦ 0 ] → c < 2) [
      | yes e ↦ λ h. omega (arith, e)
      | no ne ↦ λ h. omega (arith, h)
    ]

IsValid-slab : Laws.IsValid slab
IsValid-slab = record { bounded = omega arith; freed = given_listed; once = once_listed }

allocate_chunk-IsInUse_example :
    ((allocate_chunk slab ≡ (slab, none)) × ((c : ℕ) → c < 3 → IsInUse slab c))
    ⊎ ((s' : SlabAllocator) × (c : ℕ) × (allocate_chunk slab ≡ (s', some c))
        × Laws.IsValid s'
        × (c < 3)
        × (IsInUse slab c → ⊥)
        × IsInUse s' c
        × ((d : ℕ) → d ≢ c → IsInUse s' d ↔ IsInUse slab d))
allocate_chunk-IsInUse_example = allocate_chunk-IsInUse slab IsValid-slab

zero-IsInUse : IsInUse slab 0
unfolding rdmas.Base.ℕ_discrete
zero-IsInUse = (omega arith, refl)

three_chunks : 2 < (Slab.new 200 63).total_chunks
unfolding Slab.new align_up
three_chunks = omega arith

abbrev two_writes : List (ℕ × List ℕ)
two_writes = (2, 7 ∷ 8 ∷ 9 ∷ []) ∷ (3, 5 ∷ []) ∷ []

write_all-flush_example :
    (m' : ReplicationManager) × (s' : List ℕ) × (write_all
        (record { backup = Replication.new 4; max_lag = 8 })
        two_writes
        (replicate 4 0)
      ≡ ok (m', s'))
    × (flush m'.backup ≡ ok (record { objects = s'; pending = [] }, 2))
write_all-flush_example = write_all-flush 4 8 two_writes (omega arith, (omega arith, tt))

abbrev far_write : BackupStore
far_write = record { objects = 1 ∷ 2 ∷ []; pending = (5, 9 ∷ []) ∷ [] }

nothing_before : copy_all [] (1 ∷ 2 ∷ []) ≡ ok (1 ∷ 2 ∷ [])
unfolding copy_all
nothing_before = refl
