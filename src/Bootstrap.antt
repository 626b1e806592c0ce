-- ===== src/Bootstrap.antt =====
-- src/engine/bootstrap.rs: the engine as it starts. The address of the free list header and the ratio
-- of fragmentation, a float, are left out.
use rdmas.Base.{ℕ, ◌≤◌, ◌≡◌, ◌≢◌, refl, ◌∙◌, true, none, arith}
use rdmas.Base.Run.{Run, ok, ◌>>=◌}
use rdmas.Base.Result.{is_power_of_two}
use rdmas.Layout.Bucket.{HashedKey}
use rdmas.Cuckoo.Defs
use rdmas.Cuckoo.Defs.{CuckooTable, lookup}
use rdmas.Cuckoo.View
use rdmas.Cuckoo.New.{new-IsValid}
use rdmas.Cuckoo.Lookup.{lookup-view}
use rdmas.Extent.Region
use rdmas.Extent.Region.{LargeObjectRegion, used_bytes}
use rdmas.Extent.Region.Blocks.{IsBounded}
use rdmas.Slab
use rdmas.Slab.{SlabAllocator, allocated_count, free_count}
use rdmas.Slab.Laws

pub record BootstrappedEngine : Type 0 where
  pub table : CuckooTable
  pub large_objects : LargeObjectRegion
  pub bump_offset : ℕ
  pub slab : SlabAllocator

unfoldable pub bootstrap_with_slab : ℕ → ℕ → ℕ → ℕ → ℕ → Run BootstrappedEngine
bootstrap_with_slab bucket_count large_object_region_size max_kick slab_chunk_size
      slab_region_size =
    do
      table ← Defs.new bucket_count max_kick
      ok (record {
        table = table;
        large_objects = Region.new large_object_region_size;
        bump_offset = 0;
        slab = Slab.new slab_region_size slab_chunk_size;
      })

unfoldable pub bootstrap : ℕ → ℕ → ℕ → Run BootstrappedEngine
unfolding bootstrap_with_slab
bootstrap bucket_count large_object_region_size max_kick =
    bootstrap_with_slab bucket_count large_object_region_size max_kick 0 0

pub record EngineStats : Type 0 where
  pub bucket_count : ℕ
  pub large_object_capacity : ℕ
  pub large_object_used : ℕ
  pub free_list_used : ℕ
  pub slab_total_chunks : ℕ
  pub slab_allocated_chunks : ℕ
  pub slab_free_chunks : ℕ

unfoldable pub stats : BootstrappedEngine → EngineStats
stats e = record {
  bucket_count = e.table.bucket_count;
  large_object_capacity = e.large_objects.size;
  large_object_used = used_bytes e.large_objects;
  free_list_used = e.bump_offset;
  slab_total_chunks = e.slab.total_chunks;
  slab_allocated_chunks = allocated_count e.slab;
  slab_free_chunks = free_count e.slab;
}

slab-IsValid : (region size : ℕ) → Laws.IsValid (Slab.new region size)
unfolding Slab.new
slab-IsValid region size = record {
  bounded = omega arith;
  freed = λ c h. absurd (omega (arith, h));
  once = λ c. omega arith;
}

-- An engine with a power of two of at least two buckets starts, with its three stores valid: the table
-- finds no key with a non-zero hash, the region has nothing in use, and no chunk of the slab is given out.
bootstrap_with_slab-IsValid :
    (bucket_count region_size max_kick chunk slab_region : ℕ)
    → 2 ≤ bucket_count
    → is_power_of_two bucket_count ≡ true
    → (e : BootstrappedEngine) × (bootstrap_with_slab bucket_count region_size max_kick chunk
          slab_region
        ≡ ok e)
      × View.IsValid e.table
      × ((k : HashedKey) → k.hash ≢ 0 → lookup e.table k ≡ ok none)
      × IsBounded e.large_objects
      × ((stats e).large_object_used ≡ 0)
      × Laws.IsValid e.slab
      × ((stats e).slab_allocated_chunks ≡ 0)
unfolding bootstrap_with_slab stats Region.new used_bytes allocated_count Slab.new
bootstrap_with_slab-IsValid bucket_count region_size max_kick chunk slab_region two power =
    let (t, made, valid, empty) = new-IsValid bucket_count max_kick two power in
    (
      record {
        table = t;
        large_objects = Region.new region_size;
        bump_offset = 0;
        slab = Slab.new slab_region chunk;
      },
      rw made refl,
      valid,
      (λ k nz. lookup-view t valid k ∙ rw (empty k nz) refl),
      record { sized = refl; free_inside = tt; bump_inside = omega arith },
      refl,
      slab-IsValid slab_region chunk,
      refl,
    )
