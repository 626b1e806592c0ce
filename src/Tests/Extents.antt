-- ===== src/Tests/Extents.antt =====
-- Extents at fixed inputs: a buffer of 64 bytes with one extent of two bytes, and one in V1 format.
use rdmas.Base.{ℕ, List, length, ◌≡◌, ◌≢◌, ◌+◌, refl, [], ◌∷◌, get_or, none, arith}
use rdmas.Base.Bytes.{Buffer, to_le_bytes, from_le_bytes}
use rdmas.Extent.Header.{extent_magic, extent_total, u32_at, u64_at}
use rdmas.Extent.Holds.{Holds}
use rdmas.Extent.Region.{LargeObjectRegion, new, take_fit, allocate, read}
use rdmas.Gc.{EpochGc, schedule_deletion, sweep, sweep-scheduled}
use rdmas.Extent.Region
use rdmas.Extent.Region.Tiled.{Ext, IsTiled}
use rdmas.Extent.Region.Found.{look}
use rdmas.Extent.Region.Sweeps.{survives, sweep-IsTiled}
use rdmas.Extent.Region.Runs.{put, release, run, RunsWell, new-RunsWell}

-- The extent at 0 with the bytes 7 and 8, marked with epoch 5.
abbrev image : Buffer
image = record {
  size = 64;
  byte = λ i.
      get_or
        (0x41 ∷ 0x4D ∷ 0x44 ∷ 0x52 ∷ 1 ∷ 0 ∷ 0 ∷ 0 ∷ 2 ∷ 0 ∷ 0 ∷ 0 ∷ 0 ∷ 0 ∷ 0 ∷ 0 ∷ 5 ∷ 0 ∷ 0 ∷ 0
          ∷ 0 ∷ 0 ∷ 0 ∷ 0 ∷ 0 ∷ 0 ∷ 0 ∷ 0 ∷ 0 ∷ 0 ∷ 0 ∷ 0 ∷ 7 ∷ 8 ∷ [])
        i 0;
}

five_no_magic : u32_at image 16 ≢ extent_magic
unfolding u32_at extent_magic
five_no_magic e = omega (arith, e)

Holds-image : Holds image 0 (7 ∷ 8 ∷ []) 5
unfolding u32_at u64_at extent_magic
Holds-image = record {
  header = record {
    room = omega arith;
    magic = refl;
    version = refl;
    data_len = refl;
    epoch_mark = refl;
    not_v1 = five_no_magic;
  };
  inside = omega arith;
  content = refl;
}

abbrev region : LargeObjectRegion
region = record { buffer = image; free_list = []; allocated = 0 ∷ []; next_offset = 40; size = 64 }

abbrev marked : Ext
marked = record { off = 0; bytes = 7 ∷ 8 ∷ []; epoch = 5 }

forty : extent_total 2 ≡ 40
unfolding extent_total rdmas.Extent.Header.align_up
forty = refl

region-IsTiled : IsTiled region (marked ∷ [])
unfolding Region.contains
region-IsTiled = record {
  bounded = record { sized = refl; free_inside = tt; bump_inside = omega arith };
  tiled = λ p. rw forty (ground arith);
  held = (omega arith, Holds-image, tt);
  listed = λ off. refl;
  distinct = (refl, tt);
}

sweep-IsTiled_example :
    (r' : LargeObjectRegion) × (n : ℕ) × (exts' : List Ext) × (Region.sweep region 9 ≡ (r', n))
    × IsTiled r' exts'
    × (n + length exts' ≡ length (marked ∷ []))
    × ((o : ℕ) → look exts' o ≡ survives 9 (look (marked ∷ []) o))
sweep-IsTiled_example = sweep-IsTiled region (marked ∷ []) 9 region-IsTiled

new-RunsWell_example :
    RunsWell
      (run (put (1 ∷ 2 ∷ []) ∷ put (3 ∷ []) ∷ release 0 ∷ release 8 ∷ put [] ∷ []) (new 128, []))
new-RunsWell_example =
    new-RunsWell 128 (put (1 ∷ 2 ∷ []) ∷ put (3 ∷ []) ∷ release 0 ∷ release 8 ∷ put [] ∷ [])
      (omega arith, (omega arith, (omega arith, tt)))

nine_no_magic : from_le_bytes (to_le_bytes 4 9) ≢ extent_magic
unfolding extent_magic
nine_no_magic e = omega (arith, e)

-- The extent at 0 in V1 format, with the bytes 7 and 8.
abbrev old_image : Buffer
old_image = record {
  size = 64;
  byte = λ i.
      get_or
        (2 ∷ 0 ∷ 0 ∷ 0 ∷ 0 ∷ 0 ∷ 0 ∷ 0 ∷ 0 ∷ 0 ∷ 0 ∷ 0 ∷ 0 ∷ 0 ∷ 0 ∷ 0 ∷ 0x41 ∷ 0x4D ∷ 0x44 ∷ 0x52
          ∷ 0 ∷ 0 ∷ 0 ∷ 0 ∷ 7 ∷ 8 ∷ [])
        i 0;
}

old_magic : u32_at old_image 16 ≡ extent_magic
unfolding u32_at extent_magic
old_magic = refl

abbrev old_region : LargeObjectRegion
old_region = record region { buffer = old_image }

abbrev idle_gc : EpochGc
idle_gc = record { pending = []; sweep_interval_ms = 1000; last_sweep = 0; lru = none }

sweep-scheduled_example :
    (gc' : EpochGc) × (r' : LargeObjectRegion) × (sweep (schedule_deletion idle_gc 0 9) region 12
      ≡ ((gc', r'), 1))
    × (read r' 0 ≡ none)
    × (gc'.pending ≡ [])
sweep-scheduled_example =
    sweep-scheduled idle_gc region 0 9 5 12 (7 ∷ 8 ∷ []) refl refl Holds-image nine_no_magic
      (omega arith) (omega arith) (omega arith)
