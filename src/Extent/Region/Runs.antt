-- ===== src/Extent/Region/Runs.antt =====
-- Runs of requests on a new region, against an abstract store that has no bytes.
use rdmas.Base.{
  ℕ, ◌^◌, ◌<◌, ◌≡◌, refl, ap, inl, inr, Bool-cases, ◌==◌, true, false, List, [], ◌∷◌, length,
  Option, none, some,
}
use rdmas.Base.Run.{Run, ok, ◌>>=◌}
use rdmas.Extent.Region.{LargeObjectRegion, new, allocate, free, read}
use rdmas.Extent.Region.Tiled.{Ext, has, IsTiled, new-IsTiled}
use rdmas.Extent.Region.Store.{allocate-IsTiled}
use rdmas.Extent.Region.Found.{drop_ext, find}
use rdmas.Extent.Region.Release.{read-find, free-IsTiled}

pub data Request : Type 0 where
  put : List ℕ → Request
  release : ℕ → Request

abbrev pub AllShort : List Request → Type 0
AllShort [] = Unit
AllShort (put bytes ∷ rs) = (length bytes < 2 ^ 32) × AllShort rs
AllShort (release off ∷ rs) = AllShort rs

-- The extents after an allocation.
abbrev pub added : List ℕ → List Ext → Option ℕ → List Ext
added bytes exts none = exts
added bytes exts (some off) = record { off = off; bytes = bytes; epoch = 0 } ∷ exts

-- The region and the store after the requests; the offsets are the region's choice.
abbrev pub run : List Request → LargeObjectRegion × List Ext → Run (LargeObjectRegion × List Ext)
run [] (r, exts) = ok (r, exts)
run (put bytes ∷ rs) (r, exts) = do (r', off) ← allocate r bytes; run rs (r', added bytes exts off)
run (release off ∷ rs) (r, exts) = run rs ((free r off).0, drop_ext exts off)

abbrev pub Implements : LargeObjectRegion → List Ext → Type 0
Implements r exts =
    IsTiled r exts
    × ((off : ℕ) (bytes : List ℕ) → find exts off ≡ some bytes → read r off ≡ some bytes)

-- A run that ends, in a region that implements the store.
abbrev pub RunsWell : Run (LargeObjectRegion × List Ext) → Type 0
RunsWell out =
    (r : LargeObjectRegion) × (exts : List Ext) × (out ≡ ok (r, exts)) × Implements r exts

find-has :
    (exts : List Ext) (off : ℕ) (bytes : List ℕ) → find exts off ≡ some bytes → has exts off ≡ true
find-has [] off bytes found = cc found
find-has (e ∷ es) off bytes found = elim (Bool-cases (e.off == off)) [
  | inl here ↦ rw here refl
  | inr other ↦ rw other (find-has es off bytes (rw other at found))
]

drop_ext-absent : (exts : List Ext) (off : ℕ) → has exts off ≡ false → drop_ext exts off ≡ exts
drop_ext-absent [] off absent = refl
drop_ext-absent (e ∷ es) off absent = elim (Bool-cases (e.off == off)) [
  | inl here ↦ cc (rw here at absent)
  | inr other ↦ rw other (ap (◌∷◌ e) (drop_ext-absent es off (rw other at absent)))
]

run-Implements :
    (rs : List Request) (r : LargeObjectRegion) (exts : List Ext)
    → AllShort rs
    → IsTiled r exts
    → RunsWell (run rs (r, exts))
run-Implements [] r exts short t = (
  r,
  exts,
  refl,
  (t, λ off bytes found. read-find r exts t off (find-has exts off bytes found) bytes found),
)
run-Implements (put bytes ∷ rs) r exts (small, short) t =
    elim (allocate-IsTiled r exts bytes t small) [
      | inl refused ↦ rw (refused, ◌>>=◌) (run-Implements rs r exts short t)
      | inr (r', off, e, t') ↦
          rw (e, ◌>>=◌) (run-Implements rs r' (added bytes exts (some off)) short t')
    ]
run-Implements (release off ∷ rs) r exts short t = elim (free-IsTiled r exts t off) [
  | inl (known, (r', e, t')) ↦ rw e (run-Implements rs r' (drop_ext exts off) short t')
  | inr (absent, e) ↦ rw (e, drop_ext-absent exts off absent) (run-Implements rs r exts short t)
]

-- Any sequence of allocations of less than 2^32 bytes each and of releases, of any offsets, on a new region runs without a panic. At
-- its end the region is tiled by its free blocks, the extents that were put with success and not released, and the tail, so that no
-- byte is shared and none is lost, and each of these extents reads back as it was put.
pub new-RunsWell : (size : ℕ) (rs : List Request) → AllShort rs → RunsWell (run rs (new size, []))
new-RunsWell size rs short = run-Implements rs (new size) [] short (new-IsTiled size)
