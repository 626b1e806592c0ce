-- ===== src/Gc.antt =====
-- src/engine/gc.rs: the collector of extents. The mutexes are left out, each call is one step, and the
-- readings of `now_ms()` are arguments. `now - last_sweep` below 0 panics.
use rdmas.Base.{
  ℕ, ◌+◌, ◌-◌, ◌/◌, ◌^◌, ◌<◌, ◌≡◌, ◌≢◌, refl, sym, ap, ◌∙◌, inl, inr, true, false, List, [], ◌∷◌,
  ◌++◌, ◌==◌, ltb, leb, length, min, max, le→leb, ==_refl, Option, none, some, if◌then◌else◌, arith,
}
use rdmas.Base.Bytes.{to_le_bytes, from_le_bytes}
use rdmas.Base.Run.{Run, ok, ◌>>◌, assert}
use rdmas.Base.Result.{Result}
use rdmas.Extent.Header.{extent_magic}
use rdmas.Extent.Holds.{Holds, decode-IsHeader}
use rdmas.Extent.Region
use rdmas.Extent.Region.{LargeObjectRegion, ExtentError, mark_for_gc, read, sweep_one, sweep_all}
use rdmas.Extent.Region.Free.{mark_for_gc-Holds, sweep_one-IsReclaimed}
use rdmas.Lru.{LruTracker, needs_eviction, select_eviction_candidates, increment_evicted}

pub record EpochGc : Type 0 where
  pub pending : List (ℕ × ℕ)
  pub sweep_interval_ms : ℕ
  pub last_sweep : ℕ
  pub lru : Option LruTracker

unfoldable pub schedule_deletion : EpochGc → ℕ → ℕ → EpochGc
schedule_deletion gc offset now = record gc { pending = gc.pending ++ ((offset, now) ∷ []) }

-- The results of `mark_for_gc` are dropped.
unfoldable pub mark_all : List (ℕ × ℕ) → LargeObjectRegion → LargeObjectRegion
mark_all [] region = region
mark_all ((offset, epoch) ∷ rest) region = mark_all rest (mark_for_gc region offset epoch).0

unfoldable pub sweep : EpochGc → LargeObjectRegion → ℕ → (EpochGc × LargeObjectRegion) × ℕ
unfolding mark_all
sweep gc region min_active_ts =
    let (region', freed) = Region.sweep (mark_all gc.pending region) min_active_ts in
    ((record gc { pending = [] }, region'), freed)

-- The keys are scheduled as if they were offsets, as the source has it.
unfoldable pub schedule_all : EpochGc → List ℕ → ℕ → EpochGc
unfolding schedule_deletion
schedule_all gc [] now = gc
schedule_all gc (k ∷ ks) now = schedule_all (schedule_deletion gc k now) ks now

unfoldable pub evict_lru : EpochGc → LargeObjectRegion → ℕ → ℕ → (EpochGc × LargeObjectRegion) × ℕ
unfolding schedule_all sweep
evict_lru gc region n now = elim gc.lru [
  | none ↦ ((gc, region), 0)
  | some lru ↦
      let (lru', candidates) = select_eviction_candidates lru n in
      if length candidates == 0
      then ((record gc { lru = some lru' }, region), 0)
      else let ((gc', region'), freed) =
          sweep (schedule_all (record gc { lru = some lru' }) candidates now) region now in
        (
          (record gc' { lru = some (increment_evicted lru' (length candidates)) }, region'),
          length candidates,
        )
]

unfoldable pub run_gc_cycle :
    EpochGc → LargeObjectRegion → List ℕ → (EpochGc × LargeObjectRegion) × ℕ
unfolding sweep
run_gc_cycle gc region [] = ((gc, region), 0)
run_gc_cycle gc region (t ∷ ts) = sweep gc region (least t ts)
  where
    least : ℕ → List ℕ → ℕ
    least m [] = m
    least m (x ∷ xs) = least (min m x) xs

-- The sweep of `maybe_sweep` when it is due, and the eviction when it is not.
unfoldable pub maybe_sweep :
    EpochGc → LargeObjectRegion → ℕ → ℕ → Run ((EpochGc × LargeObjectRegion) × ℕ)
unfolding evict_lru sweep
maybe_sweep gc region min_active_ts now = do
  assert (leb gc.last_sweep now)
  elim (ltb (now - gc.last_sweep) gc.sweep_interval_ms) [
    | true ↦ ok (elim gc.lru [
      | none ↦ ((gc, region), 0)
      | some lru ↦
          if needs_eviction lru
          then evict_lru gc region (max ((lru.key_count - min lru.key_count 1) / 10) 1) now
          else ((gc, region), 0)
    ])
    | false ↦
        let gc1 = record gc { last_sweep = now } in
        let (gc2, region2) : EpochGc × LargeObjectRegion = elim gc1.lru [
          | none ↦ (gc1, region)
          | some lru ↦
              if needs_eviction lru
              then (evict_lru gc1 region (max (lru.key_count / 10) 1) now).0
              else (gc1, region)
        ] in
        ok (sweep gc2 region2 min_active_ts)
  ]

-- An extent of the V2 format that is the only one and is scheduled at `epoch`, with nothing else pending, is collected by
-- a sweep for clients that are all active after it: one extent is reclaimed, it can no longer be read, and nothing is
-- pending. This holds for an epoch that is not zero, is below 2^64, and whose low four bytes are not the magic number of
-- the headers.
pub sweep-scheduled :
    (gc : EpochGc) (r : LargeObjectRegion) (off epoch old least : ℕ) (bytes : List ℕ)
    → gc.pending ≡ []
    → r.allocated ≡ off ∷ []
    → Holds r.buffer off bytes old
    → from_le_bytes (to_le_bytes 4 epoch) ≢ extent_magic
    → epoch < 2 ^ 64
    → 0 < epoch
    → epoch < least
    → (gc' : EpochGc) × (r' : LargeObjectRegion) × (sweep (schedule_deletion gc off epoch) r least
        ≡ ((gc', r'), 1))
      × (read r' off ≡ none)
      × (gc'.pending ≡ [])
unfolding sweep schedule_deletion mark_all Region.sweep sweep_all mark_for_gc
sweep-scheduled gc r off epoch old least bytes idle only holds plain small pos below =
    let (r1, marked, in_place, _) = mark_for_gc-Holds r off bytes old holds epoch small plain in
    let kept : r1.allocated ≡ off ∷ [] =
      sym (ap (λ (x : LargeObjectRegion × Result ExtentError (Unit {0})). x.0.allocated) marked)
      ∙ (untouched ∙ only) in
    elim (sweep_one-IsReclaimed r1 off bytes epoch in_place least) [
      | inl (_, (r2, swept, gone)) ↦ (
        record gc { pending = [] },
        r2,
        ap with_region (
              ap (λ p. mark_all (p ++ ((off, epoch) ∷ [])) r) idle
              ∙ ap (λ (x : LargeObjectRegion × Result ExtentError (Unit {0})). x.0) marked)
            ∙ ap with_sweep (
                ap (λ l. sweep_all l r1 least) kept
                ∙ ap (λ (x : LargeObjectRegion × ℕ). (x.0, x.1 + 0)) swept),
        gone.0,
        refl,
      )
      | inr (inl none_marked, _) ↦ absurd (omega (arith, none_marked, pos))
      | inr (inr active, _) ↦ absurd (omega (arith, active, below))
    ]
  where
    with_sweep : LargeObjectRegion × ℕ → (EpochGc × LargeObjectRegion) × ℕ
    with_sweep x = ((record gc { pending = [] }, x.0), x.1)

    with_region : LargeObjectRegion → (EpochGc × LargeObjectRegion) × ℕ
    with_region x = with_sweep (Region.sweep x least)

    untouched : (mark_for_gc r off epoch).0.allocated ≡ r.allocated
    untouched =
        rw
          (
            mark_for_gc,
            decode-IsHeader r.buffer off (length bytes) old holds.header,
            ==_refl extent_magic,
            le→leb (off + 16 + 8) r.buffer.size (omega (arith, holds.header.room)),
          )
          refl
