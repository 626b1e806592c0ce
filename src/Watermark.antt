-- ===== src/Watermark.antt =====
-- src/engine/watermark.rs: the check of the watermarks. The floats are a parameter; a callback is the list of the statuses that
-- it is called with. The flag and the interval of the thread are left out.
use rdmas.Base.{ℕ, Bool, true, false, ◌&&◌, List, [], ◌∷◌, ◌++◌, ltb, if◌then◌else◌}

pub record Floats (F : Type 0) : Type 0 where
  pub of_u64 : ℕ → F
  pub over : F → F → F
  pub greater : F → F → Bool

pub record WatermarkConfig (F : Type 0) : Type 0 where
  pub check_interval_ms : ℕ
  pub table_load_threshold : F
  pub extent_usage_threshold : F
  pub slab_usage_threshold : F

-- The names of the regions.
pub data RegionName : Type 0 where
  hash_table extent_region slab_region : RegionName

pub record WatermarkStatus (F : Type 0) : Type 0 where
  pub table_load : F
  pub extent_usage : F
  pub slab_usage : F
  pub any_exceeded : Bool
  pub exceeded_regions : List RegionName

unfoldable pub is_nonempty : List RegionName → Bool
is_nonempty [] = false
is_nonempty (r ∷ rs) = true

unfoldable pub one_if : Bool → RegionName → List RegionName
one_if true r = r ∷ []
one_if false r = []

module _ {F : Type 0} (float : Floats F) where
  unfoldable pub usage : ℕ → ℕ → F
  usage used capacity =
      if ltb 0 capacity
      then float.over (float.of_u64 used) (float.of_u64 capacity)
      else float.of_u64 0

  -- The status, and the calls of the callback, if there is one.
  unfoldable pub check :
      WatermarkConfig F
      → Bool
      → (table_key_count table_capacity extent_used extent_capacity slab_allocated slab_total : ℕ)
      → WatermarkStatus F × List (WatermarkStatus F)
  unfolding usage one_if is_nonempty
  check config has_callback table_key_count table_capacity extent_used extent_capacity
        slab_allocated slab_total =
      let table_load = usage table_key_count table_capacity in
      let extent_usage = usage extent_used extent_capacity in
      let slab_usage = usage slab_allocated slab_total in
      let exceeded_regions =
        one_if (float.greater table_load config.table_load_threshold) hash_table
        ++ (one_if (float.greater extent_usage config.extent_usage_threshold) extent_region
            ++ one_if (float.greater slab_usage config.slab_usage_threshold) slab_region) in
      let status : WatermarkStatus F = record {
        table_load = table_load;
        extent_usage = extent_usage;
        slab_usage = slab_usage;
        any_exceeded = is_nonempty exceeded_regions;
        exceeded_regions = exceeded_regions;
      } in
      (status, if is_nonempty exceeded_regions && has_callback then status ∷ [] else [])
