-- ===== src/Extent/Region/Release.antt =====
-- Releasing an extent of the store.
use rdmas.Base.{
  ℕ, ◌+◌, ◌-◌, ◌^◌, ◌≤◌, ◌<◌, ◌≡◌, refl, sym, ap, subst, ◌∙◌, ◌⊎◌, inl, inr, true, false, List, [],
  ◌∷◌, ==_refl, length, some, arith, Bool-cases, ℕ_discrete, replicate,
}
use rdmas.Base.Bytes.{Buffer, store, store-size}
use rdmas.Base.Result.{done, err}
use rdmas.Extent.Header.{extent_magic}
use rdmas.Extent.Holds.{Holds, decode-IsHeader, Holds-store}
use rdmas.Extent.Region.{
  LargeObjectRegion, contains, remove_offset, free, read, reclaim, footprint, not_allocated,
}
use rdmas.Extent.Region.Blocks.{AllInside-append}
use rdmas.Extent.Region.Laws.{read-Holds}
use rdmas.Extent.Region.Free.{zero_magic-eq, remove_offset-contains, v2_header}
use rdmas.Extent.Region.Cover.{hit, hit_inside, tail_behind, cover_append}
use rdmas.Extent.Region.Tiled.{
  Ext, total, used, has, AllHeld, IsTiled, total_positive, AllHeld-keep,
}
use rdmas.Extent.Region.Found.{
  drop_ext, bytes_in, find, has-Found, has-used, has-drop_ne, contains-remove_ne,
  remove_offset-Distinct,
}

module _ (r : LargeObjectRegion) (exts : List Ext) (t : IsTiled r exts) where
  -- An extent of the store reads back.
  pub read-find :
      (off : ℕ)
      → has exts off ≡ true
      → (bytes : List ℕ) → find exts off ≡ some bytes
      → read r off ≡ some bytes
  read-find off known bytes found =
      let (e, same, found', small, held, uses, rest) = has-Found r.buffer exts off t.held known in
      read-Holds r off e.epoch e.bytes held ∙ sym (ap bytes_in found') ∙ found

  footprint-inside :
      (e : Ext) (off : ℕ)
      → length e.bytes < 2 ^ 32
      → ((p : ℕ) → used p exts ≡ hit p off (total e) + used p (drop_ext exts off))
      → off + total e ≤ r.size
  footprint-inside e off small uses =
      let big = total_positive (length e.bytes) small in
      let last : ℕ = off + total e - 1 in
      let hits = hit_inside last off (total e) (omega (arith, big)) (omega (arith, big)) in
      let before = tail_behind last r.next_offset (omega (arith, t.tiled last, uses last, hits)) in
      omega (arith, before, t.bounded.bump_inside, big)

  pub reclaim-IsTiled :
      (e : Ext) (off : ℕ)
      → length e.bytes < 2 ^ 32
      → Holds r.buffer off e.bytes e.epoch
      → ((p : ℕ) → used p exts ≡ hit p off (total e) + used p (drop_ext exts off))
      → AllHeld r.buffer (drop_ext exts off)
      → IsTiled (reclaim r off (v2_header (length e.bytes) e.epoch)) (drop_ext exts off)
  unfolding reclaim footprint
  reclaim-IsTiled e off small held uses rest =
      let big = total_positive (length e.bytes) small in
      let zeroed = zero_magic-eq r.buffer off (omega (arith, held.header.room)) in
      record {
        bounded = record {
          sized =
              ap (λ (m : Buffer). m.size) zeroed
              ∙ store-size r.buffer off (replicate 4 0)
              ∙ t.bounded.sized;
          free_inside =
              AllInside-append r.size r.free_list ((off, total e) ∷ []) t.bounded.free_inside
                (footprint-inside e off small uses, tt);
          bump_inside = t.bounded.bump_inside;
        };
        tiled =
            λ p. omega (arith, t.tiled p, uses p, cover_append p r.free_list ((off, total e) ∷ []));
        held = rw zeroed (
            AllHeld-keep r.buffer (store r.buffer off (replicate 4 0)) off 4 (total e)
              (drop_ext exts off) (omega arith) (omega (arith, big))
              (λ o b ep h apart. Holds-store r.buffer off (replicate 4 0) o b ep h apart)
              (λ p. omega (arith, t.tiled p, uses p)) rest);
        listed = λ o. elim (ℕ_discrete off o) [
          | yes p ↦
              subst
                (λ (x : ℕ). contains (remove_offset r.allocated off) x ≡ has (drop_ext exts off) x)
                p (remove_offset-contains r.allocated off ∙ sym (gone e off small uses rest))
          | no ne ↦
              contains-remove_ne r.allocated off o ne ∙ t.listed o ∙ sym (has-drop_ne exts off o ne)
        ];
        distinct = remove_offset-Distinct r.allocated off t.distinct;
      }
    where
      gone :
          (e : Ext) (off : ℕ)
          → length e.bytes < 2 ^ 32
          → ((p : ℕ) → used p exts ≡ hit p off (total e) + used p (drop_ext exts off))
          → AllHeld r.buffer (drop_ext exts off)
          → has (drop_ext exts off) off ≡ false
      gone e off small uses rest = elim (Bool-cases (has (drop_ext exts off) off)) [
        | inr e ↦ e
        | inl twice ↦
            let more = has-used r.buffer (drop_ext exts off) off rest twice in
            let hits =
              hit_inside off off (total e) (omega arith)
                (omega (arith, total_positive (length e.bytes) small)) in
            absurd (omega (arith, t.tiled off, uses off, more, hits))
      ]

  -- In a tiled region `free` of the offset of an extent succeeds, and takes this extent and no other from the store: the region is tiled
  -- again, with its footprint as a free block. At any other offset it fails, and changes nothing.
  pub free-IsTiled :
      (off : ℕ)
      → ((has exts off ≡ true)
          × ((r' : LargeObjectRegion) × (free r off ≡ (r', done tt))
              × IsTiled r' (drop_ext exts off)))
        ⊎ ((has exts off ≡ false) × (free r off ≡ (r, err not_allocated)))
  unfolding free
  free-IsTiled off = elim (Bool-cases (has exts off)) [
    | inr absent ↦ inr (absent, rw (free, t.listed off, absent) refl)
    | inl known ↦
        let (e, same, found, small, held, uses, rest) = has-Found r.buffer exts off t.held known in
        inl (
          known,
          (
            reclaim r off (v2_header (length e.bytes) e.epoch),
            free_held e off known held,
            reclaim-IsTiled e off small held uses rest,
          ),
        )
  ]
    where
      free_held :
          (e : Ext) (off : ℕ)
          → has exts off ≡ true
          → Holds r.buffer off e.bytes e.epoch
          → free r off ≡ (reclaim r off (v2_header (length e.bytes) e.epoch), done tt)
      free_held e off known held =
          rw
            (
              free,
              t.listed off,
              known,
              decode-IsHeader r.buffer off (length e.bytes) e.epoch held.header,
              ==_refl extent_magic,
            )
            refl
