-- ===== src/Extent/Region/Sweeps.antt =====
-- Sweeping the store: what is collected, and what stays.
use rdmas.Base.{
  ℕ, ◌+◌, ◌≡◌, refl, sym, ap, subst, ◌∙◌, ◌≢◌, inl, inr, Bool, true, false, ◌&&◌, ◌||◌, List, [],
  ◌∷◌, ◌==◌, ==_refl, ==_ne, ==_iff, ltb, length, Option, none, some, arith, if◌then◌else◌,
  Bool-cases, ℕ_discrete,
}
use rdmas.Extent.Holds.{decode-IsHeader}
use rdmas.Extent.Region.{LargeObjectRegion, contains, reclaim, sweep_one, sweep_all, sweep}
use rdmas.Extent.Region.Free.{v2_header, remove_offset-contains}
use rdmas.Extent.Region.Tiled.{Ext, has, Distinct, IsTiled}
use rdmas.Extent.Region.Found.{drop_ext, look, has-Found, has-drop_ne}
use rdmas.Extent.Region.Release.{reclaim-IsTiled}

-- What is left of an extent after a sweep: none, if it is marked with an epoch below the least active one.
abbrev pub survives : ℕ → Option Ext → Option Ext
survives least none = none
survives least (some e) = if ltb 0 e.epoch && ltb e.epoch least then none else some e

look-absent : (es : List Ext) (o : ℕ) → has es o ≡ false → look es o ≡ none
look-absent [] o absent = refl
look-absent (e ∷ es) o absent = elim (Bool-cases (e.off == o)) [
  | inl here ↦ cc (rw here at absent)
  | inr other ↦ rw other (look-absent es o (rw other at absent))
]

look-drop_ne : (es : List Ext) (off o : ℕ) → off ≢ o → look (drop_ext es off) o ≡ look es o
look-drop_ne [] off o ne = refl
look-drop_ne (e ∷ es) off o ne = elim (Bool-cases (e.off == off)) [
  | inl here ↦
      let apart : e.off ≢ o = λ p. ne (sym ((==_iff e.off off).0 here) ∙ p) in
      rw (here, ==_ne e.off o apart) refl
  | inr other ↦
      rw other
        (ap (λ (l : Option Ext). if e.off == o then some e else l) (look-drop_ne es off o ne))
]

length-drop :
    (es : List Ext) (off : ℕ) → has es off ≡ true → 1 + length (drop_ext es off) ≡ length es
length-drop [] off known = cc known
length-drop (e ∷ es) off known = elim (Bool-cases (e.off == off)) [
  | inl here ↦ rw here (omega arith)
  | inr other ↦ let rest = length-drop es off (rw other at known) in rw other (omega (arith, rest))
]

-- A sweep of the offsets that `among` selects, which leaves the store `exts'` with `n` extents less.
abbrev Sweeps : List Ext → ℕ → (ℕ → Bool) → LargeObjectRegion × ℕ → Type 0
Sweeps exts least among out =
    (r' : LargeObjectRegion) × (n : ℕ) × (exts' : List Ext) × (out ≡ (r', n))
    × IsTiled r' exts'
    × (n + length exts' ≡ length exts)
    × ((o : ℕ) → look exts' o ≡ (if among o then survives least (look exts o) else look exts o))
    × ((o : ℕ) → among o ≡ false → has exts' o ≡ has exts o)

module _ (least : ℕ) where
  sweep_one-Sweeps :
      (r : LargeObjectRegion) (exts : List Ext) (off : ℕ)
      → IsTiled r exts
      → has exts off ≡ true
      → Sweeps exts least (λ o. off == o) (sweep_one r off least)
  unfolding sweep_one reclaim
  sweep_one-Sweeps r exts off t known =
      let (e, same, found, small, held, uses, rest) = has-Found r.buffer exts off t.held known in
      let t' = reclaim-IsTiled r exts t e off small held uses rest in
      elim (Bool-cases (ltb 0 e.epoch && ltb e.epoch least)) [
        | inl stale ↦ (
          reclaim r off (v2_header (length e.bytes) e.epoch),
          1,
          drop_ext exts off,
          rw (sweep_one, decode-IsHeader r.buffer off (length e.bytes) e.epoch held.header, stale)
              refl,
          t',
          length-drop exts off known,
          λ o. elim (ℕ_discrete off o) [
            | yes p ↦
                subst
                  (λ (x : ℕ).
                    look (drop_ext exts off) x
                    ≡ (if off == x then survives least (look exts x) else look exts x))
                  p
                  (rw (==_refl off, found, stale)
                    (look-absent (drop_ext exts off) off
                      (sym (t'.listed off) ∙ remove_offset-contains r.allocated off)))
            | no ne ↦ rw (==_ne off o ne) (look-drop_ne exts off o ne)
          ],
          λ o other. has-drop_ne exts off o (λ p. cc (sym ((==_iff off o).1 p) ∙ other)),
        )
        | inr live ↦ (
          r,
          0,
          exts,
          rw (sweep_one, decode-IsHeader r.buffer off (length e.bytes) e.epoch held.header, live)
              refl,
          t,
          omega arith,
          λ o. elim (ℕ_discrete off o) [
            | yes p ↦
                subst
                  (λ (x : ℕ).
                    look exts x ≡ (if off == x then survives least (look exts x) else look exts x))
                  p (rw (==_refl off, found, live) refl)
            | no ne ↦ rw (==_ne off o ne) refl
          ],
          λ o other. refl,
        )
      ]

  sweep_all-Sweeps :
      (offs : List ℕ) (r : LargeObjectRegion) (exts : List Ext)
      → IsTiled r exts
      → Distinct offs
      → ((o : ℕ) → contains offs o ≡ true → has exts o ≡ true)
      → Sweeps exts least (contains offs) (sweep_all offs r least)
  unfolding sweep_all contains
  sweep_all-Sweeps [] r exts t d known =
      (r, 0, exts, refl, t, omega arith, λ o. refl, λ o other. refl)
  sweep_all-Sweeps (off ∷ offs) r exts t (fresh, d) known =
      let (r1, n1, exts1, e1, t1, count1, looks1, has1) =
        sweep_one-Sweeps r exts off t (known off (rw (==_refl off) refl)) in
      let (r2, n2, exts2, e2, t2, count2, looks2, has2) =
        sweep_all-Sweeps offs r1 exts1 t1 d
          (λ o there. has1 o (apart o there) ∙ known o (rw (apart o there) there)) in
      (
        r2,
        n1 + n2,
        exts2,
        rw (e1, e2) refl,
        t2,
        omega (arith, count1, count2),
        λ o. looks2 o ∙ both exts1 o (looks1 o),
        λ o other. elim (Bool-cases (off == o)) [
          | inl here ↦ cc (rw here at other)
          | inr beside ↦ has2 o (rw beside at other) ∙ has1 o beside
        ],
      )
    where
      apart : (o : ℕ) → contains offs o ≡ true → (off == o) ≡ false
      apart o there =
          ==_ne off o (λ p. cc (subst (λ (x : ℕ). contains offs x ≡ false) p fresh, there))

      both :
          (exts1 : List Ext) (o : ℕ)
          → look exts1 o ≡ (if off == o then survives least (look exts o) else look exts o)
          → (if contains offs o then survives least (look exts1 o) else look exts1 o)
            ≡ (if off == o || contains offs o then survives least (look exts o) else look exts o)
      both exts1 o one = elim (ℕ_discrete off o) [
        | yes p ↦
            let gone : contains offs o ≡ false =
              subst (λ (x : ℕ). contains offs x ≡ false) p fresh in
            rw (gone, (==_iff off o).1 p) (rw ((==_iff off o).1 p) at one)
        | no ne ↦ rw (==_ne off o ne) (
            ap (λ (l : Option Ext). if contains offs o then survives least l else l)
              (rw (==_ne off o ne) at one))
      ]

-- A sweep of a tiled region never fails. Its extents that are marked with an epoch below the least active one are gone, and their
-- number is the answer; all the others are as before, and the region is tiled again.
pub sweep-IsTiled :
    (r : LargeObjectRegion) (exts : List Ext) (least : ℕ)
    → IsTiled r exts
    → (r' : LargeObjectRegion) × (n : ℕ) × (exts' : List Ext) × (sweep r least ≡ (r', n))
      × IsTiled r' exts'
      × (n + length exts' ≡ length exts)
      × ((o : ℕ) → look exts' o ≡ survives least (look exts o))
unfolding sweep
sweep-IsTiled r exts least t =
    let (r', n, exts', e, t', count, looks, others) =
      sweep_all-Sweeps least r.allocated r exts t t.distinct
        (λ o there. sym (t.listed o) ∙ there) in
    (r', n, exts', e, t', count, λ o. looks o ∙ all o)
  where
    all :
        (o : ℕ)
        → (if contains r.allocated o then survives least (look exts o) else look exts o)
          ≡ survives least (look exts o)
    all o = elim (Bool-cases (has exts o)) [
      | inl there ↦ rw (t.listed o, there) refl
      | inr absent ↦ rw (t.listed o, absent, look-absent exts o absent) refl
    ]
