-- ===== src/Extent/Region/Found.antt =====
-- The extents of the store, looked up and dropped.
use rdmas.Base.{
  ℕ, ◌+◌, ◌^◌, ◌≤◌, ◌<◌, ◌≡◌, refl, sym, ap, subst, ◌∙◌, ◌≢◌, inl, inr, true, ◌||◌, List, [], ◌∷◌,
  ◌==◌, ==_ne, ==_iff, length, Option, none, some, arith, Bool-cases, if◌then◌else◌, ℕ_discrete,
}
use rdmas.Base.Bytes.{Buffer}
use rdmas.Extent.Holds.{Holds}
use rdmas.Extent.Region.{contains, remove_offset}
use rdmas.Extent.Region.Cover.{hit, hit_inside}
use rdmas.Extent.Region.Tiled.{Ext, total, used, has, AllHeld, Distinct, total_positive}

abbrev pub drop_ext : List Ext → ℕ → List Ext
drop_ext [] off = []
drop_ext (e ∷ es) off = let rest = drop_ext es off in if e.off == off then es else e ∷ rest

abbrev pub look : List Ext → ℕ → Option Ext
look [] off = none
look (e ∷ es) off = let rest = look es off in if e.off == off then some e else rest

abbrev pub bytes_in : Option Ext → Option (List ℕ)
bytes_in none = none
bytes_in (some e) = some e.bytes

abbrev pub find : List Ext → ℕ → Option (List ℕ)
find exts off = bytes_in (look exts off)

-- An extent of the store, and the others.
abbrev pub Found : Buffer → List Ext → ℕ → Type 0
Found m exts off =
    (e : Ext) × (e.off ≡ off)
    × (look exts off ≡ some e)
    × (length e.bytes < 2 ^ 32)
    × Holds m off e.bytes e.epoch
    × ((p : ℕ) → used p exts ≡ hit p off (total e) + used p (drop_ext exts off))
    × AllHeld m (drop_ext exts off)

pub has-Found :
    (m : Buffer) (exts : List Ext) (off : ℕ)
    → AllHeld m exts
    → has exts off ≡ true
    → Found m exts off
has-Found m [] off h known = cc known
has-Found m (e ∷ es) off (small, held, rest) known = elim (Bool-cases (e.off == off)) [
  | inl here ↦
      let same : e.off ≡ off = (==_iff e.off off).0 here in
      (
        e,
        same,
        rw here refl,
        small,
        subst (λ (o : ℕ). Holds m o e.bytes e.epoch) same held,
        λ p. rw here (ap (λ (o : ℕ). hit p o (total e) + used p es) same),
        rw here rest,
      )
  | inr other ↦
      let (e', same, found, small', held', uses, rest') =
        has-Found m es off rest (rw other at known) in
      (
        e',
        same,
        rw other found,
        small',
        held',
        λ p. rw other (omega (arith, uses p)),
        rw other (small, held, rest'),
      )
]

-- An extent covers its first byte.
pub has-used :
    (m : Buffer) (es : List Ext) (off : ℕ) → AllHeld m es → has es off ≡ true → 1 ≤ used off es
has-used m es off h known =
    let (e, same, found, small, held, uses, rest) = has-Found m es off h known in
    omega (
      arith,
      uses off,
      hit_inside off off (total e) (omega arith)
          (omega (arith, total_positive (length e.bytes) small)),
    )

pub has-drop_ne : (es : List Ext) (off o : ℕ) → off ≢ o → has (drop_ext es off) o ≡ has es o
has-drop_ne [] off o ne = refl
has-drop_ne (e ∷ es) off o ne = elim (Bool-cases (e.off == off)) [
  | inl here ↦
      let apart : e.off ≢ o = λ p. ne (sym ((==_iff e.off off).0 here) ∙ p) in
      rw (here, ==_ne e.off o apart) refl
  | inr other ↦ rw other (ap (λ b. e.off == o || b) (has-drop_ne es off o ne))
]

pub contains-remove_ne :
    (ys : List ℕ) (x y : ℕ) → x ≢ y → contains (remove_offset ys x) y ≡ contains ys y
unfolding contains remove_offset
contains-remove_ne [] x y ne = refl
contains-remove_ne (z ∷ ys) x y ne = elim (Bool-cases (z == x)) [
  | inl here ↦
      let apart : z ≢ y = λ p. ne (sym ((==_iff z x).0 here) ∙ p) in
      rw (here, ==_ne z y apart) (contains-remove_ne ys x y ne)
  | inr other ↦ rw other (ap (λ b. z == y || b) (contains-remove_ne ys x y ne))
]

pub remove_offset-Distinct : (ys : List ℕ) (x : ℕ) → Distinct ys → Distinct (remove_offset ys x)
unfolding remove_offset
remove_offset-Distinct [] x d = tt
remove_offset-Distinct (y ∷ ys) x d = elim (ℕ_discrete y x) [
  | yes p ↦ rw ((==_iff y x).1 p) (remove_offset-Distinct ys x d.1)
  | no ne ↦
      rw (==_ne y x ne)
        (contains-remove_ne ys x y (λ p. ne (sym p)) ∙ d.0, remove_offset-Distinct ys x d.1)
]
