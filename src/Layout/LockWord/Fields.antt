-- ===== src/Layout/LockWord/Fields.antt =====
-- The lock word as a record of its fields, and what each operation of the word does to that record.
use rdmas.Base.{
  ℕ, ◌+◌, ◌*◌, ◌/◌, ◌%◌, ◌^◌, ◌≤◌, ◌<◌, bit_and, ◌≡◌, refl, ◌∙◌, Bool, true, false, not, ◌==◌,
  arith,
}
use rdmas.Base.Bits.{
  bit_or-above, bit_and-one, bit_and-two, bit_and-four, bit_and-low_mask, bit_and-field,
}
use rdmas.Layout.LockWord.{
  BucketMode, inline, extent, mode_bits, shl64, is_locked, is_tombstone, is_inline, is_extent,
  version, lease_ts, set_locked, unlock_bucket, mark_tombstone,
}

-- The fields that the module documentation of layout.rs lists.
pub record Fields : Type 0 where
  pub version_field : ℕ
  pub lease_field : ℕ
  pub extent_bit : Bool
  pub tombstone_bit : Bool
  pub locked_bit : Bool

abbrev pub is_extent_mode : BucketMode → Bool
is_extent_mode inline = false
is_extent_mode extent = true

unfoldable pub fields : ℕ → Fields
fields lv = record {
  version_field = version lv;
  lease_field = lease_ts lv;
  extent_bit = is_extent lv;
  tombstone_bit = is_tombstone lv;
  locked_bit = is_locked lv;
}

-- A bit as a number.
abbrev pub bit : Bool → ℕ
bit true = 1
bit false = 0

-- The word with the given fields, its reserved bits clear.
abbrev pub word : ℕ → ℕ → ℕ → ℕ → ℕ → ℕ
word v l m t k = v * 2 ^ 32 + l * 2 ^ 8 + m * 4 + t * 2 + k

module _ (lv : ℕ) where
  pub version-eq : version lv ≡ lv / 2 ^ 32 % 2 ^ 32
  unfolding version
  version-eq = refl

  pub lease_ts-eq : lease_ts lv ≡ lv / 2 ^ 8 % 2 ^ 24
  unfolding lease_ts
  lease_ts-eq = rw (bit_and-low_mask 24 (lv / 2 ^ 8)) (omega arith)

  pub is_locked-eq : is_locked lv ≡ not (lv % 2 == 0)
  unfolding is_locked
  is_locked-eq = rw (bit_and-one lv)

  pub is_tombstone-eq : is_tombstone lv ≡ not (lv / 2 % 2 == 0)
  unfolding is_tombstone
  is_tombstone-eq = rw (bit_and-two lv) (ground arith)

  pub is_extent-eq : is_extent lv ≡ not (lv / 4 % 2 == 0)
  unfolding is_extent
  is_extent-eq = rw (bit_and-four lv) (ground arith)

  pub is_inline-eq : is_inline lv ≡ not (is_extent lv)
  unfolding is_inline is_extent
  is_inline-eq = ground arith

-- A parity test on a sum whose other part is even.
test_bit : (n : ℕ) (b : Bool) → n ≡ bit b → not (n == 0) ≡ b
test_bit n true h = ground arith
test_bit n false h = ground arith

pub bit-le : (b : Bool) → bit b ≤ 1
bit-le true = omega arith
bit-le false = omega arith

-- Reading the fields of a word back.
pub fields-word :
    (v l : ℕ) (m t k : Bool)
    → v < 2 ^ 32
    → l < 2 ^ 24
    → fields (word v l (bit m) (bit t) (bit k)) ≡ record {
      version_field = v;
      lease_field = l;
      extent_bit = m;
      tombstone_bit = t;
      locked_bit = k;
    }
unfolding fields
fields-word v l m t k hv hl = λ i. record {
  version_field = at_version i;
  lease_field = at_lease i;
  extent_bit = at_extent i;
  tombstone_bit = at_tombstone i;
  locked_bit = at_locked i;
}
  where
    w : ℕ
    w = word v l (bit m) (bit t) (bit k)

    at_version : version w ≡ v
    at_version = omega (arith, version-eq w, bit-le m, bit-le t, bit-le k)

    at_lease : lease_ts w ≡ l
    at_lease = omega (arith, lease_ts-eq w, bit-le m, bit-le t, bit-le k)

    at_extent : is_extent w ≡ m
    at_extent =
        is_extent-eq w ∙ test_bit (w / 4 % 2) m (omega (arith, bit-le m, bit-le t, bit-le k))

    at_tombstone : is_tombstone w ≡ t
    at_tombstone =
        is_tombstone-eq w ∙ test_bit (w / 2 % 2) t (omega (arith, bit-le m, bit-le t, bit-le k))

    at_locked : is_locked w ≡ k
    at_locked = is_locked-eq w ∙ test_bit (w % 2) k (omega (arith, bit-le m, bit-le t, bit-le k))

mode_bits-eq : (m : BucketMode) → mode_bits m ≡ bit (is_extent_mode m)
mode_bits-eq inline = refl
mode_bits-eq extent = refl

bit-is_extent : (lv : ℕ) → bit (is_extent lv) ≡ lv / 4 % 2
bit-is_extent lv = rw (is_extent-eq lv) (ground arith)

-- The word that `set_locked` builds.
pub set_locked-word :
    (lv ts : ℕ) (mode : BucketMode)
    → set_locked lv ts mode ≡ word (version lv) (ts % 2 ^ 24) (bit (is_extent_mode mode)) 0 1
unfolding set_locked
set_locked-word lv ts mode =
    let m : ℕ = bit (is_extent_mode mode) in
    let high : ℕ = version lv * 2 ^ 32 in
    let lease : bit_and ts 0xFF_FFFF ≡ ts % 2 ^ 24 = bit_and-low_mask 24 ts in
    let v : shl64 (lv / 2 ^ 32) 32 ≡ version lv * 2 ^ 32 = omega (arith, version-eq lv) in
    let l : shl64 (ts % 2 ^ 24) 8 ≡ ts % 2 ^ 24 * 2 ^ 8 = omega arith in
    let b : shl64 m 2 ≡ m * 4 = omega (arith, bit-le (is_extent_mode mode)) in
    rw (lease, mode_bits-eq mode, v, l, b)
      (rw (bit_or-above 32 high (ts % 2 ^ 24 * 2 ^ 8) (omega arith) (omega arith)) (
        rw
          (bit_or-above 8 (high + ts % 2 ^ 24 * 2 ^ 8) (m * 4) (omega arith)
            (omega (arith, bit-le (is_extent_mode mode))))
          (bit_or-above 1 (high + ts % 2 ^ 24 * 2 ^ 8 + m * 4) 1 (omega arith) (omega arith)
            ∙ omega arith)))

pub unlock_bucket-word :
    (lv v : ℕ) → v < 2 ^ 32 → unlock_bucket lv v ≡ word v 0 (bit (is_extent lv)) 0 0
unfolding unlock_bucket
unlock_bucket-word lv v h =
    let kept : bit_and lv 4 ≡ bit (is_extent lv) * 4 =
      omega (arith, bit_and-four lv, bit-is_extent lv) in
    let shifted : shl64 v 32 ≡ v * 2 ^ 32 = omega arith in
    rw (kept, shifted)
      (bit_or-above 32 (v * 2 ^ 32) (bit (is_extent lv) * 4) (omega arith)
          (omega (arith, bit-le (is_extent lv)))
        ∙ omega arith)

pub mark_tombstone-word :
    (lv : ℕ) → mark_tombstone lv ≡ word (version lv) 0 (bit (is_extent lv)) 1 0
unfolding mark_tombstone
mark_tombstone-word lv =
    let x : ℕ = bit (is_extent lv) in
    let kept : bit_and lv 4 ≡ x * 4 = omega (arith, bit_and-four lv, bit-is_extent lv) in
    let high : bit_and lv 0xFFFF_FFFF_0000_0000 ≡ version lv * 2 ^ 32 =
      omega (arith, bit_and-field 32 32 lv, version-eq lv) in
    rw (kept, high)
      (rw
        (bit_or-above 32 (version lv * 2 ^ 32) (x * 4) (omega arith)
          (omega (arith, bit-le (is_extent lv))))
        (bit_or-above 2 (version lv * 2 ^ 32 + x * 4) 2 (omega arith) (omega arith) ∙ omega arith))
