-- ===== src/Base/Bytes.antt =====
-- Byte arrays and byte buffers: little-endian integers, `copy_from_slice`, and a buffer as its size
-- with its contents at each address.
use Prim.Native.Nat.{ℕ, zero, suc, ◌+◌, ◌-◌, ◌*◌, ◌/◌, ◌%◌, ◌^◌, ◌≤◌, ◌<◌}
use mathlib.Core.Path.{◌≡◌, refl, ap, ◌∙◌}
use mathlib.Core.Logic.{◌⊎◌, inl, inr}
use mathlib.Core.Bool.{Bool, true, false, ◌&&◌}
use mathlib.Core.List.{List, [], ◌∷◌, ◌++◌}
use native.Mathlib.Nat.{pow-suc}
use native.Mathlib.Omega.{arith}
use rdmas.Base.Tests.{ltb, leb, ◌==◌, if◌then◌else◌}
use rdmas.Base.Lists.{length, get_or, take, drop, eq_of_get_or}

-- `v.to_le_bytes()` of an integer of `n` bytes.
abbrev pub to_le_bytes : ℕ → ℕ → List ℕ
to_le_bytes zero v = []
to_le_bytes (suc n) v = v % 256 ∷ to_le_bytes n (v / 256)

abbrev pub from_le_bytes : List ℕ → ℕ
from_le_bytes [] = 0
from_le_bytes (b ∷ bs) = b + 256 * from_le_bytes bs

pub length-to_le_bytes : (n v : ℕ) → length (to_le_bytes n v) ≡ n
length-to_le_bytes zero v = refl
length-to_le_bytes (suc n) v = ap suc (length-to_le_bytes n (v / 256))

pub from_le_bytes-to_le_bytes : (n v : ℕ) → v < 256 ^ n → from_le_bytes (to_le_bytes n v) ≡ v
from_le_bytes-to_le_bytes zero v h = omega arith
from_le_bytes-to_le_bytes (suc n) v h =
    let lower : v / 256 < 256 ^ n = omega (arith, pow-suc 256 n) in
    omega (arith, from_le_bytes-to_le_bytes n (v / 256) lower)

-- Equality of byte arrays.
abbrev pub bytes_eq : List ℕ → List ℕ → Bool
bytes_eq [] [] = true
bytes_eq [] (y ∷ ys) = false
bytes_eq (x ∷ xs) [] = false
bytes_eq (x ∷ xs) (y ∷ ys) = x == y && bytes_eq xs ys

pub bytes_eq→eq : (xs ys : List ℕ) → bytes_eq xs ys ≡ true → xs ≡ ys
bytes_eq→eq [] [] h = refl
bytes_eq→eq [] (y ∷ ys) h = cc
bytes_eq→eq (x ∷ xs) [] h = cc
bytes_eq→eq (x ∷ xs) (y ∷ ys) h = ground (arith, bytes_eq→eq xs ys)

pub bytes_eq_refl : (xs : List ℕ) → bytes_eq xs xs ≡ true
bytes_eq_refl [] = refl
bytes_eq_refl (x ∷ xs) = ground (arith, bytes_eq_refl xs)

-- `array[i..i + v.len()].copy_from_slice(v)` on an array that is long enough.
abbrev pub splice : ℕ → List ℕ → List ℕ → List ℕ
splice i v xs = take i xs ++ (v ++ drop (i + length v) xs)

-- A buffer: `byte a` is the byte at address `a`, below `size`.
pub record Buffer : Type 0 where
  pub size : ℕ
  pub byte : ℕ → ℕ

abbrev pub zeroed : ℕ → Buffer
zeroed n = record { size = n; byte = λ _. 0 }

-- `n` bytes from address `a` on.
abbrev pub load : Buffer → ℕ → ℕ → List ℕ
load m a zero = []
load m a (suc n) = m.byte a ∷ load m (suc a) n

-- The buffer with the bytes `v` at address `a`.
pub store : Buffer → ℕ → List ℕ → Buffer
store m a v = record m {
  byte = λ i. if leb a i && ltb i (a + length v) then get_or v (i - a) 0 else m.byte i;
}

pub store-size : (m : Buffer) (a : ℕ) (v : List ℕ) → (store m a v).size ≡ m.size
unfolding store
store-size m a v = refl

pub store-inside :
    (m : Buffer) (a i : ℕ) (v : List ℕ) → i < length v → (store m a v).byte (a + i) ≡ get_or v i 0
unfolding store
store-inside m a i v h =
    let at : a + i - a ≡ i = omega arith in ground (arith, ap (λ (t : ℕ). get_or v t 0) at)

pub store-outside :
    (m : Buffer) (a i : ℕ) (v : List ℕ)
    → (i < a) ⊎ (a + length v ≤ i)
    → (store m a v).byte i ≡ m.byte i
unfolding store
store-outside m a i v h = ground arith

pub length-load : (m : Buffer) (a n : ℕ) → length (load m a n) ≡ n
length-load m a zero = refl
length-load m a (suc n) = ap suc (length-load m (suc a) n)

pub get_or-load : (m : Buffer) (a n i : ℕ) → i < n → get_or (load m a n) i 0 ≡ m.byte (a + i)
get_or-load m a zero i h = absurd (omega arith)
get_or-load m a (suc n) zero h = ap m.byte (omega arith)
get_or-load m a (suc n) (suc i) h =
    get_or-load m (suc a) n i (omega arith) ∙ ap m.byte (omega arith)

-- Two buffers that agree on a range hold the same bytes there.
pub load-congr :
    (m m' : Buffer) (a n : ℕ)
    → ((i : ℕ) → a ≤ i → i < a + n → m.byte i ≡ m'.byte i)
    → load m a n ≡ load m' a n
load-congr m m' a zero h = refl
load-congr m m' a (suc n) h =
    rw (h a (omega arith) (omega arith))
      (ap (◌∷◌ (m'.byte a)) (load-congr m m' (suc a) n (λ i p q. h i (omega arith) (omega arith))))

pub load-store_same : (m : Buffer) (a : ℕ) (v : List ℕ) → load (store m a v) a (length v) ≡ v
load-store_same m a v =
    eq_of_get_or (load (store m a v) a (length v)) v 0 (length-load (store m a v) a (length v))
      (λ i h.
        let small : i < length v = omega (arith, length-load (store m a v) a (length v)) in
        get_or-load (store m a v) a (length v) i small ∙ store-inside m a i v small)

pub load-store_disjoint :
    (m : Buffer) (a b n : ℕ) (v : List ℕ)
    → (b + n ≤ a) ⊎ (a + length v ≤ b)
    → load (store m a v) b n ≡ load m b n
load-store_disjoint m a b n v h =
    load-congr (store m a v) m b n (λ i p q. store-outside m a i v (apart i p q h))
  where
    apart :
        (i : ℕ)
        → b ≤ i
        → i < b + n
        → (b + n ≤ a) ⊎ (a + length v ≤ b)
        → (i < a) ⊎ (a + length v ≤ i)
    apart i p q (inl l) = inl (omega arith)
    apart i p q (inr r) = inr (omega arith)

-- A range inside another: the bytes that were stored there.
pub load-append : (m : Buffer) (a j n : ℕ) → load m a (j + n) ≡ load m a j ++ load m (a + j) n
load-append m a zero n =
    let none_before : a + 0 ≡ a = omega arith in
    let count : 0 + n ≡ n = omega arith in rw (count, none_before)
load-append m a (suc j) n =
    let shift : a + suc j ≡ suc a + j = omega arith in
    let count : suc j + n ≡ suc (j + n) = omega arith in
    rw (count, shift) (ap (◌∷◌ (m.byte a)) (load-append m (suc a) j n))
