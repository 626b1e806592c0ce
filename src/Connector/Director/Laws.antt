-- ===== src/Connector/Director/Laws.antt =====
-- The hash of a key that has one.
use rdmas.Base.{
  ℕ, suc, ◌+◌, ◌-◌, ◌*◌, ◌^◌, ◌<◌, ◌≤◌, ◌≡◌, ◌≢◌, refl, ap, inl, inr, false, List, [], ◌∷◌, ◌++◌,
  ◌==◌, ==_ne, ltb, lt→ltb, ltb→lt, Bool-cases, length, map, Option, none, some, if◌then◌else◌,
  arith,
}
use rdmas.Connector.Director.{
  split_at, split, to_digit, digits, some_digits, from_str_radix, extract_chunk_hash,
}

-- No byte is '@'.
abbrev pub HasNoAt : List ℕ → Type 0
HasNoAt [] = Unit {0}
HasNoAt (c ∷ cs) = (c ≢ b'@') × HasNoAt cs

split_at-append :
    (xs rest : List ℕ)
    → HasNoAt xs
    → split_at (xs ++ (b'@' ∷ rest)) ≡ (xs, (split_at rest).0 ∷ (split_at rest).1)
unfolding split_at
split_at-append [] rest clear = refl
split_at-append (c ∷ xs) rest (ne, clear) = rw (split_at-append xs rest clear, ==_ne c b'@' ne) refl

split_at-clear : (xs : List ℕ) → HasNoAt xs → split_at xs ≡ (xs, [])
unfolding split_at
split_at-clear [] clear = refl
split_at-clear (c ∷ xs) (ne, clear) = rw (split_at-clear xs clear, ==_ne c b'@' ne) refl

-- Hexadecimal digits in lower case, and their value.
abbrev pub digit : ℕ → ℕ
digit d = if ltb d 10 then b'0' + d else b'a' + (d - 10)

abbrev pub AllHex : List ℕ → Type 0
AllHex [] = Unit {0}
AllHex (d ∷ ds) = (d < 16) × AllHex ds

abbrev pub value : ℕ → List ℕ → ℕ
value acc [] = acc
value acc (d ∷ ds) = value (acc * 16 + d) ds

to_digit-digit : (d : ℕ) → d < 16 → to_digit (digit d) ≡ some d
unfolding to_digit
to_digit-digit d h = ground arith

le-value : (acc : ℕ) (ds : List ℕ) → acc ≤ value acc ds
le-value acc [] = omega arith
le-value acc (d ∷ ds) = omega (arith, le-value (acc * 16 + d) ds)

ge→ltb : (m n : ℕ) → m ≤ n → ltb n m ≡ false
ge→ltb m n h = ground arith

-- Digits are read to their value, unless it needs more than 64 bits.
digits-map :
    (ds : List ℕ) (acc : ℕ)
    → AllHex ds
    → acc < 2 ^ 64
    → digits acc (map digit ds)
      ≡ (if ltb (value acc ds) (2 ^ 64) then some (value acc ds) else none)
unfolding digits
digits-map [] acc hex fits = rw (lt→ltb acc (2 ^ 64) fits) refl
digits-map (d ∷ ds) acc (low, hex) fits = elim (Bool-cases (ltb (acc * 16 + d) (2 ^ 64))) [
  | inl e ↦
      rw (digits, to_digit-digit d low, e)
        (digits-map ds (acc * 16 + d) hex (ltb→lt (acc * 16 + d) (2 ^ 64) e))
  | inr e ↦ rw (digits, to_digit-digit d low, e) (over (ltb_false e))
]
  where
    ltb_false : ltb (acc * 16 + d) (2 ^ 64) ≡ false → 2 ^ 64 ≤ acc * 16 + d
    ltb_false e = ground (arith, e)

    over :
        2 ^ 64 ≤ acc * 16 + d
        → none ≡ (
            if ltb (value (acc * 16 + d) ds) (2 ^ 64) then some (value (acc * 16 + d) ds) else none)
    over h =
        let big : ltb (value (acc * 16 + d) ds) (2 ^ 64) ≡ false =
          ge→ltb (2 ^ 64) (value (acc * 16 + d) ds)
            (omega (arith, h, le-value (acc * 16 + d) ds)) in
        rw big refl

from_str_radix-map :
    (d : ℕ) (ds : List ℕ)
    → AllHex (d ∷ ds)
    → from_str_radix (map digit (d ∷ ds))
      ≡ (if ltb (value 0 (d ∷ ds)) (2 ^ 64) then some (value 0 (d ∷ ds)) else none)
unfolding from_str_radix some_digits
from_str_radix-map d ds hex =
    let no_plus : (digit d == b'+') ≡ false = ==_ne (digit d) b'+' (λ e. ground (arith, e)) in
    rw no_plus (digits-map (d ∷ ds) 0 hex (omega arith))

-- What may follow the hash.
abbrev pub salted : Option (List ℕ) → List ℕ
salted none = []
salted (some salt) = b'@' ∷ salt

-- `model@rank@group@chunk_hash[@salt]`
abbrev pub key_of : (model rank group hash : List ℕ) → Option (List ℕ) → List ℕ
key_of model rank group hash salt =
    model ++ (b'@' ∷ (rank ++ (b'@' ∷ (group ++ (b'@' ∷ (hash ++ salted salt))))))

HasNoAt-map : (ds : List ℕ) → AllHex ds → HasNoAt (map digit ds)
HasNoAt-map [] hex = tt
HasNoAt-map (d ∷ ds) (low, hex) = (λ e. ground (arith, e), HasNoAt-map ds hex)

append-nil : (xs : List ℕ) → xs ++ [] ≡ xs
append-nil [] = refl
append-nil (x ∷ xs) = ap (◌∷◌ x) (append-nil xs)

split_at-hash :
    (hash : List ℕ) (salt : Option (List ℕ))
    → HasNoAt hash
    → (split_at (hash ++ salted salt)).0 ≡ hash
split_at-hash hash none clear = rw (append-nil hash, split_at-clear hash clear) refl
split_at-hash hash (some salt) clear = rw (split_at-append hash salt clear) refl

-- A key of three parts without '@', and a hash of one or more hexadecimal digits in lower case, with a salt or without one, has
-- the value of these digits as its chunk hash if that is below 2^64, and none otherwise.
pub extract_chunk_hash-key_of :
    (model rank group : List ℕ) (d : ℕ) (ds : List ℕ) (salt : Option (List ℕ))
    → HasNoAt model
    → HasNoAt rank
    → HasNoAt group
    → AllHex (d ∷ ds)
    → extract_chunk_hash (key_of model rank group (map digit (d ∷ ds)) salt)
      ≡ (if ltb (value 0 (d ∷ ds)) (2 ^ 64) then some (value 0 (d ∷ ds)) else none)
unfolding extract_chunk_hash split
extract_chunk_hash-key_of model rank group d ds salt m r g hex =
    let hash : List ℕ = map digit (d ∷ ds) in
    rw
      (
        split_at-append model (rank ++ (b'@' ∷ (group ++ (b'@' ∷ (hash ++ salted salt))))) m,
        split_at-append rank (group ++ (b'@' ∷ (hash ++ salted salt))) r,
        split_at-append group (hash ++ salted salt) g,
        split_at-hash hash salt (HasNoAt-map (d ∷ ds) hex),
        ge→ltb 4 (suc (suc (suc (suc (length (split_at (hash ++ salted salt)).1))))) (omega arith),
      )
      (from_str_radix-map d ds hex)
