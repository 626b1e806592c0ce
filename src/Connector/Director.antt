-- ===== src/Connector/Director.antt =====
-- crates/lmcache-connector/src/director.rs: the hash of a chunk in a key, and the hashes that a report carries. The calls of
-- the Director are left out.
pub mod Laws
use rdmas.Base.{
  ℕ, zero, suc, ◌+◌, ◌-◌, ◌*◌, ◌^◌, ◌<◌, Bool, true, false, ◌&&◌, List, [], ◌∷◌, ◌==◌, ltb, leb,
  length, get_or, Option, none, some, if◌then◌else◌,
}

-- `split('@')`: the bytes before the first '@', and the other parts.
unfoldable pub split_at : List ℕ → List ℕ × List (List ℕ)
split_at [] = ([], [])
split_at (c ∷ cs) =
    let (part, parts) = split_at cs in if c == b'@' then ([], part ∷ parts) else (c ∷ part, parts)

unfoldable pub split : List ℕ → List (List ℕ)
unfolding split_at
split key = let (part, parts) = split_at key in part ∷ parts

-- `char::to_digit(16)`
unfoldable pub to_digit : ℕ → Option ℕ
to_digit c =
    if leb b'0' c && leb c b'9'
    then some (c - b'0')
    else if leb b'a' c && leb c b'f'
    then some (c - b'a' + 10)
    else if leb b'A' c && leb c b'F'
    then some (c - b'A' + 10)
    else none

-- The digits of `u64::from_str_radix(_, 16)`, which fails on an overflow.
unfoldable pub digits : ℕ → List ℕ → Option ℕ
digits acc [] = some acc
digits acc (c ∷ cs) = elim (to_digit c) [
  | none ↦ none
  | some d ↦ elim (ltb (acc * 16 + d) (2 ^ 64)) [ true ↦ digits (acc * 16 + d) cs | false ↦ none ]
]

-- At least one digit, after a '+' or not.
unfoldable pub some_digits : List ℕ → Option ℕ
unfolding digits
some_digits [] = none
some_digits (c ∷ cs) = digits 0 (c ∷ cs)

unfoldable pub from_str_radix : List ℕ → Option ℕ
unfolding some_digits
from_str_radix [] = none
from_str_radix (c ∷ cs) = if c == b'+' then some_digits cs else some_digits (c ∷ cs)

unfoldable pub extract_chunk_hash : List ℕ → Option ℕ
unfolding split from_str_radix
extract_chunk_hash key =
    let parts = split key in
    if ltb (length parts) 4 then none else from_str_radix (get_or parts 3 [])

-- `filter_map(|key| extract_chunk_hash(key))`, the hashes of `report_store` and `report_remove`.
unfoldable pub hashes : List (List ℕ) → List ℕ
unfolding extract_chunk_hash
hashes [] = []
hashes (key ∷ keys) =
    let later = hashes keys in
    elim (extract_chunk_hash key) [ none ↦ later | some hash ↦ hash ∷ later ]

-- Whether the Director is called, and with which hashes.
unfoldable pub report : List (List ℕ) → Option (List ℕ)
unfolding hashes
report keys = elim (hashes keys) [ [] ↦ none | hash ∷ rest ↦ some (hash ∷ rest) ]
