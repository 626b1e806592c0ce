-- ===== src/Lru.antt =====
-- src/engine/lru.rs: the tracker of accesses. The queue holds the records in order; the map of last
-- accesses is a list of pairs, in the order in which the hash map gives them, whatever it is.
use rdmas.Base.{
  ℕ, suc, ◌+◌, ◌≤◌, Bool, ◌&&◌, ◌||◌, List, [], ◌∷◌, ◌==◌, ltb, leb, length, take, min,
  if◌then◌else◌, ◌%◌, ◌^◌,
}

pub record LruTracker : Type 0 where
  pub accesses : List (ℕ × ℕ)
  pub last_access : List (ℕ × ℕ)
  pub key_count : ℕ
  pub watermark : ℕ
  pub evicted : ℕ

unfoldable pub new : ℕ → LruTracker
new watermark = record {
  accesses = [];
  last_access = [];
  key_count = 0;
  watermark = watermark;
  evicted = 0;
}

unfoldable pub push_back : List (ℕ × ℕ) → ℕ × ℕ → List (ℕ × ℕ)
push_back [] x = x ∷ []
push_back (y ∷ ys) x = y ∷ push_back ys x

unfoldable pub record_access : LruTracker → ℕ → ℕ → LruTracker
unfolding push_back
record_access l key_hash now = record l {
  accesses = push_back l.accesses (key_hash, now);
  key_count = (l.key_count + 1) % 2 ^ 64;
}

unfoldable pub needs_eviction : LruTracker → Bool
needs_eviction l = ltb l.watermark l.key_count

unfoldable pub remove_key : List (ℕ × ℕ) → ℕ → List (ℕ × ℕ)
remove_key [] key = []
remove_key ((k, ts) ∷ rest) key =
    let others = remove_key rest key in if k == key then others else (k, ts) ∷ others

-- The records of the queue, merged into the map: a later one replaces an earlier one.
unfoldable pub merge : List (ℕ × ℕ) → List (ℕ × ℕ) → List (ℕ × ℕ)
unfolding remove_key
merge [] la = la
merge ((key, ts) ∷ records) la = merge records ((key, ts) ∷ remove_key la key)

-- `sort_by_key` by the timestamp, which is stable.
unfoldable pub insert_by_ts : ℕ × ℕ → List (ℕ × ℕ) → List (ℕ × ℕ)
insert_by_ts p [] = p ∷ []
insert_by_ts p (q ∷ qs) =
    let rest = insert_by_ts p qs in if leb p.1 q.1 then p ∷ q ∷ qs else q ∷ rest

unfoldable pub sort_by_ts : List (ℕ × ℕ) → List (ℕ × ℕ)
unfolding insert_by_ts
sort_by_ts [] = []
sort_by_ts (p ∷ ps) = insert_by_ts p (sort_by_ts ps)

unfoldable pub keys : List (ℕ × ℕ) → List ℕ
keys [] = []
keys ((k, ts) ∷ rest) = k ∷ keys rest

unfoldable pub remove_keys : List (ℕ × ℕ) → List ℕ → List (ℕ × ℕ)
unfolding remove_key
remove_keys la [] = la
remove_keys la (k ∷ ks) = remove_keys (remove_key la k) ks

unfoldable pub select_eviction_candidates : LruTracker → ℕ → LruTracker × List ℕ
unfolding merge sort_by_ts keys remove_keys
select_eviction_candidates l n =
    let la = merge l.accesses l.last_access in
    if length la == 0 || n == 0
    then (record l { accesses = []; last_access = la; key_count = length la }, [])
    else let sorted = sort_by_ts la in
      let candidates = keys (take (min n (length sorted)) sorted) in
      let left = remove_keys la candidates in
      (record l { accesses = []; last_access = left; key_count = length left }, candidates)

unfoldable pub increment_evicted : LruTracker → ℕ → LruTracker
increment_evicted l delta = record l { evicted = l.evicted + delta }

abbrev pub AllFrom : ℕ → List (ℕ × ℕ) → Type 0
AllFrom n [] = Unit
AllFrom n (p ∷ ps) = (n ≤ p.1) × AllFrom n ps

-- Oldest first.
abbrev pub IsSorted : List (ℕ × ℕ) → Type 0
IsSorted [] = Unit
IsSorted (p ∷ ps) = AllFrom p.1 ps × IsSorted ps

-- How often an entry stands in a list.
abbrev pub count : ℕ × ℕ → List (ℕ × ℕ) → ℕ
count p [] = 0
count p (q ∷ qs) = let rest = count p qs in if p.0 == q.0 && p.1 == q.1 then suc rest else rest
