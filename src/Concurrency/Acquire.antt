-- ===== src/Concurrency/Acquire.antt =====
-- The loop of `try_acquire_lock`, under any interference of other threads.
use rdmas.Base.{
  ℕ, ◌≡◌, refl, ap, ◌≢◌, ◌⊎◌, inl, inr, true, false, ◌==◌, List, [], ◌∷◌, ◌++◌, Option, none, some,
  Bool-cases, ==_iff, ==_refl,
}
use rdmas.Base.Result.{Result, done, err}
use rdmas.Layout.LockWord.{BucketMode}
use rdmas.Concurrency.Lock.{
  LockError, locked, cas_lock, is_held, stamped, Round, at_exchange, try_acquire_lock,
}

-- In one of the rounds, at whose head the word was `lv`, the lock was held by another client.
abbrev pub Refuses : List Round → ℕ × Option (Result LockError ℕ) → Type 0
Refuses rs out =
    (before later : List Round) × (r : Round) × (lv : ℕ) × (rs ≡ before ++ (r ∷ later))
    × (is_held lv r.checked ≡ true)
    × (out ≡ (lv, some (err locked)))

-- In one of the rounds the word `lv` was free or expired, was still there at the exchange, and gave
-- way to the stamped word.
abbrev pub Acquires : List Round → BucketMode → ℕ × Option (Result LockError ℕ) → Type 0
Acquires rs mode out =
    (before later : List Round) × (r : Round) × (lv : ℕ) × (rs ≡ before ++ (r ∷ later))
    × (is_held lv r.checked ≡ false)
    × (at_exchange lv r ≡ lv)
    × (out ≡ (stamped lv r.stamp mode, some (done lv)))

-- A store of another thread came in between in each round.
abbrev pub AllRaced : List Round → Type 0
AllRaced [] = Unit
AllRaced (r ∷ rs) = (r.raced ≢ none) × AllRaced rs

cas_lock-same : (w old new : ℕ) → (w == old) ≡ true → cas_lock w old new ≡ (new, done old)
unfolding cas_lock
cas_lock-same w old new same = rw same

cas_lock-other : (w old new : ℕ) → (w == old) ≡ false → cas_lock w old new ≡ (w, err w)
unfolding cas_lock
cas_lock-other w old new other = rw other

raced_of_other : (r : Round) (w : ℕ) → (at_exchange w r == w) ≡ false → r.raced ≢ none
raced_of_other r w other quiet = cc (rw quiet at other, ==_refl w)

module _ (r : Round) (rs : List Round) (word : ℕ) (mode : BucketMode) where
  round-refuses :
      is_held word r.checked ≡ true
      → try_acquire_lock (r ∷ rs) word mode ≡ (word, some (err locked))
  unfolding try_acquire_lock
  round-refuses held = rw held refl

  round-takes :
      is_held word r.checked ≡ false
      → (at_exchange word r == word) ≡ true
      → try_acquire_lock (r ∷ rs) word mode ≡ (stamped word r.stamp mode, some (done word))
  unfolding try_acquire_lock
  round-takes free same =
      let c = cas_lock-same (at_exchange word r) word (stamped word r.stamp mode) same in
      rw (free, c, c) refl

  round-misses :
      is_held word r.checked ≡ false
      → (at_exchange word r == word) ≡ false
      → try_acquire_lock (r ∷ rs) word mode ≡ try_acquire_lock rs (at_exchange word r) mode
  unfolding try_acquire_lock
  round-misses free other =
      let c = cas_lock-other (at_exchange word r) word (stamped word r.stamp mode) other in
      rw (free, c, c) refl

rounds-spent : (word : ℕ) (mode : BucketMode) → try_acquire_lock [] word mode ≡ (word, none)
unfolding try_acquire_lock
rounds-spent word mode = refl

-- However other threads interfere, `try_acquire_lock` ends in one of three ways: it refuses, because
-- the word it has loaded carries an unexpired lock, and leaves that word; it acquires: a word that was
-- free or expired is replaced by its stamped form and returned; or it still runs, and then another
-- thread has stored a word between load and exchange in every round.
pub try_acquire_lock-ends :
    (rs : List Round) (word : ℕ) (mode : BucketMode)
    → Refuses rs (try_acquire_lock rs word mode)
      ⊎ Acquires rs mode (try_acquire_lock rs word mode)
      ⊎ ((last : ℕ) × (try_acquire_lock rs word mode ≡ (last, none)) × AllRaced rs)
try_acquire_lock-ends [] word mode = inr (inr (word, rounds-spent word mode, tt))
try_acquire_lock-ends (r ∷ rs) word mode = elim (Bool-cases (is_held word r.checked)) [
  | inl held ↦ inl ([], rs, r, word, refl, held, round-refuses r rs word mode held)
  | inr free ↦ elim (Bool-cases (at_exchange word r == word)) [
    | inl same ↦ inr (
        inl (
          [],
          rs,
          r,
          word,
          refl,
          free,
          (==_iff (at_exchange word r) word).0 same,
          round-takes r rs word mode free same,
        ))
    | inr raced ↦
        rw (round-misses r rs word mode free raced)
          (go raced (try_acquire_lock-ends rs (at_exchange word r) mode))
  ]
]
  where
    go :
        (at_exchange word r == word) ≡ false
        → Refuses rs (try_acquire_lock rs (at_exchange word r) mode)
          ⊎ Acquires rs mode (try_acquire_lock rs (at_exchange word r) mode)
          ⊎ ((last : ℕ) × ((try_acquire_lock rs (at_exchange word r) mode) ≡ (last, none))
              × AllRaced rs)
        → Refuses (r ∷ rs) (try_acquire_lock rs (at_exchange word r) mode)
          ⊎ Acquires (r ∷ rs) mode (try_acquire_lock rs (at_exchange word r) mode)
          ⊎ ((last : ℕ) × ((try_acquire_lock rs (at_exchange word r) mode) ≡ (last, none))
              × AllRaced (r ∷ rs))
    go raced (inl (b, l, q, lv, e, held, out)) = inl (r ∷ b, l, q, lv, ap (◌∷◌ r) e, held, out)
    go raced (inr (inl (b, l, q, lv, e, free, same, out))) =
        inr (inl (r ∷ b, l, q, lv, ap (◌∷◌ r) e, free, same, out))
    go raced (inr (inr (last, out, all))) =
        inr (inr (last, out, (raced_of_other r word raced, all)))
