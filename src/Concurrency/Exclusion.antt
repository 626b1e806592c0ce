-- ===== src/Concurrency/Exclusion.antt =====
-- Many clients over one lock word, each in the steps of `try_acquire_lock` and `release_lock`, in any
-- order. The timing that the lease protocol rests on is in the guards: the clock has not turned over
-- its 24 bits, it does not pass the lease of a client that holds the lock, and the exchange follows
-- within the lease of the reading that it stamps.
use mathlib.Core.Logic.{ite}
use rdmas.Base.{ℕ, suc, ◌+◌, ◌^◌, ◌≤◌, ◌<◌, ◌≡◌, ap, ◌∙◌, ◌≢◌, ◌⊎◌, true, false, arith, ℕ_discrete}
use rdmas.Layout.LockWord.{BucketMode, is_locked, lease_ts, lease_timeout_ms}
use rdmas.Layout.LockWord.Fields.{Fields, fields}
use rdmas.Layout.LockWord.Updates.{fields-set_locked}
use rdmas.Concurrency.Lock.{is_held, stamped, released}
use rdmas.Concurrency.Laws.{stamped-set_locked, is_lease_expired-in_turn}

-- Where a client is: outside; after its load; after the test of the lock; with a stamp, before the
-- exchange; in possession of the lock, which it has stamped.
pub data Phase : Type 0 where
  outside : Phase
  seen checked : ℕ → Phase
  ready : ℕ → ℕ → Phase
  holding : ℕ → Phase

pub record System : Type 0 where
  pub word : ℕ
  pub clock : ℕ
  pub phase : ℕ → Phase

abbrev pub move : (ℕ → Phase) → ℕ → Phase → ℕ → Phase
move f i p j = ite (ℕ_discrete j i) p (f j)

-- `refuse` is the return of `Locked`, `take` the exchange that succeeds, `miss` the one that fails,
-- `release` the store of `release_lock`, with any version.
pub data Step (mode : BucketMode) (s : System) : System → Type 0 where
  load :
      (i : ℕ)
      → s.phase i ≡ outside
      → Step mode s (record s { phase = move s.phase i (seen s.word) })
  refuse :
      (i : ℕ) {lv : ℕ}
      → s.phase i ≡ seen lv
      → is_held lv s.clock ≡ true
      → Step mode s (record s { phase = move s.phase i outside })
  check :
      (i : ℕ) {lv : ℕ}
      → s.phase i ≡ seen lv
      → is_held lv s.clock ≡ false
      → Step mode s (record s { phase = move s.phase i (checked lv) })
  stamp :
      (i : ℕ) {lv : ℕ}
      → s.phase i ≡ checked lv
      → Step mode s (record s { phase = move s.phase i (ready lv s.clock) })
  take :
      (i : ℕ) {lv at : ℕ}
      → s.phase i ≡ ready lv at
      → s.word ≡ lv
      → s.clock ≤ at + lease_timeout_ms
      → Step mode s (record s { word = stamped lv at mode; phase = move s.phase i (holding at) })
  miss :
      (i : ℕ) {lv at : ℕ}
      → s.phase i ≡ ready lv at
      → s.word ≢ lv
      → Step mode s (record s { phase = move s.phase i outside })
  release :
      (i v : ℕ) {at : ℕ}
      → s.phase i ≡ holding at
      → Step mode s (record s { word = released mode v; phase = move s.phase i outside })
  tick :
      suc s.clock < 2 ^ 24
      → ((i at : ℕ) → s.phase i ≡ holding at → suc s.clock ≤ at + lease_timeout_ms)
      → Step mode s (record s { clock = suc s.clock })

pub data Reach (mode : BucketMode) (s : System) : System → Type 0 where
  start : Reach mode s s
  later : {t u : System} → Reach mode s t → Step mode t u → Reach mode s u

-- A word that was found free or expired.
abbrev pub IsStale : ℕ → ℕ → Type 0
IsStale lv now = (is_locked lv ≡ false) ⊎ (lease_ts lv + lease_timeout_ms < now)

-- What a client knows in its phase, beside the word and the clock.
abbrev pub Fits : ℕ → ℕ → Phase → Type 0
Fits w c outside = Unit
Fits w c (seen lv) = lease_ts lv ≤ c
Fits w c (checked lv) = IsStale lv c
Fits w c (ready lv at) = IsStale lv c × (at ≤ c)
Fits w c (holding at) = (is_locked w ≡ true) × (lease_ts w ≡ at) × (c ≤ at + lease_timeout_ms)

pub record IsConsistent (s : System) : Type 0 where
  pub in_turn : s.clock < 2 ^ 24
  pub lease_past : lease_ts s.word ≤ s.clock
  pub fits : (i : ℕ) → Fits s.word s.clock (s.phase i)
  pub alone : (i j a b : ℕ) → s.phase i ≡ holding a → s.phase j ≡ holding b → i ≡ j

pub IsStale-of_is_held :
    (lv now : ℕ) → lease_ts lv ≤ now → now < 2 ^ 24 → is_held lv now ≡ false → IsStale lv now
unfolding is_held is_locked lease_ts
IsStale-of_is_held lv now past small free =
    ground (arith, is_lease_expired-in_turn (lease_ts lv) now lease_timeout_ms past small)

pub stamped-lease :
    (lv at : ℕ) (mode : BucketMode)
    → at < 2 ^ 24
    → (is_locked (stamped lv at mode) ≡ true) × (lease_ts (stamped lv at mode) ≡ at)
unfolding fields
stamped-lease lv at mode small =
    let now = (fields-set_locked lv at mode).0 in
    let e = stamped-set_locked lv at mode in
    (
      rw e (ap (λ (f : Fields). f.locked_bit) now),
      rw e (ap (λ (f : Fields). f.lease_field) now ∙ omega arith),
    )
