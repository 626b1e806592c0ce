-- ===== src/Concurrency/Laws.antt =====
-- The words that the lock calls write, the loop of `try_acquire_lock`, and optimistic reads.

use rdmas.Base.{ℕ, ◌+◌, ◌-◌, ◌%◌, ◌^◌, ◌≤◌, ◌<◌, ◌≡◌, refl, ap, ◌∙◌, true, ltb, lt→ltb, arith}
use rdmas.Base.Bits.{bit_and-low_mask}
use rdmas.Layout.LockWord.{BucketMode, set_locked, wrapping_sub32}
use rdmas.Concurrency.Lock.{is_lease_expired, stamped}

pub stamped-set_locked :
    (lv now : ℕ) (mode : BucketMode) → stamped lv now mode ≡ set_locked lv now mode
unfolding stamped set_locked
stamped-set_locked lv now mode = refl

pub is_lease_expired-eq :
    (old now timeout : ℕ)
    → is_lease_expired old now timeout
      ≡ ltb timeout ((now % 2 ^ 24 + 2 ^ 32 - old % 2 ^ 24) % 2 ^ 32)
unfolding is_lease_expired wrapping_sub32
is_lease_expired-eq old now timeout = rw (bit_and-low_mask 24 old, bit_and-low_mask 24 now) refl

-- Within one turn of the 24-bit clock a lease has expired exactly when more than the timeout has
-- passed since its stamp.
pub is_lease_expired-in_turn :
    (old now timeout : ℕ)
    → old ≤ now
    → now < 2 ^ 24
    → is_lease_expired old now timeout ≡ ltb timeout (now - old)
is_lease_expired-in_turn old now timeout le small =
    is_lease_expired-eq old now timeout ∙ ap (ltb timeout) (omega arith)

-- When the 24-bit clock has turned over since the stamp, any lease counts as expired, however young:
-- the difference is taken modulo 2^32, not 2^24.
pub is_lease_expired-rollover :
    (old now timeout : ℕ)
    → now % 2 ^ 24 < old % 2 ^ 24
    → timeout < 2 ^ 32 - 2 ^ 24
    → is_lease_expired old now timeout ≡ true
is_lease_expired-rollover old now timeout turned short =
    is_lease_expired-eq old now timeout ∙ lt→ltb timeout _ (omega arith)
