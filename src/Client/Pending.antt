-- ===== src/Client/Pending.antt =====
-- src/client/retry.rs: `PendingTracker`, the map from the id of an operation to its start time. The
-- descriptions, which nothing reads, are left out.
use rdmas.Base.{
  ℕ, ◌+◌, ◌-◌, ◌≡◌, refl, inl, inr, List, [], ◌∷◌, ◌==◌, ltb, leb, length, arith, if◌then◌else◌,
  Bool-cases,
}

pub record PendingTracker : Type 0 where
  pub pending : List (ℕ × ℕ)
  pub timeout : ℕ

unfoldable pub remove_id : List (ℕ × ℕ) → ℕ → List (ℕ × ℕ)
remove_id [] future_id = []
remove_id ((id, start) ∷ rest) future_id =
    let others = remove_id rest future_id in
    if id == future_id then others else (id, start) ∷ others

unfoldable pub register : PendingTracker → ℕ → ℕ → PendingTracker
unfolding remove_id
register t future_id now = record t { pending = (future_id, now) ∷ remove_id t.pending future_id }

unfoldable pub complete : PendingTracker → ℕ → PendingTracker
unfolding remove_id
complete t future_id = record t { pending = remove_id t.pending future_id }

-- `now.duration_since(start) > timeout`; an elapsed time stops at 0.
unfoldable pub late : ℕ → ℕ → List (ℕ × ℕ) → List (ℕ × ℕ)
late now limit [] = []
late now limit ((id, start) ∷ rest) =
    let others = late now limit rest in
    if ltb limit (now - start) then (id, now - start) ∷ others else others

unfoldable pub in_time : ℕ → ℕ → List (ℕ × ℕ) → List (ℕ × ℕ)
in_time now limit [] = []
in_time now limit ((id, start) ∷ rest) =
    let others = in_time now limit rest in
    if leb (now - start) limit then (id, start) ∷ others else others

unfoldable pub scan_timeouts : PendingTracker → ℕ → List (ℕ × ℕ)
unfolding late
scan_timeouts t now = late now t.timeout t.pending

unfoldable pub collect_timeouts : PendingTracker → ℕ → PendingTracker × ℕ
unfolding in_time
collect_timeouts t now =
    let kept = in_time now t.timeout t.pending in
    (record t { pending = kept }, length t.pending - length kept)

late-in_time : (now limit : ℕ) (xs : List (ℕ × ℕ)) → late now limit (in_time now limit xs) ≡ []
unfolding late in_time
late-in_time now limit [] = refl
late-in_time now limit ((id, start) ∷ rest) = elim (Bool-cases (leb (now - start) limit)) [
  | inl fresh ↦ rw fresh (ground (arith, late-in_time now limit rest))
  | inr old ↦ rw old (late-in_time now limit rest)
]

late_count :
    (now limit : ℕ) (xs : List (ℕ × ℕ))
    → length (in_time now limit xs) + length (late now limit xs) ≡ length xs
unfolding late in_time
late_count now limit [] = omega arith
late_count now limit ((id, start) ∷ rest) = let ih = late_count now limit rest in ground (arith, ih)

-- `collect_timeouts` removes as many operations as `scan_timeouts` reports at that time, and leaves
-- none that is late.
pub collect_timeouts-scan_timeouts :
    (t : PendingTracker) (now : ℕ)
    → ((collect_timeouts t now).1 ≡ length (scan_timeouts t now))
      × (scan_timeouts (collect_timeouts t now).0 now ≡ [])
unfolding collect_timeouts scan_timeouts
collect_timeouts-scan_timeouts t now =
    (omega (arith, late_count now t.timeout t.pending), late-in_time now t.timeout t.pending)
