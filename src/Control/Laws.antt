-- ===== src/Control/Laws.antt =====
-- The registry of clients, as a map, and the least time stamp in it.
use rdmas.Base.{
  ℕ, ◌≤◌, ◌≡◌, refl, sym, ap, subst, ◌∙◌, ◌≢◌, ◌⊎◌, inl, inr, List, [], ◌∷◌, ◌==◌, ==_ne, ==_refl,
  min, Option, none, some, if◌then◌else◌, arith, ℕ_discrete, dec_le,
}
use rdmas.Control.{
  ControlServer, heartbeat, deregister, remove, find, min_ts, or_zero, min_active_ts,
}

find-remove_self : (cs : List (ℕ × (ℕ × ℕ))) (id : ℕ) → find (remove cs id) id ≡ none
unfolding find remove
find-remove_self [] id = refl
find-remove_self ((k, v) ∷ cs) id = elim (ℕ_discrete k id) [
  | yes e ↦ rw (e, ==_refl id) (find-remove_self cs id)
  | no ne ↦ rw (==_ne k id ne, ==_ne k id ne) (find-remove_self cs id)
]

find-remove_ne :
    (cs : List (ℕ × (ℕ × ℕ))) (id other : ℕ)
    → other ≢ id
    → find (remove cs id) other ≡ find cs other
unfolding find remove
find-remove_ne [] id other apart = refl
find-remove_ne ((k, v) ∷ cs) id other apart = elim (ℕ_discrete k id) [
  | yes e ↦
      rw (e, ==_refl id, ==_ne id other (λ p. apart (sym p))) (find-remove_ne cs id other apart)
  | no ne ↦ rw (==_ne k id ne) (
      ap (λ (o : Option (ℕ × ℕ)). if k == other then some v else o)
        (find-remove_ne cs id other apart))
]

-- A heartbeat registers its client with its time stamp and the time, in place of what was there, and leaves the others;
-- a deregistration after it removes that client and leaves the others.
find-heartbeat :
    (s : ControlServer) (id ts now other : ℕ)
    → other ≢ id
    → (find (heartbeat s id ts now).0.clients id ≡ some (ts, now))
      × (find (heartbeat s id ts now).0.clients other ≡ find s.clients other)
      × (find (deregister (heartbeat s id ts now).0 id).clients id ≡ none)
      × (find (deregister (heartbeat s id ts now).0 id).clients other ≡ find s.clients other)
unfolding heartbeat deregister find
find-heartbeat s id ts now other apart = (
  rw (==_refl id) refl,
  rw (==_ne id other (λ p. apart (sym p))) (find-remove_ne s.clients id other apart),
  find-remove_self (heartbeat s id ts now).0.clients id,
  find-remove_ne (heartbeat s id ts now).0.clients id other apart
      ∙ rw (==_ne id other (λ p. apart (sym p))) (find-remove_ne s.clients id other apart),
)

-- A time stamp that some client has.
abbrev pub IsActive : ℕ → List (ℕ × (ℕ × ℕ)) → Type 0
IsActive ts [] = ⊥
IsActive ts ((k, (t, seen)) ∷ cs) = (t ≡ ts) ⊎ IsActive ts cs

abbrev IsLeast : List (ℕ × (ℕ × ℕ)) → Option ℕ → Type 0
IsLeast cs none = cs ≡ []
IsLeast cs (some n) = IsActive n cs × ((ts : ℕ) → IsActive ts cs → n ≤ ts)

module _ (k t seen n : ℕ) (cs : List (ℕ × (ℕ × ℕ))) (active : IsActive n cs)
    (below : (ts : ℕ) → IsActive ts cs → n ≤ ts) where
  min-IsLeast : IsLeast ((k, (t, seen)) ∷ cs) (some (min t n))
  min-IsLeast = elim (dec_le t n) [
    | yes le ↦ (
      inl (omega (arith, le)),
      λ ts h. elim h [ inl e ↦ omega (arith, e) | inr l ↦ omega (arith, le, below ts l) ],
    )
    | no gt ↦
        let same_min : n ≡ min t n = omega (arith, gt) in
        (
          inr (subst (λ x. IsActive x cs) same_min active),
          λ ts h. elim h [ inl e ↦ omega (arith, e) | inr l ↦ omega (arith, below ts l) ],
        )
  ]

min_ts-IsLeast : (cs : List (ℕ × (ℕ × ℕ))) → IsLeast cs (min_ts cs)
unfolding min_ts
min_ts-IsLeast [] = refl
min_ts-IsLeast ((k, (t, seen)) ∷ cs) = go (min_ts cs) (min_ts-IsLeast cs)
  where
    go :
        (o : Option ℕ)
        → IsLeast cs o
        → IsLeast ((k, (t, seen)) ∷ cs) (elim o [ none ↦ some t | some n ↦ some (min t n) ])
    go none empty = (
      inl refl,
      λ ts h. elim h [ inl e ↦ omega (arith, e) | inr l ↦ absurd (subst (IsActive ts) empty l) ],
    )
    go (some n) (active, below) = min-IsLeast k t seen n cs active below

-- The least active time stamp is 0 if there is no client; otherwise some client has it, and none has an earlier one.
min_active_ts-IsActive :
    (cs : List (ℕ × (ℕ × ℕ)))
    → ((cs ≡ []) × (min_active_ts cs ≡ 0))
      ⊎ (IsActive (min_active_ts cs) cs × ((ts : ℕ) → IsActive ts cs → min_active_ts cs ≤ ts))
unfolding min_active_ts or_zero
min_active_ts-IsActive cs = go (min_ts cs) (min_ts-IsLeast cs)
  where
    go :
        (o : Option ℕ)
        → IsLeast cs o
        → ((cs ≡ []) × (or_zero o ≡ 0))
          ⊎ (IsActive (or_zero o) cs × ((ts : ℕ) → IsActive ts cs → or_zero o ≤ ts))
    go none empty = inl (empty, refl)
    go (some n) (active, below) = inr (active, below)
