-- ===== src/Concurrency/Safety.antt =====
-- Mutual exclusion: every step keeps the system consistent.
use mathlib.Core.Logic.{ite}
use rdmas.Base.{
  ℕ, suc, ◌+◌, ◌^◌, ◌≤◌, ◌<◌, ◌≡◌, refl, sym, ap, ◌∙◌, ◌≢◌, false, arith, ℕ_discrete, subst,
}
use rdmas.Layout.LockWord.{BucketMode, is_locked, lease_ts, lease_timeout_ms}
use rdmas.Layout.LockWord.Fields.{Fields, fields}
use rdmas.Concurrency.Lock.{stamped, released}
use rdmas.Concurrency.Words.{fields-released}
use rdmas.Concurrency.Exclusion.{
  Phase, outside, seen, checked, ready, holding, System, move, Step, load, refuse, check, stamp,
  take, miss, release, tick, Reach, start, later, IsStale, Fits, IsConsistent, IsStale-of_is_held,
  stamped-lease,
}

Fits-now : (w c : ℕ) {p q : Phase} → Fits w c p → p ≡ q → Fits w c q
Fits-now w c h e = subst (Fits w c) e h

move-Fits :
    (w c i : ℕ) (f : ℕ → Phase) (p : Phase)
    → Fits w c p
    → ((j : ℕ) → j ≢ i → Fits w c (f j))
    → (j : ℕ) → Fits w c (move f i p j)
move-Fits w c i f p here there j = elim (ℕ_discrete j i) as (λ d. Fits w c (ite d p (f j))) [
  | yes e ↦ here
  | no ne ↦ there j ne
]

-- A client that does not hold the lock does not mind what the word is.
Fits-any_word : (w w' c : ℕ) (p : Phase) → ((a : ℕ) → p ≢ holding a) → Fits w c p → Fits w' c p
Fits-any_word w w' c outside free h = tt
Fits-any_word w w' c (seen lv) free h = h
Fits-any_word w w' c (checked lv) free h = h
Fits-any_word w w' c (ready lv at) free h = h
Fits-any_word w w' c (holding at) free h = absurd (free at refl)

Fits-tick :
    (w c : ℕ) (p : Phase)
    → ((a : ℕ) → p ≡ holding a → suc c ≤ a + lease_timeout_ms)
    → Fits w c p
    → Fits w (suc c) p
Fits-tick w c outside timely h = tt
Fits-tick w c (seen lv) timely h = omega arith
Fits-tick w c (checked lv) timely h = ground arith
Fits-tick w c (ready lv at) timely h = ground arith
Fits-tick w c (holding at) timely h = (h.0, h.1, timely at refl)

-- A client that moves to a phase other than `holding` leaves the others as they were.
alone-move :
    (f : ℕ → Phase) (i : ℕ) (p : Phase)
    → ((a : ℕ) → p ≢ holding a)
    → ((j k a b : ℕ) → f j ≡ holding a → f k ≡ holding b → j ≡ k)
    → (j k a b : ℕ) → move f i p j ≡ holding a
    → move f i p k ≡ holding b
    → j ≡ k
alone-move f i p free alone j k a b =
    elim (ℕ_discrete j i) as (λ d. ite d p (f j) ≡ holding a → move f i p k ≡ holding b → j ≡ k) [
      | yes e ↦ λ x y. absurd (free a x)
      | no ne ↦
          elim (ℕ_discrete k i) as (λ d. f j ≡ holding a → ite d p (f k) ≡ holding b → j ≡ k) [
            | yes e' ↦ λ x y. absurd (free b y)
            | no ne' ↦ λ x y. alone j k a b x y
          ]
    ]

module _ (s : System) (v : IsConsistent s) where
  -- A step of one client that leaves the word, to a phase other than `holding`.
  quiet_step :
      (i : ℕ) (p : Phase)
      → ((a : ℕ) → p ≢ holding a)
      → Fits s.word s.clock p
      → IsConsistent (record s { phase = move s.phase i p })
  quiet_step i p free here = record {
    in_turn = v.in_turn;
    lease_past = v.lease_past;
    fits = move-Fits s.word s.clock i s.phase p here (λ j ne. v.fits j);
    alone = alone-move s.phase i p free v.alone;
  }

  none_holds : (lv at : ℕ) → s.word ≡ lv → IsStale lv s.clock → (j : ℕ) → s.phase j ≢ holding at
  none_holds lv at same stale j e =
      let (locked, lease, timely) = Fits-now s.word s.clock (v.fits j) e in
      ground (arith, same, stale, ap is_locked same, ap lease_ts same, locked, lease, timely)

  take_step :
      (mode : BucketMode) (i lv at : ℕ)
      → s.phase i ≡ ready lv at
      → s.word ≡ lv
      → s.clock ≤ at + lease_timeout_ms
      → IsConsistent (record s { word = stamped lv at mode; phase = move s.phase i (holding at) })
  take_step mode i lv at e same timely =
      let (stale, past) = Fits-now s.word s.clock (v.fits i) e in
      let (locked, lease) = stamped-lease lv at mode (omega (arith, v.in_turn, past)) in
      record {
        in_turn = v.in_turn;
        lease_past = omega (arith, lease, past);
        fits =
            move-Fits (stamped lv at mode) s.clock i s.phase (holding at) (locked, lease, timely)
              (λ j ne.
                Fits-any_word s.word (stamped lv at mode) s.clock (s.phase j)
                  (λ a. none_holds lv a same stale j) (v.fits j));
        alone = only (λ j a. none_holds lv a same stale j);
      }
    where
      only :
          ((j a : ℕ) → s.phase j ≢ holding a)
          → (j k a b : ℕ) → move s.phase i (holding at) j ≡ holding a
          → move s.phase i (holding at) k ≡ holding b
          → j ≡ k
      only free j k a b =
          elim (ℕ_discrete j i)
            as (λ d.
              ite d (holding at) (s.phase j) ≡ holding a
              → move s.phase i (holding at) k ≡ holding b
              → j ≡ k) [
                | no ne ↦ λ x y. absurd (free j a x)
                | yes e' ↦
                    elim (ℕ_discrete k i)
                      as (λ d.
                        holding at ≡ holding a
                        → ite d (holding at) (s.phase k) ≡ holding b
                        → j ≡ k) [
                          | no ne ↦ λ x y. absurd (free k b y)
                          | yes e'' ↦ λ x y. e' ∙ sym e''
                        ]
              ]

  release_step :
      (mode : BucketMode) (i version at : ℕ)
      → s.phase i ≡ holding at
      → IsConsistent (record s { word = released mode version; phase = move s.phase i outside })
  unfolding fields
  release_step mode i version at e =
      let lease = ap (λ (f : Fields). f.lease_field) (fields-released mode version) in
      record {
        in_turn = v.in_turn;
        lease_past = omega (arith, lease);
        fits = move-Fits (released mode version) s.clock i s.phase outside tt (λ j ne.
            Fits-any_word s.word (released mode version) s.clock (s.phase j)
              (λ a x. ne (v.alone j i a at x e)) (v.fits j));
        alone = alone-move s.phase i outside (λ a x. cc) v.alone;
      }

pub Step-IsConsistent :
    (mode : BucketMode) {s t : System} → Step mode s t → IsConsistent s → IsConsistent t
Step-IsConsistent mode {s} (load i e) v = quiet_step s v i (seen s.word) (λ a x. cc) v.lease_past
Step-IsConsistent mode {s} (refuse i e h) v = quiet_step s v i outside (λ a x. cc) tt
Step-IsConsistent mode {s} (check i {lv} e h) v =
    quiet_step s v i (checked lv) (λ a x. cc)
      (IsStale-of_is_held lv s.clock (Fits-now s.word s.clock (v.fits i) e) v.in_turn h)
Step-IsConsistent mode {s} (stamp i {lv} e) v =
    quiet_step s v i (ready lv s.clock) (λ a x. cc)
      (Fits-now s.word s.clock (v.fits i) e, omega arith)
Step-IsConsistent mode {s} (take i {lv} {at} e same timely) v =
    take_step s v mode i lv at e same timely
Step-IsConsistent mode {s} (miss i e h) v = quiet_step s v i outside (λ a x. cc) tt
Step-IsConsistent mode {s} (release i version {at} e) v = release_step s v mode i version at e
Step-IsConsistent mode {s} (tick small timely) v = record {
  in_turn = small;
  lease_past = omega (arith, v.lease_past);
  fits = λ i. Fits-tick s.word s.clock (s.phase i) (timely i) (v.fits i);
  alone = v.alone;
}

Reach-IsConsistent :
    (mode : BucketMode) {s t : System} → IsConsistent s → Reach mode s t → IsConsistent t
Reach-IsConsistent mode v start = v
Reach-IsConsistent mode v (later r step) = Step-IsConsistent mode step (Reach-IsConsistent mode v r)

-- From a system in which all clients are outside and the word is free, with the clock in its first
-- turn, no two clients hold the lock at once, however their steps interleave. This rests on the
-- timing that the steps carry: the clock stays in its turn and within the lease of a holder, and an
-- exchange succeeds only within the lease that it stamps.
pub mutual_exclusion :
    (mode : BucketMode) (word clock : ℕ)
    → clock < 2 ^ 24
    → is_locked word ≡ false
    → lease_ts word ≤ clock
    → (t : System) → Reach mode (record { word = word; clock = clock; phase = λ _. outside }) t
    → (i j a b : ℕ) → t.phase i ≡ holding a
    → t.phase j ≡ holding b
    → i ≡ j
mutual_exclusion mode word clock small free past t r i j a b x y =
    (Reach-IsConsistent mode
        (record { in_turn = small; lease_past = past; fits = λ _. tt; alone = λ _ _ _ _ x y. cc })
        r).alone
      i j a b x y
