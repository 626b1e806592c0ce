-- ===== src/Runtime/System/Dispatch.antt =====
-- Delivering completions keeps the invariant.
use rdmas.Base.{
  ℕ, ◌≡◌, ap, subst, ◌∙◌, inl, inr, List, [], ◌∷◌, Option, none, some, Option-cases, arith,
  ℕ_discrete,
}
use rdmas.Rdma.Verbs.{WorkCompletion}
use rdmas.Runtime.Poller.{sent, Shared, put, deliver, outcome, dispatch, dispatch_all}
use rdmas.Runtime.System.{Stage, idle, rejected, numbered, registered, posted, refused}
use rdmas.Runtime.System.Laws.{
  put_self, put_ne, listed_id, Waits, CallIsSound, CallIsSound-keep, IsSound,
}
use rdmas.Runtime.System.Steps.{listed-id, other_id}

-- The state after the sender of call `k`, in the map under the id of a completion, is sent its outcome.
abbrev answered : WorkCompletion → ℕ → Shared → Shared
answered wc k sh =
    deliver (record sh { pending = put sh.pending wc.wr_id none }) k (sent (outcome wc))

module _ (n : ℕ) (sh : Shared) (wc : WorkCompletion) (k : ℕ)
    (listed : sh.pending wc.wr_id ≡ some k) where
  gone : (answered wc k sh).pending wc.wr_id ≡ none
  unfolding deliver
  gone = put_self sh.pending wc.wr_id none

  got : sh.delivered k ≡ [] → (answered wc k sh).delivered k ≡ sent (outcome wc) ∷ []
  unfolding deliver
  got d =
      put_self sh.delivered k (sent (outcome wc) ∷ sh.delivered k)
      ∙ ap (λ ds. sent (outcome wc) ∷ ds) d

  Waits-answered : (w : ℕ) → wc.wr_id ≡ w → Waits sh k w → Waits (answered wc k sh) k w
  Waits-answered w own (inl (p, d)) =
      inr (subst (λ (x : ℕ). (answered wc k sh).pending x ≡ none) own gone, wc, own, got d)
  Waits-answered w own (inr (p, other, own', d)) =
      let here : sh.pending w ≡ some k = subst (λ (x : ℕ). sh.pending x ≡ some k) own listed in
      cc (p, here)

  CallIsSound-answered :
      (st : Stage)
      → listed_id st ≡ some wc.wr_id
      → CallIsSound n sh k st
      → CallIsSound n (answered wc k sh) k st
  CallIsSound-answered idle e c = cc
  CallIsSound-answered rejected e c = cc
  CallIsSound-answered (numbered w) e c = cc
  CallIsSound-answered (registered w) e c = (c.0, Waits-answered w (cc e) c.1)
  CallIsSound-answered (posted w) e c = (c.0, Waits-answered w (cc e) c.1)
  CallIsSound-answered (refused w) e c = (c.0, Waits-answered w (cc e) c.1)

module _ (n : ℕ) (sh : Shared) (stage : ℕ → Stage) (sound : IsSound n sh stage) where
  answered-IsSound :
      (wc : WorkCompletion) (k : ℕ)
      → sh.pending wc.wr_id ≡ some k
      → IsSound n (answered wc k sh) stage
  unfolding deliver
  answered-IsSound wc k listed =
      let mine : listed_id (stage k) ≡ some wc.wr_id = sound.owned wc.wr_id k listed in
      record {
        calls = λ j. elim (ℕ_discrete j k) [
          | yes p ↦ rw p (CallIsSound-answered n sh wc k listed (stage k) mine (sound.calls k))
          | no ne ↦
              CallIsSound-keep n n sh (answered wc k sh) j (stage j) (omega arith)
                (λ w' ej. put_ne sh.pending wc.wr_id none w' (
                  other_id n sh stage sound k wc.wr_id j w' (listed-id (stage k) wc.wr_id mine) ne
                    ej))
                (put_ne sh.delivered k (sent (outcome wc) ∷ sh.delivered k) j ne) (sound.calls j)
        ];
        unique = sound.unique;
        owned = λ w' j there. elim (ℕ_discrete w' wc.wr_id) [
          | yes p ↦
              let none_there : none ≡ some j =
                subst (λ (o : Option ℕ). o ≡ some j) (put_self sh.pending wc.wr_id none)
                  (subst (λ (x : ℕ). put sh.pending wc.wr_id none x ≡ some j) p there) in
              cc none_there
          | no ne ↦ sound.owned w' j (rw (put_ne sh.pending wc.wr_id none w' ne) at there)
        ];
      }

  pub dispatch-IsSound : (wc : WorkCompletion) → IsSound n (dispatch wc sh) stage
  unfolding dispatch
  dispatch-IsSound wc = elim (Option-cases (sh.pending wc.wr_id)) [
    | inl empty ↦ rw (dispatch, empty) sound
    | inr (k, listed) ↦ rw (dispatch, listed) (answered-IsSound wc k listed)
  ]

pub dispatch_all-IsSound :
    (n : ℕ) (wcs : List WorkCompletion) (sh : Shared) (stage : ℕ → Stage)
    → IsSound n sh stage
    → IsSound n (dispatch_all wcs sh) stage
unfolding dispatch_all
dispatch_all-IsSound n [] sh stage sound = sound
dispatch_all-IsSound n (wc ∷ wcs) sh stage sound =
    dispatch_all-IsSound n wcs (dispatch wc sh) stage (dispatch-IsSound n sh stage sound wc)
