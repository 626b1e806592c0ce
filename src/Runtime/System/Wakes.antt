-- ===== src/Runtime/System/Wakes.antt =====
-- What a waiting call gets: its own completion, once, and when.
use rdmas.Base.{
  ℕ, ◌≡◌, refl, sym, ap, subst, ◌∙◌, ◌≢◌, ◌⊎◌, inl, inr, true, false, List, [], ◌∷◌, ◌==◌, ==_ne,
  ==_iff, Option, none, some, Option-cases, arith, ℕ_discrete, if◌then◌else◌,
}
use rdmas.Base.Result.{done}
use rdmas.Rdma.Verbs.{Verbs, WorkCompletion}
use rdmas.Rdma.Cq.{poll}
use rdmas.Rdma.Qp.{SendWorkRequest}
use rdmas.Runtime.Poller.{
  Delivery, sent, dropped, Shared, deliver, outcome, dispatch, dispatch_all, harvest_completions,
}
use rdmas.Runtime.Ops.{drop_sender, register, awaited, finish_cas, batch_id}
use rdmas.Runtime.System
use rdmas.Runtime.System.{Stage, posted, System, harvest, Reach}
use rdmas.Runtime.System.Laws.{put_self, put_ne, listed_id, Waits, CallIsSound, IsSound}
use rdmas.Runtime.System.Dispatch.{dispatch-IsSound}
use rdmas.Runtime.System.Invariant.{StateIsSound, new-IsSound, Reach-IsSound}

-- The first completion with an id.
abbrev pub first_with : ℕ → List WorkCompletion → Option WorkCompletion
first_with w [] = none
first_with w (wc ∷ wcs) = let later = first_with w wcs in if wc.wr_id == w then some wc else later

some_eq : {a b : WorkCompletion} → some a ≡ some b → a ≡ b
some_eq p = cc p

module _ (n : ℕ) (stage : ℕ → Stage) (k w : ℕ) (mine : listed_id (stage k) ≡ some w) where
  -- A completion of another id, or one after the sender is gone, leaves the call and its entry.
  dispatch-keeps :
      (sh : Shared) (wc : WorkCompletion)
      → IsSound n sh stage
      → (wc.wr_id ≢ w) ⊎ (sh.pending w ≡ none)
      → ((dispatch wc sh).pending w ≡ sh.pending w)
        × ((dispatch wc sh).delivered k ≡ sh.delivered k)
  unfolding dispatch deliver
  dispatch-keeps sh wc sound other = elim (Option-cases (sh.pending wc.wr_id)) [
    | inl empty ↦ (rw (dispatch, empty) refl, rw (dispatch, empty) refl)
    | inr (j, listed) ↦
        let of_j : listed_id (stage j) ≡ some wc.wr_id = sound.owned wc.wr_id j listed in
        let ne : wc.wr_id ≢ w = elim other [ inl ne ↦ ne | inr gone ↦ λ p. cc (p, gone, listed) ] in
        let apart : k ≢ j =
          λ p. ne (same_id (sym of_j ∙ ap (λ (x : ℕ). listed_id (stage x)) (sym p) ∙ mine)) in
        (
          rw (dispatch, listed) (put_ne sh.pending wc.wr_id none w (λ p. ne (sym p))),
          rw (dispatch, listed)
              (put_ne sh.delivered j (sent (outcome wc) ∷ sh.delivered j) k apart),
        )
  ]
    where
      same_id : {a b : ℕ} → some a ≡ some b → a ≡ b
      same_id p = cc p

  pub dispatch_all-gone :
      (wcs : List WorkCompletion) (sh : Shared)
      → IsSound n sh stage
      → sh.pending w ≡ none
      → (dispatch_all wcs sh).delivered k ≡ sh.delivered k
  unfolding dispatch_all
  dispatch_all-gone [] sh sound gone = refl
  dispatch_all-gone (wc ∷ wcs) sh sound gone =
      let kept = dispatch-keeps sh wc sound (inr gone) in
      dispatch_all-gone wcs (dispatch wc sh) (dispatch-IsSound n sh stage sound wc) (kept.0 ∙ gone)
      ∙ kept.1

  dispatch-wakes :
      (sh : Shared) (wc : WorkCompletion)
      → sh.pending wc.wr_id ≡ some k
      → sh.delivered k ≡ []
      → ((dispatch wc sh).pending wc.wr_id ≡ none)
        × ((dispatch wc sh).delivered k ≡ sent (outcome wc) ∷ [])
  unfolding dispatch deliver
  dispatch-wakes sh wc listed nothing = (
    rw (dispatch, listed) (put_self sh.pending wc.wr_id none),
    rw (dispatch, listed)
        (put_self sh.delivered k (sent (outcome wc) ∷ sh.delivered k)
          ∙ ap (λ ds. sent (outcome wc) ∷ ds) nothing),
  )

  dispatch_all-wakes :
      (wcs : List WorkCompletion) (sh : Shared) (wc : WorkCompletion)
      → IsSound n sh stage
      → sh.pending w ≡ some k
      → sh.delivered k ≡ []
      → first_with w wcs ≡ some wc
      → (dispatch_all wcs sh).delivered k ≡ sent (outcome wc) ∷ []
  unfolding dispatch_all
  dispatch_all-wakes [] sh wc sound listed nothing first = cc first
  dispatch_all-wakes (wc' ∷ wcs) sh wc sound listed nothing first = elim (ℕ_discrete wc'.wr_id w) [
    | yes p ↦
        let hit : (wc'.wr_id == w) ≡ true = (==_iff wc'.wr_id w).1 p in
        let same : wc' ≡ wc = some_eq (rw hit at first) in
        let now =
          dispatch-wakes sh wc' (subst (λ (x : ℕ). sh.pending x ≡ some k) (sym p) listed) nothing in
        dispatch_all-gone wcs (dispatch wc' sh) (dispatch-IsSound n sh stage sound wc')
          (subst (λ (x : ℕ). (dispatch wc' sh).pending x ≡ none) p now.0)
        ∙ now.1
        ∙ ap (λ c. sent (outcome c) ∷ []) same
    | no ne ↦
        let kept = dispatch-keeps sh wc' sound (inl ne) in
        dispatch_all-wakes wcs (dispatch wc' sh) wc (dispatch-IsSound n sh stage sound wc')
          (kept.0 ∙ listed) (kept.1 ∙ nothing) (rw (==_ne wc'.wr_id w ne) at first)
  ]

head_eq : {a b : Delivery} {ds es : List Delivery} → a ∷ ds ≡ b ∷ es → a ≡ b
head_eq p = cc p

finish_cas-outcome : (wc : WorkCompletion) → finish_cas (awaited (sent (outcome wc))) ≢ done false
unfolding finish_cas awaited outcome
finish_cas-outcome wc lost = ground arith

still_listed : (sh : Shared) (k w : ℕ) → sh.delivered k ≡ [] → Waits sh k w → sh.pending w ≡ some k
still_listed sh k w nothing (inl (here, d)) = here
still_listed sh k w nothing (inr (gone, c, own, d)) = cc (d, nothing)

module _ {W : Type 0} (v : Verbs W) (request : ℕ → ℕ → SendWorkRequest) (w0 : W) (s : System W)
    (r : Reach v request (System.new w0) s) (k w : ℕ) (at_post : s.stage k ≡ posted w) where
  sound : StateIsSound s
  sound = Reach-IsSound v request (new-IsSound v request w0) r

  -- In every state that a new runtime reaches, a call that has posted its request under an id either still waits, with its
  -- sender in the map under that id and nothing delivered, or has been delivered exactly one result, that of a completion
  -- with that id, and its sender has left the map.
  pub posted-Waits : Waits s.shared k w
  posted-Waits = (subst (CallIsSound s.next_wr_id s.shared k) at_post (sound.calls k)).1

  -- In every state that a new runtime reaches, if a call has posted its request under an id and has been delivered nothing
  -- yet, and a poll returns completions of which the first with that id is `wc`, then the poller's harvest delivers the
  -- outcome of `wc` to the call, and nothing else.
  pub harvest-wakes :
      (wcs : List WorkCompletion) (wc : WorkCompletion)
      → s.shared.delivered k ≡ []
      → (poll v 16 s.world).1 ≡ done wcs
      → first_with w wcs ≡ some wc
      → (harvest v request s).shared.delivered k ≡ sent (outcome wc) ∷ []
  unfolding harvest harvest_completions
  harvest-wakes wcs wc nothing polled first =
      rw (harvest, harvest_completions, polled)
        (dispatch_all-wakes s.next_wr_id s.stage k w (ap listed_id at_post) wcs s.shared wc sound
          (still_listed s.shared k w nothing posted-Waits) nothing first)

  -- In every state that a new runtime reaches, whatever has been delivered last to a call that has posted its request, the
  -- end of `rdma_cas` never makes `Ok(false)` of it: it reports a swap or an error.
  pub finish_cas-delivered :
      (d : Delivery) (ds : List Delivery)
      → s.shared.delivered k ≡ d ∷ ds
      → finish_cas (awaited d) ≢ done false
  finish_cas-delivered d ds got lost = go posted-Waits
    where
      go : Waits s.shared k w → ⊥
      go (inl (here, none_yet)) = cc (none_yet, got)
      go (inr (gone, c, own, one)) =
          let same : d ≡ sent (outcome c) = head_eq (sym got ∙ one) in
          finish_cas-outcome c
            (subst (λ (x : Delivery). finish_cas (awaited x) ≡ done false) same lost)

  -- A batch whose last request has the id of a call that waits takes the entry in the map from it: the call is delivered the
  -- loss of its sender, and a completion with that id goes to the batch.
  batch-drops :
      (wrs : List SendWorkRequest) (batch : ℕ)
      → batch_id wrs ≡ w
      → batch ≢ k
      → s.shared.delivered k ≡ []
      → ((register (batch_id wrs) batch s.shared).delivered k ≡ dropped ∷ [])
        × ((register (batch_id wrs) batch s.shared).pending w ≡ some batch)
  unfolding register drop_sender deliver
  batch-drops wrs batch same other nothing =
      let listed : s.shared.pending w ≡ some k = still_listed s.shared k w nothing posted-Waits in
      (
        rw (same, register, listed)
            (put_self s.shared.delivered k (dropped ∷ s.shared.delivered k)
              ∙ ap (λ ds. dropped ∷ ds) nothing),
        rw same (put_self s.shared.pending w (some batch)),
      )
