-- ===== src/Runtime/System/Timeouts.antt =====
-- Rounds of the event-driven poller whose wait times out.
use rdmas.Base.{ℕ, ◌≡◌, refl, ap, ◌∙◌, Bool, true, false, List, [], ◌∷◌, none, some, inl, inr}
use rdmas.Base.Result.{Result, done, err}
use rdmas.Client.Retry.{RdmaError}
use rdmas.Rdma.Verbs.{Verbs, timed_out, EventChannel, WorkCompletion}
use rdmas.Rdma.Cq.{poll}
use rdmas.Rdma.Qp.{SendWorkRequest}
use rdmas.Runtime.Poller.{Delivery, sent, outcome, harvest_completions, busy_poll, async_round}
use rdmas.Runtime.System
use rdmas.Runtime.System.{posted, System, harvest, Reach, next, device}
use rdmas.Runtime.System.Laws.{listed_id, Waits}
use rdmas.Runtime.System.Invariant.{StateIsSound, new-IsSound, Reach-IsSound}
use rdmas.Runtime.System.Wakes.{first_with, dispatch_all-gone, posted-Waits, harvest-wakes}

module _ {W : Type 0} (v : Verbs W) (request : ℕ → ℕ → SendWorkRequest) (w0 : W) (k w : ℕ) where
  -- A call that has its result keeps it through a harvest.
  harvest-keeps :
      (s : System W) (d : Delivery) (ds : List Delivery)
      → Reach v request (System.new w0) s
      → s.stage k ≡ posted w
      → s.shared.delivered k ≡ d ∷ ds
      → (harvest v request s).shared.delivered k ≡ s.shared.delivered k
  unfolding harvest harvest_completions
  harvest-keeps s d ds r at_post got = go (poll v 16 s.world).1 refl
    where
      sound : StateIsSound s
      sound = Reach-IsSound v request (new-IsSound v request w0) r

      left : Waits s.shared k w → s.shared.pending w ≡ none
      left (inl (here, none_yet)) = cc (none_yet, got)
      left (inr (gone, c, own, one)) = gone

      go :
          (g : Result RdmaError (List WorkCompletion))
          → (poll v 16 s.world).1 ≡ g
          → (harvest v request s).shared.delivered k ≡ s.shared.delivered k
      go (err e) p = rw (harvest, harvest_completions, p) refl
      go (done wcs) p =
          rw (harvest, harvest_completions, p)
            (dispatch_all-gone s.next_wr_id s.stage k w (ap listed_id at_post) wcs s.shared sound
              (left (posted-Waits v request w0 s r k w at_post)))

  busy_poll-keeps :
      (rounds : List Bool) (s : System W) (d : Delivery)
      → Reach v request (System.new w0) s
      → s.stage k ≡ posted w
      → s.shared.delivered k ≡ d ∷ []
      → (busy_poll v rounds (s.world, s.shared)).1.delivered k ≡ d ∷ []
  unfolding busy_poll harvest
  busy_poll-keeps [] s d r at_post got = got
  busy_poll-keeps (true ∷ rounds) s d r at_post got = got
  busy_poll-keeps (false ∷ rounds) s d r at_post got =
      busy_poll-keeps rounds (harvest v request s) d (next r (System.poll s)) at_post
        (harvest-keeps s d [] r at_post got ∙ got)

  -- In every state that a new runtime reaches, a round of the event-driven thread whose wait times out, with the fallback
  -- on, wakes a posted call that has nothing yet: if the first busy poll comes before the deadline and returns completions
  -- of which the first with the call's id is `wc`, the call has the outcome of `wc`, and nothing else, at the end of the
  -- round.
  pub timeout-wakes :
      (channel : EventChannel W) (rounds : List Bool) (s : System W)
      → Reach v request (System.new w0) s
      → s.stage k ≡ posted w
      → s.shared.delivered k ≡ []
      → (channel.epoll_wait s.world).1 ≡ timed_out
      → (wcs : List WorkCompletion) (wc : WorkCompletion)
      → (poll v 16 (channel.epoll_wait s.world).0).1 ≡ done wcs
      → first_with w wcs ≡ some wc
      → (async_round v channel true (false ∷ rounds) (s.world, s.shared)).1.delivered k
        ≡ sent (outcome wc) ∷ []
  unfolding async_round busy_poll harvest
  timeout-wakes channel rounds s r at_post nothing late wcs wc polled first =
      let awake : System W = record s { world = (channel.epoll_wait s.world).0 } in
      let r' = next r (device s (channel.epoll_wait s.world).0) in
      rw (async_round, late)
        (busy_poll-keeps rounds (harvest v request awake) (sent (outcome wc))
          (next r' (System.poll awake)) at_post
          (harvest-wakes v request w0 awake r' k w at_post wcs wc nothing polled first))
