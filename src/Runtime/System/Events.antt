-- ===== src/Runtime/System/Events.antt =====
-- Rounds of the event-driven poller that start with an event, and the requests of notifications.
use rdmas.Base.{
  ℕ, subst, sym, ◌≡◌, refl, ◌∙◌, ◌≢◌, Bool, true, false, List, [], ◌∷◌, ◌==◌, ==_iff, some, inl,
  inr, Bool-cases,
}
use rdmas.Base.Result.{Result, done, err}
use rdmas.Client.Retry.{RdmaError}
use rdmas.Rdma.Verbs.{
  Verbs, EpollResult, interrupted, wait_error, timed_out, ready, EventChannel, WorkCompletion,
}
use rdmas.Rdma.Cq.{poll, polled, get_event, ack_events, request_notification}
use rdmas.Rdma.Qp.{SendWorkRequest}
use rdmas.Runtime.Poller.{
  sent, Shared, outcome, harvest_completions, busy_poll, async_round, async_loop, async_poller,
}
use rdmas.Runtime.System
use rdmas.Runtime.System.{posted, System, Reach, next, device}
use rdmas.Runtime.System.Wakes.{first_with, harvest-wakes}

module _ {W : Type 0} (v : Verbs W) (request : ℕ → ℕ → SendWorkRequest) (w0 : W) (k w : ℕ) where
  -- In every state that a new runtime reaches, a round of the event-driven thread whose wait ends with an event wakes a posted
  -- call that has nothing yet, whatever the fallback: if the event can be taken, and after it is acknowledged a poll returns
  -- completions of which the first with the call's id is `wc`, the call has the outcome of `wc`, and nothing else, at the end of
  -- the round.
  pub event-wakes :
      (channel : EventChannel W) (fallback : Bool) (deadlines : List Bool) (s : System W)
      → Reach v request (System.new w0) s
      → s.stage k ≡ posted w
      → s.shared.delivered k ≡ []
      → (channel.epoll_wait s.world).1 ≡ ready
      → (get_event channel (channel.epoll_wait s.world).0).1 ≡ done tt
      → (wcs : List WorkCompletion) (wc : WorkCompletion)
      → (poll v 16 (ack_events channel 1 (get_event channel (channel.epoll_wait s.world).0).0)).1
        ≡ done wcs
      → first_with w wcs ≡ some wc
      → (async_round v channel fallback deadlines (s.world, s.shared)).1.delivered k
        ≡ sent (outcome wc) ∷ []
  unfolding async_round System.harvest
  event-wakes channel fallback deadlines s r at_post nothing event taken wcs wc polled first =
      let acked : W = ack_events channel 1 (get_event channel (channel.epoll_wait s.world).0).0 in
      rw (async_round, event, taken)
        (harvest-wakes v request w0 (record s { world = acked }) (next r (device s acked)) k w
          at_post wcs wc nothing polled first)

-- What a completion channel promises, where `Alert w` says that an event is queued or that the next completion raises one: a request
-- of a notification is accepted and makes it so, and only taking an event ends it.
pub record IsChannel {W : Type 0} (v : Verbs W) (channel : EventChannel W) (Alert : W → Type 0)
    : Type 0 where
  pub arms :
      (w : W) → ((channel.req_notify_cq false w).1 ≡ 0) × Alert (channel.req_notify_cq false w).0
  pub waits : (w : W) → Alert w → Alert (channel.epoll_wait w).0
  pub misses : (w : W) → (channel.get_cq_event w).1 ≢ 0 → Alert w → Alert (channel.get_cq_event w).0
  pub polls : (w : W) → Alert w → Alert (v.poll_cq_wr 16 w).0

module _ {W : Type 0} (v : Verbs W) (channel : EventChannel W) (Alert : W → Type 0)
    (laws : IsChannel v channel Alert) (fallback : Bool) where
  polled-world : (r : W × Result ℕ (List WorkCompletion)) → (polled r).0 ≡ r.0
  unfolding polled
  polled-world (w, done wcs) = refl
  polled-world (w, err code) = refl

  harvest-world : (w : W) (s : Shared) → (harvest_completions v (w, s)).0.0 ≡ (v.poll_cq_wr 16 w).0
  unfolding harvest_completions poll
  harvest-world w s = go (poll v 16 w).1 refl ∙ polled-world (v.poll_cq_wr 16 w)
    where
      go :
          (g : Result RdmaError (List WorkCompletion))
          → (poll v 16 w).1 ≡ g
          → (harvest_completions v (w, s)).0.0 ≡ (poll v 16 w).0
      go (err e) p = rw (harvest_completions, p) refl
      go (done wcs) p = rw (harvest_completions, p) refl

  harvest-Alert : (s : W × Shared) → Alert s.0 → Alert (harvest_completions v s).0.0
  harvest-Alert (w, s) alert = subst Alert (sym (harvest-world w s)) (laws.polls w alert)

  busy_poll-Alert :
      (rounds : List Bool) (s : W × Shared) → Alert s.0 → Alert (busy_poll v rounds s).0
  unfolding busy_poll
  busy_poll-Alert [] s alert = alert
  busy_poll-Alert (true ∷ rounds) s alert = alert
  busy_poll-Alert (false ∷ rounds) s alert =
      busy_poll-Alert rounds (harvest_completions v s).0 (harvest-Alert s alert)

  request-Alert : (w : W) → Alert (request_notification channel false w).0
  unfolding request_notification
  request-Alert w = let (ok, alert) = laws.arms w in rw ok alert

  missed-Alert :
      (w : W) (e : RdmaError)
      → (get_event channel w).1 ≡ err e
      → Alert w
      → Alert (get_event channel w).0
  unfolding get_event
  missed-Alert w e p alert = elim (Bool-cases ((channel.get_cq_event w).1 == 0)) [
    | inl taken ↦ cc (rw taken at p)
    | inr missed ↦
        rw missed
          (laws.misses w (λ q. cc (missed, (==_iff (channel.get_cq_event w).1 0).1 q)) alert)
  ]

  async_round-Alert :
      (deadlines : List Bool) (s : W × Shared)
      → Alert s.0
      → Alert (async_round v channel fallback deadlines s).0
  unfolding async_round
  async_round-Alert deadlines (w, s) alert = go (channel.epoll_wait w).1 fallback refl refl
    where
      got :
          (g : Result RdmaError (Unit {0}))
          → (channel.epoll_wait w).1 ≡ ready
          → (get_event channel (channel.epoll_wait w).0).1 ≡ g
          → Alert (async_round v channel fallback deadlines (w, s)).0
      got (err e) p q =
          rw (async_round, p, q) (missed-Alert (channel.epoll_wait w).0 e q (laws.waits w alert))
      got (done ok) p q = rw (async_round, p, q) (request-Alert _)

      go :
          (e : EpollResult) (f : Bool)
          → (channel.epoll_wait w).1 ≡ e
          → fallback ≡ f
          → Alert (async_round v channel fallback deadlines (w, s)).0
      go interrupted f p q = rw (async_round, p) (laws.waits w alert)
      go wait_error f p q = rw (async_round, p) (laws.waits w alert)
      go timed_out true p q =
          rw (async_round, p, q)
            (busy_poll-Alert deadlines ((channel.epoll_wait w).0, s) (laws.waits w alert))
      go timed_out false p q = rw (async_round, p, q) (laws.waits w alert)
      go ready f p q = got (get_event channel (channel.epoll_wait w).0).1 p refl

  async_loop-Alert :
      (rounds : List (Bool × List Bool)) (s : W × Shared)
      → Alert s.0
      → Alert (async_loop v channel fallback rounds s).0
  unfolding async_loop
  async_loop-Alert [] s alert = alert
  async_loop-Alert ((true, deadlines) ∷ rounds) s alert = alert
  async_loop-Alert ((false, deadlines) ∷ rounds) s alert =
      async_loop-Alert rounds (async_round v channel fallback deadlines s)
        (async_round-Alert deadlines s alert)

  -- On a channel that accepts each request of a notification, after which an event is queued or the next completion
  -- raises one until an event is taken, the event-driven thread, with or without the fallback, is never left deaf: after
  -- its first request and any number of rounds, whatever they meet, an event is queued or the next completion raises one.
  -- This says nothing of the completions that are in the queue already.
  pub async_poller-Alert :
      (rounds : List (Bool × List Bool)) (s : W × Shared)
      → Alert (async_poller v channel fallback rounds s).0
  unfolding async_poller
  async_poller-Alert rounds (w, s) = go (request_notification channel false w).1 refl
    where
      go :
          (g : Result RdmaError (Unit {0}))
          → (request_notification channel false w).1 ≡ g
          → Alert (async_poller v channel fallback rounds (w, s)).0
      go (err e) p = rw (async_poller, p) (request-Alert w)
      go (done ok) p =
          rw (async_poller, p)
            (async_loop-Alert rounds ((request_notification channel false w).0, s)
              (request-Alert w))
