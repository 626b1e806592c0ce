-- ===== src/Runtime/Poller.antt =====
-- src/runtime/poller.rs: what a poller does with the completions that it polls. A sender of a channel is a number;
-- everything that reaches its channel is kept, the latest first. The map of waiting senders is a function. A lock is held for
-- one step and is never poisoned; threads, logging and the CPU affinity are left out.
use rdmas.Base.{ℕ, Bool, true, false, List, [], ◌∷◌, ◌==◌, Option, none, some, if◌then◌else◌}
use rdmas.Base.Result.{Result, done, err}
use rdmas.Client.Retry.{RdmaError, hardware_error}
use rdmas.Rdma.Verbs.{
  Verbs, interrupted, wait_error, timed_out, ready, EventChannel, WorkCompletion,
}
use rdmas.Rdma.Cq.{is_success, poll, get_event, ack_events, request_notification}

-- What a receiver sees: a result, or that its sender was dropped.
pub data Delivery : Type 0 where
  sent : Result RdmaError WorkCompletion → Delivery
  dropped : Delivery

-- `f` with `a` at `k`.
unfoldable pub put : {A : Type 0} → (ℕ → A) → ℕ → A → ℕ → A
put f k a j = if j == k then a else f j

-- `PendingMap`, and what has reached each channel.
pub record Shared : Type 0 where
  pub pending : ℕ → Option ℕ
  pub delivered : ℕ → List Delivery

unfoldable pub deliver : Shared → ℕ → Delivery → Shared
unfolding put
deliver s sender d = record s { delivered = put s.delivered sender (d ∷ s.delivered sender) }

unfoldable pub outcome : WorkCompletion → Result RdmaError WorkCompletion
unfolding is_success
outcome wc = if is_success wc then done wc else err (hardware_error [])

-- `if let Some(sender) = map.remove(&wc.wr_id) { .. sender.send(result) }`
unfoldable pub dispatch : WorkCompletion → Shared → Shared
unfolding deliver outcome
dispatch wc s = elim (s.pending wc.wr_id) [
  | none ↦ s
  | some sender ↦
      deliver (record s { pending = put s.pending wc.wr_id none }) sender (sent (outcome wc))
]

unfoldable pub dispatch_all : List WorkCompletion → Shared → Shared
unfolding dispatch
dispatch_all [] s = s
dispatch_all (wc ∷ wcs) s = dispatch_all wcs (dispatch wc s)

unfoldable pub is_some_completion : List WorkCompletion → Bool
is_some_completion [] = false
is_some_completion (wc ∷ wcs) = true

module _ {W : Type 0} (v : Verbs W) where
  unfoldable pub harvest_completions : W × Shared → (W × Shared) × Bool
  unfolding poll dispatch_all is_some_completion
  harvest_completions (w, s) =
      let (w', result) = poll v 16 w in
      elim result [
        | err e ↦ ((w', s), false)
        | done wcs ↦ ((w', dispatch_all wcs s), is_some_completion wcs)
      ]

  -- The loop of `Poller::spawn`, which harvests in the same words; a reading of the shutdown flag for each round.
  unfoldable pub poller_loop : List Bool → W × Shared → W × Shared
  unfolding harvest_completions
  poller_loop [] s = s
  poller_loop (shutdown ∷ flags) s =
      let rest = poller_loop flags (harvest_completions s).0 in if shutdown then s else rest

  -- The busy rounds after a timeout; for each one, whether the deadline has passed.
  unfoldable pub busy_poll : List Bool → W × Shared → W × Shared
  unfolding harvest_completions
  busy_poll [] s = s
  busy_poll (late ∷ rounds) s =
      let rest = busy_poll rounds (harvest_completions s).0 in if late then s else rest

  -- A round of `AsyncPoller`, with its configuration and the clock of its busy rounds.
  unfoldable pub async_round : EventChannel W → Bool → List Bool → W × Shared → W × Shared
  unfolding harvest_completions busy_poll get_event ack_events request_notification
  async_round channel busy_poll_fallback deadlines (w, s) =
      let (w1, event) = channel.epoll_wait w in
      elim event [
        | interrupted ↦ (w1, s)
        | wait_error ↦ (w1, s)
        | timed_out ↦ if busy_poll_fallback then busy_poll deadlines (w1, s) else (w1, s)
        | ready ↦
            let (w2, got) = get_event channel w1 in
            elim got [
              | err e ↦ (w2, s)
              | done ok ↦
                  let (w3, s') = (harvest_completions (ack_events channel 1 w2, s)).0 in
                  ((request_notification channel false w3).0, s')
            ]
      ]

  -- Its loop, with a reading of the shutdown flag and the clock of the busy rounds for each round.
  unfoldable pub async_loop :
      EventChannel W → Bool → List (Bool × List Bool) → W × Shared → W × Shared
  unfolding async_round
  async_loop channel busy_poll_fallback [] s = s
  async_loop channel busy_poll_fallback ((shutdown, deadlines) ∷ rounds) s =
      let rest =
        async_loop channel busy_poll_fallback rounds
          (async_round channel busy_poll_fallback deadlines s) in
      if shutdown then s else rest

  -- The thread of `AsyncPoller`, from its first request of a notification on.
  unfoldable pub async_poller :
      EventChannel W → Bool → List (Bool × List Bool) → W × Shared → W × Shared
  unfolding async_loop request_notification
  async_poller channel busy_poll_fallback rounds (w, s) =
      let (w', armed) = request_notification channel false w in
      elim armed [
        | err e ↦ (w', s)
        | done ok ↦ async_loop channel busy_poll_fallback rounds (w', s)
      ]
