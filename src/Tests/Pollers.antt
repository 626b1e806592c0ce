-- ===== src/Tests/Pollers.antt =====
-- Calls of a runtime and its poller at fixed inputs: a device that takes every request and completes the first.
use rdmas.Base.{true, false, ◌≢◌, ℕ, ◌+◌, ◌≡◌, ◌<◌, refl, [], ◌∷◌, arith}
use rdmas.Base.Result.{done}
use rdmas.Rdma.Verbs.{Verbs, rts, wc_success, WorkCompletion, timed_out, ready, EventChannel}
use rdmas.Rdma.Qp.{SendWorkRequest}
use rdmas.Rdma.Cq.{poll, get_event, ack_events}
use rdmas.Runtime.Poller.{sent, outcome, async_round, async_poller}
use rdmas.Runtime.Ops.{read_request, awaited, finish_cas}
use rdmas.Runtime.System
use rdmas.Runtime.System.{
  System, posted, take_id, enter, post, harvest, Step, number, insert, send, Reach, here, next,
}
use rdmas.Runtime.System.Laws.{Waits}
use rdmas.Runtime.System.Events.{event-wakes, IsChannel, async_poller-Alert}
use rdmas.Runtime.System.Timeouts.{timeout-wakes}
use rdmas.Runtime.System.Wakes.{posted-Waits, harvest-wakes, finish_cas-delivered}

abbrev completion : WorkCompletion
completion = record { wr_id = 1; status = wc_success; byte_len = 64 }

abbrev verbs : Verbs ℕ
verbs = record {
  send_signaled = 2;
  modify_qp = λ attr w. (w, 0);
  query_qp = λ w. (w, 0, rts);
  post_send_wr = λ wrs w. (w + 1, 0);
  post_recv_wr = λ wr w. (w + 1, 0);
  poll_cq_wr = λ n w. (w, done (completion ∷ []));
}

abbrev request : ℕ → ℕ → SendWorkRequest
request call wr_id = read_request 4096 64 7 128 9 wr_id

abbrev waiting : System ℕ
waiting = post verbs request 0 1 (enter verbs request 0 1 (take_id verbs request 0 (System.new 0)))

reached : Reach verbs request (System.new 0) waiting
unfolding System.new take_id enter
reached =
    next
      (next (next here (number (System.new 0) 0 refl (omega arith)))
        (insert (take_id verbs request 0 (System.new 0)) 0 1 refl))
      (send (enter verbs request 0 1 (take_id verbs request 0 (System.new 0))) 0 1 refl)

at_post : waiting.stage 0 ≡ posted 1
unfolding System.new take_id enter post rdmas.Rdma.Qp.post_send
at_post = refl

nothing : waiting.shared.delivered 0 ≡ []
unfolding System.new take_id enter post
nothing = refl

posted-Waits_example : Waits waiting.shared 0 1
posted-Waits_example = posted-Waits verbs request 0 waiting reached 0 1 at_post

polled : (poll verbs 16 waiting.world).1 ≡ done (completion ∷ [])
unfolding poll
polled = refl

harvest-wakes_example :
    (harvest verbs request waiting).shared.delivered 0 ≡ sent (outcome completion) ∷ []
harvest-wakes_example =
    harvest-wakes verbs request 0 waiting reached 0 1 at_post (completion ∷ []) completion nothing
      polled refl

reached_answered : Reach verbs request (System.new 0) (harvest verbs request waiting)
reached_answered = next reached (System.poll waiting)

still_posted : (harvest verbs request waiting).stage 0 ≡ posted 1
unfolding System.new take_id enter post rdmas.Rdma.Qp.post_send harvest
still_posted = refl

finish_cas-delivered_example : finish_cas (awaited (sent (outcome completion))) ≢ done false
finish_cas-delivered_example =
    finish_cas-delivered verbs request 0 (harvest verbs request waiting) reached_answered 0 1
      still_posted (sent (outcome completion)) [] harvest-wakes_example

abbrev silent : EventChannel ℕ
silent = record {
  epoll_wait = λ w. (w, timed_out);
  get_cq_event = λ w. (w, 0);
  ack_cq_events = λ n w. w;
  req_notify_cq = λ solicited w. (w, 0);
}

timeout-wakes_example :
    (async_round verbs silent true (false ∷ true ∷ []) (waiting.world, waiting.shared)).1.delivered
      0
    ≡ sent (outcome completion) ∷ []
timeout-wakes_example =
    timeout-wakes verbs request 0 0 1 silent (true ∷ []) waiting reached at_post nothing refl
      (completion ∷ []) completion polled refl

-- A channel with an event at each wait. In a world that is not zero, an event is queued or the next completion raises one.
abbrev ringing : EventChannel ℕ
ringing = record {
  epoll_wait = λ w. (w, ready);
  get_cq_event = λ w. (0, 0);
  ack_cq_events = λ n w. w;
  req_notify_cq = λ solicited w. (1, 0);
}

taken : (get_event ringing waiting.world).1 ≡ done tt
unfolding get_event
taken = refl

polled_acked :
    (poll verbs 16 (ack_events ringing 1 (get_event ringing waiting.world).0)).1
    ≡ done (completion ∷ [])
unfolding poll
polled_acked = refl

event-wakes_example :
    (async_round verbs ringing false [] (waiting.world, waiting.shared)).1.delivered 0
    ≡ sent (outcome completion) ∷ []
event-wakes_example =
    event-wakes verbs request 0 0 1 ringing false [] waiting reached at_post nothing refl taken
      (completion ∷ []) completion polled_acked refl

ringing-IsChannel : IsChannel verbs ringing (λ w. 0 < w)
ringing-IsChannel = record {
  arms = λ w. (refl, omega arith);
  waits = λ w alert. alert;
  misses = λ w missed alert. absurd (missed refl);
  polls = λ w alert. alert;
}

async_poller-Alert_example :
    0
    < (async_poller verbs ringing true
        ((false, []) ∷ (false, true ∷ []) ∷ [])
        (waiting.world, waiting.shared)).0
async_poller-Alert_example =
    async_poller-Alert verbs ringing (λ w. 0 < w) ringing-IsChannel true
      ((false, []) ∷ (false, true ∷ []) ∷ []) (waiting.world, waiting.shared)
