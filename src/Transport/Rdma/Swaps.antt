-- ===== src/Transport/Rdma/Swaps.antt =====
-- Swaps of the RDMA transport one after the other, and which completions they take for theirs.
use rdmas.Base.{
  ℕ, suc, ◌+◌, ◌%◌, ◌^◌, ◌≡◌, refl, ap, ◌∙◌, Bool, true, false, List, [], ◌∷◌, length, map, take,
  drop, drop-nil,
}
use rdmas.Base.{bit_or}
use rdmas.Base.Result.{Result, done}
use rdmas.Client.Retry.{RdmaError}
use rdmas.Rdma.Verbs.{Verbs, SendWr, QpState, WcStatus, wc_success, wc_error, WorkCompletion}
use rdmas.Rdma.Cq.{poll, polled, is_success, is_wc_success}
use rdmas.Rdma.Qp
use rdmas.Rdma.Qp.{SendWorkRequest, raw}
use rdmas.Rdma.Guard.{is_broken}
use rdmas.Runtime.Ops.{cas_request}
use rdmas.Transport.Rdma.{RdmaTransport, first_succeeds, cas}
use rdmas.Transport.Rdma.Laws.{cas-first}

-- A device on a healthy queue pair that takes every request and completes none while the calls run: `queue w` are the completions of
-- earlier requests, which a poll takes from its front.
pub record IsSlow {W : Type 0} (v : Verbs W) (queue : W → List WorkCompletion) : Type 0 where
  pub healthy :
      (w : W) → (state : QpState) × (v.query_qp w ≡ (w, 0, state)) × (is_broken state ≡ false)
  pub posts :
      (wrs : List SendWr) (w : W)
      → (w' : W) × (v.post_send_wr wrs w ≡ (w', 0)) × (queue w' ≡ queue w)
  pub polls :
      (w : W)
      → (w' : W) × (v.poll_cq_wr 1 w ≡ (w', done (take 1 (queue w))))
        × (queue w' ≡ drop 1 (queue w))

-- The arguments of a swap.
pub record Swap : Type 0 where
  pub compare : ℕ
  pub new : ℕ
  pub lkey : ℕ
  pub remote_addr : ℕ
  pub rkey : ℕ

abbrev pub swap_all :
    {W : Type 0}
    → Verbs W
    → List Swap
    → RdmaTransport W
    → RdmaTransport W × List (Result RdmaError Bool)
swap_all v [] t = (t, [])
swap_all v (s ∷ ss) t =
    let (t1, r) = cas v s.compare s.new s.lkey s.remote_addr s.rkey t in
    let (t2, rs) = swap_all v ss t1 in (t2, r ∷ rs)

abbrev pub is_ok : WcStatus → Bool
is_ok wc_success = true
is_ok (wc_error code) = false

-- One answer for each swap, from completions in the order of the queue.
abbrev pub answers : List Swap → List WorkCompletion → List Bool
answers [] q = []
answers (s ∷ ss) [] = false ∷ answers ss []
answers (s ∷ ss) (wc ∷ q) = is_ok wc.status ∷ answers ss q

-- The answer of the first swap.
abbrev front : List WorkCompletion → Bool
front [] = false
front (wc ∷ q) = is_ok wc.status

answers-front :
    (s : Swap) (ss : List Swap) (q : List WorkCompletion)
    → answers (s ∷ ss) q ≡ front q ∷ answers ss (drop 1 q)
answers-front s ss [] = refl
answers-front s ss (wc ∷ q) = refl

is_success-ok : (wc : WorkCompletion) → is_success wc ≡ is_ok wc.status
unfolding is_success is_wc_success
is_success-ok wc = go wc.status
  where
    go : (status : WcStatus) → is_wc_success status ≡ is_ok status
    go wc_success = refl
    go (wc_error code) = refl

first_succeeds-front : (q : List WorkCompletion) → first_succeeds (take 1 q) ≡ front q
unfolding first_succeeds
first_succeeds-front [] = refl
first_succeeds-front (wc ∷ q) = is_success-ok wc

drop-drop : (n : ℕ) (q : List WorkCompletion) → drop n (drop 1 q) ≡ drop (suc n) q
drop-drop n [] = drop-nil n
drop-drop n (wc ∷ q) = refl

module _ {W : Type 0} (v : Verbs W) (queue : W → List WorkCompletion) (slow : IsSlow v queue) where
  post_send-slow :
      (wr : SendWorkRequest) (w : W)
      → (w' : W) × (Qp.post_send v wr w ≡ (w', done wr.wr_id)) × (queue w' ≡ queue w)
  unfolding Qp.post_send Qp.checked
  post_send-slow wr w =
      let (w', posted, same) = slow.posts (raw (bit_or wr.send_flags v.send_signaled) wr ∷ []) w in
      (w', rw posted refl, same)

  poll-slow :
      (w : W)
      → (w' : W) × (poll v 1 w ≡ (w', done (take 1 (queue w)))) × (queue w' ≡ drop 1 (queue w))
  unfolding poll polled
  poll-slow w = let (w', got, less) = slow.polls w in (w', rw got refl, less)

  cas-front :
      (s : Swap) (t : RdmaTransport W)
      → (t' : RdmaTransport W) × (cas v s.compare s.new s.lkey s.remote_addr s.rkey t
          ≡ (t', done (front (queue t.world))))
        × (queue t'.world ≡ drop 1 (queue t.world))
  unfolding cas_request
  cas-front s t =
      let (state, query, well) = slow.healthy t.world in
      let (w1, posted, same) =
        post_send-slow (cas_request 0 s.compare s.new s.lkey s.remote_addr s.rkey t.next_wr_id)
          t.world in
      let (w2, got, less) = poll-slow w1 in
      let answer : first_succeeds (take 1 (queue w1)) ≡ front (queue t.world) =
        first_succeeds-front (queue w1) ∙ ap front same in
      (
        record t { next_wr_id = (t.next_wr_id + 1) % 2 ^ 64; world = w2 },
        cas-first v t w1 w2 state (take 1 (queue w1)) query well got s.compare s.new s.lkey
              s.remote_addr s.rkey posted
            ∙ ap
                (λ (b : Bool).
                  (record t { next_wr_id = (t.next_wr_id + 1) % 2 ^ 64; world = w2 }, done b))
                answer,
        less ∙ ap (drop 1) same,
      )

  -- A sequence of swaps on a healthy queue pair, over a device that takes every request, completes none of them while
  -- they run, and gives its completions in the order of a queue: the first swap gets the status of the first completion
  -- in the queue, of whichever earlier request, the second that of the second, and so on, and each one for which there is
  -- none left gets `false`. The words, addresses and keys of the swaps play no part, and as many completions are gone
  -- from the queue as there were swaps.
  pub swap_all-answers :
      (ss : List Swap) (t : RdmaTransport W)
      → ((swap_all v ss t).1 ≡ map done (answers ss (queue t.world)))
        × (queue (swap_all v ss t).0.world ≡ drop (length ss) (queue t.world))
  swap_all-answers [] t = (refl, refl)
  swap_all-answers (s ∷ ss) t =
      let (t1, e, less) = cas-front s t in
      let (rest, left) = swap_all-answers ss t1 in
      (
        rw (e, answers-front s ss (queue t.world))
            (ap (◌∷◌ (done (front (queue t.world))))
              (rest ∙ ap (λ q. map done (answers ss q)) less)),
        rw e (left ∙ ap (drop (length ss)) less ∙ drop-drop (length ss) (queue t.world)),
      )
