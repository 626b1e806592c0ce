-- ===== src/Transport/Rdma/Laws.antt =====
-- What the calls of the RDMA transport return.
use rdmas.Base.{ℕ, ◌+◌, ◌%◌, ◌^◌, ◌≡◌, ap, ◌∙◌, false, List, [], if◌then◌else◌}
use rdmas.Base.Result.{Result, done, err}
use rdmas.Client.Retry.{RdmaError, internal}
use rdmas.Rdma.Verbs.{Verbs, QpState, WorkCompletion}
use rdmas.Rdma.Cq.{poll}
use rdmas.Rdma.Qp
use rdmas.Rdma.Qp.{SendWorkRequest}
use rdmas.Rdma.Guard.{is_broken}
use rdmas.Rdma.Guard.Laws.{post_send-healthy}
use rdmas.Runtime.Ops.{read_request, cas_request}
use rdmas.Transport.Rdma.{
  RdmaTransport, first_succeeds, completed, poll_after, post_and_poll, finish, read, cas,
}

module _ {W : Type 0} (v : Verbs W) (t : RdmaTransport W) (w1 w2 : W) (state : QpState)
    (wcs : List WorkCompletion) (query : v.query_qp t.world ≡ (t.world, 0, state))
    (healthy : is_broken state ≡ false) (polled : poll v 1 w1 ≡ (w2, done wcs)) where
  abbrev pub after : RdmaTransport W
  after = record t { next_wr_id = (t.next_wr_id + 1) % 2 ^ 64; world = w2 }

  post_and_poll-posted :
      (request : ℕ → SendWorkRequest)
      → Qp.post_send v (request t.next_wr_id) t.world ≡ (w1, done t.next_wr_id)
      → post_and_poll v request t ≡ (after, done wcs)
  unfolding post_and_poll poll_after
  post_and_poll-posted request posted =
      let next_wr_id : ℕ = (t.next_wr_id + 1) % 2 ^ 64 in
      ap (poll_after v next_wr_id) (
        post_send-healthy v t.world state query (request t.next_wr_id) t.qp_guard healthy
        ∙ ap (λ r. ((t.qp_guard, r.0), r.1)) posted)
      ∙ ap
          (λ (r : W × Result RdmaError (List WorkCompletion)).
            (record t { next_wr_id = next_wr_id; world = r.0 }, r.1))
          polled

  -- On a healthy queue pair that takes the request, a read returns at once with what the queue holds then: it succeeds exactly if
  -- the first completion that is polled is a success, whichever request that one answers, and if there is none yet it fails, with
  -- the request on its way.
  read-first :
      (addr length lkey remote_addr rkey : ℕ)
      → Qp.post_send v (read_request addr length lkey remote_addr rkey t.next_wr_id) t.world
        ≡ (w1, done t.next_wr_id)
      → read v addr length lkey remote_addr rkey t ≡ (
        record t { next_wr_id = (t.next_wr_id + 1) % 2 ^ 64; world = w2 },
        if first_succeeds wcs then done tt else err (internal []),
      )
  unfolding read finish completed
  read-first addr length lkey remote_addr rkey posted =
      ap (finish v completed)
        (post_and_poll-posted (read_request addr length lkey remote_addr rkey) posted)

  -- On a queue pair that can be queried, is neither in error nor unknown and takes the request, and with a completion queue
  -- that can then be polled, a swap of the transport returns true exactly if the first completion that the one poll returns
  -- is a success, whichever request it answers, and false if there is none.
  pub cas-first :
      (compare swap lkey remote_addr rkey : ℕ)
      → Qp.post_send v (cas_request 0 compare swap lkey remote_addr rkey t.next_wr_id) t.world
        ≡ (w1, done t.next_wr_id)
      → cas v compare swap lkey remote_addr rkey t ≡ (
        record t { next_wr_id = (t.next_wr_id + 1) % 2 ^ 64; world = w2 },
        done (first_succeeds wcs),
      )
  unfolding cas finish
  cas-first compare swap lkey remote_addr rkey posted =
      ap (finish v (λ wcs'. done (first_succeeds wcs')))
        (post_and_poll-posted (cas_request 0 compare swap lkey remote_addr rkey) posted)
