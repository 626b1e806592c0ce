-- ===== src/Transport/Rdma.antt =====
-- src/transport/rdma.rs: reads, writes and swaps that post a request and poll the completion queue once. The transfer of bytes is
-- the device's. What connects the transport is given: the number of the queue pair, the port's LID and the GID.
pub mod Laws
pub mod Swaps
use rdmas.Base.{
  ℕ, ◌+◌, ◌%◌, ◌^◌, Bool, true, false, not, ◌&&◌, List, [], ◌∷◌, Option, none, some, if◌then◌else◌,
}
use rdmas.Base.Result.{Result, done, err}
use rdmas.Client.Retry.{RdmaError, internal}
use rdmas.Rdma.Verbs.{Verbs, WorkCompletion}
use rdmas.Rdma.Cq.{is_success, poll}
use rdmas.Rdma.Qp
use rdmas.Rdma.Qp.{SendWorkRequest}
use rdmas.Rdma.Guard
use rdmas.Rdma.Guard.{QpGuard}
use rdmas.Runtime.Ops.{read_request, write_request, cas_request}

pub record RdmaTransport (W : Type 0) : Type 0 where
  pub qp_guard : QpGuard
  pub next_wr_id : ℕ
  pub world : W

-- `!wcs.is_empty() && wcs[0].is_success()`
unfoldable pub first_succeeds : List WorkCompletion → Bool
unfolding is_success
first_succeeds [] = false
first_succeeds (wc ∷ wcs) = is_success wc

-- What `read` and `write` make of the completions.
unfoldable pub completed : List WorkCompletion → Result RdmaError (Unit {0})
unfolding first_succeeds
completed wcs = if first_succeeds wcs then done tt else err (internal [])

module _ {W : Type 0} (v : Verbs W) where
  -- The three transitions of `init_qp`, the queue pair being its own peer.
  unfoldable pub init_qp :
      (access_flags qp_num : ℕ)
      → Result RdmaError ℕ
      → Option ℕ
      → W
      → W × Result RdmaError (Unit {0})
  unfolding Qp.init Qp.ready_to_receive Qp.ready_to_send
  init_qp access_flags qp_num port_lid gid w =
      let (w1, inited) = Qp.init v 1 access_flags w in
      elim inited [
        | err e ↦ (w1, err e)
        | done ok ↦ elim port_lid [
          | err e ↦ (w1, err e)
          | done lid ↦
              let (w2, receiving) = Qp.ready_to_receive v qp_num lid gid 1 0 w1 in
              elim receiving [ err e ↦ (w2, err e) | done ok' ↦ Qp.ready_to_send v 0 w2 ]
        ]
      ]

  -- `post_send(..)?` has returned; `poll(1)?` follows.
  unfoldable pub poll_after :
      ℕ
      → (QpGuard × W) × Result RdmaError ℕ
      → RdmaTransport W × Result RdmaError (List WorkCompletion)
  unfolding poll
  poll_after next_wr_id (s, err e) =
      (record { qp_guard = s.0; next_wr_id = next_wr_id; world = s.1 }, err e)
  poll_after next_wr_id (s, done id) =
      let (w', result) = poll v 1 s.1 in
      (record { qp_guard = s.0; next_wr_id = next_wr_id; world = w' }, result)

  -- `fetch_add` first; `request` is given the id.
  unfoldable pub post_and_poll :
      (ℕ → SendWorkRequest)
      → RdmaTransport W
      → RdmaTransport W × Result RdmaError (List WorkCompletion)
  unfolding Guard.post_send poll_after
  post_and_poll request t =
      poll_after ((t.next_wr_id + 1) % 2 ^ 64)
        (Guard.post_send v (request t.next_wr_id) (t.qp_guard, t.world))

  unfoldable pub finish :
      {A : Type 0}
      → (List WorkCompletion → Result RdmaError A)
      → RdmaTransport W × Result RdmaError (List WorkCompletion)
      → RdmaTransport W × Result RdmaError A
  finish answer (t, err e) = (t, err e)
  finish answer (t, done wcs) = (t, answer wcs)

  -- The address and the length are those of the buffer.
  unfoldable pub read :
      (addr length lkey remote_addr rkey : ℕ)
      → RdmaTransport W
      → RdmaTransport W × Result RdmaError (Unit {0})
  unfolding post_and_poll finish completed read_request
  read addr length lkey remote_addr rkey t =
      finish completed (post_and_poll (read_request addr length lkey remote_addr rkey) t)

  unfoldable pub write :
      (addr length lkey remote_addr rkey : ℕ)
      → RdmaTransport W
      → RdmaTransport W × Result RdmaError (Unit {0})
  unfolding post_and_poll finish completed write_request
  write addr length lkey remote_addr rkey t =
      finish completed (post_and_poll (write_request addr length lkey remote_addr rkey) t)

  -- The address of the local word is null.
  unfoldable pub cas :
      (compare swap lkey remote_addr rkey : ℕ)
      → RdmaTransport W
      → RdmaTransport W × Result RdmaError Bool
  unfolding post_and_poll finish first_succeeds cas_request
  cas compare swap lkey remote_addr rkey t =
      finish (λ wcs. done (first_succeeds wcs))
        (post_and_poll (cas_request 0 compare swap lkey remote_addr rkey) t)
