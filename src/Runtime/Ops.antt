-- ===== src/Runtime/Ops.antt =====
-- src/runtime/ops.rs: the calls that post a request and wait for its completion, in their parts: what each one posts, the
-- entry in the map of waiting senders, and what it makes of what its channel delivers.
use rdmas.Base.{ℕ, ◌%◌, ◌^◌, Bool, List, [], ◌∷◌, Option, none, some, if◌then◌else◌}
use rdmas.Base.Result.{Result, done, err}
use rdmas.Client.Retry.{RdmaError, internal, hardware_error}
use rdmas.Rdma.Verbs.{WorkCompletion}
use rdmas.Rdma.Cq.{is_success}
use rdmas.Rdma.Qp.{SendWorkRequest, rdma_read, rdma_write, rdma_compare_swap}
use rdmas.Runtime.Poller.{Delivery, sent, dropped, Shared, put, deliver}

-- The requests; the address of the buffer is an argument.
unfoldable pub read_request :
    (addr length mr_lkey remote_addr remote_rkey wr_id : ℕ) → SendWorkRequest
read_request addr length mr_lkey remote_addr remote_rkey wr_id = record {
  wr_id = wr_id;
  opcode = rdma_read;
  send_flags = 0;
  sge = record { addr = addr; length = length % 2 ^ 32; lkey = mr_lkey } ∷ [];
  remote_addr = some remote_addr;
  remote_rkey = some remote_rkey;
  compare_add = none;
  swap = none;
}

unfoldable pub write_request :
    (addr length mr_lkey remote_addr remote_rkey wr_id : ℕ) → SendWorkRequest
unfolding read_request
write_request addr length mr_lkey remote_addr remote_rkey wr_id =
    record (read_request addr length mr_lkey remote_addr remote_rkey wr_id) { opcode = rdma_write }

unfoldable pub cas_request :
    (addr compare swap mr_lkey remote_addr remote_rkey wr_id : ℕ) → SendWorkRequest
cas_request addr compare swap mr_lkey remote_addr remote_rkey wr_id = record {
  wr_id = wr_id;
  opcode = rdma_compare_swap;
  send_flags = 0;
  sge = record { addr = addr; length = 8; lkey = mr_lkey } ∷ [];
  remote_addr = some remote_addr;
  remote_rkey = some remote_rkey;
  compare_add = some compare;
  swap = some swap;
}

-- A sender that is replaced or removed is dropped.
unfoldable pub drop_sender : Option ℕ → Shared → Shared
unfolding deliver
drop_sender none s = s
drop_sender (some sender) s = deliver s sender dropped

-- `map.insert(wr_id, tx)`
unfoldable pub register : ℕ → ℕ → Shared → Shared
unfolding drop_sender
register wr_id sender s = record (drop_sender (s.pending wr_id) s) {
  pending = put s.pending wr_id (some sender);
}

-- `map.remove(&wr_id)`
unfoldable pub unregister : ℕ → Shared → Shared
unfolding drop_sender
unregister wr_id s = record (drop_sender (s.pending wr_id) s) { pending = put s.pending wr_id none }

-- `rx.await.map_err(..)?`
unfoldable pub awaited : Delivery → Result RdmaError WorkCompletion
awaited (sent result) = result
awaited dropped = err (internal [])

unfoldable pub finish_read : Result RdmaError WorkCompletion → Result RdmaError ℕ
finish_read (err e) = err e
finish_read (done wc) = done wc.byte_len

unfoldable pub finish_write : Result RdmaError WorkCompletion → Result RdmaError (Unit {0})
finish_write (err e) = err e
finish_write (done wc) = done tt

unfoldable pub finish_cas : Result RdmaError WorkCompletion → Result RdmaError Bool
unfolding is_success
finish_cas (err e) = err e
finish_cas (done wc) = done (is_success wc)

unfoldable pub finish_batch : ℕ → Result RdmaError WorkCompletion → Result RdmaError ℕ
unfolding is_success
finish_batch last_id (err e) = err e
finish_batch last_id (done wc) = if is_success wc then done last_id else err (hardware_error [])

-- `wrs.last().map(|w| w.wr_id).unwrap_or(0)`
unfoldable pub batch_id : List SendWorkRequest → ℕ
batch_id [] = 0
batch_id (wr ∷ []) = wr.wr_id
batch_id (wr ∷ wr' ∷ wrs) = batch_id (wr' ∷ wrs)
