-- ===== src/Rdma/Verbs.antt =====
-- The calls of libibverbs that src/rdma makes, as an argument of the model. A call changes the state of the world; a return
-- code of 0 is a success. A chain of work requests is an array whose links are indices; its head is entry 0.
use rdmas.Base.{ℕ, Bool, List, Option}
use rdmas.Base.Result.{Result}

-- The states of a queue pair that the source names; `other` are the rest.
pub data QpState : Type 0 where
  init rtr rts failed unknown : QpState
  other : ℕ → QpState

-- `ibv_sge`
pub record Sge : Type 0 where
  pub addr : ℕ
  pub length : ℕ
  pub lkey : ℕ

-- `ibv_wr_opcode`, the ones in use.
pub data WrOpcode : Type 0 where
  wr_rdma_write wr_rdma_read wr_atomic_cmp_and_swp wr_send : WrOpcode

-- The union `wr` of `ibv_send_wr`.
pub data WrArgs : Type 0 where
  zeroed : WrArgs
  rdma : (remote_addr rkey : ℕ) → WrArgs
  atomic : (remote_addr compare_add swap rkey : ℕ) → WrArgs

-- `ibv_send_wr`
pub record SendWr : Type 0 where
  pub wr_id : ℕ
  pub next : Option ℕ
  pub sg_list : List Sge
  pub num_sge : ℕ
  pub opcode : WrOpcode
  pub send_flags : ℕ
  pub args : WrArgs

-- `ibv_recv_wr`
pub record RecvWr : Type 0 where
  pub wr_id : ℕ
  pub sg_list : List Sge
  pub num_sge : ℕ

-- `ibv_qp_attr`, as far as a transition sets it.
pub data QpAttr : Type 0 where
  init_attr : (port_num qp_access_flags : ℕ) → QpAttr
  rtr_attr : (dest_qp_num rq_psn dlid port_num : ℕ) (dgid : Option ℕ) → QpAttr
  rts_attr : (sq_psn : ℕ) → QpAttr

-- `ibv_wc_status`: `IBV_WC_SUCCESS`, and the others.
pub data WcStatus : Type 0 where
  wc_success : WcStatus
  wc_error : ℕ → WcStatus

-- `ibv_wc`, less the fields that nothing reads.
pub record WorkCompletion : Type 0 where
  pub wr_id : ℕ
  pub status : WcStatus
  pub byte_len : ℕ

pub record Verbs (W : Type 0) : Type 0 where
  pub send_signaled : ℕ
  pub modify_qp : QpAttr → W → W × ℕ
  pub query_qp : W → W × ℕ × QpState
  pub post_send_wr : List SendWr → W → W × ℕ
  pub post_recv_wr : RecvWr → W → W × ℕ
  pub poll_cq_wr : ℕ → W → W × Result ℕ (List WorkCompletion)

-- How a thread waits for the completion channel.
pub data EpollResult : Type 0 where
  interrupted wait_error timed_out ready : EpollResult

-- The calls on a completion channel, and `epoll` on it.
pub record EventChannel (W : Type 0) : Type 0 where
  pub epoll_wait : W → W × EpollResult
  pub get_cq_event : W → W × ℕ
  pub ack_cq_events : ℕ → W → W
  pub req_notify_cq : Bool → W → W × ℕ
