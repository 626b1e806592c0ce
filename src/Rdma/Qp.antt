-- ===== src/Rdma/Qp.antt =====
-- src/rdma/qp.rs: work requests, and what a queue pair posts. Creating and destroying a queue pair are left out;
-- the attributes that are constants are part of `QpAttr`.
pub mod Laws
use rdmas.Base.{
  ℕ, zero, suc, ◌-◌, ◌^◌, bit_and, bit_or, Bool, true, false, List, [], ◌∷◌, ◌==◌, length, map,
  get_or, set, Option, none, some, if◌then◌else◌,
}
use rdmas.Base.Result.{Result, done, err}
use rdmas.Client.Retry.{RdmaError, hardware_error, internal}
use rdmas.Rdma.Verbs.{
  Verbs, Sge, WrOpcode, wr_rdma_write, wr_rdma_read, wr_atomic_cmp_and_swp, wr_send, WrArgs, zeroed,
  rdma, atomic, SendWr, RecvWr, QpAttr, init_attr, rtr_attr, rts_attr,
}

pub data SendWrOpcode : Type 0 where
  rdma_read rdma_write rdma_compare_swap send : SendWrOpcode

pub record ScatterGatherEntry : Type 0 where
  pub addr : ℕ
  pub length : ℕ
  pub lkey : ℕ

pub record SendWorkRequest : Type 0 where
  pub wr_id : ℕ
  pub opcode : SendWrOpcode
  pub send_flags : ℕ
  pub sge : List ScatterGatherEntry
  pub remote_addr : Option ℕ
  pub remote_rkey : Option ℕ
  pub compare_add : Option ℕ
  pub swap : Option ℕ

pub record RecvWorkRequest : Type 0 where
  pub wr_id : ℕ
  pub sge : List ScatterGatherEntry

unfoldable pub map_send_opcode : SendWrOpcode → WrOpcode
map_send_opcode rdma_write = wr_rdma_write
map_send_opcode rdma_read = wr_rdma_read
map_send_opcode rdma_compare_swap = wr_atomic_cmp_and_swp
map_send_opcode send = wr_send

-- `unwrap_or(0)`
unfoldable pub unwrap_or_zero : Option ℕ → ℕ
unwrap_or_zero none = 0
unwrap_or_zero (some n) = n

unfoldable pub sge_of : ScatterGatherEntry → Sge
sge_of e = record { addr = e.addr; length = e.length; lkey = e.lkey }

-- The fields that depend on the operation.
unfoldable pub args_of : SendWrOpcode → SendWorkRequest → WrArgs
unfolding unwrap_or_zero
args_of rdma_read wr = rdma (unwrap_or_zero wr.remote_addr) (unwrap_or_zero wr.remote_rkey)
args_of rdma_write wr = rdma (unwrap_or_zero wr.remote_addr) (unwrap_or_zero wr.remote_rkey)
args_of rdma_compare_swap wr =
    atomic (unwrap_or_zero wr.remote_addr) (unwrap_or_zero wr.compare_add) (unwrap_or_zero wr.swap)
      (unwrap_or_zero wr.remote_rkey)
args_of send wr = zeroed

-- The request that is posted, not linked to another.
unfoldable pub raw : ℕ → SendWorkRequest → SendWr
unfolding sge_of map_send_opcode args_of
raw send_flags wr = record {
  wr_id = wr.wr_id;
  next = none;
  sg_list = map sge_of wr.sge;
  num_sge = length wr.sge;
  opcode = map_send_opcode wr.opcode;
  send_flags = send_flags;
  args = args_of wr.opcode wr;
}

-- The loop that builds the requests of a batch of `n`, from entry `i` on.
unfoldable pub build : ℕ → ℕ → ℕ → List SendWorkRequest → List SendWr
unfolding raw
build signaled n i [] = []
build signaled n i (wr ∷ wrs) =
    let flags =
      if i == n - 1
      then bit_or wr.send_flags signaled
      else bit_and wr.send_flags (2 ^ 32 - 1 - signaled) in
    raw flags wr ∷ build signaled n (suc i) wrs

-- `send_wrs[i].next = &mut send_wrs[i + 1]`, for `rounds` entries from `i` on; `first` is never read.
unfoldable pub link : SendWr → ℕ → ℕ → List SendWr → List SendWr
link first zero i wrs = wrs
link first (suc rounds) i wrs =
    link first rounds (suc i) (set wrs i (record (get_or wrs i first) { next = some (suc i) }))

unfoldable pub last_id : SendWorkRequest → List SendWorkRequest → ℕ
last_id wr [] = wr.wr_id
last_id wr (wr' ∷ wrs) = last_id wr' wrs

-- `if ret != 0 { return Err(..) } Ok(a)`
unfoldable pub checked : {W A : Type 0} → W × ℕ → A → W × Result RdmaError A
checked (w, ret) a = if ret == 0 then (w, done a) else (w, err (hardware_error []))

module _ {W : Type 0} (v : Verbs W) where
  unfoldable pub init : ℕ → ℕ → W → W × Result RdmaError (Unit {0})
  unfolding checked
  init port_num access_flags w = checked (v.modify_qp (init_attr port_num access_flags) w) tt

  unfoldable pub ready_to_receive : ℕ → ℕ → Option ℕ → ℕ → ℕ → W → W × Result RdmaError (Unit {0})
  unfolding checked
  ready_to_receive remote_qpn remote_lid remote_gid port_num rq_psn w =
      checked (v.modify_qp (rtr_attr remote_qpn rq_psn remote_lid port_num remote_gid) w) tt

  unfoldable pub ready_to_send : ℕ → W → W × Result RdmaError (Unit {0})
  unfolding checked
  ready_to_send sq_psn w = checked (v.modify_qp (rts_attr sq_psn) w) tt

  unfoldable pub post_send : SendWorkRequest → W → W × Result RdmaError ℕ
  unfolding raw checked
  post_send wr w =
      checked (v.post_send_wr (raw (bit_or wr.send_flags v.send_signaled) wr ∷ []) w) wr.wr_id

  -- The chain that a batch posts.
  unfoldable pub chain_of : SendWorkRequest → List SendWorkRequest → List SendWr
  unfolding raw build link
  chain_of wr wrs =
      let send_wrs = build v.send_signaled (length (wr ∷ wrs)) 0 (wr ∷ wrs) in
      link (raw 0 wr) (length send_wrs - 1) 0 send_wrs

  unfoldable pub post_send_batch : List SendWorkRequest → W → W × Result RdmaError ℕ
  unfolding chain_of last_id checked
  post_send_batch [] w = (w, err (internal []))
  post_send_batch (wr ∷ wrs) w = checked (v.post_send_wr (chain_of wr wrs) w) (last_id wr wrs)

  unfoldable pub post_recv : RecvWorkRequest → W → W × Result RdmaError ℕ
  unfolding sge_of checked
  post_recv wr w =
      checked
        (v.post_recv_wr
          (record { wr_id = wr.wr_id; sg_list = map sge_of wr.sge; num_sge = length wr.sge }) w)
        wr.wr_id
