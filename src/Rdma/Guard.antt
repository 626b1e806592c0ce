-- ===== src/Rdma/Guard.antt =====
-- src/rdma/qp_recovery.rs: posting only on a healthy queue pair. A mutex is never poisoned. The counter is of 64 bits.
pub mod Laws
use rdmas.Base.{
  ℕ, ◌+◌, ◌%◌, ◌^◌, Bool, true, false, List, [], ◌==◌, Option, none, some, if◌then◌else◌,
}
use rdmas.Base.Result.{Result, done, err}
use rdmas.Client.Retry.{RdmaError, hardware_error}
use rdmas.Rdma.Verbs.{Verbs, QpState, init, rtr, rts, failed, unknown, other}
use rdmas.Rdma.Qp
use rdmas.Rdma.Qp.{SendWorkRequest, RecvWorkRequest}

pub record QpGuard : Type 0 where
  pub recovery_count : ℕ
  pub last_error : Option RdmaError

unfoldable pub new : QpGuard
new = record { recovery_count = 0; last_error = none }

-- `IBV_QPS_ERR | IBV_QPS_UNKNOWN`
unfoldable pub is_broken : QpState → Bool
is_broken init = false
is_broken rtr = false
is_broken rts = false
is_broken failed = true
is_broken unknown = true
is_broken (other n) = false

module _ {W : Type 0} (v : Verbs W) where
  unfoldable pub check_health : QpGuard × W → (QpGuard × W) × Result RdmaError (Unit {0})
  unfolding is_broken
  check_health (g, w) =
      let (w', ret, state) = v.query_qp w in
      let e = hardware_error [] in
      if ret == 0
      then if is_broken state
        then (
          (record { recovery_count = (g.recovery_count + 1) % 2 ^ 64; last_error = some e }, w'),
          err e,
        )
        else ((g, w'), done tt)
      else ((record g { last_error = some e }, w'), err e)

  -- `self.check_health()?;` and a call of the queue pair.
  unfoldable pub after_health :
      {A : Type 0}
      → (W → W × Result RdmaError A)
      → (QpGuard × W) × Result RdmaError (Unit {0})
      → (QpGuard × W) × Result RdmaError A
  after_health call (s, err e) = (s, err e)
  after_health call (s, done ok) = let (w, result) = call s.1 in ((s.0, w), result)

  unfoldable pub guarded :
      {A : Type 0} → (W → W × Result RdmaError A) → QpGuard × W → (QpGuard × W) × Result RdmaError A
  unfolding check_health after_health
  guarded call s = after_health call (check_health s)

  unfoldable pub post_send : SendWorkRequest → QpGuard × W → (QpGuard × W) × Result RdmaError ℕ
  unfolding guarded
  post_send wr = guarded (Qp.post_send v wr)

  unfoldable pub post_send_batch :
      List SendWorkRequest → QpGuard × W → (QpGuard × W) × Result RdmaError ℕ
  unfolding guarded
  post_send_batch wrs = guarded (Qp.post_send_batch v wrs)

  unfoldable pub post_recv : RecvWorkRequest → QpGuard × W → (QpGuard × W) × Result RdmaError ℕ
  unfolding guarded
  post_recv wr = guarded (Qp.post_recv v wr)

  unfoldable pub query_state : W → W × Result RdmaError QpState
  query_state w =
      let (w', ret, state) = v.query_qp w in
      if ret == 0 then (w', done state) else (w', err (hardware_error []))
