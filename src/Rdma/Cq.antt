-- ===== src/Rdma/Cq.antt =====
-- src/rdma/cq.rs: polling a completion queue, its events and notifications. Creation is the verbs' only.
use rdmas.Base.{ℕ, Bool, true, false, List, [], ◌∷◌, ◌==◌, Option, none, some, if◌then◌else◌}
use rdmas.Base.Result.{Result, done, err}
use rdmas.Client.Retry.{RdmaError, hardware_error}
use rdmas.Rdma.Verbs.{Verbs, WcStatus, wc_success, wc_error, WorkCompletion, EventChannel}

unfoldable pub is_wc_success : WcStatus → Bool
is_wc_success wc_success = true
is_wc_success (wc_error code) = false

unfoldable pub is_success : WorkCompletion → Bool
unfolding is_wc_success
is_success wc = is_wc_success wc.status

unfoldable pub polled :
    {W : Type 0} → W × Result ℕ (List WorkCompletion) → W × Result RdmaError (List WorkCompletion)
polled (w, done wcs) = (w, done wcs)
polled (w, err code) = (w, err (hardware_error []))

module _ {W : Type 0} (v : Verbs W) where
  unfoldable pub poll : ℕ → W → W × Result RdmaError (List WorkCompletion)
  unfolding polled
  poll num_entries w =
      if num_entries == 0 then (w, done []) else polled (v.poll_cq_wr num_entries w)

-- `into_iter().next()`
unfoldable pub first_of : List WorkCompletion → Option WorkCompletion
first_of [] = none
first_of (wc ∷ wcs) = some wc

module _ {W : Type 0} (v : Verbs W) where
  unfoldable pub poll_single : W → W × Result RdmaError (Option WorkCompletion)
  unfolding poll first_of
  poll_single w =
      let (w', result) = poll v 1 w in
      elim result [ err e ↦ (w', err e) | done wcs ↦ (w', done (first_of wcs)) ]

module _ {W : Type 0} (channel : EventChannel W) where
  unfoldable pub request_notification : Bool → W → W × Result RdmaError (Unit {0})
  request_notification solicited_only w =
      let (w', ret) = channel.req_notify_cq solicited_only w in
      if ret == 0 then (w', done tt) else (w', err (hardware_error []))

  -- `CqEventChannel::get_event`, less the pointers that it returns.
  unfoldable pub get_event : W → W × Result RdmaError (Unit {0})
  get_event w =
      let (w', ret) = channel.get_cq_event w in
      if ret == 0 then (w', done tt) else (w', err (hardware_error []))

  unfoldable pub ack_events : ℕ → W → W
  ack_events count w = channel.ack_cq_events count w
