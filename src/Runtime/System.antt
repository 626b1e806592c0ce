-- ===== src/Runtime/System.antt =====
-- The calls of one runtime and its poller as a step relation, one step for each access to the counter, the map or the queue pair.
-- The calls are those of `rdma_read`, `rdma_write` and `rdma_cas`, which take their ids from `next_wr_id`; a call is a number, and its
-- sender has that number. The number of calls stays below 2^64.
pub mod Laws
pub mod Steps
pub mod Dispatch
pub mod Invariant
pub mod Wakes
pub mod Events
pub mod Timeouts
use rdmas.Base.{ℕ, ◌+◌, ◌%◌, ◌^◌, ◌<◌, ◌≡◌, List, [], Option, none, some}
use rdmas.Base.Result.{Result, done, err}
use rdmas.Client.Retry.{RdmaError}
use rdmas.Rdma.Verbs.{Verbs}
use rdmas.Rdma.Qp.{SendWorkRequest, post_send}
use rdmas.Runtime.Poller.{Shared, put, harvest_completions}
use rdmas.Runtime.Ops.{register, unregister}

-- Where a call of `post_and_wait` stands, with its id.
pub data Stage : Type 0 where
  idle rejected : Stage
  numbered registered posted refused : ℕ → Stage

pub record System (W : Type 0) : Type 0 where
  pub world : W
  pub next_wr_id : ℕ
  pub shared : Shared
  pub stage : ℕ → Stage

-- `RdmaRuntime::new`, with the map of a new poller.
unfoldable pub new : {W : Type 0} → W → System W
new world = record {
  world = world;
  next_wr_id = 1;
  shared = record { pending = λ wr_id. none; delivered = λ sender. [] };
  stage = λ call. idle;
}

unfoldable pub after_post : {A : Type 0} → ℕ → Result RdmaError A → Stage
after_post wr_id (done posted_wr_id) = posted wr_id
after_post wr_id (err e) = refused wr_id

module _ {W : Type 0} (v : Verbs W) (request : ℕ → ℕ → SendWorkRequest) where
  -- The successors of a state; `request call wr_id` is what a call posts.
  unfoldable pub take_id : ℕ → System W → System W
  unfolding put
  take_id call s = record s {
    next_wr_id = (s.next_wr_id + 1) % 2 ^ 64;
    stage = put s.stage call (numbered s.next_wr_id);
  }

  unfoldable pub enter : ℕ → ℕ → System W → System W
  unfolding put register
  enter call wr_id s = record s {
    shared = register wr_id call s.shared;
    stage = put s.stage call (registered wr_id);
  }

  unfoldable pub post : ℕ → ℕ → System W → System W
  unfolding put after_post
  post call wr_id s =
      let (w, result) = post_send v (request call wr_id) s.world in
      record s { world = w; stage = put s.stage call (after_post wr_id result) }

  unfoldable pub leave : ℕ → ℕ → System W → System W
  unfolding put unregister
  leave call wr_id s = record s {
    shared = unregister wr_id s.shared;
    stage = put s.stage call rejected;
  }

  unfoldable pub harvest : System W → System W
  harvest s =
      let (w, shared) = (harvest_completions v (s.world, s.shared)).0 in
      record s { world = w; shared = shared }

  -- A step of a call, of the poller, or of the device and the other users of the queue pair.
  pub data Step : System W → System W → Type 0 where
    number :
        (s : System W) (call : ℕ)
        → s.stage call ≡ idle
        → s.next_wr_id + 1 < 2 ^ 64
        → Step s (take_id call s)
    insert :
        (s : System W) (call wr_id : ℕ)
        → s.stage call ≡ numbered wr_id
        → Step s (enter call wr_id s)
    send :
        (s : System W) (call wr_id : ℕ)
        → s.stage call ≡ registered wr_id
        → Step s (post call wr_id s)
    remove :
        (s : System W) (call wr_id : ℕ) → s.stage call ≡ refused wr_id → Step s (leave call wr_id s)
    poll : (s : System W) → Step s (harvest s)
    device : (s : System W) (w : W) → Step s (record s { world = w })

  pub data Reach (s : System W) : System W → Type 0 where
    here : Reach s s
    next : {t u : System W} → Reach s t → Step t u → Reach s u
