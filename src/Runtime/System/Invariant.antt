-- ===== src/Runtime/System/Invariant.antt =====
-- Every state that is reached is sound.
use rdmas.Base.{ℕ, ◌+◌, ◌%◌, ◌^◌, ◌≡◌, refl, subst, List, some, arith}
use rdmas.Base.Result.{Result, done, err}
use rdmas.Client.Retry.{RdmaError}
use rdmas.Rdma.Verbs.{Verbs, WorkCompletion}
use rdmas.Rdma.Cq.{poll}
use rdmas.Rdma.Qp.{SendWorkRequest, post_send}
use rdmas.Runtime.Poller.{Shared, put, harvest_completions}
use rdmas.Runtime.System
use rdmas.Runtime.System.{
  Stage, idle, rejected, numbered, registered, posted, refused, System, after_post, take_id, enter,
  post, leave, harvest, Step, number, insert, send, remove, device, Reach, here, next,
}
use rdmas.Runtime.System.Laws.{id_of, listed_id, CallIsSound, IsSound}
use rdmas.Runtime.System.Steps.{number-IsSound, insert-IsSound, send-IsSound, remove-IsSound}
use rdmas.Runtime.System.Dispatch.{dispatch_all-IsSound}

abbrev pub StateIsSound : {W : Type 0} → System W → Type 0
StateIsSound s = IsSound s.next_wr_id s.shared s.stage

module _ (w : ℕ) {A : Type 0} where
  after_post-id : (r : Result RdmaError A) → id_of (after_post w r) ≡ some w
  unfolding after_post
  after_post-id (done a) = refl
  after_post-id (err e) = refl

  after_post-listed : (r : Result RdmaError A) → listed_id (after_post w r) ≡ some w
  unfolding after_post
  after_post-listed (done a) = refl
  after_post-listed (err e) = refl

  after_post_sound :
      (n : ℕ) (sh : Shared) (k : ℕ) (r : Result RdmaError A)
      → CallIsSound n sh k (registered w)
      → CallIsSound n sh k (after_post w r)
  unfolding after_post
  after_post_sound n sh k (done a) c = c
  after_post_sound n sh k (err e) c = c

module _ {W : Type 0} (v : Verbs W) (request : ℕ → ℕ → SendWorkRequest) where
  harvest-IsSound : (s : System W) → StateIsSound s → StateIsSound (harvest v request s)
  unfolding harvest harvest_completions
  harvest-IsSound s sound = go (poll v 16 s.world).1 refl
    where
      go :
          (r : Result RdmaError (List WorkCompletion))
          → (poll v 16 s.world).1 ≡ r
          → StateIsSound (harvest v request s)
      go (err e) p = rw (harvest, harvest_completions, p) sound
      go (done wcs) p =
          rw (harvest, harvest_completions, p)
            (dispatch_all-IsSound s.next_wr_id wcs s.shared s.stage sound)

  post-IsSound :
      (s : System W) (k w : ℕ)
      → s.stage k ≡ registered w
      → StateIsSound s
      → StateIsSound (post v request k w s)
  unfolding post
  post-IsSound s k w e sound =
      let r : Result RdmaError ℕ = (post_send v (request k w) s.world).1 in
      send-IsSound s.next_wr_id s.shared s.stage sound k w (after_post w r) e (after_post-id w r)
        (after_post-listed w r)
        (after_post_sound w s.next_wr_id s.shared k r
          (subst (CallIsSound s.next_wr_id s.shared k) e (sound.calls k)))

  Step-IsSound : {s t : System W} → Step v request s t → StateIsSound s → StateIsSound t
  unfolding take_id enter leave
  Step-IsSound (number s k e bound) sound =
      let no_wrap : s.next_wr_id + 1 ≡ (s.next_wr_id + 1) % 2 ^ 64 = omega (arith, bound) in
      subst (λ (n : ℕ). IsSound n s.shared (put s.stage k (numbered s.next_wr_id))) no_wrap
        (number-IsSound s.next_wr_id s.shared s.stage sound k e)
  Step-IsSound (insert s k w e) sound = insert-IsSound s.next_wr_id s.shared s.stage sound k w e
  Step-IsSound (send s k w e) sound = post-IsSound s k w e sound
  Step-IsSound (remove s k w e) sound = remove-IsSound s.next_wr_id s.shared s.stage sound k w e
  Step-IsSound (System.poll s) sound = harvest-IsSound s sound
  Step-IsSound (device s w) sound = sound

  pub new-IsSound : (w : W) → StateIsSound (System.new w)
  unfolding System.new
  new-IsSound w = record {
    calls = λ k. refl;
    unique = λ k k' w' e e'. cc e;
    owned = λ w' k e. cc e;
  }

  pub Reach-IsSound : {s t : System W} → StateIsSound s → Reach v request s t → StateIsSound t
  Reach-IsSound sound here = sound
  Reach-IsSound sound (next r step) = Step-IsSound step (Reach-IsSound sound r)
