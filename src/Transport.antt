-- ===== src/Transport.antt =====
-- src/transport/mod.rs: the interface to remote memory. A call changes the state `M` of the world (the
-- remote memory, the connection) and returns its result; `panic` is a panic of the calling code.
pub mod Memory
pub mod Tcp
pub mod Rdma
use rdmas.Base.{ℕ, ◌≡◌, ap, Bool, List}
use rdmas.Base.Run.{Run, ok, panic}
use rdmas.Base.Result.{Result, done, err}
use rdmas.Client.Retry.{RdmaError}

abbrev pub Remote : Type 0 → Type 0 → Type 0
Remote M A = M → Run (M × Result RdmaError A)

after :
    {M A B : Type 0}
    → Run (M × Result RdmaError A)
    → (A → Remote M B)
    → Run (M × Result RdmaError B)
after panic k = panic
after (ok (m, err e)) k = ok (m, err e)
after (ok (m, done a)) k = k a m

-- `.await?`
infixl 5 ◌>>=◌
unfoldable pub ◌>>=◌ : {M A B : Type 0} → Remote M A → (A → Remote M B) → Remote M B
unfolding after
(f >>= k) m = after (f m) k

-- `trait Transport`: the lengths and addresses as the callers give them; `read` returns the buffer that
-- it has filled.
pub record Transport (M : Type 0) : Type 0 where
  pub read : (len lkey addr rkey : ℕ) → M → M × Result RdmaError (List ℕ)
  pub write : (bytes : List ℕ) (lkey addr rkey : ℕ) → M → M × Result RdmaError (Unit {0})
  pub cas : (compare swap lkey addr rkey : ℕ) → M → M × Result RdmaError Bool

module _ {M A : Type 0} where
  -- `Ok(a)`, an error, a call of the transport, and a step that may panic.
  abbrev pub pure : A → Remote M A
  pure a m = ok (m, done a)

  abbrev pub fail : RdmaError → Remote M A
  fail e m = ok (m, err e)

  abbrev pub call : (M → M × Result RdmaError A) → Remote M A
  call f m = ok (f m)

  abbrev pub lift : Run A → Remote M A
  lift panic m = panic
  lift (ok a) m = ok (m, done a)

-- The rest of a computation, after a step that has returned a value, or an error, or has panicked.
module _ {M A B : Type 0} (f : Remote M A) (k : A → Remote M B) {m : M} where
  pub step : {m' : M} {a : A} → f m ≡ ok (m', done a) → (f >>= k) m ≡ k a m'
  unfolding ◌>>=◌ after
  step e = ap (λ r. after r k) e

  pub stop : {m' : M} {e : RdmaError} → f m ≡ ok (m', err e) → (f >>= k) m ≡ ok (m', err e)
  unfolding ◌>>=◌ after
  stop e = ap (λ r. after r k) e

  pub crash : f m ≡ panic → (f >>= k) m ≡ panic
  unfolding ◌>>=◌ after
  crash e = ap (λ r. after r k) e
