-- ===== src/Transport/Tcp.antt =====
-- src/transport/tcp.rs: the client's end of the binary frames. The stream of the runtime is a parameter; its errors
-- carry a text. Connecting, and the lock around the stream, are left out: a call has the stream for itself.
pub mod Laws
use rdmas.Base.{
  ℕ, ◌+◌, ◌%◌, ◌^◌, Bool, true, false, ◌&&◌, List, [], ◌∷◌, ◌++◌, ◌==◌, length, take, drop, min,
  get_or,
}
use rdmas.Base.Bytes.{to_le_bytes, from_le_bytes}
use rdmas.Base.Run.{ok}
use rdmas.Base.Result.{Result, done, err}
use rdmas.Client.Retry.{RdmaError, internal}
use rdmas.Transport.{Remote, pure, fail, ◌>>=◌}

-- `AsyncWriteExt::write_all` and `AsyncReadExt::read_exact`
pub record Stream (S : Type 0) : Type 0 where
  pub write_all : List ℕ → S → S × Result (List ℕ) (Unit {0})
  pub read_exact : ℕ → S → S × Result (List ℕ) (List ℕ)

pub record TcpTransport (S : Type 0) : Type 0 where
  pub stream : S
  pub request_id : ℕ

-- `OP_READ`, `OP_WRITE`, `OP_CAS`
abbrev pub op_read : ℕ
op_read = 1

abbrev pub op_write : ℕ
op_write = 2

abbrev pub op_cas : ℕ
op_cas = 3

-- `.map_err(|e| RdmaError::Internal(e.to_string()))`
unfoldable pub map_err : {A : Type 0} → Result (List ℕ) A → Result RdmaError A
map_err (done a) = done a
map_err (err text) = err (internal text)

module _ {S : Type 0} (io : Stream S) where
  -- `fetch_add(1)`
  unfoldable pub next_id : Remote (TcpTransport S) ℕ
  next_id t = ok (record t { request_id = (t.request_id + 1) % 2 ^ 64 }, done t.request_id)

  unfoldable pub send : List ℕ → Remote (TcpTransport S) (Unit {0})
  unfolding map_err
  send bytes t =
      let (s, result) = io.write_all bytes t.stream in ok (record t { stream = s }, map_err result)

  unfoldable pub receive : ℕ → Remote (TcpTransport S) (List ℕ)
  unfolding map_err
  receive n t =
      let (s, result) = io.read_exact n t.stream in ok (record t { stream = s }, map_err result)

  -- The start that all requests share.
  unfoldable pub request : ℕ → ℕ → ℕ → ℕ → Remote (TcpTransport S) (Unit {0})
  unfolding send
  request op req_id remote_addr rkey = do
    _ ← send (op ∷ [])
    _ ← send (to_le_bytes 8 req_id)
    _ ← send (to_le_bytes 8 remote_addr)
    send (to_le_bytes 4 rkey)

  unfoldable pub read : List ℕ → ℕ → ℕ → Remote (TcpTransport S) (List ℕ)
  unfolding next_id request receive
  read buf remote_addr rkey = do
    req_id ← next_id
    _ ← request op_read req_id remote_addr rkey
    _ ← send (to_le_bytes 4 (length buf % 2 ^ 32))
    header ← receive 13
    elim (get_or header 8 0 == 0) [
      | false ↦ fail (internal [])
      | true ↦ do
        let data_len = from_le_bytes (drop 9 header)
        let copy_len = min data_len (length buf)
        bytes ← receive data_len
        pure (take copy_len bytes ++ drop copy_len buf)
    ]

  unfoldable pub write : List ℕ → ℕ → ℕ → Remote (TcpTransport S) (Unit {0})
  unfolding next_id request receive
  write buf remote_addr rkey = do
    req_id ← next_id
    _ ← request op_write req_id remote_addr rkey
    _ ← send (to_le_bytes 4 (length buf % 2 ^ 32))
    _ ← send buf
    resp ← receive 9
    elim (get_or resp 8 0 == 0) [ false ↦ fail (internal []) | true ↦ pure tt ]

  unfoldable pub cas : ℕ → ℕ → ℕ → ℕ → Remote (TcpTransport S) Bool
  unfolding next_id request receive
  cas compare swap remote_addr rkey = do
    req_id ← next_id
    _ ← request op_cas req_id remote_addr rkey
    _ ← send (to_le_bytes 8 compare)
    _ ← send (to_le_bytes 8 swap)
    resp ← receive 10
    pure (get_or resp 8 0 == 0 && get_or resp 9 0 == 1)
