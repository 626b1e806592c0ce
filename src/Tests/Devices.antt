-- ===== src/Tests/Devices.antt =====
-- Requests, the guard, the RDMA transport, huge pages and chunk hashes at fixed inputs.
use rdmas.Base.{
  ℕ, ◌+◌, ◌-◌, ◌^◌, ◌≡◌, refl, List, [], ◌∷◌, ltb, length, map, take, drop, none, some, arith,
  if◌then◌else◌,
}
use rdmas.Base.Result.{done, err}
use rdmas.Client.Retry.{hardware_error}
use rdmas.Rdma.Verbs.{Verbs, QpState, rts, wc_error, WorkCompletion}
use rdmas.Rdma.Qp.{SendWorkRequest}
use rdmas.Rdma.Guard
use rdmas.Rdma.Guard.{QpGuard, is_broken}
use rdmas.Runtime.Ops.{read_request}
use rdmas.Transport.Rdma.{RdmaTransport}
use rdmas.Transport.Rdma.Swaps.{IsSlow, Swap, swap_all, answers, swap_all-answers}
use rdmas.Mem.Region.{Os}
use rdmas.Connector.Director.{extract_chunk_hash}
use rdmas.Connector.Director.Laws.{digit, value, key_of, extract_chunk_hash-key_of}

-- A device that counts what is posted, in a state, with completions in its queue.
abbrev device : QpState → List WorkCompletion → Verbs ℕ
device state wcs = record {
  send_signaled = 2;
  modify_qp = λ attr w. (w, 0);
  query_qp = λ w. (w, 0, state);
  post_send_wr = λ wrs w. (w + length wrs, 0);
  post_recv_wr = λ wr w. (w + 1, 0);
  poll_cq_wr = λ n w. (w, done wcs);
}

abbrev one : SendWorkRequest
one = read_request 4096 64 7 128 9 1

abbrev two : SendWorkRequest
two = read_request 8192 64 7 256 9 2

-- The completion of an older request, with an error.
abbrev stale : WorkCompletion
stale = record { wr_id = 1; status = wc_error 5; byte_len = 0 }

-- A device on which nothing completes any more; its world is its completion queue.
abbrev slow : Verbs (List WorkCompletion)
slow = record {
  send_signaled = 2;
  modify_qp = λ attr q. (q, 0);
  query_qp = λ q. (q, 0, rts);
  post_send_wr = λ wrs q. (q, 0);
  post_recv_wr = λ wr q. (q, 0);
  poll_cq_wr = λ n q. (drop n q, done (take n q));
}

slow-IsSlow : IsSlow slow (λ q. q)
unfolding is_broken
slow-IsSlow = record {
  healthy = λ q. (rts, refl, refl);
  posts = λ wrs q. (q, refl, refl);
  polls = λ q. (drop 1 q, refl, refl);
}

abbrev swap : Swap
swap = record { compare = 0; new = 5; lkey = 7; remote_addr = 128; rkey = 9 }

abbrev connected : RdmaTransport (List WorkCompletion)
connected = record { qp_guard = Guard.new; next_wr_id = 7; world = stale ∷ [] }

swap_all-answers_example :
    ((swap_all slow (swap ∷ swap ∷ []) connected).1
      ≡ map done (answers (swap ∷ swap ∷ []) (stale ∷ [])))
    × ((swap_all slow (swap ∷ swap ∷ []) connected).0.world ≡ drop 2 (stale ∷ []))
swap_all-answers_example = swap_all-answers slow (λ q. q) slow-IsSlow (swap ∷ swap ∷ []) connected

-- A system that counts the bytes it maps, and registers nothing.
abbrev os : Os ℕ
os = record {
  mmap = λ size w. (w + size, some 4096);
  mlock = λ ptr size w. (w, 0);
  munmap = λ ptr size w. (w - size, 0);
  register = λ ptr size access w. (w, err (hardware_error []));
  deregister = λ mr w. w;
}

-- "m@0@0@a1@s"
extract_chunk_hash-key_of_example :
    extract_chunk_hash
      (key_of (b'm' ∷ []) (b'0' ∷ []) (b'0' ∷ []) (map digit (10 ∷ 1 ∷ [])) (some (b's' ∷ [])))
    ≡ (if ltb (value 0 (10 ∷ 1 ∷ [])) (2 ^ 64) then some (value 0 (10 ∷ 1 ∷ [])) else none)
extract_chunk_hash-key_of_example =
    extract_chunk_hash-key_of (b'm' ∷ []) (b'0' ∷ []) (b'0' ∷ []) 10 (1 ∷ []) (some (b's' ∷ []))
      (omega arith) (omega arith) (omega arith) (omega arith)
