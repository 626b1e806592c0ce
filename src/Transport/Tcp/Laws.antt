-- ===== src/Transport/Tcp/Laws.antt =====
-- Requests over a stream: the frames that are sent, and what the answer becomes.
use rdmas.Base.{
  ℕ, ◌+◌, ◌%◌, ◌^◌, ◌<◌, ◌≡◌, refl, ap, ◌∙◌, ◌&&◌, List, [], ◌∷◌, ◌++◌, ◌==◌, length, take, drop,
  min, arith, if◌then◌else◌, Bool-cases, inl, inr,
}
use rdmas.Base.Bytes.{to_le_bytes, from_le_bytes, from_le_bytes-to_le_bytes}
use rdmas.Base.Run.{ok}
use rdmas.Base.Result.{done, err}
use rdmas.Client.Retry.{internal}
use rdmas.Transport.{Remote, ◌>>=◌, step}
use rdmas.Transport.Tcp.{
  Stream, TcpTransport, op_read, op_write, op_cas, map_err, next_id, send, receive, request, read,
  write, cas,
}

-- A stream that does not fail: `sent` are the bytes written to it, `incoming` all that the peer sends from here on.
pub record IsPipe {S : Type 0} (io : Stream S) (sent incoming : S → List ℕ) : Type 0 where
  pub writes :
      (s : S) (bytes : List ℕ)
      → (s' : S) × (io.write_all bytes s ≡ (s', done tt))
        × (sent s' ≡ sent s ++ bytes)
        × (incoming s' ≡ incoming s)
  pub reads :
      (s : S) (front back : List ℕ)
      → incoming s ≡ front ++ back
      → (s' : S) × (io.read_exact (length front) s ≡ (s', done front))
        × (sent s' ≡ sent s)
        × (incoming s' ≡ back)

append_assoc : (xs ys zs : List ℕ) → (xs ++ ys) ++ zs ≡ xs ++ (ys ++ zs)
append_assoc [] ys zs = refl
append_assoc (x ∷ xs) ys zs = ap (◌∷◌ x) (append_assoc xs ys zs)

-- The start of a request.
abbrev pub prefix : ℕ → ℕ → ℕ → ℕ → List ℕ
prefix op req_id remote_addr rkey =
    (op ∷ []) ++ (to_le_bytes 8 req_id ++ (to_le_bytes 8 remote_addr ++ to_le_bytes 4 rkey))

-- The head of the answer to a read: the id of a request, no error, and the length.
abbrev pub read_header : ℕ → ℕ → List ℕ
read_header req_id n = to_le_bytes 8 req_id ++ (0 ∷ to_le_bytes 4 n)

-- The answer to a write, with a status.
abbrev pub write_answer : ℕ → ℕ → List ℕ
write_answer req_id status = to_le_bytes 8 req_id ++ (status ∷ [])

-- The answer to a compare-and-swap, with a status and a flag.
abbrev pub cas_answer : ℕ → ℕ → ℕ → List ℕ
cas_answer req_id status swapped = to_le_bytes 8 req_id ++ (status ∷ swapped ∷ [])

module _ {S : Type 0} (io : Stream S) (sent incoming : S → List ℕ)
    (pipe : IsPipe io sent incoming) where
  -- A part of a call that sends `bytes` and reads nothing.
  abbrev Sends : Remote (TcpTransport S) (Unit {0}) → List ℕ → Type 0
  Sends f bytes =
      (t : TcpTransport S)
      → (t' : TcpTransport S) × (f t ≡ ok (t', done tt))
        × (t'.request_id ≡ t.request_id)
        × (sent t'.stream ≡ sent t.stream ++ bytes)
        × (incoming t'.stream ≡ incoming t.stream)

  send-Sends : (bytes : List ℕ) → Sends (send io bytes) bytes
  unfolding send map_err
  send-Sends bytes t =
      let (s', e, out, same) = pipe.writes t.stream bytes in
      (record t { stream = s' }, rw e refl, refl, out, same)

  both-Sends :
      (f g : Remote (TcpTransport S) (Unit {0})) (b c : List ℕ)
      → Sends f b
      → Sends g c
      → Sends (f >>= λ _. g) (b ++ c)
  both-Sends f g b c first second t =
      let (t1, e1, id1, out1, in1) = first t in
      let (t2, e2, id2, out2, in2) = second t1 in
      (
        t2,
        step f (λ _. g) e1 ∙ e2,
        id2 ∙ id1,
        out2 ∙ ap (λ xs. xs ++ c) out1 ∙ append_assoc (sent t.stream) b c,
        in2 ∙ in1,
      )

  request-Sends :
      (op req_id remote_addr rkey : ℕ)
      → Sends (request io op req_id remote_addr rkey) (prefix op req_id remote_addr rkey)
  unfolding request
  request-Sends op req_id remote_addr rkey =
      both-Sends (send io (op ∷ [])) _ (op ∷ []) _ (send-Sends (op ∷ [])) (
        both-Sends (send io (to_le_bytes 8 req_id)) _ (to_le_bytes 8 req_id) _
          (send-Sends (to_le_bytes 8 req_id))
          (both-Sends (send io (to_le_bytes 8 remote_addr)) _ (to_le_bytes 8 remote_addr) _
            (send-Sends (to_le_bytes 8 remote_addr)) (send-Sends (to_le_bytes 4 rkey))))

  receive-front :
      (t : TcpTransport S) (front back : List ℕ)
      → incoming t.stream ≡ front ++ back
      → (t' : TcpTransport S) × (receive io (length front) t ≡ ok (t', done front))
        × (t'.request_id ≡ t.request_id)
        × (sent t'.stream ≡ sent t.stream)
        × (incoming t'.stream ≡ back)
  unfolding receive map_err
  receive-front t front back e =
      let (s', e', out, rest) = pipe.reads t.stream front back e in
      (record t { stream = s' }, rw e' refl, refl, out, rest)

  three_parts :
      (a b c : List ℕ) (s s1 s2 s3 : S)
      → sent s1 ≡ sent s ++ a
      → sent s2 ≡ sent s1 ++ b
      → sent s3 ≡ sent s2 ++ c
      → sent s3 ≡ sent s ++ (a ++ (b ++ c))
  three_parts a b c s s1 s2 s3 e1 e2 e3 =
      rw (e3, e2, e1) (append_assoc (sent s ++ a) b c ∙ append_assoc (sent s) a (b ++ c))

  -- After a call that has sent `frame`, with `rest` left to receive.
  abbrev pub Ends : TcpTransport S → TcpTransport S → List ℕ → List ℕ → Type 0
  Ends t t' frame rest =
      (t'.request_id ≡ (t.request_id + 1) % 2 ^ 64)
      × (sent t'.stream ≡ sent t.stream ++ frame)
      × (incoming t'.stream ≡ rest)

  -- If the next bytes of the peer are a successful answer of less than 2^32 bytes, `read` sends one frame, of the
  -- operation, the next request id, the address, the key and the length of the buffer, takes the whole answer and no
  -- more, and fills the buffer from its start, as far as both go. The id in the answer is not looked at.
  pub read-answered :
      (t : TcpTransport S) (buf bytes rest : List ℕ) (answer_id remote_addr rkey : ℕ)
      → length bytes < 2 ^ 32
      → incoming t.stream ≡ read_header answer_id (length bytes) ++ (bytes ++ rest)
      → (t' : TcpTransport S) × (read io buf remote_addr rkey t
          ≡ ok (
            t',
            done (
                take (min (length bytes) (length buf)) bytes
                ++ drop (min (length bytes) (length buf)) buf),
          ))
        × Ends t t'
            (prefix op_read t.request_id remote_addr rkey ++ to_le_bytes 4 (length buf % 2 ^ 32))
            rest
  unfolding read next_id
  read-answered t buf bytes rest answer_id remote_addr rkey short known =
      let t0 : TcpTransport S = record t { request_id = (t.request_id + 1) % 2 ^ 64 } in
      let size : List ℕ = to_le_bytes 4 (length buf % 2 ^ 32) in
      let (t1, e1, id1, out1, in1) = request-Sends op_read t.request_id remote_addr rkey t0 in
      let (t2, e2, id2, out2, in2) = send-Sends size t1 in
      let (t3, e3, id3, out3, in3) =
        receive-front t2 (read_header answer_id (length bytes)) (bytes ++ rest)
          (in2 ∙ in1 ∙ known) in
      let (t4, e4, id4, out4, in4) = receive-front t3 bytes rest in3 in
      let len : from_le_bytes (to_le_bytes 4 (length bytes)) ≡ length bytes =
        from_le_bytes-to_le_bytes 4 (length bytes) (omega (arith, short)) in
      (
        t4,
        step (next_id io) _ refl
            ∙ step (request io op_read t.request_id remote_addr rkey) _ e1
            ∙ step (send io size) _ e2
            ∙ step (receive io 13) _ e3
            ∙ rw len (step (receive io (length bytes)) _ e4),
        (
          id4 ∙ id3 ∙ id2 ∙ id1,
          out4
              ∙ out3
              ∙ out2
              ∙ ap (λ xs. xs ++ size) out1
              ∙ append_assoc (sent t.stream) (prefix op_read t.request_id remote_addr rkey) size,
          in4,
        ),
      )

  -- If the next bytes of the peer are an answer of nine bytes, `write` sends one frame, that of a read with the bytes to
  -- write behind it, takes the answer and no more, and succeeds exactly if the status is zero.
  write-answered :
      (t : TcpTransport S) (buf rest : List ℕ) (answer_id status remote_addr rkey : ℕ)
      → incoming t.stream ≡ write_answer answer_id status ++ rest
      → (t' : TcpTransport S) × (write io buf remote_addr rkey t
          ≡ ok (t', if status == 0 then done tt else err (internal [])))
        × Ends t t'
            (prefix op_write t.request_id remote_addr rkey
              ++ (to_le_bytes 4 (length buf % 2 ^ 32) ++ buf))
            rest
  unfolding write next_id
  write-answered t buf rest answer_id status remote_addr rkey known =
      let t0 : TcpTransport S = record t { request_id = (t.request_id + 1) % 2 ^ 64 } in
      let size : List ℕ = to_le_bytes 4 (length buf % 2 ^ 32) in
      let (t1, e1, id1, out1, in1) = request-Sends op_write t.request_id remote_addr rkey t0 in
      let (t2, e2, id2, out2, in2) = send-Sends size t1 in
      let (t3, e3, id3, out3, in3) = send-Sends buf t2 in
      let (t4, e4, id4, out4, in4) =
        receive-front t3 (write_answer answer_id status) rest (in3 ∙ in2 ∙ in1 ∙ known) in
      (
        t4,
        step (next_id io) _ refl
            ∙ step (request io op_write t.request_id remote_addr rkey) _ e1
            ∙ step (send io size) _ e2
            ∙ step (send io buf) _ e3
            ∙ step (receive io 9) _ e4
            ∙ elim (Bool-cases (status == 0)) [ inl e ↦ rw e refl | inr e ↦ rw e refl ],
        (
          id4 ∙ id3 ∙ id2 ∙ id1,
          out4 ∙ three_parts _ _ _ t.stream t1.stream t2.stream t3.stream out1 out2 out3,
          in4,
        ),
      )

  -- If the next bytes of the peer are an answer of ten bytes, `cas` sends one frame with the two words, takes the answer and
  -- no more, and returns whether the status is zero and the flag is one: an error at the peer is a swap that did not take place.
  pub cas-answered :
      (t : TcpTransport S) (rest : List ℕ)
      (compare swap answer_id status swapped remote_addr rkey : ℕ)
      → incoming t.stream ≡ cas_answer answer_id status swapped ++ rest
      → (t' : TcpTransport S) × (cas io compare swap remote_addr rkey t
          ≡ ok (t', done (status == 0 && swapped == 1)))
        × Ends t t'
            (prefix op_cas t.request_id remote_addr rkey
              ++ (to_le_bytes 8 compare ++ to_le_bytes 8 swap))
            rest
  unfolding cas next_id
  cas-answered t rest compare swap answer_id status swapped remote_addr rkey known =
      let t0 : TcpTransport S = record t { request_id = (t.request_id + 1) % 2 ^ 64 } in
      let (t1, e1, id1, out1, in1) = request-Sends op_cas t.request_id remote_addr rkey t0 in
      let (t2, e2, id2, out2, in2) = send-Sends (to_le_bytes 8 compare) t1 in
      let (t3, e3, id3, out3, in3) = send-Sends (to_le_bytes 8 swap) t2 in
      let (t4, e4, id4, out4, in4) =
        receive-front t3 (cas_answer answer_id status swapped) rest (in3 ∙ in2 ∙ in1 ∙ known) in
      (
        t4,
        step (next_id io) _ refl
            ∙ step (request io op_cas t.request_id remote_addr rkey) _ e1
            ∙ step (send io (to_le_bytes 8 compare)) _ e2
            ∙ step (send io (to_le_bytes 8 swap)) _ e3
            ∙ step (receive io 10) _ e4,
        (
          id4 ∙ id3 ∙ id2 ∙ id1,
          out4 ∙ three_parts _ _ _ t.stream t1.stream t2.stream t3.stream out1 out2 out3,
          in4,
        ),
      )
