-- ===== src/Tests/Frames.antt =====
-- Calls over a TCP stream at fixed inputs: the stream keeps what is written and gives what it holds.
use rdmas.Base.{
  ℕ, ◌%◌, ◌^◌, ◌≡◌, refl, ap, ◌&&◌, List, [], ◌∷◌, ◌++◌, ◌==◌, length, take, drop, min, arith,
}
use rdmas.Base.Bytes.{to_le_bytes}
use rdmas.Base.Run.{ok}
use rdmas.Base.Result.{done}
use rdmas.Transport.Tcp.{Stream, TcpTransport, op_read, op_cas, read, cas}
use rdmas.Transport.Tcp.Laws.{
  IsPipe, Ends, prefix, read_header, write_answer, cas_answer, read-answered, cas-answered,
}

-- The bytes written, and the bytes to read.
abbrev Queues : Type 0
Queues = List ℕ × List ℕ

abbrev written : Queues → List ℕ
written q = q.0

abbrev unread : Queues → List ℕ
unread q = q.1

abbrev queues : Stream Queues
queues = record {
  write_all = λ bytes q. ((q.0 ++ bytes, q.1), done tt);
  read_exact = λ n q. ((q.0, drop n q.1), done (take n q.1));
}

take-front : (front back : List ℕ) → take (length front) (front ++ back) ≡ front
take-front [] back = refl
take-front (x ∷ front) back = ap (◌∷◌ x) (take-front front back)

drop-front : (front back : List ℕ) → drop (length front) (front ++ back) ≡ back
drop-front [] back = refl
drop-front (x ∷ front) back = drop-front front back

queues-IsPipe : IsPipe queues written unread
queues-IsPipe = record {
  writes = λ s bytes. ((s.0 ++ bytes, s.1), refl, refl, refl);
  reads = λ s front back e.
      ((s.0, back), rw (e, take-front front back, drop-front front back) refl, refl, refl);
}

abbrev connected : List ℕ → TcpTransport Queues
connected answer = record { stream = ([], answer); request_id = 3 }

read-answered_example :
    (t' : TcpTransport Queues) × (read queues
        (0 ∷ 0 ∷ 0 ∷ [])
        64
        9
        (connected (read_header 3 2 ++ (7 ∷ 8 ∷ [])))
      ≡ ok (t', done (take (min 2 3) (7 ∷ 8 ∷ []) ++ drop (min 2 3) (0 ∷ 0 ∷ 0 ∷ []))))
    × Ends queues written unread queues-IsPipe
        (connected (read_header 3 2 ++ (7 ∷ 8 ∷ [])))
        t'
        (prefix op_read 3 64 9 ++ to_le_bytes 4 (3 % 2 ^ 32))
        []
read-answered_example =
    read-answered queues written unread queues-IsPipe (connected (read_header 3 2 ++ (7 ∷ 8 ∷ [])))
      (0 ∷ 0 ∷ 0 ∷ []) (7 ∷ 8 ∷ []) [] 3 64 9 (omega arith) refl

abbrev refused : TcpTransport Queues
refused = connected (write_answer 3 1)

abbrev swapped : TcpTransport Queues
swapped = connected (cas_answer 3 0 1)

cas-answered_example :
    (t' : TcpTransport Queues) × (cas queues 0 5 64 9 swapped ≡ ok (t', done (0 == 0 && 1 == 1)))
    × Ends queues written unread queues-IsPipe swapped t'
        (prefix op_cas 3 64 9 ++ (to_le_bytes 8 0 ++ to_le_bytes 8 5))
        []
cas-answered_example =
    cas-answered queues written unread queues-IsPipe swapped [] 0 5 3 0 1 64 9 refl
