-- ===== src/Cases/Sctp.antt =====
-- The framing of packets, with a content that arrives in two pieces, the write loop and the server.
use sba_g_rpc_5g.Sctp.{Write, took, write_stream}
use sba_g_rpc_5g.Sctp.Writing.{write_stream-ends}
use sba_g_rpc_5g.Sctp.Server.{
  Handed, Accepted, accept_clients, Worker, worker_round, serve_loop, max_ele, max_ele_from,
}
use sba_g_rpc_5g.Sctp.Turns.{handed, accept_clients-serves}
use sba_g_rpc_5g.Sctp.Workers.{
  IsCovered, serve_ready, worker_round-IsCovered, worker_round-serve_ready,
}
use sba_g_rpc_5g.Base.{
  ℕ, ◌+◌, ◌≤◌, ◌<◌, ◌≡◌, refl, Bool, true, List, [], ◌∷◌, ◌++◌, length, none, some, get_elem?, ◌==◌,
  if◌then◌else◌, arith,
}
use sba_g_rpc_5g.Result.{ok}
use sba_g_rpc_5g.Bytes.{Bytes, encode}
use sba_g_rpc_5g.Packet.View.{view}
use sba_g_rpc_5g.Sctp.{got, closed, read_sctp_pkt, write_sctp_pkt}
use sba_g_rpc_5g.Sctp.Framing.{last, more, read_sctp_pkt-write_sctp_pkt}
use sba_g_rpc_5g.Cases.Data.{packet_0}

abbrev content : Bytes
content = 5 ∷ 6 ∷ 7 ∷ []

read_sctp_pkt-write_sctp_pkt_example :
    (write_sctp_pkt (view packet_0 content []) ≡ ok (encode 4 3 ++ content))
    × (read_sctp_pkt (got (encode 4 3) ∷ got (5 ∷ []) ∷ got (6 ∷ 7 ∷ []) ∷ closed ∷ []) packet_0
        ≡ ok (view packet_0 [] content, closed ∷ []))
read_sctp_pkt-write_sctp_pkt_example =
    read_sctp_pkt-write_sctp_pkt packet_0 packet_0 content [] (got (encode 4 3) ∷ [])
      (got (5 ∷ []) ∷ got (6 ∷ 7 ∷ []) ∷ []) (closed ∷ []) (omega arith) (omega arith)
      (last (encode 4 3) (omega arith))
      (more (5 ∷ []) (6 ∷ 7 ∷ []) (got (6 ∷ 7 ∷ []) ∷ []) (omega arith) (omega arith)
        (last (6 ∷ 7 ∷ []) (omega arith)))

write_stream-ends_example :
    (used : List Write) × (rest : List Write) × (took 2 ∷ took 1 ∷ took 5 ∷ [] ≡ used ++ rest)
    × (length used ≤ 3)
    × (write_stream 3 (7 ∷ 8 ∷ 9 ∷ 0 ∷ []) (took 2 ∷ took 1 ∷ took 5 ∷ [])
        ≡ ok (3, 7 ∷ 8 ∷ 9 ∷ [], rest))
write_stream-ends_example =
    write_stream-ends 3 (7 ∷ 8 ∷ 9 ∷ 0 ∷ []) (took 2 ∷ took 1 ∷ took 5 ∷ []) (omega arith)
      (omega arith) (omega arith) (omega arith) tt

-- Three connections, whose descriptors are written to the pipes in a frame of 8 bytes.
abbrev three : List Accepted
three =
    record { conn_fd = 5; status = 8 }
    ∷ record { conn_fd = 6; status = 8 }
    ∷ record { conn_fd = 7; status = 8 }
    ∷ []

accept_clients-serves_example :
    (outs : List Handed) × (k : ℕ) × (x : Accepted) × (accept_clients 2 0 three packet_0 ≡ ok outs)
    × (1 ≤ k)
    × (k < 3)
    × (get_elem? three k ≡ some x)
    × (get_elem? outs k ≡ some (handed 0 x.conn_fd))
accept_clients-serves_example =
    accept_clients-serves 2 0 0 1 three packet_0 (omega arith) (omega arith) (omega arith)
      (omega arith)

-- A handler that counts its calls and closes connection 5.
abbrev counting : ℕ → ℕ → ℕ × ℕ
counting calls conn_fd = (calls + 1, if conn_fd == 5 then 0 else 1)

abbrev all_ready : ℕ → Bool
all_ready conn_fd = true

abbrev worker : Worker
worker = record { pipe_fd = 3; conn_fds = 5 ∷ 6 ∷ []; max_fd = 6 }

worker-IsCovered : IsCovered worker
worker-IsCovered = record { pipe = omega arith; connections = omega arith }

abbrev left : Worker
left = record { pipe_fd = 3; conn_fds = 6 ∷ []; max_fd = 6 }

round_run : worker_round counting none packet_0 all_ready worker 0 ≡ ok (2, left)
unfolding worker_round serve_loop max_ele max_ele_from
round_run = refl

worker_round-IsCovered_example : IsCovered left
worker_round-IsCovered_example =
    worker_round-IsCovered counting all_ready none packet_0 worker left 0 2 worker-IsCovered
      round_run

worker_round-serve_ready_example :
    (w' : Worker) × (worker_round counting
        (some ((got (encode 4 4) ∷ []) ++ ((got (encode 4 9) ∷ []) ++ [])))
        packet_0
        all_ready
        worker
        0
      ≡ ok (2, w'))
    × (w'.conn_fds ≡ 6 ∷ 9 ∷ [])
unfolding serve_ready
worker_round-serve_ready_example =
    worker_round-serve_ready counting all_ready (got (encode 4 4) ∷ []) (got (encode 4 9) ∷ []) []
      packet_0 worker 0 9 (omega arith) (last (encode 4 4) (omega arith))
      (last (encode 4 9) (omega arith))
