-- ===== src/Sctp/Server.antt =====
-- The threads of class SctpServer (src/sctp_server.cpp): the one that accepts connections and deals
-- them out over pipes, and the workers that serve them; and Utils::max_ele (src/utils.cpp). A file
-- descriptor is the bit pattern of an int. `serve_client` is a function of the state of the process
-- and the connection, with an int as status.
use sba_g_rpc_5g.Base.{
  ℕ, ◌+◌, ◌%◌, ◌^◌, Bool, Option, none, some, List, [], ◌∷◌, ◌++◌, length, drop, ltb, ◌==◌,
  if◌then◌else◌,
}
use sba_g_rpc_5g.Result.{Result, ok, overrun, exit_failure, require, ◌>>=◌, ◌>>◌}
use sba_g_rpc_5g.Bytes.{Bytes}
use sba_g_rpc_5g.Packet.{Packet, clear_pkt, append_int, extract_int}
use sba_g_rpc_5g.Sctp.{Read, write_sctp_pkt, read_packet}

-- What is written to the pipe of a worker.
pub record Handed : Type 0 where
  pub worker : ℕ
  pub bytes : Bytes

-- What accept(2) gives in a round, and what the write to the pipe returns.
pub record Accepted : Type 0 where
  pub conn_fd : ℕ
  pub status : ℕ

-- One round of accept_clients. A turn that no pipe has is out of the vector.
unfoldable pub accept_round : ℕ → ℕ → Accepted → Packet → Result (ℕ × Handed)
accept_round workers_count turn x pkt = do
  require (ltb x.conn_fd (2 ^ 31)) exit_failure
  p1 ← append_int x.conn_fd (clear_pkt pkt)
  require (ltb turn workers_count) overrun
  bytes ← write_sctp_pkt p1
  require (ltb x.status (2 ^ 31)) exit_failure
  ok ((turn + 1) % workers_count, record { worker = turn; bytes = bytes })

-- The loop, over the connections that arrive.
unfoldable pub accept_clients : ℕ → ℕ → List Accepted → Packet → Result (List Handed)
accept_clients workers_count turn [] pkt = ok []
accept_clients workers_count turn (x ∷ rest) pkt = do
  (turn', out) ← accept_round workers_count turn x pkt
  outs ← accept_clients workers_count turn' rest pkt
  ok (out ∷ outs)

-- The order of int, on bit patterns
abbrev pub int_rank : ℕ → ℕ
int_rank x = (x + 2 ^ 31) % 2 ^ 32

-- std::max on int
abbrev pub max : ℕ → ℕ → ℕ
max a b = if ltb (int_rank a) (int_rank b) then b else a

-- Utils::max_ele
unfoldable pub max_ele_from : ℕ → List ℕ → ℕ
max_ele_from ans [] = ans
max_ele_from ans (x ∷ xs) = max_ele_from (max ans x) xs

unfoldable pub max_ele : List ℕ → ℕ
max_ele = max_ele_from 0

-- The locals of worker_func.
pub record Worker : Type 0 where
  pub pipe_fd : ℕ
  pub conn_fds : List ℕ
  pub max_fd : ℕ

-- Before the loop of worker_func
unfoldable pub new_worker : ℕ → Worker
new_worker pipe_fd = record { pipe_fd = pipe_fd; conn_fds = []; max_fd = pipe_fd }

-- A connection from the pipe. A read that fails ends the process.
unfoldable pub take_connection : List Read → Packet → Worker → Result (Worker × List Read)
take_connection calls pkt w = do
  (status, p1, calls') ← read_packet calls pkt
  require (ltb status (2 ^ 31)) exit_failure
  (conn_fd, p2) ← extract_int p1
  ok (record w { conn_fds = w.conn_fds ++ conn_fd ∷ []; max_fd = max w.max_fd conn_fd }, calls')

module _ {S : Type 0} (serve_client : S → ℕ → S × ℕ) where
  -- The loop over the first connections, which select(2) was asked about: `kept` has been passed,
  -- `added` came from the pipe and is not looked at in this round. A status of 0 closes.
  unfoldable pub serve_loop : (ℕ → Bool) → List ℕ → List ℕ → List ℕ → Worker → S → S × Worker
  serve_loop ready kept [] added w s = (s, w)
  serve_loop ready kept (conn_fd ∷ rest) added w s =
      let (s', status) = if ready conn_fd then serve_client s conn_fd else (s, 1) in
      let left = kept ++ (rest ++ added) in
      let closing =
        serve_loop ready kept rest added
          (record w { conn_fds = left; max_fd = max w.pipe_fd (max_ele left) }) s' in
      let keeping = serve_loop ready (kept ++ conn_fd ∷ []) rest added w s' in
      if status == 0 then closing else keeping

  -- One round of worker_func after select(2), by the connection that the pipe had, if any.
  unfoldable pub worker_round :
      Option (List Read) → Packet → (ℕ → Bool) → Worker → S → Result (S × Worker)
  worker_round none pkt ready w s = ok (serve_loop ready [] w.conn_fds [] w s)
  worker_round (some calls) pkt ready w s = do
    (w', calls') ← take_connection calls pkt w
    ok (serve_loop ready [] w.conn_fds (drop (length w.conn_fds) w'.conn_fds) w' s)
