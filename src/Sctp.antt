-- ===== src/Sctp.antt =====
-- What is written to and read from an SCTP connection (src/network.cpp, src/sctp_server.cpp,
-- src/sctp_client.cpp).
pub mod Framing
pub mod Writing
pub mod Server
pub mod Turns
pub mod Workers
use sba_g_rpc_5g.Base.{
  ℕ, zero, suc, ◌+◌, ◌-◌, ◌^◌, ◌||◌, List, [], ◌∷◌, ◌++◌, length, leb, ltb, ◌==◌, if◌then◌else◌,
}
use sba_g_rpc_5g.Result.{Result, ok, ◌>>=◌}
use sba_g_rpc_5g.Bytes.{Bytes, decode}
use sba_g_rpc_5g.Packet.{Packet, copy, prepend_len, peek, poke, clear_pkt}

-- Network::write_sctp_pkt: a length and the packet. The bytes are what write_stream is given.
unfoldable pub write_sctp_pkt : Packet → Result Bytes
write_sctp_pkt pkt = do p1 ← copy pkt; p2 ← prepend_len p1; peek 0 p2.len p2.data_

-- The connection that a handler writes to: the one that its message came from, or one of its own to
-- a base station.
pub data Peer : Type 0 where
  requester source_ran target_ran : Peer

pub record Segment : Type 0 where
  pub to : Peer
  pub bytes : Bytes

-- SctpServer::snd and SctpClient::snd
unfoldable pub send : Peer → Packet → Result Segment
send peer pkt = do bytes ← write_sctp_pkt pkt; ok (record { to = peer; bytes = bytes })

-- What one call of read(2) comes to: some bytes, the end of the stream, or an error.
pub data Read : Type 0 where
  got : Bytes → Read
  closed failed : Read

-- The loop of Network::read_stream, by the calls that are to come; `retval` is the bit pattern of an
-- int. A connection that delivers nothing more is closed.
unfoldable pub read_loop : ℕ → ℕ → ℕ → Bytes → List Read → Result (ℕ × Bytes × List Read)
read_loop len ptr remaining_bytes buf [] = ok (0, buf, [])
read_loop len ptr remaining_bytes buf (closed ∷ calls) = ok (0, buf, calls)
read_loop len ptr remaining_bytes buf (failed ∷ calls) = ok (2 ^ 32 - 1, buf, calls)
read_loop len ptr remaining_bytes buf (got bytes ∷ calls) = do
  buf' ← poke ptr bytes buf
  if remaining_bytes - length bytes == 0
      then ok (len, buf', calls)
      else read_loop len (ptr + length bytes) (remaining_bytes - length bytes) buf' calls

-- Network::read_stream on an open connection, with its bound on `len`
unfoldable pub read_stream : ℕ → Bytes → List Read → Result (ℕ × Bytes × List Read)
read_stream len buf calls =
    if len == 0 || leb (2 ^ 31) len
    then ok (2 ^ 32 - 1, buf, calls)
    else read_loop len 0 len buf calls

-- Network::read_sctp_pkt: the length, then as many bytes. The first component is the value returned.
unfoldable pub read_packet : List Read → Packet → Result (ℕ × Packet × List Read)
read_packet calls pkt = do
  let p1 = clear_pkt pkt
  (retval, buf, calls1) ← read_stream 4 p1.data_ calls
  if retval == 0 || leb (2 ^ 31) retval then ok (retval, record p1 { data_ = buf }, calls1) else (do
    head ← peek 0 4 buf
    (retval2, buf2, calls2) ← read_stream (decode head) (clear_pkt p1).data_ calls1
    ok (retval2, record (clear_pkt p1) { data_ = buf2; data_ptr = 0; len = retval2 }, calls2))

-- SctpServer::rcv, which prints a failure and goes on.
unfoldable pub read_sctp_pkt : List Read → Packet → Result (Packet × List Read)
read_sctp_pkt calls pkt = do (retval, p1, calls1) ← read_packet calls pkt; ok (p1, calls1)

-- What one call of write(2) comes to: some bytes are taken, none is, or it fails.
pub data Write : Type 0 where
  took : ℕ → Write
  full broken : Write

-- The loop of Network::write_stream, by the calls that are to come, with the bytes that were
-- written. A call takes no more than it is given.
unfoldable pub write_loop : ℕ → ℕ → ℕ → Bytes → Bytes → List Write → Result (ℕ × Bytes × List Write)
write_loop len ptr remaining_bytes buf out [] = ok (0, out, [])
write_loop len ptr remaining_bytes buf out (full ∷ calls) = ok (0, out, calls)
write_loop len ptr remaining_bytes buf out (broken ∷ calls) = ok (2 ^ 32 - 1, out, calls)
write_loop len ptr remaining_bytes buf out (took zero ∷ calls) = ok (0, out, calls)
write_loop len ptr remaining_bytes buf out (took (suc n) ∷ calls) =
    let written_bytes = if ltb remaining_bytes (suc n) then remaining_bytes else suc n in
    peek ptr written_bytes buf >>= λ bytes.
    if remaining_bytes - written_bytes == 0
    then ok (len, out ++ bytes, calls)
    else write_loop len (ptr + written_bytes) (remaining_bytes - written_bytes) buf (out ++ bytes)
        calls

-- Network::write_stream on an open connection, with its bound on `len`
unfoldable pub write_stream : ℕ → Bytes → List Write → Result (ℕ × Bytes × List Write)
write_stream len buf calls =
    if len == 0 || leb (2 ^ 31) len
    then ok (2 ^ 32 - 1, [], calls)
    else write_loop len 0 len buf [] calls
