-- ===== src/Packet/Buffer.antt =====
-- The packet object and its memory: constructors, truncate, clear_pkt and the two ends of a
-- transfer (src/packet.h, src/packet.cpp, src/udp_client.cpp, src/udp_server.cpp).
-- An `int` member is its bit pattern, below 2 ^ 32, so a negative length is a large number. A
-- `memmove` that leaves the buffer of BUF_SIZE bytes is a fault: the source has no check of its own.
use sba_g_rpc_5g.Base.{
  ℕ, ◌+◌, ◌-◌, ◌%◌, ◌^◌, ◌++◌, length, take, drop, replicate, leb, if◌then◌else◌,
}
use sba_g_rpc_5g.Result.{Result, ok, fault, overrun, ◌>>=◌}
use sba_g_rpc_5g.Bytes.{Bytes}
use sba_g_rpc_5g.Packet.Headers.{Gtp, S1ap, Diameter}

-- BUF_SIZE
abbrev pub buf_size : ℕ
buf_size = 1024

pub record Packet : Type 0 where
  pub gtp_hdr : Gtp
  pub s1ap_hdr : S1ap
  pub diameter_hdr : Diameter
  pub data_ : Bytes
  pub data_ptr : ℕ
  pub len : ℕ

-- `memmove(data + at, xs, n)` and `memmove(dst, data + at, n)` on an allocated buffer
unfoldable pub poke : ℕ → Bytes → Bytes → Result Bytes
poke at xs buf =
    if leb (at + length xs) (length buf)
    then ok (take at buf ++ (xs ++ drop (at + length xs) buf))
    else fault overrun

unfoldable pub peek : ℕ → ℕ → Bytes → Result Bytes
peek at n buf = if leb (at + n) (length buf) then ok (take n (drop at buf)) else fault overrun

-- Utils::allocate_uint8_mem(BUF_SIZE): cleared memory
unfoldable pub allocate : Bytes
allocate = replicate buf_size 0

abbrev pub add_int : ℕ → ℕ → ℕ
add_int a b = (a + b) % 2 ^ 32

abbrev pub sub_int : ℕ → ℕ → ℕ
sub_int a b = (a + 2 ^ 32 - b) % 2 ^ 32

-- Packet::Packet(). The headers are what their memory held; Gtp::Gtp clears three fields.
unfoldable pub new_packet : Packet → Packet
new_packet raw = record {
  gtp_hdr = record raw.gtp_hdr { field_1 = 0; field_2 = 0; field_3 = 0 };
  s1ap_hdr = raw.s1ap_hdr;
  diameter_hdr = raw.diameter_hdr;
  data_ = allocate;
  data_ptr = 0;
  len = 0;
}

-- Packet::Packet(const Packet&): only the first `len` bytes are copied.
unfoldable pub copy : Packet → Result Packet
copy src = do
  bytes ← peek 0 src.len src.data_
  buf ← poke 0 bytes allocate
  ok (record src { data_ = buf })

-- A negative `new_len` is a huge count for `memmove`.
unfoldable pub truncate : Packet → Result Packet
truncate p = do
  let new_len = sub_int p.len p.data_ptr
  bytes ← peek p.data_ptr new_len p.data_
  buf ← poke 0 bytes allocate
  ok (record p { data_ = buf; data_ptr = 0; len = new_len })

unfoldable pub clear_pkt : Packet → Packet
clear_pkt p = record p { data_ = allocate; data_ptr = 0; len = 0 }

-- What is handed to the socket: `sendto(conn_fd, pkt.data, pkt.len, …)` on a copy.
unfoldable pub payload : Packet → Result Bytes
payload p = do q ← copy p; peek 0 q.len q.data_

-- A packet that a `rcv` has filled, by the bytes that arrived: the buffer was cleared before.
unfoldable pub received : Bytes → Packet → Result Packet
received bytes p = do
  buf ← poke 0 bytes allocate
  ok (record p { data_ = buf; data_ptr = 0; len = length bytes })

-- UdpClient::rcv after a time-out: the status -1 is only printed, and becomes the length.
unfoldable pub received_nothing : Packet → Packet
received_nothing p = record p { data_ = allocate; data_ptr = 0; len = 2 ^ 32 - 1 }
