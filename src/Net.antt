-- ===== src/Net.antt =====
-- What leaves a process over UDP, and the addresses in an IP header (src/network.cpp,
-- src/udp_client.cpp, src/udp_server.cpp). A datagram that a handler sends is part of its result;
-- whether it arrives is up to the network, which is no part of the repository.
use sba_g_rpc_5g.Base.{ℕ, ◌%◌, ◌^◌, Bool, ◌++◌, [], ◌∷◌, take, drop}
use sba_g_rpc_5g.Result.{Result, ok, exit_failure, require, ◌>>=◌, ◌>>◌}
use sba_g_rpc_5g.Bytes.{Bytes}
use sba_g_rpc_5g.Decimal.{to_string}
use sba_g_rpc_5g.Packet.{Packet, payload, peek}

-- What the program uses of struct sockaddr_in: an address, as a text, and a port.
pub record SockAddr : Type 0 where
  pub ip_addr : Bytes
  pub port : ℕ

-- Network::set_inet_sock_addr, which UdpClient::set_server calls. `inet_aton`, of the C library, says
-- whether a text is an address; htons keeps 16 bits of the port.
unfoldable pub set_inet_sock_addr : (Bytes → Bool) → Bytes → ℕ → Result SockAddr
set_inet_sock_addr inet_aton ip_addr port = do
  require (inet_aton ip_addr) exit_failure
  ok (record { ip_addr = ip_addr; port = port % 2 ^ 16 })

pub record Datagram : Type 0 where
  pub to : SockAddr
  pub bytes : Bytes

-- UdpServer::snd and UdpClient::snd, to an address that is set already. What is handed to sendto(2)
-- is the result; when it fails, handle_type2_error prints that and goes on.
unfoldable pub snd : SockAddr → Packet → Result Datagram
snd dst pkt = do bytes ← payload pkt; ok (record { to = dst; bytes = bytes })

-- inet_ntop(AF_INET, …) on four bytes
unfoldable pub inet_ntop : Bytes → Bytes
inet_ntop (a ∷ b ∷ c ∷ d ∷ _) =
    to_string a ++ (b'.' ∷ (to_string b ++ (b'.' ∷ (to_string c ++ (b'.' ∷ to_string d)))))
inet_ntop _ = []

-- IP_HDR_LEN
abbrev ip_hdr_len : ℕ
ip_hdr_len = 20

-- `ip_src` stands at byte 12 of the header and `ip_dst` at byte 16; the header is at the start of
-- the buffer, wherever `data_ptr` stands.
unfoldable pub get_src_ip_addr : Packet → Result Bytes
get_src_ip_addr pkt = do hdr ← peek 0 ip_hdr_len pkt.data_; ok (inet_ntop (take 4 (drop 12 hdr)))

unfoldable pub get_dst_ip_addr : Packet → Result Bytes
get_dst_ip_addr pkt = do hdr ← peek 0 ip_hdr_len pkt.data_; ok (inet_ntop (take 4 (drop 16 hdr)))
