-- ===== src/Sink.antt =====
-- The sink behind the user plane function (src/sink.h, src/sink.cpp). A handler gets the packet that
-- the socket or the tunnel device has filled.
use sba_g_rpc_5g.Base.{[], ◌∷◌}
use sba_g_rpc_5g.Result.{Result}
use sba_g_rpc_5g.Bytes.{Bytes}
use sba_g_rpc_5g.Packet.{Packet, payload}
use sba_g_rpc_5g.Net.{SockAddr, Datagram, snd}

-- g_pgw_sgi_ip_addr, g_pgw_sgi_port
abbrev pub g_pgw_sgi : SockAddr
g_pgw_sgi = record {
  ip_addr = b'1' ∷ b'7' ∷ b'2' ∷ b'.' ∷ b'1' ∷ b'8' ∷ b'.' ∷ b'0' ∷ b'.' ∷ b'6' ∷ [];
  port = 8100;
}

-- The bytes are those that Tun::snd writes.
unfoldable pub handle_uplink_udata : Packet → Result Bytes
handle_uplink_udata = payload

unfoldable pub handle_downlink_udata : Packet → Result Datagram
handle_downlink_udata = snd g_pgw_sgi
