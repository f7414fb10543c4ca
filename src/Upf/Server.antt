-- ===== src/Upf/Server.antt =====
-- The receive loops of the user plane function (src/upf_server.cpp): one round of each loop, and
-- the N4 loop over the datagrams that arrive. A handler gets a copy of the packet.
use sba_g_rpc_5g.Base.{Bool, Option, none, some, List, [], ◌∷◌, ◌==◌, if◌then◌else◌}
use sba_g_rpc_5g.Result.{Result, ok, ◌>>=◌}
use sba_g_rpc_5g.Bytes.{Bytes}
use sba_g_rpc_5g.Packet.{Packet, copy, received, extract_gtp_hdr}
use sba_g_rpc_5g.Net.{SockAddr, Datagram}
use sba_g_rpc_5g.Upf.State.{UeContext, Upf}
use sba_g_rpc_5g.Upf.Session.{
  handle_create_session, handle_modify_bearer, handle_uplink_udata, handle_downlink_udata,
  handle_detach,
}
use sba_g_rpc_5g.Upf.Handover.{
  handle_indirect_tunnel_setup, handle_handover_completion, handle_indirect_tunnel_teardown,
}

abbrev sent : Upf × Datagram → Result (Upf × Option Datagram)
sent (u, d) = ok (u, some d)

module _ (ho_raw raw : UeContext) where
  -- The switch of handle_s11_traffic.
  unfoldable pub handle_s11 : SockAddr → Packet → Upf → Result (Upf × Option Datagram)
  handle_s11 src pkt u = do
    arg ← copy pkt
    let msg_type = pkt.gtp_hdr.msg_type
    if msg_type == 1
        then handle_create_session raw src arg u >>= sent
        else if msg_type == 2
        then handle_modify_bearer raw src arg u >>= sent
        else if msg_type == 3
        then handle_detach src arg u >>= sent
        else if msg_type == 4
        then handle_indirect_tunnel_setup ho_raw raw src arg u >>= sent
        else if msg_type == 5
        then handle_handover_completion ho_raw raw src arg u >>= sent
        else if msg_type == 6
        then handle_indirect_tunnel_teardown raw src arg u >>= sent
        else ok (u, none)

  -- One round of handle_s11_traffic; the packet of the loop is used again.
  unfoldable pub s11_round :
      SockAddr → Bytes → Packet → Upf → Result (Packet × Upf × Option Datagram)
  s11_round src bytes pkt u = do
    p1 ← received bytes pkt
    p2 ← extract_gtp_hdr p1
    (u', out) ← handle_s11 src p2 u
    ok (p2, u', out)

  -- The loop over what arrives, with what it answers.
  unfoldable pub handle_s11_traffic :
      List (SockAddr × Bytes) → Packet → Upf → Result (Upf × List (Option Datagram))
  handle_s11_traffic [] pkt u = ok (u, [])
  handle_s11_traffic ((src, bytes) ∷ rest) pkt u = do
    (pkt', u', out) ← s11_round src bytes pkt u
    (u'', outs) ← handle_s11_traffic rest pkt' u'
    ok (u'', out ∷ outs)

-- One round of handle_s1_traffic: uplink data on N3.
unfoldable pub s1_round : SockAddr → Bytes → Packet → Result (Option Datagram)
s1_round sink bytes pkt = do
  p1 ← received bytes pkt
  p2 ← extract_gtp_hdr p1
  if p2.gtp_hdr.msg_type == 1
      then (do arg ← copy p2; out ← handle_uplink_udata sink arg; ok (some out))
      else ok none

-- One round of handle_sgi_traffic: downlink data, which carries no GTP header.
unfoldable pub sgi_round : (Bytes → Bool) → Bytes → Packet → Upf → Result (Option Datagram)
sgi_round inet_aton bytes pkt u = do
  p1 ← received bytes pkt
  arg ← copy p1
  handle_downlink_udata inet_aton arg u
