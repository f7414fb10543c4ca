-- ===== src/Ran/Traffic.antt =====
-- The data plane of the base station: class UplinkInfo and class TrafficMonitor (src/ran.h,
-- src/ran.cpp). A handler gets the packet that the tunnel device or the socket has filled; what is
-- written to the tunnel device is a result.
use sba_g_rpc_5g.Base.{ℕ, Bool, Option, none, some}
use sba_g_rpc_5g.Result.{Result, ok, ◌>>=◌}
use sba_g_rpc_5g.Bytes.{Bytes}
use sba_g_rpc_5g.UnorderedMap.{Map, clear, put, bytes_key}
use sba_g_rpc_5g.Packet.{Packet, payload, truncate, prepend_gtp_hdr, extract_gtp_hdr}
use sba_g_rpc_5g.Net.{Datagram, set_inet_sock_addr, snd, get_src_ip_addr}

pub record UplinkInfo : Type 0 where
  pub s1_uteid_ul : ℕ
  pub sgw_s1_ip_addr : Bytes
  pub sgw_s1_port : ℕ

pub record TrafficMonitor : Type 0 where
  pub uplink_info : Map Bytes UplinkInfo

-- TrafficMonitor::TrafficMonitor()
unfoldable pub new_traffic_monitor : TrafficMonitor
new_traffic_monitor = record { uplink_info = clear }

-- UplinkInfo::init sets every member, so that the entry that was there does not matter.
unfoldable pub update_uplink_info : Bytes → ℕ → Bytes → ℕ → TrafficMonitor → TrafficMonitor
update_uplink_info ip_addr s1_uteid_ul sgw_s1_ip_addr sgw_s1_port t =
    let info : UplinkInfo = record {
      s1_uteid_ul = s1_uteid_ul;
      sgw_s1_ip_addr = sgw_s1_ip_addr;
      sgw_s1_port = sgw_s1_port;
    } in
    record t { uplink_info = put ip_addr info t.uplink_info }

unfoldable pub get_uplink_info : Bytes → TrafficMonitor → Option UplinkInfo
get_uplink_info ip_addr t = t.uplink_info ip_addr

forward_uplink : (Bytes → Bool) → Option UplinkInfo → Packet → Result (Option Datagram)
forward_uplink inet_aton none pkt = ok none
forward_uplink inet_aton (some i) pkt = do
  to ← set_inet_sock_addr inet_aton i.sgw_s1_ip_addr i.sgw_s1_port
  p1 ← prepend_gtp_hdr 1 1 pkt.len i.s1_uteid_ul pkt
  out ← snd to p1
  ok (some out)

-- Data of an address without a session is dropped. The address of the gateway is set in each call,
-- which ends the process if it is none.
unfoldable pub handle_uplink_udata :
    (Bytes → Bool) → Packet → TrafficMonitor → Result (Option Datagram)
unfolding forward_uplink
handle_uplink_udata inet_aton pkt t = do
  ip_addr ← get_src_ip_addr pkt
  forward_uplink inet_aton (get_uplink_info ip_addr t) pkt

-- The bytes are those that Tun::snd writes.
unfoldable pub handle_downlink_udata : Packet → Result Bytes
handle_downlink_udata pkt = do p1 ← extract_gtp_hdr pkt; p2 ← truncate p1; payload p2
