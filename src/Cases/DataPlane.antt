-- ===== src/Cases/DataPlane.antt =====
-- The theorems on user data at concrete packets.
use sba_g_rpc_5g.Base.{◌≡◌, refl, some, [], ◌∷◌, ◌++◌, arith}
use sba_g_rpc_5g.Result.{ok, ◌>>=◌}
use sba_g_rpc_5g.Bytes.{Bytes}
use sba_g_rpc_5g.Packet.{received}
use sba_g_rpc_5g.Packet.Transport.{IsGtp}
use sba_g_rpc_5g.Packet.View.{view}
use sba_g_rpc_5g.Decimal.{to_string, digits}
use sba_g_rpc_5g.Net.{Datagram, inet_ntop}
use sba_g_rpc_5g.UnorderedMap.{clear, put, bytes_key, bytes_same}
use sba_g_rpc_5g.Upf.Tables.{get_downlink_info}
use sba_g_rpc_5g.Upf.Server.{s1_round, sgi_round}
use sba_g_rpc_5g.Upf.Tests.{ip_head, ip_dst, connected, reached, smf, is_addr}
use sba_g_rpc_5g.Sink.{g_pgw_sgi}
use sba_g_rpc_5g.Sink
use sba_g_rpc_5g.Ran.Traffic as RanTraffic
use sba_g_rpc_5g.Ran.Traffic.{UplinkInfo, TrafficMonitor}
use sba_g_rpc_5g.DataPlane.{handle_uplink_udata-s1_round, sgi_round-handle_downlink_udata}
use sba_g_rpc_5g.Cases.Data.{packet_0, gtp_0, addr}

gtp_0-IsGtp : IsGtp gtp_0
gtp_0-IsGtp = record {
  flags = omega arith;
  pad_1 = omega arith;
  msg_len = omega arith;
  field_1 = omega arith;
  field_2 = omega arith;
  field_3 = omega arith;
  msg_type = omega arith;
  pad_2 = omega arith;
  teid = omega arith;
}

abbrev uplink : UplinkInfo
uplink = record { s1_uteid_ul = 7; sgw_s1_ip_addr = addr; sgw_s1_port = 7100 }

abbrev monitor : TrafficMonitor
monitor = record { uplink_info = put addr uplink clear }

abbrev first_12 : Bytes
first_12 = 69 ∷ 0 ∷ 0 ∷ 21 ∷ 0 ∷ 0 ∷ 0 ∷ 0 ∷ 64 ∷ 17 ∷ 0 ∷ 0 ∷ []

abbrev other : Bytes
other = 8 ∷ 8 ∷ 8 ∷ 8 ∷ []

source_known : monitor.uplink_info (inet_ntop ip_dst) ≡ some uplink
unfolding inet_ntop to_string digits bytes_same
source_known = refl

handle_uplink_udata-s1_round_example :
    let packet = first_12 ++ (ip_dst ++ (other ++ (17 ∷ []))) in
    (out : Datagram) × (through : Datagram) × (RanTraffic.handle_uplink_udata is_addr
        (view packet_0 [] packet)
        monitor
      ≡ ok (some out))
    × (out.to ≡ record { ip_addr = addr; port = 7100 })
    × (s1_round smf out.bytes packet_0 ≡ ok (some through))
    × (through.to ≡ smf)
    × ((received through.bytes packet_0 >>= Sink.handle_uplink_udata) ≡ ok packet)
handle_uplink_udata-s1_round_example =
    handle_uplink_udata-s1_round packet_0 packet_0 packet_0 monitor smf first_12 ip_dst other
      (17 ∷ []) refl refl refl (omega arith) is_addr uplink source_known refl (omega arith)
      gtp_0-IsGtp

sgi_round-handle_downlink_udata_example :
    let packet = ip_head ++ (ip_dst ++ (17 ∷ [])) in
    (first : Datagram) × (out : Datagram) × (Sink.handle_downlink_udata (view packet_0 [] packet)
      ≡ ok first)
    × (first.to ≡ g_pgw_sgi)
    × (sgi_round is_addr first.bytes packet_0 connected ≡ ok (some out))
    × (out.to ≡ record { ip_addr = addr; port = 4000 })
    × ((received out.bytes packet_0 >>= RanTraffic.handle_downlink_udata) ≡ ok packet)
unfolding get_downlink_info
sgi_round-handle_downlink_udata_example =
    sgi_round-handle_downlink_udata packet_0 packet_0 packet_0 connected ip_head ip_dst (17 ∷ [])
      refl refl (omega arith) is_addr 119000000007
      (record { s1_uteid_dl = 9; enodeb_ip_addr = addr; enodeb_port = 4000 }) reached (omega arith)
      refl refl (omega arith) gtp_0-IsGtp
