-- ===== src/Upf/Session.antt =====
-- The handlers of class Upf for sessions and user data (src/upf.cpp). `raw` is the memory that a
-- new context is made in. Each returns the new state and what it sends.
use sba_g_rpc_5g.Base.{ℕ, Bool, true, Option, none, some, [], ◌==◌, if◌then◌else◌}
use sba_g_rpc_5g.Result.{Result, ok, fault, exit_failure, ◌>>=◌}
use sba_g_rpc_5g.Bytes.{Bytes}
use sba_g_rpc_5g.Packet.{
  Packet, clear_pkt, truncate, append_bool, append_u32, append_string, prepend_gtp_hdr, extract_u8,
  extract_u32, extract_u64, extract_int, extract_string,
}
use sba_g_rpc_5g.Net.{SockAddr, Datagram, set_inet_sock_addr, snd, get_dst_ip_addr}
use sba_g_rpc_5g.UnorderedMap.{put, or_fresh, nat_key}
use sba_g_rpc_5g.Upf.State.{UeContext, Upf, new_ue_context, init_ue_context}
use sba_g_rpc_5g.Upf.Tables.{
  update_itfid, update_itfid_addr, get_imsi, get_imsi_addr, rem_itfid, rem_itfid_addr, rem_uectx,
  DownlinkInfo, get_downlink_info,
}

-- The part of handle_create_session that changes the tables.
unfoldable pub add_session : UeContext → ℕ → ℕ → ℕ → ℕ → ℕ → Bytes → Upf → Result Upf
add_session raw s11_cteid_smf imsi eps_bearer_id apn_in_use tai ue_ip_addr u = do
  let s1_uteid_ul = s11_cteid_smf
  let s11_cteid_upf = s11_cteid_smf
  u1 ← update_itfid 11 s11_cteid_upf imsi u
  u2 ← update_itfid 1 s1_uteid_ul imsi u1
  u3 ← update_itfid_addr 0 0 ue_ip_addr imsi u2
  let entry = or_fresh (new_ue_context raw) (u3.ue_ctx imsi)
  let ctx =
      init_ue_context ue_ip_addr tai apn_in_use eps_bearer_id s1_uteid_ul s11_cteid_smf
        s11_cteid_upf entry
  ok (record u3 { ue_ctx = put imsi (record ctx { tai = tai }) u3.ue_ctx })

unfoldable pub create_reply : SockAddr → ℕ → Bytes → Packet → Result Datagram
create_reply src s11_cteid_smf ue_ip_addr pkt = do
  p1 ← append_u32 s11_cteid_smf (clear_pkt pkt)
  p2 ← append_string ue_ip_addr p1
  p3 ← append_u32 s11_cteid_smf p2
  p4 ← prepend_gtp_hdr 2 1 p3.len s11_cteid_smf p3
  snd src p4

-- `ip_addrs[imsi]` makes an empty address for an IMSI that has none.
unfoldable pub handle_create_session : UeContext → SockAddr → Packet → Upf → Result (Upf × Datagram)
handle_create_session raw src pkt u = do
  (s11_cteid_smf, p1) ← extract_u32 pkt
  (imsi, p2) ← extract_u64 p1
  (eps_bearer_id, p3) ← extract_u8 p2
  (apn_in_use, p4) ← extract_u64 p3
  (tai, p5) ← extract_u64 p4
  let ue_ip_addr = or_fresh [] (u.ip_addrs imsi)
  u' ←
      add_session raw s11_cteid_smf imsi eps_bearer_id apn_in_use tai ue_ip_addr
        (record u { ip_addrs = put imsi ue_ip_addr u.ip_addrs })
  out ← create_reply src s11_cteid_smf ue_ip_addr p5
  ok (u', out)

-- A response of one flag, as the other handlers send it.
unfoldable pub flag_reply : SockAddr → ℕ → ℕ → Packet → Result Datagram
flag_reply src msg_type teid pkt = do
  p1 ← append_bool true (clear_pkt pkt)
  p2 ← prepend_gtp_hdr 2 msg_type p1.len teid p1
  snd src p2

unfoldable pub handle_modify_bearer : UeContext → SockAddr → Packet → Upf → Result (Upf × Datagram)
handle_modify_bearer raw src pkt u = do
  imsi ← get_imsi 11 pkt.gtp_hdr.teid u
  if imsi == 0 then fault exit_failure else do
    (eps_bearer_id, p1) ← extract_u8 pkt
    (s1_uteid_dl, p2) ← extract_u32 p1
    (enodeb_ip_addr, p3) ← extract_string p2
    (enodeb_port, p4) ← extract_int p3
    let entry = or_fresh (new_ue_context raw) (u.ue_ctx imsi)
    let ctx = record entry {
      s1_uteid_dl = s1_uteid_dl;
      enodeb_ip_addr = enodeb_ip_addr;
      enodeb_port = enodeb_port;
    }
    out ← flag_reply src 2 ctx.s11_cteid_smf p4
    ok (record u { ue_ctx = put imsi ctx u.ue_ctx }, out)

-- `sink` is g_sink_ip_addr and g_sink_port, constants of the source that inet_aton takes.
unfoldable pub handle_uplink_udata : SockAddr → Packet → Result Datagram
handle_uplink_udata sink pkt = do p1 ← truncate pkt; snd sink p1

forward_downlink : (Bytes → Bool) → Option DownlinkInfo → Packet → Result (Option Datagram)
forward_downlink inet_aton none pkt = ok none
forward_downlink inet_aton (some d) pkt = do
  p1 ← truncate pkt
  p2 ← prepend_gtp_hdr 1 2 p1.len d.s1_uteid_dl p1
  to ← set_inet_sock_addr inet_aton d.enodeb_ip_addr d.enodeb_port
  out ← snd to p2
  ok (some out)

-- Data for an address that no session has is dropped, and so is data before modify bearer. The
-- address of the base station is set in each call, which ends the process if it is none.
unfoldable pub handle_downlink_udata : (Bytes → Bool) → Packet → Upf → Result (Option Datagram)
unfolding forward_downlink
handle_downlink_udata inet_aton pkt u = do
  ue_ip_addr ← get_dst_ip_addr pkt
  imsi ← get_imsi_addr 0 0 ue_ip_addr u
  if imsi == 0 then ok none else forward_downlink inet_aton (get_downlink_info imsi u) pkt

-- The part of handle_detach that follows the response.
unfoldable pub remove_session : ℕ → UeContext → Upf → Result Upf
remove_session imsi c u = do
  u1 ← rem_itfid 11 c.s11_cteid_upf u
  u2 ← rem_itfid 1 c.s1_uteid_ul u1
  u3 ← rem_itfid_addr 0 0 c.ip_addr u2
  ok (rem_uectx imsi u3)

-- Without a context the process ends.
unfoldable pub detach_from :
    Option UeContext → ℕ → SockAddr → Packet → Upf → Result (Upf × Datagram)
detach_from none imsi src pkt u = fault exit_failure
detach_from (some c) imsi src pkt u = do
  out ← flag_reply src 3 c.s11_cteid_smf pkt
  u' ← remove_session imsi c u
  ok (u', out)

unfoldable pub handle_detach : SockAddr → Packet → Upf → Result (Upf × Datagram)
handle_detach src pkt u = do
  imsi ← get_imsi 11 pkt.gtp_hdr.teid u
  if imsi == 0 then fault exit_failure else do
    (eps_bearer_id, p1) ← extract_u8 pkt
    (tai, p2) ← extract_u64 p1
    detach_from (u.ue_ctx imsi) imsi src p2 u
