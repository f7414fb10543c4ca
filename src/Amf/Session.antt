-- ===== src/Amf/Session.antt =====
-- The handlers of class Amf for sessions and the detach (src/amf.cpp). `raw` is the memory of a new
-- context, `raw_grpc` that of a new GrpcPacket.
use sba_g_rpc_5g.Base.{ℕ, ◌%◌, ◌^◌, true, Option, none, some, [], ◌∷◌, ◌==◌, if◌then◌else◌}
use sba_g_rpc_5g.Result.{Result, ok, fault, exit_failure, ◌>>=◌}
use sba_g_rpc_5g.Packet.{
  Packet, clear_pkt, append_bool, append_u8, append_u16, append_u32, append_u64, append_u64s,
  append_int, append_string, prepend_s1ap_hdr, extract_u8, extract_u32, extract_u64,
}
use sba_g_rpc_5g.Security.{Openssl, add_hmac, enc, open_message}
use sba_g_rpc_5g.Sctp.{Segment, send, requester}
use sba_g_rpc_5g.Amf.State.{
  UeContext, Amf, context, set_context, get_guti, get_s11cteidamf, set_upf_info, rem_itfid,
  rem_uectx, g_trafmon, g_upf_s1_port, g_timer,
}
use sba_g_rpc_5g.Amf.Clients.{
  GrpcPacket, SmfServer, session_creation_fc, modify_bearer_fc, detach_fc,
}

-- What handle_create_session asks the SMF.
unfoldable pub create_grpc : GrpcPacket → ℕ → UeContext → GrpcPacket
create_grpc raw_grpc guti c = record raw_grpc {
  msg_type = 1;
  guti = guti;
  imsi = c.imsi;
  s11_cteid_amf = c.s11_cteid_amf;
  eps_bearer_id = c.eps_bearer_id;
  apn_in_use = c.apn_in_use;
  tai = c.tai;
}

-- What it stores of the answer.
unfoldable pub accept : GrpcPacket → UeContext → UeContext
accept g c = record c {
  ip_addr = g.ue_ip_addr;
  s11_cteid_upf = g.s11_cteid_upf;
  s1_uteid_ul = g.s1_uteid_ul;
  tai_list = c.tai ∷ [];
  tau_timer = g_timer;
  e_rab_id = c.eps_bearer_id;
  k_enodeb = c.k_asme;
}

-- The attach accept. `g_upf_s1_port` is assigned to itself, so it is the initial value.
unfoldable pub attach_accept : Openssl → GrpcPacket → UeContext → Packet → Result Segment
attach_accept ssl g c pkt = do
  p1 ← append_u64 g.guti (clear_pkt pkt)
  p2 ← append_u8 (g.eps_bearer_id % 2 ^ 8) p1
  p3 ← append_u8 c.e_rab_id p2
  p4 ← append_u32 g.s1_uteid_ul p3
  p5 ← append_u64 c.k_enodeb p4
  p6 ← append_u16 c.nw_capability p5
  p7 ← append_int 1 p6
  p8 ← append_u64s c.tai_list p7
  p9 ← append_u64 c.tau_timer p8
  p10 ← append_string g.ue_ip_addr p9
  p11 ← append_string g.g_upf_s1_ip_addr p10
  p12 ← append_int g_upf_s1_port p11
  p13 ← append_bool true p12
  p14 ← enc ssl p13
  p15 ← add_hmac ssl p14
  p16 ← prepend_s1ap_hdr 3 p15.len p15.s1ap_hdr.enodeb_s1ap_ue_id p15.s1ap_hdr.mme_s1ap_ue_id p15
  send requester p16

-- The context that is stored to is that of the GUTI in the answer.
unfoldable pub handle_create_session :
    Openssl → UeContext → GrpcPacket → SmfServer → Packet → Amf → Result (Amf × Segment)
handle_create_session ssl raw raw_grpc smf pkt a = do
  let guti = get_guti pkt a
  if guti == 0 then fault exit_failure else do
    let a1 = set_upf_info raw guti a
    s11_cteid_amf ← get_s11cteidamf guti
    let c1 = record (context raw guti a1) { s11_cteid_amf = s11_cteid_amf; eps_bearer_id = 5 }
    let a2 = set_context guti c1 a1
    let g = session_creation_fc smf (create_grpc raw_grpc guti c1)
    let c2 = accept g (context raw g.guti a2)
    let a3 : Amf = record (set_context g.guti c2 a2) { g_upf_s1_ip_addr = g.g_upf_s1_ip_addr }
    out ← attach_accept ssl g c2 pkt
    ok (a3, out)

unfoldable pub handle_attach_complete : Openssl → UeContext → Packet → Amf → Result Amf
handle_attach_complete ssl raw pkt a = do
  let guti = get_guti pkt a
  if guti == 0 then fault exit_failure else do
    p1 ← open_message ssl pkt
    (eps_bearer_id, p2) ← extract_u8 p1
    (s1_uteid_dl, p3) ← extract_u32 p2
    ok (
        set_context guti (record (context raw guti a) { s1_uteid_dl = s1_uteid_dl; emm_state = 1 })
          a)

unfoldable pub handle_modify_bearer : UeContext → GrpcPacket → SmfServer → Packet → Amf → Result Amf
handle_modify_bearer raw raw_grpc smf pkt a =
    let guti = get_guti pkt a in
    if guti == 0
    then fault exit_failure
    else (let c = context raw guti a in
        let g = modify_bearer_fc smf (record raw_grpc {
          guti = guti;
          eps_bearer_id = c.eps_bearer_id;
          s1_uteid_dl = c.s1_uteid_dl;
          g_trafmon_ip_addr = g_trafmon.ip_addr;
          g_trafmon_port = g_trafmon.port;
          msg_type = 2;
        }) in
        ok (set_context guti (if g.res then record c { ecm_state = 1 } else c) a))

-- The end of handle_detach, where the SMF has confirmed.
unfoldable pub confirm_detach : Openssl → ℕ → Packet → Amf → Result (Amf × Option Segment)
confirm_detach ssl guti pkt a = do
  p1 ← append_bool true (clear_pkt pkt)
  p2 ← enc ssl p1
  p3 ← add_hmac ssl p2
  p4 ← prepend_s1ap_hdr 5 p3.len p3.s1ap_hdr.enodeb_s1ap_ue_id p3.s1ap_hdr.mme_s1ap_ue_id p3
  out ← send requester p4
  ok (rem_uectx guti (rem_itfid p4.s1ap_hdr.mme_s1ap_ue_id a), some out)

-- The GUTI that is detached is the one in the message.
unfoldable pub handle_detach :
    Openssl → UeContext → GrpcPacket → SmfServer → Packet → Amf → Result (Amf × Option Segment)
handle_detach ssl raw raw_grpc smf pkt a = do
  let known = get_guti pkt a
  if known == 0 then fault exit_failure else do
    let c = context raw known a
    let a1 = set_context known c a
    p1 ← open_message ssl pkt
    (guti, p2) ← extract_u64 p1
    (ksi_asme, p3) ← extract_u64 p2
    (detach_type, p4) ← extract_u64 p3
    let g = detach_fc smf (record raw_grpc {
      guti = guti;
      eps_bearer_id = c.eps_bearer_id;
      tai = c.tai;
      msg_type = 3;
    })
    if g.res then confirm_detach ssl guti p4 a1 else ok (a1, none)
