-- ===== src/Amf/Handover.antt =====
-- The handover handlers of class Amf (src/amf.cpp). They do not test the GUTI. `upf` is what the user
-- plane function answers over UDP, `raw` the memory of a new context.
use sba_g_rpc_5g.Base.{ℕ, Option, none, some, if◌then◌else◌}
use sba_g_rpc_5g.Result.{Result, ok, ◌>>=◌}
use sba_g_rpc_5g.Packet.{
  Packet, clear_pkt, append_bool, append_int, append_u16, append_u32, prepend_s1ap_hdr,
  extract_bool, extract_int, extract_u16, extract_u32,
}
use sba_g_rpc_5g.Rpc.{UdpPeer, ask}
use sba_g_rpc_5g.Sctp.{Segment, Peer, send, source_ran, target_ran}
use sba_g_rpc_5g.Amf.State.{UeContext, Amf, context, set_context, get_guti, g_upf_s11}

-- A message to a base station under the ids of the last S1AP header.
to_ran : Peer → ℕ → Packet → Result Segment
to_ran peer msg_type pkt = do
  p1 ←
      prepend_s1ap_hdr msg_type pkt.len pkt.s1ap_hdr.enodeb_s1ap_ue_id pkt.s1ap_hdr.mme_s1ap_ue_id
        pkt
  send peer p1

-- Amf::request_target_RAN, which Amf::handle_handover calls
unfoldable pub request_target_ran : UeContext → Packet → Amf → Result (Amf × Segment)
unfolding to_ran
request_target_ran raw pkt a = do
  (handover_type, p1) ← extract_int pkt
  (s_enb, p2) ← extract_u16 p1
  (t_enb, p3) ← extract_u16 p2
  (enodeb_s1ap_ue_id, p4) ← extract_u32 p3
  (mme_s1ap_ue_id, p5) ← extract_u32 p4
  let guti = get_guti p5 a
  let c = context raw guti a
  p6 ← append_u16 t_enb (clear_pkt p5)
  p7 ← append_u32 enodeb_s1ap_ue_id p6
  p8 ← append_u32 mme_s1ap_ue_id p7
  p9 ← append_u32 c.s1_uteid_ul p8
  out ← to_ran target_ran 7 p9
  ok (set_context guti c a, out)

unfoldable pub setup_indirect_tunnel :
    UeContext → UdpPeer → Packet → Amf → Result (Amf × Option Segment)
unfolding to_ran
setup_indirect_tunnel raw upf pkt a = do
  (s1_uteid_dl_ho, p1) ← extract_u32 pkt
  let guti = get_guti p1 a
  let c = context raw guti a
  p2 ← append_u32 s1_uteid_dl_ho (clear_pkt p1)
  p3 ← ask upf g_upf_s11 4 c.s11_cteid_upf p2
  (res, p4) ← extract_bool p3
  (s1_uteid_ul, p5) ← extract_u32 p4
  let a1 = set_context guti c a
  if res
      then (do
        p6 ← append_u32 s1_uteid_ul (clear_pkt p5)
        out ← to_ran source_ran 8 p6
        ok (a1, some out))
      else ok (a1, none)

-- The marker 1 is an `int`.
unfoldable pub handle_handover_completion :
    UeContext → UdpPeer → Packet → Amf → Result (Amf × Option Segment)
unfolding to_ran
handle_handover_completion raw upf pkt a = do
  let guti = get_guti pkt a
  let c = context raw guti a
  p1 ← append_int 1 (clear_pkt pkt)
  p2 ← ask upf g_upf_s11 5 c.s11_cteid_upf p1
  (res, p3) ← extract_bool p2
  let a1 = set_context guti c a
  if res
      then (do p4 ← append_bool res (clear_pkt p3); out ← to_ran source_ran 9 p4; ok (a1, some out))
      else ok (a1, none)

unfoldable pub teardown_indirect_tunnel : UeContext → UdpPeer → Packet → Amf → Result Amf
teardown_indirect_tunnel raw upf pkt a = do
  (s1_uteid_ul_ho, p1) ← extract_u32 pkt
  let guti = get_guti p1 a
  let c = context raw guti a
  p2 ← append_u32 s1_uteid_ul_ho (clear_pkt p1)
  p3 ← ask upf g_upf_s11 6 c.s11_cteid_upf p2
  (res, p4) ← extract_bool p3
  ok (set_context guti c a)
