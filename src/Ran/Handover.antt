-- ===== src/Ran/Handover.antt =====
-- The handover at the base station (src/ran.cpp). A method that takes a packet by value works on that
-- packet; the others on the member, which is `pkt` here too.
use sba_g_rpc_5g.Base.{ℕ}
use sba_g_rpc_5g.Result.{Result, ok, ◌>>=◌}
use sba_g_rpc_5g.Packet.{
  Packet, clear_pkt, append_int, append_u16, append_u32, prepend_s1ap_hdr, extract_u16, extract_u32,
}
use sba_g_rpc_5g.Sctp.{Segment, send, requester}
use sba_g_rpc_5g.Ran.State.{RanContext, Ran}

-- A message to the AMF under the ids of the context.
unfoldable pub to_amf : ℕ → RanContext → Packet → Result Segment
to_amf msg_type c pkt = do
  p1 ← prepend_s1ap_hdr msg_type pkt.len c.enodeb_s1ap_ue_id c.mme_s1ap_ue_id pkt
  send requester p1

-- The source id in the message is Ran's own member, not that of the context.
unfoldable pub initiate_handover : Ran → Packet → Result (Ran × Segment)
unfolding to_amf
initiate_handover r pkt = do
  let c = record r.ran_ctx { enodeb_id = 1; handover_target_enodeb_id = 2 }
  p1 ← append_int 0 (clear_pkt pkt)
  p2 ← append_u16 r.enodeb_id p1
  p3 ← append_u16 c.handover_target_enodeb_id p2
  p4 ← append_u32 c.enodeb_s1ap_ue_id p3
  p5 ← append_u32 c.mme_s1ap_ue_id p4
  out ← to_amf 7 c p5
  ok (record r { handover_state = 1; ran_ctx = c }, out)

-- At the target
unfoldable pub handle_handover : Ran → Packet → Result (Ran × Segment)
unfolding to_amf
handle_handover r pkt = do
  (t_enb, p1) ← extract_u16 pkt
  (enodeb_s1ap_ue_id, p2) ← extract_u32 p1
  (mme_s1ap_ue_id, p3) ← extract_u32 p2
  (s1_uteid_ul, p4) ← extract_u32 p3
  let c = record r.ran_ctx {
    enodeb_s1ap_ue_id = enodeb_s1ap_ue_id;
    mme_s1ap_ue_id = mme_s1ap_ue_id;
    s1_uteid_ul = s1_uteid_ul;
  }
  p5 ← append_u32 c.enodeb_s1ap_ue_id (clear_pkt p4)
  out ← to_amf 8 c p5
  ok (record r { handover_state = 3; ran_ctx = c }, out)

-- At the source
unfoldable pub indirect_tunnel_complete : Ran → Packet → Result Ran
indirect_tunnel_complete r pkt = do
  (indirect_s1_uteid_ul, p1) ← extract_u32 pkt
  let c = record r.ran_ctx { indirect_s1_uteid_ul = indirect_s1_uteid_ul }
  ok (record r { handover_state = 4; ran_ctx = c })

-- At the target
unfoldable pub complete_handover : Ran → Packet → Result Segment
unfolding to_amf
complete_handover r pkt = to_amf 9 r.ran_ctx (clear_pkt pkt)

-- At the source
unfoldable pub request_tear_down : Ran → Packet → Result (Ran × Segment)
unfolding to_amf
request_tear_down r pkt = do
  let c = record r.ran_ctx { s1_uteid_ul = 0 }
  p1 ← append_u32 c.indirect_s1_uteid_ul (clear_pkt pkt)
  out ← to_amf 10 c p1
  ok (record r { ran_ctx = c }, out)
