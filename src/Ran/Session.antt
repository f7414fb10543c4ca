-- ===== src/Ran/Session.antt =====
-- The session and the detach at the base station (src/ran.cpp).
use sba_g_rpc_5g.Base.{ℕ, ◌^◌, Bool, true, false, if◌then◌else◌, leb, List, [], ◌∷◌}
use sba_g_rpc_5g.Result.{Result, ok, ◌>>=◌}
use sba_g_rpc_5g.Packet.{
  Packet, clear_pkt, append_u8, append_u32, append_u64, prepend_s1ap_hdr, extract_s1ap_hdr,
  extract_bool, extract_u8, extract_u16, extract_u32, extract_u64, extract_int, extract_u64s,
  extract_string,
}
use sba_g_rpc_5g.Security.{Openssl, enc, add_hmac, open_message}
use sba_g_rpc_5g.Sctp.{Segment, send, requester}
use sba_g_rpc_5g.Ran.State.{RanContext, Ran, got_nothing}
use sba_g_rpc_5g.Ran.Traffic.{TrafficMonitor, update_uplink_info}

-- A negative number of list entries is no round of the loop.
unfoldable pub rounds : ℕ → ℕ
rounds n = if leb (2 ^ 31) n then 0 else n

-- What is read of the attach accept: the base station with it, and the result in the message.
unfoldable pub read_accept : Ran → Packet → Result (Ran × Bool × Packet)
unfolding rounds
read_accept r p0 = do
  (guti, p1) ← extract_u64 p0
  (eps_bearer_id, p2) ← extract_u8 p1
  (e_rab_id, p3) ← extract_u8 p2
  (s1_uteid_ul, p4) ← extract_u32 p3
  (k_enodeb, p5) ← extract_u64 p4
  (nw_capability, p6) ← extract_u16 p5
  (tai_list_size, p7) ← extract_int p6
  (tai_list, p8) ← extract_u64s (rounds tai_list_size) p7
  (tau_timer, p9) ← extract_u64 p8
  (ip_addr, p10) ← extract_string p9
  (sgw_s1_ip_addr, p11) ← extract_string p10
  (sgw_s1_port, p12) ← extract_int p11
  (res, p13) ← extract_bool p12
  let c = record r.ran_ctx {
    guti = guti;
    eps_bearer_id = eps_bearer_id;
    e_rab_id = e_rab_id;
    s1_uteid_ul = s1_uteid_ul;
    nw_capability = nw_capability;
    tai_list = tai_list;
    tau_timer = tau_timer;
    ip_addr = ip_addr;
  }
  let e = record r.epc_addrs { sgw_s1_ip_addr = sgw_s1_ip_addr; sgw_s1_port = sgw_s1_port }
  ok (record r { ran_ctx = c; epc_addrs = e }, res, p13)

-- What is stored where the result is true; the downlink TEID is the uplink TEID.
unfoldable pub attached : Ran → Ran
attached r = record r {
  ran_ctx = record r.ran_ctx { s1_uteid_dl = r.ran_ctx.s1_uteid_ul; emm_state = 1; ecm_state = 1 };
}

-- A protected message on the association of the UE.
unfoldable pub send_protected : Openssl → ℕ → RanContext → Packet → Result Segment
send_protected ssl msg_type c pkt = do
  p1 ← enc ssl pkt
  p2 ← add_hmac ssl p1
  p3 ← prepend_s1ap_hdr msg_type p2.len c.enodeb_s1ap_ue_id c.mme_s1ap_ue_id p2
  send requester p3

-- The end of set_eps_session: the traffic monitor is told, and the attach is completed.
unfoldable pub complete_attach :
    Openssl → Ran → Packet → TrafficMonitor → Result (Ran × TrafficMonitor × List Segment × Bool)
unfolding attached send_protected
complete_attach ssl r pkt t = do
  let c = r.ran_ctx
  let e = r.epc_addrs
  let t' = update_uplink_info c.ip_addr c.s1_uteid_ul e.sgw_s1_ip_addr e.sgw_s1_port t
  p1 ← append_u8 c.eps_bearer_id (clear_pkt pkt)
  p2 ← append_u32 c.s1_uteid_ul p1
  out ← send_protected ssl 4 c p2
  ok (attached r, t', out ∷ [], true)

unfoldable pub set_eps_session :
    Openssl → Ran → Packet → TrafficMonitor → Result (Ran × TrafficMonitor × List Segment × Bool)
set_eps_session ssl r pkt t = if got_nothing pkt then ok (r, t, [], false) else (do
  p1 ← extract_s1ap_hdr pkt
  p2 ← open_message ssl p1
  (r', res, p3) ← read_accept r p2
  if res then complete_attach ssl r' p3 t else ok (r', t, [], false))

-- Ran::detach up to the request
unfoldable pub request_detach : Openssl → Ran → Packet → Result Segment
unfolding send_protected
request_detach ssl r pkt = do
  p1 ← append_u64 r.ran_ctx.guti (clear_pkt pkt)
  p2 ← append_u64 r.ran_ctx.ksi_asme p1
  p3 ← append_u64 1 p2
  send_protected ssl 5 r.ran_ctx p3

-- Ran::detach from the answer on: nothing is stored.
unfoldable pub confirm_detach : Openssl → Packet → Result Bool
confirm_detach ssl pkt = if got_nothing pkt then ok false else (do
  p1 ← extract_s1ap_hdr pkt
  p2 ← open_message ssl p1
  (res, p3) ← extract_bool p2
  ok res)
