-- ===== src/Ran/Attach.antt =====
-- The attach procedure of the base station up to the security mode (src/ran.cpp).
use sba_g_rpc_5g.Base.{ℕ, ◌+◌, ◌-◌, ◌%◌, ◌^◌, Bool, true, false, ◌==◌, if◌then◌else◌, List, [], ◌∷◌}
use sba_g_rpc_5g.Result.{Result, ok, exit_failure, ◌>>=◌, ◌>>◌, require}
use sba_g_rpc_5g.Packet.{
  Packet, clear_pkt, append_bool, append_u16, append_u64, prepend_s1ap_hdr, extract_s1ap_hdr,
  extract_u16, extract_u64,
}
use sba_g_rpc_5g.Security.{Openssl, enc, add_hmac, rem_hmac, get_hmac, cmp_hmacs}
use sba_g_rpc_5g.Sctp.{Segment, send, requester}
use sba_g_rpc_5g.Ran.State.{RanContext, Ran, got_nothing, set_crypt_context, set_integrity_context}

unfoldable pub initial_attach : RanContext → Packet → Result Segment
initial_attach c pkt = do
  p1 ← append_u64 c.imsi (clear_pkt pkt)
  p2 ← append_u64 c.tai p1
  p3 ← append_u64 c.ksi_asme p2
  p4 ← append_u16 c.nw_capability p3
  p5 ← prepend_s1ap_hdr 1 p4.len c.enodeb_s1ap_ue_id 0 p4
  send requester p5

-- The response to a challenge: where `autn_num` is not the expected one it is taken from it.
unfoldable pub response : RanContext → ℕ → ℕ → ℕ
response c xautn_num rand_num =
    let sqn = (rand_num + 1) % 2 ^ 64 in
    let res = (c.key + sqn + rand_num) % 2 ^ 64 in
    let autn_num = (res + 1) % 2 ^ 64 in
    if autn_num == xautn_num then res else (xautn_num + 2 ^ 64 - 1) % 2 ^ 64

-- The key that both branches derive from the response.
unfoldable pub derive_k_asme : RanContext → ℕ → ℕ → ℕ
derive_k_asme c res rand_num =
    let sqn = (rand_num + 1) % 2 ^ 64 in
    let ck = (res + 2) % 2 ^ 64 in
    let ik = (res + 3) % 2 ^ 64 in (ck + ik + sqn + c.plmn_id) % 2 ^ 64

-- What Ran::authenticate does with a packet, on both branches of its test.
unfoldable pub answer_challenge : RanContext → Packet → Result (RanContext × Segment)
answer_challenge c pkt = do
  p1 ← extract_s1ap_hdr pkt
  (xautn_num, p2) ← extract_u64 p1
  (rand_num, p3) ← extract_u64 p2
  (ksi_asme, p4) ← extract_u64 p3
  let res = response c xautn_num rand_num
  let c' = record c {
    mme_s1ap_ue_id = p1.s1ap_hdr.mme_s1ap_ue_id;
    ksi_asme = ksi_asme;
    k_asme = derive_k_asme c res rand_num;
  }
  p5 ← append_u64 res (clear_pkt p4)
  p6 ← prepend_s1ap_hdr 2 p5.len c'.enodeb_s1ap_ue_id c'.mme_s1ap_ue_id p5
  out ← send requester p6
  ok (c', out)

-- Ran::authenticate
unfoldable pub authenticate : Ran → Packet → Result (Ran × List Segment × Bool)
authenticate r pkt = if got_nothing pkt then ok (r, [], false) else (do
  (c, out) ← answer_challenge r.ran_ctx pkt
  ok (record r { ran_ctx = c }, out ∷ [], true))

-- What Ran::set_security does with a packet
unfoldable pub answer_security_mode : Openssl → RanContext → Packet → Result (RanContext × Segment)
answer_security_mode ssl c pkt = do
  p1 ← extract_s1ap_hdr pkt
  (hmac_xres, p2) ← rem_hmac ssl p1
  (ksi_asme, p3) ← extract_u64 p2
  (nw_capability, p4) ← extract_u16 p3
  (nas_enc_algo, p5) ← extract_u64 p4
  (nas_int_algo, p6) ← extract_u64 p5
  let c' = set_integrity_context (
      set_crypt_context (record c {
        ksi_asme = ksi_asme;
        nw_capability = nw_capability;
        nas_enc_algo = nas_enc_algo;
        nas_int_algo = nas_int_algo;
      }))
  hmac_res ← get_hmac ssl p6
  require (cmp_hmacs ssl hmac_res hmac_xres) exit_failure
  p7 ← append_bool true (clear_pkt p6)
  p8 ← enc ssl p7
  p9 ← add_hmac ssl p8
  p10 ← prepend_s1ap_hdr 3 p9.len c'.enodeb_s1ap_ue_id c'.mme_s1ap_ue_id p9
  out ← send requester p10
  ok (c', out)

-- Ran::set_security
unfoldable pub set_security : Openssl → Ran → Packet → Result (Ran × List Segment × Bool)
set_security ssl r pkt = if got_nothing pkt then ok (r, [], false) else (do
  (c, out) ← answer_security_mode ssl r.ran_ctx pkt
  ok (record r { ran_ctx = c }, out ∷ [], true))
