-- ===== src/Amf/Attach.antt =====
-- The handlers of class Amf from the attach request to the location update (src/amf.cpp). `raw` is the
-- memory of a new context, `raw_grpc` that of a new GrpcPacket.
use sba_g_rpc_5g.Base.{ℕ, ◌+◌, ◌%◌, ◌^◌, Bool, true, ◌==◌, if◌then◌else◌}
use sba_g_rpc_5g.Result.{Result, ok, fault, exit_failure, ◌>>=◌}
use sba_g_rpc_5g.Packet.{
  Packet, clear_pkt, append_u16, append_u64, prepend_s1ap_hdr, extract_u16, extract_u64,
  extract_bool, extract_diameter_hdr,
}
use sba_g_rpc_5g.Security.{Openssl, add_hmac, open_message}
use sba_g_rpc_5g.Sctp.{Segment, send, requester}
use sba_g_rpc_5g.Telecom.{get_guti}
use sba_g_rpc_5g.UnorderedMap.{put, nat_key}
use sba_g_rpc_5g.Amf.State.{
  UeContext, Amf, init_ue_context, context, set_context, set_crypt_context, set_integrity_context,
}
use sba_g_rpc_5g.Amf.State
use sba_g_rpc_5g.Amf.Clients.{GrpcPacket, AusfServer, amf_ausf_interaction}

-- The two locals that the handler reads without having written them.
pub record Unset : Type 0 where
  pub xres : ℕ
  pub k_asme : ℕ

-- The part of handle_initial_attach under the locks: the UE gets an id and a context.
unfoldable pub register : UeContext → ℕ → ℕ → ℕ → ℕ → ℕ → Amf → Amf
register raw guti imsi tai nw_capability enodeb_s1ap_ue_id a =
    let ue_count = (a.ue_count + 1) % 2 ^ 64 in
    let mme_s1ap_ue_id = ue_count % 2 ^ 32 in
    let a1 : Amf = record a {
      ue_count = ue_count;
      s1amf_id = put mme_s1ap_ue_id guti a.s1amf_id;
    } in
    set_context guti
      (init_ue_context imsi enodeb_s1ap_ue_id mme_s1ap_ue_id tai nw_capability
        (context raw guti a1))
      a1

-- What is stored after the AUSF has answered.
unfoldable pub store_keys : UeContext → Unset → ℕ → Amf → Amf
store_keys raw unset guti a =
    set_context guti
      (record (context raw guti a) { xres = unset.xres; k_asme = unset.k_asme; ksi_asme = 1 }) a

unfoldable pub handle_initial_attach :
    UeContext → GrpcPacket → Unset → AusfServer → Packet → Amf → Result (Amf × Segment)
handle_initial_attach raw raw_grpc unset ausf pkt a = do
  (imsi, p1) ← extract_u64 pkt
  (tai, p2) ← extract_u64 p1
  (ksi, p3) ← extract_u64 p2
  (nw_capability, p4) ← extract_u16 p3
  let enodeb_s1ap_ue_id = p4.s1ap_hdr.enodeb_s1ap_ue_id
  guti ← get_guti a.amf_ids.guamfi imsi
  let a1 = register raw guti imsi tai nw_capability enodeb_s1ap_ue_id a
  let asked = record raw_grpc {
    msg_type = 1;
    imsi = imsi;
    plmn_id = a.amf_ids.plmn_id;
    num_autn_vectors = 1;
    nw_type = (context raw guti a1).nw_type;
  }
  let gpkt = amf_ausf_interaction ausf asked
  let a2 = store_keys raw unset guti a1
  p5 ← append_u64 gpkt.autn_num (clear_pkt p4)
  p6 ← append_u64 gpkt.rand_num p5
  p7 ← append_u64 (context raw guti a2).ksi_asme p6
  p8 ← prepend_s1ap_hdr 1 p7.len enodeb_s1ap_ue_id (a1.ue_count % 2 ^ 32) p7
  out ← send requester p8
  ok (a2, out)

-- Both branches return true; the code after the first `return` of the second is never reached.
unfoldable pub handle_autn : UeContext → Packet → Amf → Result (Amf × Bool)
handle_autn raw pkt a = do
  let guti = State.get_guti pkt a
  if guti == 0 then fault exit_failure else do
    (res, p1) ← extract_u64 pkt
    let a1 = set_context guti (context raw guti a) a
    ok (a1, if res == (context raw guti a1).xres then true else true)

unfoldable pub handle_security_mode_cmd :
    Openssl → UeContext → Packet → Amf → Result (Amf × Segment)
handle_security_mode_cmd ssl raw pkt a = do
  let guti = State.get_guti pkt a
  if guti == 0 then fault exit_failure else do
    let a1 = set_integrity_context raw guti (set_crypt_context raw guti a)
    let c = context raw guti a1
    p1 ← append_u64 c.ksi_asme (clear_pkt pkt)
    p2 ← append_u16 c.nw_capability p1
    p3 ← append_u64 c.nas_enc_algo p2
    p4 ← append_u64 c.nas_int_algo p3
    p5 ← add_hmac ssl p4
    p6 ← prepend_s1ap_hdr 2 p5.len p5.s1ap_hdr.enodeb_s1ap_ue_id p5.s1ap_hdr.mme_s1ap_ue_id p5
    out ← send requester p6
    ok (a1, out)

unfoldable pub handle_security_mode_complete :
    Openssl → UeContext → Packet → Amf → Result (Amf × Bool)
handle_security_mode_complete ssl raw pkt a = do
  let guti = State.get_guti pkt a
  if guti == 0 then fault exit_failure else do
    p1 ← open_message ssl pkt
    (res, p2) ← extract_bool p1
    ok (set_context guti (context raw guti a) a, res)

-- The APN is read from the packet that the UE sent.
unfoldable pub handle_location_update :
    UeContext → GrpcPacket → AusfServer → Packet → Amf → Result Amf
handle_location_update raw raw_grpc ausf pkt a = do
  let guti = State.get_guti pkt a
  if guti == 0 then fault exit_failure else do
    let asked = record raw_grpc {
      mmei = a.amf_ids.amfi;
      imsi = (context raw guti a).imsi;
      msg_type = 2;
    }
    let gpkt = amf_ausf_interaction ausf asked
    p1 ← extract_diameter_hdr pkt
    (default_apn, p2) ← extract_u64 p1
    ok (
        set_context guti
          (record (context raw guti a) { default_apn = default_apn; apn_in_use = default_apn }) a)
