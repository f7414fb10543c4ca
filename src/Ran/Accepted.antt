-- ===== src/Ran/Accepted.antt =====
-- The attach accept at the base station: what it stores and what it answers (src/ran.cpp), for the
-- message that the AMF sends (src/amf.cpp).
use sba_g_rpc_5g.Base.{ℕ, ◌%◌, ◌^◌, ◌≤◌, ◌<◌, ◌≡◌, true, [], ◌∷◌, ◌++◌, length, arith}
use sba_g_rpc_5g.Result.{ok}
use sba_g_rpc_5g.Bytes.{Bytes, encode}
use sba_g_rpc_5g.Packet.{
  Packet, append_u8, append_u32, extract_u8, extract_u16, extract_u32, extract_u64, extract_int,
  extract_u64s,
}
use sba_g_rpc_5g.Packet.View.{view, append_bytes-view, s1ap_hdr-view}
use sba_g_rpc_5g.Packet.Moves.{clear_pkt-view}
use sba_g_rpc_5g.Packet.Numbers.{
  IsText, extract_number-view, extract_string-view, extract_bool-view,
}
use sba_g_rpc_5g.Security.{Openssl, IsOpenssl}
use sba_g_rpc_5g.Sctp.{requester}
use sba_g_rpc_5g.Signals.{signal, frame}
use sba_g_rpc_5g.Signals.Protected.{sealed, cipher_of, send-sealed}
use sba_g_rpc_5g.Amf.State.{UeContext, g_upf_s1_port}
use sba_g_rpc_5g.Amf.Clients.{GrpcPacket}
use sba_g_rpc_5g.Amf.Replies.{accept_body}
use sba_g_rpc_5g.Ran.State.{RanContext, Ran}
use sba_g_rpc_5g.Ran.Traffic.{TrafficMonitor, update_uplink_info}
use sba_g_rpc_5g.Ran.Session.{read_accept, attached, send_protected, complete_attach}

-- The members of an attach accept are in the range of their types.
pub record IsAccept (g : GrpcPacket) (c : UeContext) (tai : ℕ) : Type 0 where
  pub guti : g.guti < 2 ^ 64
  pub e_rab_id : c.e_rab_id < 2 ^ 8
  pub s1_uteid_ul : g.s1_uteid_ul < 2 ^ 32
  pub k_enodeb : c.k_enodeb < 2 ^ 64
  pub nw_capability : c.nw_capability < 2 ^ 16
  pub area : tai < 2 ^ 64
  pub tau_timer : c.tau_timer < 2 ^ 64
  pub ue_text : IsText g.ue_ip_addr
  pub upf_text : IsText g.g_upf_s1_ip_addr
  pub ue_short : length g.ue_ip_addr ≤ 15
  pub upf_short : length g.g_upf_s1_ip_addr ≤ 15

-- The base station that has read it.
unfoldable pub accepted : GrpcPacket → UeContext → ℕ → Ran → Ran
accepted g c tai r = record r {
  ran_ctx = record r.ran_ctx {
    guti = g.guti;
    eps_bearer_id = g.eps_bearer_id % 2 ^ 8;
    e_rab_id = c.e_rab_id;
    s1_uteid_ul = g.s1_uteid_ul;
    nw_capability = c.nw_capability;
    tai_list = tai ∷ [];
    tau_timer = c.tau_timer;
    ip_addr = g.ue_ip_addr;
  };
  epc_addrs = record r.epc_addrs {
    sgw_s1_ip_addr = g.g_upf_s1_ip_addr;
    sgw_s1_port = g_upf_s1_port;
  };
}

module _ (g : GrpcPacket) (c : UeContext) (tai : ℕ) (m : IsAccept g c tai) where
  pub read_accept_lem :
      (r : Ran) (q : Packet)
      → (q' : Packet) × (read_accept r (view q [] (accept_body g c tai))
          ≡ ok (accepted g c tai r, true, q'))
        × (q'.s1ap_hdr ≡ q.s1ap_hdr)
  unfolding read_accept accepted accept_body extract_u8 extract_u16 extract_u32 extract_u64
      extract_int extract_u64s
  read_accept_lem r q =
      let p1 = encode 8 g.guti in
      let p2 = p1 ++ encode 1 (g.eps_bearer_id % 2 ^ 8) in
      let p3 = p2 ++ encode 1 c.e_rab_id in
      let p4 = p3 ++ encode 4 g.s1_uteid_ul in
      let p5 = p4 ++ encode 8 c.k_enodeb in
      let p6 = p5 ++ encode 2 c.nw_capability in
      let p7 = p6 ++ encode 4 1 in
      let p8 = p7 ++ encode 8 tai in
      let p9 = p8 ++ encode 8 c.tau_timer in
      let p10 = p9 ++ encode 4 (length g.ue_ip_addr) in
      let p11 = p10 ++ g.ue_ip_addr in
      let p12 = p11 ++ encode 4 (length g.g_upf_s1_ip_addr) in
      let p13 = p12 ++ g.g_upf_s1_ip_addr in
      let p14 = p13 ++ encode 4 g_upf_s1_port in
      let p15 = p14 ++ encode 1 1 in
      (
        view q p15 [],
        rw (
          extract_number-view 8 g.guti q [] _ m.guti,
          extract_number-view 1 (g.eps_bearer_id % 2 ^ 8) q p1 _ (omega arith),
          extract_number-view 1 c.e_rab_id q p2 _ m.e_rab_id,
          extract_number-view 4 g.s1_uteid_ul q p3 _ m.s1_uteid_ul,
          extract_number-view 8 c.k_enodeb q p4 _ m.k_enodeb,
          extract_number-view 2 c.nw_capability q p5 _ m.nw_capability,
          extract_number-view 4 1 q p6 _ (omega arith),
          extract_number-view 8 tai q p7 _ m.area,
          extract_number-view 8 c.tau_timer q p8 _ m.tau_timer,
          extract_string-view g.ue_ip_addr q p9 _ m.ue_text (omega (arith, m.ue_short)),
          extract_string-view g.g_upf_s1_ip_addr q p11 _ m.upf_text (omega (arith, m.upf_short)),
          extract_number-view 4 g_upf_s1_port q p13 _ (omega arith),
          extract_bool-view true q p14 [],
        ),
        s1ap_hdr-view q p15 [],
      )

-- The attach complete: the bearer and the TEID, which is the uplink one.
abbrev pub complete_body : RanContext → Bytes
complete_body c = encode 1 c.eps_bearer_id ++ encode 4 c.s1_uteid_ul

module _ (ssl : Openssl) (w : IsOpenssl ssl) where
  pub complete_attach_lem :
      (r : Ran) (q : Packet) (t : TrafficMonitor)
      → let c = r.ran_ctx in
        let e = r.epc_addrs in
        complete_attach ssl r q t
        ≡ ok (
          attached r,
          update_uplink_info c.ip_addr c.s1_uteid_ul e.sgw_s1_ip_addr e.sgw_s1_port t,
          (record {
            to = requester;
            bytes = frame (
                signal 4 c.enodeb_s1ap_ue_id c.mme_s1ap_ue_id q.s1ap_hdr
                  (sealed ssl (cipher_of ssl w (complete_body c))));
          })
              ∷ [],
          true,
        )
  unfolding complete_attach send_protected append_u8 append_u32
  complete_attach_lem r q t =
      let c = r.ran_ctx in
      rw (
        clear_pkt-view q,
        append_bytes-view q [] (encode 1 c.eps_bearer_id) (omega arith),
        append_bytes-view q (encode 1 c.eps_bearer_id) (encode 4 c.s1_uteid_ul) (omega arith),
        send-sealed ssl w requester 4 c.enodeb_s1ap_ue_id c.mme_s1ap_ue_id q (complete_body c)
            (omega arith),
      )
