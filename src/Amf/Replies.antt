-- ===== src/Amf/Replies.antt =====
-- What the AMF sends to the base station, byte by byte (src/amf.cpp).
use sba_g_rpc_5g.Base.{
  ℕ, ◌+◌, ◌%◌, ◌^◌, ◌≤◌, ◌≡◌, [], ◌∷◌, ◌++◌, length, arith, append_assoc, length-append,
}
use sba_g_rpc_5g.Result.{ok}
use sba_g_rpc_5g.Bytes.{Bytes, encode}
use sba_g_rpc_5g.Packet.{
  Packet, append_bool, append_u8, append_u16, append_u32, append_u64, append_u64s, append_int,
  append_string, append_cstr,
}
use sba_g_rpc_5g.Packet.View.{append_bytes-view}
use sba_g_rpc_5g.Packet.Moves.{clear_pkt-view}
use sba_g_rpc_5g.Packet.Numbers.{IsText, c_str-IsText}
use sba_g_rpc_5g.Security.{Openssl, IsOpenssl}
use sba_g_rpc_5g.Sctp.{requester}
use sba_g_rpc_5g.Signals.{signal, frame}
use sba_g_rpc_5g.Signals.Protected.{sealed, cipher_of, reply_sealed}
use sba_g_rpc_5g.Amf.State.{UeContext, g_upf_s1_port}
use sba_g_rpc_5g.Amf.Clients.{GrpcPacket}
use sba_g_rpc_5g.Amf.Session.{attach_accept}

-- The body of the attach accept, with the one entry of the tracking area list.
unfoldable pub accept_body : GrpcPacket → UeContext → ℕ → Bytes
accept_body g c tai =
    encode 8 g.guti
    ++ (encode 1 (g.eps_bearer_id % 2 ^ 8)
        ++ (encode 1 c.e_rab_id
            ++ (encode 4 g.s1_uteid_ul
                ++ (encode 8 c.k_enodeb
                    ++ (encode 2 c.nw_capability
                        ++ (encode 4 1
                            ++ (encode 8 tai
                                ++ (encode 8 c.tau_timer
                                    ++ (encode 4 (length g.ue_ip_addr)
                                        ++ (g.ue_ip_addr
                                            ++ (encode 4 (length g.g_upf_s1_ip_addr)
                                                ++ (g.g_upf_s1_ip_addr
                                                    ++ (encode 4 g_upf_s1_port
                                                        ++ encode 1 1)))))))))))))

pub length-accept_body :
    (g : GrpcPacket) (c : UeContext) (tai : ℕ)
    → length (accept_body g c tai) ≡ 57 + length g.ue_ip_addr + length g.g_upf_s1_ip_addr
unfolding accept_body
length-accept_body g c tai = omega (
  arith,
  length-append g.ue_ip_addr (
      encode 4 (length g.g_upf_s1_ip_addr)
      ++ (g.g_upf_s1_ip_addr ++ (encode 4 g_upf_s1_port ++ encode 1 1))),
  length-append g.g_upf_s1_ip_addr (encode 4 g_upf_s1_port ++ encode 1 1),
)

module _ (ssl : Openssl) (w : IsOpenssl ssl) (g : GrpcPacket) (c : UeContext) (tai : ℕ)
    (listed : c.tai_list ≡ tai ∷ []) (ue_text : IsText g.ue_ip_addr)
    (upf_text : IsText g.g_upf_s1_ip_addr) (ue_short : length g.ue_ip_addr ≤ 15)
    (upf_short : length g.g_upf_s1_ip_addr ≤ 15) where
  abbrev fixed : Bytes
  fixed =
      encode 8 g.guti
      ++ (encode 1 (g.eps_bearer_id % 2 ^ 8)
          ++ (encode 1 c.e_rab_id
              ++ (encode 4 g.s1_uteid_ul
                  ++ (encode 8 c.k_enodeb
                      ++ (encode 2 c.nw_capability
                          ++ (encode 4 1
                              ++ (encode 8 tai
                                  ++ (encode 8 c.tau_timer ++ encode 4 (length g.ue_ip_addr)))))))))

  abbrev more : Bytes
  more = (fixed ++ g.ue_ip_addr) ++ encode 4 (length g.g_upf_s1_ip_addr)

  regroup :
      ((more ++ g.g_upf_s1_ip_addr) ++ encode 4 g_upf_s1_port) ++ encode 1 1 ≡ accept_body g c tai
  unfolding accept_body
  regroup = simp (append_assoc)

  pub attach_accept_lem :
      (pkt : Packet)
      → attach_accept ssl g c pkt
        ≡ ok (record {
          to = requester;
          bytes = frame (
              signal 3 pkt.s1ap_hdr.enodeb_s1ap_ue_id pkt.s1ap_hdr.mme_s1ap_ue_id pkt.s1ap_hdr
                (sealed ssl (cipher_of ssl w (accept_body g c tai))));
        })
  unfolding accept_body attach_accept append_bool append_u8 append_u16 append_u32 append_u64
      append_u64s append_int append_string append_cstr
  attach_accept_lem pkt =
      let p1 = encode 8 g.guti in
      let p2 = p1 ++ encode 1 (g.eps_bearer_id % 2 ^ 8) in
      let p3 = p2 ++ encode 1 c.e_rab_id in
      let p4 = p3 ++ encode 4 g.s1_uteid_ul in
      let p5 = p4 ++ encode 8 c.k_enodeb in
      let p6 = p5 ++ encode 2 c.nw_capability in
      let p7 = p6 ++ encode 4 1 in
      let p8 = p7 ++ encode 8 tai in
      let p9 = p8 ++ encode 8 c.tau_timer in
      let p10 = p9 ++ encode 4 (length g.ue_ip_addr) in
      let p11 = p10 ++ g.ue_ip_addr in
      let p12 = p11 ++ encode 4 (length g.g_upf_s1_ip_addr) in
      let p13 = p12 ++ g.g_upf_s1_ip_addr in
      let p14 = p13 ++ encode 4 g_upf_s1_port in
      let l2 = encode 4 (length g.g_upf_s1_ip_addr) in
      let k1 = length-append g.ue_ip_addr l2 in
      let k2 = length-append (g.ue_ip_addr ++ l2) g.g_upf_s1_ip_addr in
      let k3 =
        length-append ((g.ue_ip_addr ++ l2) ++ g.g_upf_s1_ip_addr) (encode 4 g_upf_s1_port) in
      rw
        (
          listed,
          clear_pkt-view pkt,
          c_str-IsText g.ue_ip_addr ue_text,
          c_str-IsText g.g_upf_s1_ip_addr upf_text,
          append_bytes-view pkt [] (encode 8 g.guti) (omega arith),
          append_bytes-view pkt p1 (encode 1 (g.eps_bearer_id % 2 ^ 8)) (omega arith),
          append_bytes-view pkt p2 (encode 1 c.e_rab_id) (omega arith),
          append_bytes-view pkt p3 (encode 4 g.s1_uteid_ul) (omega arith),
          append_bytes-view pkt p4 (encode 8 c.k_enodeb) (omega arith),
          append_bytes-view pkt p5 (encode 2 c.nw_capability) (omega arith),
          append_bytes-view pkt p6 (encode 4 1) (omega arith),
          append_bytes-view pkt p7 (encode 8 tai) (omega arith),
          append_bytes-view pkt p8 (encode 8 c.tau_timer) (omega arith),
          append_bytes-view pkt p9 (encode 4 (length g.ue_ip_addr)) (omega arith),
          append_bytes-view pkt p10 g.ue_ip_addr (omega (arith, k1, k2, k3)),
          append_bytes-view pkt p11 (encode 4 (length g.g_upf_s1_ip_addr))
              (omega (arith, k1, k2, k3)),
          append_bytes-view pkt p12 g.g_upf_s1_ip_addr (omega (arith, k1, k2, k3)),
          append_bytes-view pkt p13 (encode 4 g_upf_s1_port) (omega (arith, k1, k2, k3)),
          append_bytes-view pkt p14 (encode 1 1) (omega (arith, k1, k2, k3)),
        )
        (rw regroup (
          reply_sealed ssl w requester 3 pkt (accept_body g c tai)
            (omega (arith, length-accept_body g c tai))))
