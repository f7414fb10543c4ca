-- ===== src/Smf/Lifecycle.antt =====
-- The handlers of the session management function when the user plane function answers: what it is
-- asked, and what the reply and the context take from its answer.
use sba_g_rpc_5g.Base.{
  nonzero, ℕ, ◌%◌, ◌^◌, ◌≤◌, ◌<◌, ◌≡◌, ◌≢◌, ◌∙◌, true, some, [], ◌∷◌, ◌++◌, length, arith,
  length-append,
}
use sba_g_rpc_5g.Result.{ok}
use sba_g_rpc_5g.Bytes.{Bytes, encode}
use sba_g_rpc_5g.Packet.{
  Packet, Gtp, gtp_bytes, new_packet, append_u8, append_u32, append_u64, append_int, append_string,
  append_cstr, extract_u32,
}
use sba_g_rpc_5g.Packet.View.{view, append_bytes-view}
use sba_g_rpc_5g.Packet.Moves.{clear_pkt-view}
use sba_g_rpc_5g.Packet.Numbers.{
  IsText, c_str-IsText, extract_number-view, extract_bool-view, extract_string-view,
}
use sba_g_rpc_5g.Packet.Transport.{IsGtp, control_hdr}
use sba_g_rpc_5g.Messages.{message}
use sba_g_rpc_5g.Exchanges.{ask-answered}
use sba_g_rpc_5g.Rpc.{AmfSmfRequest, AmfSmfReply, UdpPeer, ask}
use sba_g_rpc_5g.UnorderedMap.{put, nat_key}
use sba_g_rpc_5g.Smf.State.{UeContext, Smf, g_upf_smf}
use sba_g_rpc_5g.Smf.Handlers.{
  context, ask_create, requested, answered, create_reply, handle_create_session,
  handle_modify_bearer, handle_detach,
}
use sba_g_rpc_5g.Upf.Requests.{create_request, modify_request}
use sba_g_rpc_5g.Upf.Replies.{create_body}

module _ (raw : UeContext) (fresh : Packet) (upf : UdpPeer) where
  -- The body of the request is that of the UPF's.
  pub ask_create-request :
      (c : UeContext)
      → ask_create raw fresh upf c
        ≡ ask upf g_upf_smf 1 0 (
            view
              (new_packet fresh)
              (create_request c.s11_cteid_mme c.imsi c.eps_bearer_id c.apn_in_use c.tai)
              [])
  unfolding ask_create append_u8 append_u32 append_u64
  ask_create-request c =
      let q = new_packet fresh in
      let p1 = encode 4 c.s11_cteid_mme in
      let p2 = p1 ++ encode 8 c.imsi in
      let p3 = p2 ++ encode 1 c.eps_bearer_id in
      let p4 = p3 ++ encode 8 c.apn_in_use in
      rw (
        clear_pkt-view q,
        append_bytes-view q [] p1 (omega arith),
        append_bytes-view q p1 (encode 8 c.imsi) (omega arith),
        append_bytes-view q p2 (encode 1 c.eps_bearer_id) (omega arith),
        append_bytes-view q p3 (encode 8 c.apn_in_use) (omega arith),
        append_bytes-view q p4 (encode 8 c.tai) (omega arith),
      )

  ask_create-answered :
      (c : UeContext) (teid : ℕ) (h : Gtp) (addr : Bytes)
      → IsGtp h
      → teid < 2 ^ 32
      → length addr ≤ 15
      → upf (record {
        to = g_upf_smf;
        bytes =
            message 1 0
              (new_packet fresh).gtp_hdr
              (create_request c.s11_cteid_mme c.imsi c.eps_bearer_id c.apn_in_use c.tai);
      })
        ≡ some (message 1 teid h (create_body teid addr))
      → let g = control_hdr 1 (length (create_body teid addr) % 2 ^ 16) teid h in
        ask_create raw fresh upf c
        ≡ ok
            (view (record (new_packet fresh) { gtp_hdr = g }) (gtp_bytes g) (create_body teid addr))
  ask_create-answered c teid h addr r ht short e =
      ask_create-request c
      ∙ ask-answered upf g_upf_smf 1 0 (new_packet fresh)
          (create_request c.s11_cteid_mme c.imsi c.eps_bearer_id c.apn_in_use c.tai) (omega arith) 1
          teid h (create_body teid addr) r (omega arith) ht
          (omega (arith, length-append addr (encode 4 teid))) e

  pub handle_create_session_lem :
      (request : AmfSmfRequest) (reply : AmfSmfReply) (s : Smf) (teid : ℕ) (h : Gtp) (addr : Bytes)
      → request.guti ≢ 0
      → IsGtp h
      → teid < 2 ^ 32
      → IsText addr
      → length addr ≤ 15
      → upf (record {
        to = g_upf_smf;
        bytes = message 1 0 (new_packet fresh).gtp_hdr (
            create_request
              (request.s11_cteid_amf % 2 ^ 32)
              request.imsi
              (request.eps_bearer_id % 2 ^ 8)
              request.apn_in_use
              request.tai);
      })
        ≡ some (message 1 teid h (create_body teid addr))
      → let c =
          answered raw fresh upf teid addr teid
            (requested raw fresh upf request (context raw request.guti s)) in
        handle_create_session raw fresh upf request reply s
        ≡ ok (
          record s { ue_ctx = put request.guti c s.ue_ctx },
          create_reply raw fresh upf request.guti c reply,
        )
  unfolding handle_create_session requested extract_u32
  handle_create_session_lem request reply s teid h addr real r ht text short e =
      let c1 = requested raw fresh upf request (context raw request.guti s) in
      let g = control_hdr 1 (length (create_body teid addr) % 2 ^ 16) teid h in
      let q = record (new_packet fresh) { gtp_hdr = g } in
      let p1 = gtp_bytes g ++ encode 4 teid in
      let p2 = (p1 ++ encode 4 (length addr)) ++ addr in
      rw (
        nonzero request.guti real,
        ask_create-answered c1 teid h addr r ht short e,
        extract_number-view 4 teid q (gtp_bytes g)
            (encode 4 (length addr) ++ (addr ++ encode 4 teid)) ht,
        extract_string-view addr q p1 (encode 4 teid) text (omega arith),
        extract_number-view 4 teid q p2 [] ht,
      )

  -- For a GUTI other than 0 with a context, and an address of at most 15 bytes without a NUL: when
  -- the UPF acknowledges the modify bearer request that has the bearer and the downlink TEID of the
  -- context, and of the gRPC request only the address and the port, the reply has its flag set, the
  -- context is unchanged, and the address and the port are kept.
  pub handle_modify_bearer-overrides :
      (request : AmfSmfRequest) (reply : AmfSmfReply) (s : Smf) (c : UeContext) (teid : ℕ) (h : Gtp)
      → request.guti ≢ 0
      → s.ue_ctx request.guti ≡ some c
      → IsGtp h
      → teid < 2 ^ 32
      → IsText request.g_trafmon_ip_addr
      → length request.g_trafmon_ip_addr ≤ 15
      → upf (record {
        to = g_upf_smf;
        bytes = message 2 c.s11_cteid_sgw (new_packet fresh).gtp_hdr (
            modify_request c.eps_bearer_id c.s1_uteid_dl request.g_trafmon_ip_addr
              (request.g_trafmon_port % 2 ^ 32));
      })
        ≡ some (message 2 teid h (1 ∷ []))
      → let s' : Smf = record {
        ue_ctx = put request.guti c s.ue_ctx;
        g_trafmon_ip_addr = request.g_trafmon_ip_addr;
        g_trafmon_port = request.g_trafmon_port % 2 ^ 32;
      } in
        handle_modify_bearer raw fresh upf request reply s ≡ ok (s', record reply { res = true })
  unfolding handle_modify_bearer append_u8 append_u32 append_int append_string append_cstr
  handle_modify_bearer-overrides request reply s c teid h real there r ht text short e =
      let q = new_packet fresh in
      let addr = request.g_trafmon_ip_addr in
      let port = request.g_trafmon_port % 2 ^ 32 in
      let p1 = encode 1 c.eps_bearer_id in
      let p2 = p1 ++ encode 4 c.s1_uteid_dl in
      let p3 = p2 ++ encode 4 (length addr) in
      let body = modify_request c.eps_bearer_id c.s1_uteid_dl addr port in
      let g = control_hdr 2 1 teid h in
      rw
        (
          nonzero request.guti real,
          there,
          clear_pkt-view q,
          c_str-IsText addr text,
          append_bytes-view q [] p1 (omega arith),
          append_bytes-view q p1 (encode 4 c.s1_uteid_dl) (omega arith),
          append_bytes-view q p2 (encode 4 (length addr)) (omega arith),
          append_bytes-view q p3 addr (omega arith),
          append_bytes-view q (p3 ++ addr) (encode 4 port) (omega (arith, length-append p3 addr)),
        )
        (rw (
          ask-answered upf g_upf_smf 2 c.s11_cteid_sgw q body
              (omega (arith, length-append addr (encode 4 port))) 2 teid h (1 ∷ []) r (omega arith)
              ht (omega arith) e,
          extract_bool-view true (record q { gtp_hdr = g }) (gtp_bytes g) [],
        ))

  -- For a GUTI other than 0 with a context: when the UPF acknowledges the detach request with the
  -- bearer and the tracking area of the gRPC request under the TEID of the context, the reply has
  -- its flag set, and the context of the UE is still there.
  pub handle_detach-keeps :
      (request : AmfSmfRequest) (reply : AmfSmfReply) (s : Smf) (c : UeContext) (teid : ℕ) (h : Gtp)
      → request.guti ≢ 0
      → s.ue_ctx request.guti ≡ some c
      → IsGtp h
      → teid < 2 ^ 32
      → upf (record {
        to = g_upf_smf;
        bytes =
            message 3 c.s11_cteid_sgw
              (new_packet fresh).gtp_hdr
              (encode 1 (request.eps_bearer_id % 2 ^ 8) ++ (encode 8 request.tai ++ []));
      })
        ≡ some (message 3 teid h (1 ∷ []))
      → (s' : Smf) × (handle_detach raw fresh upf request reply s
          ≡ ok (s', record reply { res = true }))
        × (s'.ue_ctx request.guti ≡ some c)
  unfolding handle_detach append_u8 append_u64
  handle_detach-keeps request reply s c teid h real there r ht e =
      let q = new_packet fresh in
      let p1 = encode 1 (request.eps_bearer_id % 2 ^ 8) in
      let body = p1 ++ (encode 8 request.tai ++ []) in
      let g = control_hdr 3 1 teid h in
      (
        record s { ue_ctx = put request.guti c s.ue_ctx },
        rw
            (
              nonzero request.guti real,
              there,
              clear_pkt-view q,
              append_bytes-view q [] p1 (omega arith),
              append_bytes-view q p1 (encode 8 request.tai) (omega arith),
            )
            (rw (
              ask-answered upf g_upf_smf 3 c.s11_cteid_sgw q body (omega arith) 3 teid h (1 ∷ []) r
                  (omega arith) ht (omega arith) e,
              extract_bool-view true (record q { gtp_hdr = g }) (gtp_bytes g) [],
            )),
        ground arith,
      )
