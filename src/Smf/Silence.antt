-- ===== src/Smf/Silence.antt =====
-- The session management function when the user plane function does not answer in time
-- (src/smf.cpp, src/udp_client.cpp).
use sba_g_rpc_5g.Base.{nonzero, ℕ, ◌≡◌, ◌≢◌, refl, true, none, [], arith, replicate}
use sba_g_rpc_5g.Result.{Result, ok, ◌>>=◌}
use sba_g_rpc_5g.Bytes.{Bytes}
use sba_g_rpc_5g.Packet.{
  Packet, new_packet, received_nothing, extract_gtp_hdr, extract_bytes, extract_number, extract_u32,
  extract_int, extract_string, c_str, peek, allocate,
}
use sba_g_rpc_5g.Net.{Datagram}
use sba_g_rpc_5g.Rpc.{AmfSmfRequest, AmfSmfReply, UdpPeer}
use sba_g_rpc_5g.Exchanges.{ask-silent}
use sba_g_rpc_5g.UnorderedMap.{put, nat_key}
use sba_g_rpc_5g.Smf.State.{UeContext, Smf, g_upf_smf}
use sba_g_rpc_5g.Smf.Handlers.{context, requested, answered, create_reply, handle_create_session}
use sba_g_rpc_5g.Smf.Lifecycle.{ask_create-request}
use sba_g_rpc_5g.Upf.Requests.{create_request}

-- The cleared buffer reads as zeros, whatever the length says.
nothing_read :
    {A : Type 0} (q : Packet) (f : ℕ → Bytes → ℕ → Result A)
    → (extract_gtp_hdr (received_nothing q) >>= λ p1.
        extract_u32 p1 >>= λ x. extract_string x.1 >>= λ y. extract_u32 y.1 >>= λ z. f x.0 y.0 z.0)
      ≡ f 0 [] 0
unfolding extract_gtp_hdr received_nothing extract_u32 extract_string extract_int extract_number
    extract_bytes peek allocate replicate c_str
nothing_read q f = refl

module _ (raw : UeContext) (fresh : Packet) (upf : UdpPeer)
    (silent : (d : Datagram) → upf d ≡ none) where
  -- When the UPF answers nothing, a create session for a GUTI other than 0 still succeeds: the reply
  -- has its flag set, the TEID 0 on both interfaces and an empty address, which is also that of the
  -- context.
  pub handle_create_session-silent :
      (request : AmfSmfRequest) (reply : AmfSmfReply) (s : Smf)
      → request.guti ≢ 0
      → (c : UeContext) × (r : AmfSmfReply) × (handle_create_session raw fresh upf request reply s
          ≡ ok (record s { ue_ctx = put request.guti c s.ue_ctx }, r))
        × (r.res ≡ true)
        × (r.s11_cteid_upf ≡ 0)
        × (r.s1_uteid_ul ≡ 0)
        × (r.ue_ip_addr ≡ [])
        × (c.ip_addr ≡ [])
  unfolding handle_create_session requested answered create_reply
  handle_create_session-silent request reply s real =
      let c1 = requested raw fresh upf request (context raw request.guti s) in
      let q = new_packet fresh in
      let body = create_request c1.s11_cteid_mme c1.imsi c1.eps_bearer_id c1.apn_in_use c1.tai in
      let c2 = answered raw fresh upf 0 [] 0 c1 in
      (
        c2,
        create_reply raw fresh upf request.guti c2 reply,
        rw
            (
              nonzero request.guti real,
              ask_create-request raw fresh upf c1,
              ask-silent upf g_upf_smf 1 0 q body (omega arith) (silent _),
            )
            (nothing_read q _),
        refl,
        refl,
        refl,
        refl,
        refl,
      )
