-- ===== src/Smf/Handlers.antt =====
-- The handlers of class Smf and the service that calls them (src/smf.cpp, src/smf_server.cpp).
-- `raw` is the memory that a new context is made in, `fresh` that of the local packet, and `upf`
-- what the user plane function answers.
use sba_g_rpc_5g.Base.{ℕ, ◌%◌, ◌^◌, true, ◌==◌, if◌then◌else◌, [], ◌∷◌}
use sba_g_rpc_5g.Result.{Result, ok, fault, exit_failure, ◌>>=◌}
use sba_g_rpc_5g.Bytes.{Bytes}
use sba_g_rpc_5g.Packet.{
  Packet, new_packet, clear_pkt, append_u8, append_u32, append_u64, append_int, append_string,
  extract_bool, extract_u32, extract_string,
}
use sba_g_rpc_5g.UnorderedMap.{put, or_fresh, nat_key}
use sba_g_rpc_5g.Rpc.{AmfSmfRequest, AmfSmfReply, new_smf_reply, UdpPeer, ask}
use sba_g_rpc_5g.Smf.State.{UeContext, Smf, new_ue_context, g_timer, g_upf_smf, upf_s1}

-- `ue_ctx[guti]`
abbrev pub context : UeContext → ℕ → Smf → UeContext
context raw guti s = or_fresh (new_ue_context raw) (s.ue_ctx guti)

module _ (raw : UeContext) (fresh : Packet) (upf : UdpPeer) where
  -- What the UPF is asked on a create session, and its answer: the packet after `rcv` and
  -- `extract_gtp_hdr`.
  unfoldable pub ask_create : UeContext → Result Packet
  ask_create c = do
    p1 ← append_u32 c.s11_cteid_mme (clear_pkt (new_packet fresh))
    p2 ← append_u64 c.imsi p1
    p3 ← append_u8 c.eps_bearer_id p2
    p4 ← append_u64 c.apn_in_use p3
    p5 ← append_u64 c.tai p4
    ask upf g_upf_smf 1 0 p5

  -- What the request leaves in the context.
  unfoldable pub requested : AmfSmfRequest → UeContext → UeContext
  requested request c = record c {
    s11_cteid_mme = request.s11_cteid_amf % 2 ^ 32;
    eps_bearer_id = request.eps_bearer_id % 2 ^ 8;
    imsi = request.imsi;
    apn_in_use = request.apn_in_use;
    tai = request.tai;
  }

  -- What the answer leaves in it.
  unfoldable pub answered : ℕ → Bytes → ℕ → UeContext → UeContext
  answered s11_cteid_sgw ue_ip_addr s1_uteid_ul c = record c {
    ip_addr = ue_ip_addr;
    s11_cteid_sgw = s11_cteid_sgw;
    s1_uteid_ul = s1_uteid_ul;
    tai_list = c.tai ∷ [];
    tau_timer = g_timer;
    e_rab_id = c.eps_bearer_id;
  }

  unfoldable pub create_reply : ℕ → UeContext → AmfSmfReply → AmfSmfReply
  create_reply guti c reply = record reply {
    guti = guti;
    eps_bearer_id = c.eps_bearer_id;
    e_rab_id = c.e_rab_id;
    s1_uteid_ul = c.s1_uteid_ul;
    s11_cteid_upf = c.s11_cteid_sgw;
    k_enodeb = c.k_enodeb;
    tai_list_size = 1;
    tau_timer = c.tau_timer;
    ue_ip_addr = c.ip_addr;
    g_upf_s1_ip_addr = upf_s1.ip_addr;
    g_upf_s1_port = upf_s1.port;
    res = true;
  }

  unfoldable pub handle_create_session :
      AmfSmfRequest → AmfSmfReply → Smf → Result (Smf × AmfSmfReply)
  handle_create_session request reply s =
      let guti = request.guti in
      if guti == 0 then fault exit_failure else do
        let c1 = requested request (context raw guti s)
        p1 ← ask_create c1
        (s11_cteid_sgw, p2) ← extract_u32 p1
        (ue_ip_addr, p3) ← extract_string p2
        (s1_uteid_ul, p4) ← extract_u32 p3
        let c2 = answered s11_cteid_sgw ue_ip_addr s1_uteid_ul c1
        ok (record s { ue_ctx = put guti c2 s.ue_ctx }, create_reply guti c2 reply)

  -- The two members of the request that `eps_bearer_id` and `s1_uteid_dl` are first read from are
  -- overwritten from the context.
  unfoldable pub handle_modify_bearer :
      AmfSmfRequest → AmfSmfReply → Smf → Result (Smf × AmfSmfReply)
  handle_modify_bearer request reply s =
      let guti = request.guti in
      if guti == 0 then fault exit_failure else do
        let c = context raw guti s
        let g_trafmon_port = request.g_trafmon_port % 2 ^ 32
        p1 ← append_u8 c.eps_bearer_id (clear_pkt (new_packet fresh))
        p2 ← append_u32 c.s1_uteid_dl p1
        p3 ← append_string request.g_trafmon_ip_addr p2
        p4 ← append_int g_trafmon_port p3
        p5 ← ask upf g_upf_smf 2 c.s11_cteid_sgw p4
        (res, p6) ← extract_bool p5
        let s' : Smf = record {
          ue_ctx = put guti c s.ue_ctx;
          g_trafmon_ip_addr = request.g_trafmon_ip_addr;
          g_trafmon_port = g_trafmon_port;
        }
        ok (s', if res then record reply { res = true } else reply)

  unfoldable pub handle_detach : AmfSmfRequest → AmfSmfReply → Smf → Result (Smf × AmfSmfReply)
  handle_detach request reply s =
      let guti = request.guti in
      if guti == 0 then fault exit_failure else do
        let c = context raw guti s
        p1 ← append_u8 (request.eps_bearer_id % 2 ^ 8) (clear_pkt (new_packet fresh))
        p2 ← append_u64 request.tai p1
        p3 ← ask upf g_upf_smf 3 c.s11_cteid_sgw p2
        (res, p4) ← extract_bool p3
        let s' : Smf = record s { ue_ctx = put guti c s.ue_ctx }
        ok (s', if res then record reply { res = true } else reply)

  -- GreeterServiceImpl::AmfSmfInteraction
  unfoldable pub amf_smf_interaction : AmfSmfRequest → Smf → Result (Smf × AmfSmfReply)
  amf_smf_interaction request s =
      let reply = new_smf_reply in
      if request.msg_type == 1
      then handle_create_session request reply s
      else if request.msg_type == 2
      then handle_modify_bearer request reply s
      else if request.msg_type == 3
      then handle_detach request reply s
      else ok (s, reply)
