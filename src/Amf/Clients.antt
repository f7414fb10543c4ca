-- ===== src/Amf/Clients.antt =====
-- class GrpcPacket and the calls of class GreeterClient (src/amf.cpp). A server that does not answer
-- is `none`; the packet is then as it was.
use sba_g_rpc_5g.Base.{ℕ, Bool, Option, none, some}
use sba_g_rpc_5g.Bytes.{Bytes}
use sba_g_rpc_5g.Rpc.{AmfAusfRequest, AmfAusfReply, AmfSmfRequest, AmfSmfReply, new_smf_request}

-- The members that the program uses.
pub record GrpcPacket : Type 0 where
  pub msg_type : ℕ
  pub imsi : ℕ
  pub plmn_id : ℕ
  pub num_autn_vectors : ℕ
  pub nw_type : ℕ
  pub guti : ℕ
  pub s11_cteid_amf : ℕ
  pub eps_bearer_id : ℕ
  pub apn_in_use : ℕ
  pub tai : ℕ
  pub s1_uteid_dl : ℕ
  pub s1_uteid_ul : ℕ
  pub g_trafmon_ip_addr : Bytes
  pub g_trafmon_port : ℕ
  pub autn_num : ℕ
  pub rand_num : ℕ
  pub xres : ℕ
  pub k_asme : ℕ
  pub mmei : ℕ
  pub s11_cteid_upf : ℕ
  pub k_enodeb : ℕ
  pub tai_list_size : ℕ
  pub tau_timer : ℕ
  pub ue_ip_addr : Bytes
  pub g_upf_s1_ip_addr : Bytes
  pub g_upf_s1_port : ℕ
  pub res : Bool
  pub e_rab_id : ℕ

abbrev pub AusfServer : Type 0
AusfServer = AmfAusfRequest → Option AmfAusfReply

abbrev pub SmfServer : Type 0
SmfServer = AmfSmfRequest → Option AmfSmfReply

store_ausf : GrpcPacket → Option AmfAusfReply → GrpcPacket
store_ausf pkt none = pkt
store_ausf pkt (some reply) = record pkt {
  autn_num = reply.autn_num;
  rand_num = reply.rand_num;
  xres = reply.xres;
  k_asme = reply.k_asme;
}

-- GreeterClient::AmfAusfInteraction
unfoldable pub amf_ausf_interaction : AusfServer → GrpcPacket → GrpcPacket
unfolding store_ausf
amf_ausf_interaction ausf pkt = store_ausf pkt (
    ausf (record {
      imsi = pkt.imsi;
      plmn_id = pkt.plmn_id;
      num_autn_vec = pkt.num_autn_vectors;
      nw_type = pkt.nw_type;
      msg_type = pkt.msg_type;
      mmei = pkt.mmei;
    }))

store_session : GrpcPacket → Option AmfSmfReply → GrpcPacket
store_session pkt none = pkt
store_session pkt (some reply) = record pkt {
  guti = reply.guti;
  eps_bearer_id = reply.eps_bearer_id;
  e_rab_id = reply.e_rab_id;
  s1_uteid_ul = reply.s1_uteid_ul;
  s11_cteid_upf = reply.s11_cteid_upf;
  k_enodeb = reply.k_enodeb;
  tai_list_size = reply.tai_list_size;
  tau_timer = reply.tau_timer;
  ue_ip_addr = reply.ue_ip_addr;
  g_upf_s1_ip_addr = reply.g_upf_s1_ip_addr;
  g_upf_s1_port = reply.g_upf_s1_port;
  res = reply.res;
}

-- GreeterClient::SessionCreationFC
unfoldable pub session_creation_fc : SmfServer → GrpcPacket → GrpcPacket
unfolding store_session
session_creation_fc smf pkt = store_session pkt (
    smf (record new_smf_request {
      guti = pkt.guti;
      msg_type = pkt.msg_type;
      imsi = pkt.imsi;
      s11_cteid_amf = pkt.s11_cteid_amf;
      eps_bearer_id = pkt.eps_bearer_id;
      apn_in_use = pkt.apn_in_use;
      tai = pkt.tai;
    }))

store_res : GrpcPacket → Option AmfSmfReply → GrpcPacket
store_res pkt none = pkt
store_res pkt (some reply) = record pkt { res = reply.res }

-- GreeterClient::ModifyBearerFC
unfoldable pub modify_bearer_fc : SmfServer → GrpcPacket → GrpcPacket
unfolding store_res
modify_bearer_fc smf pkt = store_res pkt (
    smf (record new_smf_request {
      guti = pkt.guti;
      msg_type = pkt.msg_type;
      eps_bearer_id = pkt.eps_bearer_id;
      s1_uteid_dl = pkt.s1_uteid_dl;
      g_trafmon_ip_addr = pkt.g_trafmon_ip_addr;
      g_trafmon_port = pkt.g_trafmon_port;
    }))

-- GreeterClient::DetachFC
unfoldable pub detach_fc : SmfServer → GrpcPacket → GrpcPacket
unfolding store_res
detach_fc smf pkt = store_res pkt (
    smf (record new_smf_request {
      guti = pkt.guti;
      msg_type = pkt.msg_type;
      eps_bearer_id = pkt.eps_bearer_id;
      tai = pkt.tai;
    }))
