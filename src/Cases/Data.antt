-- ===== src/Cases/Data.antt =====
-- Contexts, packets and peers for the examples.
use sba_g_rpc_5g.Base.{true, false, refl, arith, replicate, length-replicate, none, some, [], ◌∷◌}
use sba_g_rpc_5g.Bytes.{Bytes, AllBytes}
use sba_g_rpc_5g.Packet.{Packet, Gtp}
use sba_g_rpc_5g.UnorderedMap.{clear, put, nat_key}
use sba_g_rpc_5g.Rpc.{AmfSmfRequest, UdpPeer}
use sba_g_rpc_5g.Amf.State.{Amf}
use sba_g_rpc_5g.Amf.Clients.{GrpcPacket}
use sba_g_rpc_5g.Security.{Openssl, IsOpenssl}
use sba_g_rpc_5g.Amf.State as AmfState
use sba_g_rpc_5g.Smf.State.{Smf}
use sba_g_rpc_5g.Smf.State as SmfState
use sba_g_rpc_5g.Ran.State.{RanContext, Ran}

abbrev pub gtp_0 : Gtp
gtp_0 = record {
  flags = 72;
  pad_1 = 0;
  msg_len = 9;
  field_1 = 0;
  field_2 = 0;
  field_3 = 0;
  msg_type = 2;
  pad_2 = 0;
  teid = 7;
}

abbrev pub packet_0 : Packet
packet_0 = record {
  gtp_hdr = gtp_0;
  s1ap_hdr = record {
    msg_len = 0;
    msg_type = 2;
    pad = 0;
    enodeb_s1ap_ue_id = 7;
    mme_s1ap_ue_id = 1;
  };
  diameter_hdr = record { msg_len = 0; msg_type = 0; pad = 0 };
  data_ = [];
  data_ptr = 0;
  len = 0;
}

abbrev pub addr : Bytes
addr = b'1' ∷ b'.' ∷ b'2' ∷ b'.' ∷ b'3' ∷ b'.' ∷ b'4' ∷ []

-- A peer that gives one answer, and one that gives none.
abbrev pub answers : Bytes → UdpPeer
answers bytes out = some bytes

abbrev pub never : UdpPeer
never out = none

abbrev pub smf_context : SmfState.UeContext
smf_context = record {
  emm_state = 0;
  ecm_state = 0;
  imsi = 0;
  ip_addr = [];
  enodeb_s1ap_ue_id = 0;
  mme_s1ap_ue_id = 0;
  tai = 0;
  tai_list = [];
  tau_timer = 0;
  ksi_asme = 0;
  k_asme = 0;
  k_enodeb = 0;
  k_nas_enc = 0;
  k_nas_int = 0;
  nas_enc_algo = 0;
  nas_int_algo = 0;
  count = 0;
  bearer = 0;
  dir = 0;
  default_apn = 0;
  apn_in_use = 0;
  eps_bearer_id = 5;
  e_rab_id = 0;
  s1_uteid_ul = 0;
  s1_uteid_dl = 0;
  s5_uteid_ul = 0;
  s5_uteid_dl = 0;
  xres = 0;
  nw_type = 0;
  nw_capability = 0;
  upf_smf_ip_addr = [];
  upf_smf_port = 0;
  enodeb_ip_addr = [];
  enodeb_port = 0;
  s11_cteid_mme = 0;
  s11_cteid_sgw = 7;
}

abbrev pub smf_0 : Smf
smf_0 = record { ue_ctx = put 1111 smf_context clear; g_trafmon_ip_addr = addr; g_trafmon_port = 1 }

abbrev pub request : AmfSmfRequest
request = record {
  guti = 1111;
  imsi = 119000000007;
  s11_cteid_amf = 7;
  eps_bearer_id = 5;
  apn_in_use = 1;
  tai = 1;
  s1_uteid_dl = 9;
  g_trafmon_ip_addr = addr;
  g_trafmon_port = 4000;
  msg_type = 1;
}

abbrev pub amf_context : AmfState.UeContext
amf_context = record {
  emm_state = 0;
  ecm_state = 0;
  imsi = 0;
  ip_addr = [];
  enodeb_s1ap_ue_id = 0;
  mme_s1ap_ue_id = 0;
  tai = 0;
  tai_list = [];
  tau_timer = 0;
  ksi_asme = 0;
  k_asme = 12;
  k_enodeb = 0;
  k_nas_enc = 0;
  k_nas_int = 0;
  nas_enc_algo = 0;
  nas_int_algo = 0;
  count = 1;
  bearer = 0;
  dir = 1;
  default_apn = 0;
  apn_in_use = 0;
  eps_bearer_id = 0;
  e_rab_id = 0;
  s1_uteid_ul = 0;
  s1_uteid_dl = 0;
  s5_uteid_ul = 0;
  s5_uteid_dl = 0;
  xres = 0;
  nw_type = 0;
  nw_capability = 0;
  upf_smf_ip_addr = [];
  upf_smf_port = 0;
  s11_cteid_amf = 0;
  s11_cteid_upf = 0;
}

abbrev pub amf_0 : Amf
amf_0 = record {
  ue_count = 1;
  amf_ids = record {
    mcc = 1;
    mnc = 1;
    plmn_id = 11;
    amfgi = 1;
    amfc = 1;
    amfi = 11;
    guamfi = 1111;
  };
  s1amf_id = put 1 1111 clear;
  ue_ctx = put 1111 amf_context clear;
  g_upf_s1_ip_addr = [];
}

abbrev pub ran_context : RanContext
ran_context = record {
  emm_state = 0;
  ecm_state = 0;
  imsi = 0;
  guti = 0;
  ip_addr = [];
  enodeb_s1ap_ue_id = 0;
  mme_s1ap_ue_id = 0;
  tai = 0;
  tai_list = [];
  tau_timer = 0;
  key = 0;
  k_asme = 12;
  ksi_asme = 0;
  k_nas_enc = 0;
  k_nas_int = 0;
  nas_enc_algo = 0;
  nas_int_algo = 0;
  count = 1;
  bearer = 0;
  dir = 0;
  apn_in_use = 0;
  eps_bearer_id = 0;
  e_rab_id = 0;
  s1_uteid_ul = 0;
  s1_uteid_dl = 0;
  mcc = 1;
  mnc = 1;
  plmn_id = 11;
  msisdn = 0;
  nw_capability = 0;
  enodeb_id = 0;
  handover_target_enodeb_id = 0;
  in_handover = false;
  indirect_s1_uteid_ul = 0;
}

abbrev pub grpc_0 : GrpcPacket
grpc_0 = record {
  msg_type = 0;
  imsi = 0;
  plmn_id = 0;
  num_autn_vectors = 0;
  nw_type = 0;
  guti = 1111;
  s11_cteid_amf = 0;
  eps_bearer_id = 5;
  apn_in_use = 0;
  tai = 0;
  s1_uteid_dl = 0;
  s1_uteid_ul = 7;
  g_trafmon_ip_addr = [];
  g_trafmon_port = 0;
  autn_num = 12;
  rand_num = 3;
  xres = 0;
  k_asme = 0;
  mmei = 0;
  s11_cteid_upf = 0;
  k_enodeb = 0;
  tai_list_size = 0;
  tau_timer = 0;
  ue_ip_addr = addr;
  g_upf_s1_ip_addr = addr;
  g_upf_s1_port = 0;
  res = true;
  e_rab_id = 0;
}

abbrev pub ran_0 : Ran
ran_0 = record {
  epc_addrs = record { mme_port = 5000; sgw_s1_port = 0; mme_ip_addr = addr; sgw_s1_ip_addr = [] };
  enodeb_id = 1;
  handover_state = 0;
  ran_ctx = record ran_context { enodeb_s1ap_ue_id = 7; mme_s1ap_ue_id = 1; guti = 1111 };
}

abbrev pub code : Bytes
code = replicate 20 1

pub code-AllBytes : AllBytes code
unfolding replicate
code-AllBytes = omega arith

-- The primitives at their simplest: a cipher that adds nothing, and one code for all.
abbrev pub plain_ssl : Openssl
plain_ssl = record { encrypt = λ xs. some xs; decrypt = λ xs. some xs; hmac = λ xs. code }

abbrev pub plain_ssl-IsOpenssl : IsOpenssl plain_ssl
plain_ssl-IsOpenssl = record {
  decrypt-encrypt = λ plain. (plain, refl, refl, omega arith);
  length-hmac = λ bytes. length-replicate 20 1;
  bytes-hmac = λ bytes. code-AllBytes;
}
