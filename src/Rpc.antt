-- ===== src/Rpc.antt =====
-- The gRPC messages between the control plane functions (protos/ngcode.proto) and what surrounds a
-- call. The signed members are their bit patterns, so a conversion to or from `uint64_t` keeps them.
-- The servers that a function calls are parameters of its handlers.
use sba_g_rpc_5g.Base.{ℕ, Bool, false, Option, none, some, []}
use sba_g_rpc_5g.Result.{Result, ok, ◌>>=◌}
use sba_g_rpc_5g.Bytes.{Bytes}
use sba_g_rpc_5g.Packet.{Packet, received, received_nothing, prepend_gtp_hdr, extract_gtp_hdr}
use sba_g_rpc_5g.Net.{SockAddr, Datagram, snd}

pub record AmfAusfRequest : Type 0 where
  pub imsi : ℕ
  pub plmn_id : ℕ
  pub num_autn_vec : ℕ
  pub nw_type : ℕ
  pub msg_type : ℕ
  pub mmei : ℕ

pub record AmfAusfReply : Type 0 where
  pub autn_num : ℕ
  pub rand_num : ℕ
  pub xres : ℕ
  pub k_asme : ℕ
  pub default_apn : ℕ
  pub msg_type : ℕ

pub record AmfSmfRequest : Type 0 where
  pub guti : ℕ
  pub imsi : ℕ
  pub s11_cteid_amf : ℕ
  pub eps_bearer_id : ℕ
  pub apn_in_use : ℕ
  pub tai : ℕ
  pub s1_uteid_dl : ℕ
  pub g_trafmon_ip_addr : Bytes
  pub g_trafmon_port : ℕ
  pub msg_type : ℕ

-- The members that the program sets.
pub record AmfSmfReply : Type 0 where
  pub guti : ℕ
  pub eps_bearer_id : ℕ
  pub e_rab_id : ℕ
  pub s1_uteid_ul : ℕ
  pub s11_cteid_upf : ℕ
  pub k_enodeb : ℕ
  pub tai_list_size : ℕ
  pub tau_timer : ℕ
  pub ue_ip_addr : Bytes
  pub g_upf_s1_ip_addr : Bytes
  pub g_upf_s1_port : ℕ
  pub res : Bool

-- Every member of a new message has its type's default.
abbrev pub new_ausf_reply : AmfAusfReply
new_ausf_reply = record {
  autn_num = 0;
  rand_num = 0;
  xres = 0;
  k_asme = 0;
  default_apn = 0;
  msg_type = 0;
}

abbrev pub new_smf_request : AmfSmfRequest
new_smf_request = record {
  guti = 0;
  imsi = 0;
  s11_cteid_amf = 0;
  eps_bearer_id = 0;
  apn_in_use = 0;
  tai = 0;
  s1_uteid_dl = 0;
  g_trafmon_ip_addr = [];
  g_trafmon_port = 0;
  msg_type = 0;
}

abbrev pub new_smf_reply : AmfSmfReply
new_smf_reply = record {
  guti = 0;
  eps_bearer_id = 0;
  e_rab_id = 0;
  s1_uteid_ul = 0;
  s11_cteid_upf = 0;
  k_enodeb = 0;
  tai_list_size = 0;
  tau_timer = 0;
  ue_ip_addr = [];
  g_upf_s1_ip_addr = [];
  g_upf_s1_port = 0;
  res = false;
}

-- What a peer answers over UDP to a datagram; `none` where nothing arrives in time.
abbrev pub UdpPeer : Type 0
UdpPeer = Datagram → Option Bytes

arrive : Option Bytes → Packet → Result Packet
arrive none pkt = ok (received_nothing pkt)
arrive (some bytes) pkt = received bytes pkt

-- `client.snd(pkt); client.rcv(pkt);`
unfoldable pub exchange : UdpPeer → SockAddr → Packet → Result Packet
unfolding arrive
exchange peer dst pkt = do out ← snd dst pkt; arrive (peer out) pkt

-- A control message to a peer over GTP, and the header of its answer: the lines
-- `prepend_gtp_hdr(2, …); snd; rcv; extract_gtp_hdr` that the clients of the user plane share.
unfoldable pub ask : UdpPeer → SockAddr → ℕ → ℕ → Packet → Result Packet
ask peer dst msg_type teid pkt = do
  p1 ← prepend_gtp_hdr 2 msg_type pkt.len teid pkt
  p2 ← exchange peer dst p1
  extract_gtp_hdr p2
