-- ===== src/Cases/UserPlane.antt =====
-- Concrete states of the UPF.
use sba_g_rpc_5g.Base.{[], arith}
use sba_g_rpc_5g.Net.{SockAddr}
use sba_g_rpc_5g.Packet.{new_packet}
use sba_g_rpc_5g.Packet.Numbers.{IsText}
use sba_g_rpc_5g.Packet.Transport.{IsGtp}
use sba_g_rpc_5g.UnorderedMap.{clear, put, nat_key}
use sba_g_rpc_5g.Upf.State.{UeContext, Upf}
use sba_g_rpc_5g.Upf.Sessions.{IsConsistent, IsFree}
use sba_g_rpc_5g.Cases.Data.{packet_0, addr}

abbrev pub raw : UeContext
raw = record {
  ip_addr = [];
  tai = 0;
  apn_in_use = 0;
  eps_bearer_id = 0;
  s1_uteid_ul = 0;
  s1_uteid_dl = 0;
  s11_cteid_smf = 0;
  s11_cteid_upf = 0;
  s1_cteid_ul = 0;
  s1_cteid_dl = 0;
  enodeb_ip_addr = [];
  enodeb_port = 0;
  sgi_cteid_ul = 0;
}

abbrev pub upf_0 : Upf
upf_0 = record {
  s11_id = clear;
  s1_id = clear;
  sgi_id = clear;
  ue_ctx = clear;
  ho_ue_ctx = clear;
  ip_addrs = put 119000000007 addr clear;
}

abbrev pub src : SockAddr
src = record { ip_addr = addr; port = 7200 }

pub upf_0-IsConsistent : IsConsistent upf_0
upf_0-IsConsistent = record { indexed = λ j c e. absurd (ground arith) }

pub upf_0-IsFree : IsFree upf_0 119000000007 7 addr
upf_0-IsFree = record {
  s11_free = λ j c e n. absurd (ground arith);
  s1_free = λ j c e n. absurd (ground arith);
  addr_free = λ j c e n. absurd (ground arith);
}

pub fresh-IsGtp : IsGtp (new_packet packet_0).gtp_hdr
unfolding new_packet
fresh-IsGtp = record {
  flags = omega arith;
  pad_1 = omega arith;
  msg_len = omega arith;
  field_1 = omega arith;
  field_2 = omega arith;
  field_3 = omega arith;
  msg_type = omega arith;
  pad_2 = omega arith;
  teid = omega arith;
}

pub addr-IsText : IsText addr
addr-IsText = ground arith
