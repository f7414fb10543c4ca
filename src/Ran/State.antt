-- ===== src/Ran/State.antt =====
-- The state of the simulated base station and UE: class RanContext, class EpcAddrs and class Ran with
-- its key derivations (src/ran.h, src/ran.cpp).
use sba_g_rpc_5g.Base.{ℕ, ◌+◌, ◌%◌, ◌^◌, List, [], ◌∷◌, Bool, ◌||◌, ◌==◌, leb}
use sba_g_rpc_5g.Result.{Result, ok, ◌>>=◌}
use sba_g_rpc_5g.Bytes.{Bytes}
use sba_g_rpc_5g.Packet.{Packet}
use sba_g_rpc_5g.Net.{SockAddr}
use sba_g_rpc_5g.Telecom.{get_plmn_id, get_imsi}

pub record RanContext : Type 0 where
  pub emm_state : ℕ
  pub ecm_state : ℕ
  pub imsi : ℕ
  pub guti : ℕ
  pub ip_addr : Bytes
  pub enodeb_s1ap_ue_id : ℕ
  pub mme_s1ap_ue_id : ℕ
  pub tai : ℕ
  pub tai_list : List ℕ
  pub tau_timer : ℕ
  pub key : ℕ
  pub k_asme : ℕ
  pub ksi_asme : ℕ
  pub k_nas_enc : ℕ
  pub k_nas_int : ℕ
  pub nas_enc_algo : ℕ
  pub nas_int_algo : ℕ
  pub count : ℕ
  pub bearer : ℕ
  pub dir : ℕ
  pub apn_in_use : ℕ
  pub eps_bearer_id : ℕ
  pub e_rab_id : ℕ
  pub s1_uteid_ul : ℕ
  pub s1_uteid_dl : ℕ
  pub mcc : ℕ
  pub mnc : ℕ
  pub plmn_id : ℕ
  pub msisdn : ℕ
  pub nw_capability : ℕ
  pub enodeb_id : ℕ
  pub handover_target_enodeb_id : ℕ
  pub in_handover : Bool
  pub indirect_s1_uteid_ul : ℕ

-- RanContext::RanContext(). The handover members are left as the memory `raw` had them.
unfoldable pub new_ran_context : RanContext → Result RanContext
new_ran_context raw = do
  plmn_id ← get_plmn_id 1 1
  ok (record raw {
    emm_state = 0;
    ecm_state = 0;
    imsi = 0;
    guti = 0;
    ip_addr = [];
    enodeb_s1ap_ue_id = 0;
    mme_s1ap_ue_id = 0;
    tai = 1;
    tai_list = [];
    tau_timer = 0;
    key = 0;
    k_asme = 0;
    ksi_asme = 7;
    k_nas_enc = 0;
    k_nas_int = 0;
    nas_enc_algo = 0;
    nas_int_algo = 0;
    count = 1;
    bearer = 0;
    dir = 0;
    apn_in_use = 0;
    eps_bearer_id = 0;
    e_rab_id = 0;
    s1_uteid_ul = 0;
    s1_uteid_dl = 0;
    mcc = 1;
    mnc = 1;
    plmn_id = plmn_id;
    msisdn = 0;
    nw_capability = 1;
  })

-- RanContext::init
unfoldable pub init_ran_context : ℕ → RanContext → Result RanContext
init_ran_context arg c = do
  let msisdn = 9000000000 + arg
  imsi ← get_imsi c.plmn_id msisdn
  ok (record c { enodeb_s1ap_ue_id = arg; key = arg; msisdn = msisdn; imsi = imsi })

-- g_mme_ip_addr, g_mme_port
abbrev pub g_mme : SockAddr
g_mme = record {
  ip_addr = b'1' ∷ b'7' ∷ b'2' ∷ b'.' ∷ b'1' ∷ b'8' ∷ b'.' ∷ b'0' ∷ b'.' ∷ b'4' ∷ [];
  port = 5000;
}

pub record EpcAddrs : Type 0 where
  pub mme_port : ℕ
  pub sgw_s1_port : ℕ
  pub mme_ip_addr : Bytes
  pub sgw_s1_ip_addr : Bytes

-- EpcAddrs::EpcAddrs()
unfoldable pub new_epc_addrs : EpcAddrs
new_epc_addrs = record {
  mme_port = g_mme.port;
  sgw_s1_port = 0;
  mme_ip_addr = g_mme.ip_addr;
  sgw_s1_ip_addr = [];
}

-- The members that the methods use, without the packet: a method gets it as it finds it, or as
-- mme_client.rcv has filled it. `enodeb_id` and `handover_state` are Ran's own, next to those of
-- `ran_ctx`; no constructor sets them.
pub record Ran : Type 0 where
  pub epc_addrs : EpcAddrs
  pub enodeb_id : ℕ
  pub handover_state : ℕ
  pub ran_ctx : RanContext

-- `pkt.len <= 0`: the connection was closed or the read failed.
unfoldable pub got_nothing : Packet → Bool
got_nothing pkt = pkt.len == 0 || leb (2 ^ 31) pkt.len

unfoldable pub set_crypt_context : RanContext → RanContext
set_crypt_context c = record c {
  k_nas_enc = (c.k_asme + c.nas_enc_algo + c.count + c.bearer + c.dir + 1) % 2 ^ 64;
}

unfoldable pub set_integrity_context : RanContext → RanContext
set_integrity_context c = record c {
  k_nas_int = (c.k_asme + c.nas_int_algo + c.count + c.bearer + c.dir + 1) % 2 ^ 64;
}
