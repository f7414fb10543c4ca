-- ===== src/Amf/State.antt =====
-- The state of the access and mobility management function: class UeContext, class AmfIds, the tables
-- of class Amf with their look-ups, and the globals of its handlers (src/amf.h, src/amf.cpp).
use sba_g_rpc_5g.Base.{ℕ, ◌+◌, ◌%◌, ◌^◌, List, [], ◌∷◌}
use sba_g_rpc_5g.Result.{Result, ok, ◌>>=◌}
use sba_g_rpc_5g.Bytes.{Bytes}
use sba_g_rpc_5g.Decimal.{to_string, stoull, substr_from}
use sba_g_rpc_5g.Packet.{Packet}
use sba_g_rpc_5g.Net.{SockAddr}
use sba_g_rpc_5g.Telecom.{get_plmn_id, get_mmei, get_gummei}
use sba_g_rpc_5g.UnorderedMap.{Map, clear, put, erase, or_fresh, nat_key}

pub record UeContext : Type 0 where
  pub emm_state : ℕ
  pub ecm_state : ℕ
  pub imsi : ℕ
  pub ip_addr : Bytes
  pub enodeb_s1ap_ue_id : ℕ
  pub mme_s1ap_ue_id : ℕ
  pub tai : ℕ
  pub tai_list : List ℕ
  pub tau_timer : ℕ
  pub ksi_asme : ℕ
  pub k_asme : ℕ
  pub k_enodeb : ℕ
  pub k_nas_enc : ℕ
  pub k_nas_int : ℕ
  pub nas_enc_algo : ℕ
  pub nas_int_algo : ℕ
  pub count : ℕ
  pub bearer : ℕ
  pub dir : ℕ
  pub default_apn : ℕ
  pub apn_in_use : ℕ
  pub eps_bearer_id : ℕ
  pub e_rab_id : ℕ
  pub s1_uteid_ul : ℕ
  pub s1_uteid_dl : ℕ
  pub s5_uteid_ul : ℕ
  pub s5_uteid_dl : ℕ
  pub xres : ℕ
  pub nw_type : ℕ
  pub nw_capability : ℕ
  pub upf_smf_ip_addr : Bytes
  pub upf_smf_port : ℕ
  pub s11_cteid_amf : ℕ
  pub s11_cteid_upf : ℕ

-- UeContext::UeContext(). The local `ip_addr` in it is not the member; the strings and the list of
-- a new object are empty, and three numbers are left as the memory `raw` had them.
unfoldable pub new_ue_context : UeContext → UeContext
new_ue_context raw = record raw {
  emm_state = 0;
  ecm_state = 0;
  imsi = 0;
  ip_addr = [];
  enodeb_s1ap_ue_id = 0;
  mme_s1ap_ue_id = 0;
  tai = 0;
  tai_list = [];
  tau_timer = 0;
  ksi_asme = 0;
  k_asme = 0;
  k_nas_enc = 0;
  k_nas_int = 0;
  nas_enc_algo = 0;
  nas_int_algo = 0;
  count = 1;
  bearer = 0;
  dir = 1;
  default_apn = 0;
  apn_in_use = 0;
  eps_bearer_id = 0;
  e_rab_id = 0;
  s1_uteid_ul = 0;
  s1_uteid_dl = 0;
  xres = 0;
  nw_type = 0;
  nw_capability = 0;
  upf_smf_ip_addr = [];
  upf_smf_port = 0;
  s11_cteid_amf = 0;
  s11_cteid_upf = 0;
}

-- UeContext::init
unfoldable pub init_ue_context : ℕ → ℕ → ℕ → ℕ → ℕ → UeContext → UeContext
init_ue_context imsi enodeb_s1ap_ue_id mme_s1ap_ue_id tai nw_capability c = record c {
  imsi = imsi;
  enodeb_s1ap_ue_id = enodeb_s1ap_ue_id;
  mme_s1ap_ue_id = mme_s1ap_ue_id;
  tai = tai;
  nw_capability = nw_capability;
}

pub record AmfIds : Type 0 where
  pub mcc : ℕ
  pub mnc : ℕ
  pub plmn_id : ℕ
  pub amfgi : ℕ
  pub amfc : ℕ
  pub amfi : ℕ
  pub guamfi : ℕ

-- AmfIds::AmfIds()
unfoldable pub new_amf_ids : Result AmfIds
new_amf_ids = do
  plmn_id ← get_plmn_id 1 1
  amfi ← get_mmei 1 1
  guamfi ← get_gummei plmn_id amfi
  ok (record {
    mcc = 1;
    mnc = 1;
    plmn_id = plmn_id;
    amfgi = 1;
    amfc = 1;
    amfi = amfi;
    guamfi = guamfi;
  })

-- `g_upf_s1_ip_addr` is a global that a handler sets.
pub record Amf : Type 0 where
  pub ue_count : ℕ
  pub amf_ids : AmfIds
  pub s1amf_id : Map ℕ ℕ
  pub ue_ctx : Map ℕ UeContext
  pub g_upf_s1_ip_addr : Bytes

-- "172.18.0.", the network of the containers
abbrev pub container : ℕ → Bytes
container host = b'1' ∷ b'7' ∷ b'2' ∷ b'.' ∷ b'1' ∷ b'8' ∷ b'.' ∷ b'0' ∷ b'.' ∷ host ∷ []

-- g_trafmon_ip_addr, g_trafmon_port
abbrev pub g_trafmon : SockAddr
g_trafmon = record { ip_addr = container b'2'; port = 4000 }

-- g_upf_smf_ip_addr, g_upf_smf_port
abbrev pub g_upf_smf : SockAddr
g_upf_smf = record { ip_addr = container b'6'; port = 8000 }

-- g_upf_s11_ip_addr, g_upf_s11_port
abbrev pub g_upf_s11 : SockAddr
g_upf_s11 = record { ip_addr = container b'6'; port = 7300 }

-- g_upf_s1_port
abbrev pub g_upf_s1_port : ℕ
g_upf_s1_port = 7100

-- g_timer
abbrev pub g_timer : ℕ
g_timer = 100

-- Amf::Amf(), with Amf::clrstl(), without the registration with Consul
unfoldable pub new_amf : AmfIds → Amf
new_amf amf_ids = record {
  ue_count = 0;
  amf_ids = amf_ids;
  s1amf_id = clear;
  ue_ctx = clear;
  g_upf_s1_ip_addr = container b'6';
}

-- Amf::get_s11cteidamf
unfoldable pub get_s11cteidamf : ℕ → Result ℕ
get_s11cteidamf guti = do tem ← substr_from 7 (to_string guti); v ← stoull tem; ok (v % 2 ^ 32)

-- `ue_ctx[guti]`, and what is stored in it
abbrev pub context : UeContext → ℕ → Amf → UeContext
context raw guti a = or_fresh (new_ue_context raw) (a.ue_ctx guti)

abbrev pub set_context : ℕ → UeContext → Amf → Amf
set_context guti c a = record a { ue_ctx = put guti c a.ue_ctx }

-- Amf::get_guti: 0 where the UE id is unknown
unfoldable pub get_guti : Packet → Amf → ℕ
get_guti pkt a = or_fresh 0 (a.s1amf_id pkt.s1ap_hdr.mme_s1ap_ue_id)

-- Amf::rem_itfid
unfoldable pub rem_itfid : ℕ → Amf → Amf
rem_itfid mme_s1ap_ue_id a = record a { s1amf_id = erase mme_s1ap_ue_id a.s1amf_id }

-- Amf::rem_uectx
unfoldable pub rem_uectx : ℕ → Amf → Amf
rem_uectx guti a = record a { ue_ctx = erase guti a.ue_ctx }

-- Amf::set_upf_info
unfoldable pub set_upf_info : UeContext → ℕ → Amf → Amf
set_upf_info raw guti a =
    set_context guti
      (record (context raw guti a) {
        upf_smf_port = g_upf_smf.port;
        upf_smf_ip_addr = g_upf_smf.ip_addr;
      })
      a

-- Amf::set_crypt_context
unfoldable pub set_crypt_context : UeContext → ℕ → Amf → Amf
set_crypt_context raw guti a =
    let c = context raw guti a in
    set_context guti
      (record c {
        nas_enc_algo = 1;
        k_nas_enc = (c.k_asme + 1 + c.count + c.bearer + c.dir) % 2 ^ 64;
      })
      a

-- Amf::set_integrity_context
unfoldable pub set_integrity_context : UeContext → ℕ → Amf → Amf
set_integrity_context raw guti a =
    let c = context raw guti a in
    set_context guti
      (record c {
        nas_int_algo = 1;
        k_nas_int = (c.k_asme + 1 + c.count + c.bearer + c.dir) % 2 ^ 64;
      })
      a
