-- ===== src/Smf/State.antt =====
-- The state of the session management function: class UeContext, the contexts of class Smf and the
-- globals that a handler sets (src/smf.h, src/smf.cpp).
use sba_g_rpc_5g.Base.{ℕ, List, [], ◌∷◌}
use sba_g_rpc_5g.Bytes.{Bytes}
use sba_g_rpc_5g.Net.{SockAddr}
use sba_g_rpc_5g.UnorderedMap.{Map, clear}

pub record UeContext : Type 0 where
  pub emm_state : ℕ
  pub ecm_state : ℕ
  pub imsi : ℕ
  pub ip_addr : Bytes
  pub enodeb_s1ap_ue_id : ℕ
  pub mme_s1ap_ue_id : ℕ
  pub tai : ℕ
  pub tai_list : List ℕ
  pub tau_timer : ℕ
  pub ksi_asme : ℕ
  pub k_asme : ℕ
  pub k_enodeb : ℕ
  pub k_nas_enc : ℕ
  pub k_nas_int : ℕ
  pub nas_enc_algo : ℕ
  pub nas_int_algo : ℕ
  pub count : ℕ
  pub bearer : ℕ
  pub dir : ℕ
  pub default_apn : ℕ
  pub apn_in_use : ℕ
  pub eps_bearer_id : ℕ
  pub e_rab_id : ℕ
  pub s1_uteid_ul : ℕ
  pub s1_uteid_dl : ℕ
  pub s5_uteid_ul : ℕ
  pub s5_uteid_dl : ℕ
  pub xres : ℕ
  pub nw_type : ℕ
  pub nw_capability : ℕ
  pub upf_smf_ip_addr : Bytes
  pub upf_smf_port : ℕ
  pub enodeb_ip_addr : Bytes
  pub enodeb_port : ℕ
  pub s11_cteid_mme : ℕ
  pub s11_cteid_sgw : ℕ

-- UeContext::UeContext(). The local `ip_addr` in it is not the member; the strings and the list of
-- a new object are empty, and five numbers are left as the memory `raw` had them.
unfoldable pub new_ue_context : UeContext → UeContext
new_ue_context raw = record raw {
  emm_state = 0;
  ecm_state = 0;
  imsi = 0;
  ip_addr = [];
  enodeb_s1ap_ue_id = 0;
  mme_s1ap_ue_id = 0;
  tai = 0;
  tai_list = [];
  tau_timer = 0;
  ksi_asme = 0;
  k_nas_enc = 0;
  k_nas_int = 0;
  nas_enc_algo = 0;
  nas_int_algo = 0;
  count = 1;
  bearer = 0;
  dir = 1;
  default_apn = 0;
  apn_in_use = 0;
  eps_bearer_id = 0;
  e_rab_id = 0;
  s1_uteid_ul = 0;
  s1_uteid_dl = 0;
  xres = 0;
  nw_type = 0;
  nw_capability = 0;
  upf_smf_ip_addr = [];
  upf_smf_port = 0;
  enodeb_ip_addr = [];
  s11_cteid_mme = 0;
  s11_cteid_sgw = 0;
}

pub record Smf : Type 0 where
  pub ue_ctx : Map ℕ UeContext
  pub g_trafmon_ip_addr : Bytes
  pub g_trafmon_port : ℕ

-- "172.18.0.", the network of the containers
abbrev pub container : ℕ → Bytes
container host = b'1' ∷ b'7' ∷ b'2' ∷ b'.' ∷ b'1' ∷ b'8' ∷ b'.' ∷ b'0' ∷ b'.' ∷ host ∷ []

-- g_timer
abbrev pub g_timer : ℕ
g_timer = 100

-- g_upf_smf_ip_addr, g_upf_smf_port
abbrev pub g_upf_smf : SockAddr
g_upf_smf = record { ip_addr = container b'6'; port = 7000 }

-- upf_s1_ip_addr, upf_s1_port
abbrev pub upf_s1 : SockAddr
upf_s1 = record { ip_addr = container b'6'; port = 7100 }

-- Smf::Smf(), with Smf::clrstl(), and the initial values of the globals.
unfoldable pub new_smf : Smf
new_smf = record { ue_ctx = clear; g_trafmon_ip_addr = container b'2'; g_trafmon_port = 4000 }
