-- ===== src/Upf/State.antt =====
-- The state of the user plane function: class UeContext and the tables of class Upf (src/upf.h,
-- src/upf.cpp). A lock is taken round each access; the handlers are modelled one at a time.
use sba_g_rpc_5g.Base.{ℕ, zero, suc, ◌+◌, [], ◌++◌, ◌∷◌, ◌==◌, if◌then◌else◌}
use sba_g_rpc_5g.Bytes.{Bytes}
use sba_g_rpc_5g.Decimal.{to_string}
use sba_g_rpc_5g.UnorderedMap.{Map, clear, put, nat_key}

pub record UeContext : Type 0 where
  pub ip_addr : Bytes
  pub tai : ℕ
  pub apn_in_use : ℕ
  pub eps_bearer_id : ℕ
  pub s1_uteid_ul : ℕ
  pub s1_uteid_dl : ℕ
  pub s11_cteid_smf : ℕ
  pub s11_cteid_upf : ℕ
  pub s1_cteid_ul : ℕ
  pub s1_cteid_dl : ℕ
  pub enodeb_ip_addr : Bytes
  pub enodeb_port : ℕ
  pub sgi_cteid_ul : ℕ

-- UeContext::UeContext(). Two members are left as the memory `raw` had them.
unfoldable pub new_ue_context : UeContext → UeContext
new_ue_context raw = record raw {
  tai = 0;
  apn_in_use = 0;
  eps_bearer_id = 0;
  enodeb_ip_addr = [];
  enodeb_port = 0;
  s1_cteid_ul = 0;
  s1_cteid_dl = 0;
  ip_addr = [];
  s11_cteid_smf = 0;
  s11_cteid_upf = 0;
  sgi_cteid_ul = 0;
}

-- UeContext::init, its arguments in the order of the source
unfoldable pub init_ue_context : Bytes → ℕ → ℕ → ℕ → ℕ → ℕ → ℕ → UeContext → UeContext
init_ue_context ip_addr tai apn_in_use eps_bearer_id s11_cteid_smf s11_cteid_upf s1_uteid_ul c =
    record c {
      ip_addr = ip_addr;
      tai = tai;
      apn_in_use = apn_in_use;
      eps_bearer_id = eps_bearer_id;
      s1_uteid_ul = s1_uteid_ul;
      s11_cteid_smf = s11_cteid_smf;
      s11_cteid_upf = s11_cteid_upf;
    }

pub record Upf : Type 0 where
  pub s11_id : Map ℕ ℕ
  pub s1_id : Map ℕ ℕ
  pub sgi_id : Map Bytes ℕ
  pub ue_ctx : Map ℕ UeContext
  pub ho_ue_ctx : Map ℕ UeContext
  pub ip_addrs : Map ℕ Bytes

-- MAX_UE_COUNT
abbrev pub max_ue_count : ℕ
max_ue_count = 10000

-- "172.16."
abbrev pub prefix : Bytes
prefix = b'1' ∷ b'7' ∷ b'2' ∷ b'.' ∷ b'1' ∷ b'6' ∷ b'.' ∷ []

unfoldable pub ue_address : ℕ → ℕ → Bytes
ue_address subnet host = prefix ++ (to_string subnet ++ (b'.' ∷ to_string host))

-- The loop of Upf::set_ip_addrs: `left` rounds from `i` on.
unfoldable pub set_ip_addrs_from : ℕ → ℕ → ℕ → ℕ → Map ℕ Bytes → Map ℕ Bytes
set_ip_addrs_from zero i subnet host m = m
set_ip_addrs_from (suc left) i subnet host m =
    set_ip_addrs_from left (i + 1) (if host == 254 then subnet + 1 else subnet)
      (if host == 254 then 3 else host + 1) (put (119000000000 + i) (ue_address subnet host) m)

unfoldable pub set_ip_addrs : Map ℕ Bytes → Map ℕ Bytes
set_ip_addrs = set_ip_addrs_from max_ue_count 0 1 3

-- Upf::Upf(), with Upf::clrstl(); `ho_ue_ctx` starts empty.
unfoldable pub new_upf : Upf
new_upf = record {
  s11_id = clear;
  s1_id = clear;
  sgi_id = clear;
  ue_ctx = clear;
  ho_ue_ctx = clear;
  ip_addrs = set_ip_addrs clear;
}
