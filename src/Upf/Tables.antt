-- ===== src/Upf/Tables.antt =====
-- The identification tables of class Upf and the look-ups in them (src/upf.cpp).
use sba_g_rpc_5g.Base.{ℕ, Option, none, some, ◌==◌, if◌then◌else◌}
use sba_g_rpc_5g.Result.{Result, ok, fault, exit_failure}
use sba_g_rpc_5g.Bytes.{Bytes}
use sba_g_rpc_5g.UnorderedMap.{put, erase, or_fresh, nat_key, bytes_key}
use sba_g_rpc_5g.Upf.State.{UeContext, Upf}

-- update_itfid(int, uint32_t, string, uint64_t)
unfoldable pub update_itfid_addr : ℕ → ℕ → Bytes → ℕ → Upf → Result Upf
update_itfid_addr itf_id_no teid ue_ip_addr imsi u =
    if itf_id_no == 11
    then ok (record u { s11_id = put teid imsi u.s11_id })
    else if itf_id_no == 1
    then ok (record u { s1_id = put teid imsi u.s1_id })
    else if itf_id_no == 0
    then ok (record u { sgi_id = put ue_ip_addr imsi u.sgi_id })
    else fault exit_failure

-- update_itfid(int, uint32_t, uint64_t)
unfoldable pub update_itfid : ℕ → ℕ → ℕ → Upf → Result Upf
update_itfid itf_id_no teid imsi u =
    if itf_id_no == 11
    then ok (record u { s11_id = put teid imsi u.s11_id })
    else if itf_id_no == 1
    then ok (record u { s1_id = put teid imsi u.s1_id })
    else fault exit_failure

-- get_imsi(int, uint32_t, string): 0 where there is no entry
unfoldable pub get_imsi_addr : ℕ → ℕ → Bytes → Upf → Result ℕ
get_imsi_addr itf_id_no teid ue_ip_addr u =
    if itf_id_no == 11
    then ok (or_fresh 0 (u.s11_id teid))
    else if itf_id_no == 1
    then ok (or_fresh 0 (u.s1_id teid))
    else if itf_id_no == 0
    then ok (or_fresh 0 (u.sgi_id ue_ip_addr))
    else fault exit_failure

-- get_imsi(int, uint32_t)
unfoldable pub get_imsi : ℕ → ℕ → Upf → Result ℕ
get_imsi itf_id_no teid u =
    if itf_id_no == 11
    then ok (or_fresh 0 (u.s11_id teid))
    else if itf_id_no == 1
    then ok (or_fresh 0 (u.s1_id teid))
    else fault exit_failure

-- rem_itfid(int, uint32_t, string)
unfoldable pub rem_itfid_addr : ℕ → ℕ → Bytes → Upf → Result Upf
rem_itfid_addr itf_id_no teid ue_ip_addr u =
    if itf_id_no == 11
    then ok (record u { s11_id = erase teid u.s11_id })
    else if itf_id_no == 1
    then ok (record u { s1_id = erase teid u.s1_id })
    else if itf_id_no == 0
    then ok (record u { sgi_id = erase ue_ip_addr u.sgi_id })
    else fault exit_failure

-- rem_itfid(int, uint32_t)
unfoldable pub rem_itfid : ℕ → ℕ → Upf → Result Upf
rem_itfid itf_id_no teid u =
    if itf_id_no == 11
    then ok (record u { s11_id = erase teid u.s11_id })
    else if itf_id_no == 1
    then ok (record u { s1_id = erase teid u.s1_id })
    else fault exit_failure

unfoldable pub rem_uectx : ℕ → Upf → Upf
rem_uectx imsi u = record u { ue_ctx = erase imsi u.ue_ctx }

-- What get_downlink_info leaves in its reference arguments when it returns true.
pub record DownlinkInfo : Type 0 where
  pub s1_uteid_dl : ℕ
  pub enodeb_ip_addr : Bytes
  pub enodeb_port : ℕ

downlink_of : Option UeContext → Option DownlinkInfo
downlink_of none = none
downlink_of (some c) =
    if c.enodeb_port == 0
    then none
    else some (record {
      s1_uteid_dl = c.s1_uteid_dl;
      enodeb_ip_addr = c.enodeb_ip_addr;
      enodeb_port = c.enodeb_port;
    })

-- Upf::get_downlink_info; `none` stands for the return value false.
unfoldable pub get_downlink_info : ℕ → Upf → Option DownlinkInfo
unfolding downlink_of
get_downlink_info imsi u = downlink_of (u.ue_ctx imsi)
