-- ===== src/Upf/TunnelTests.antt =====
-- The theorems on handover at concrete sessions.
use sba_g_rpc_5g.Base.{inr, ◌==◌, Bool-cases, ◌≡◌, refl, none, some, inl, [], ◌∷◌, ◌++◌, arith}
use sba_g_rpc_5g.Result.{ok}
use sba_g_rpc_5g.Bytes.{Bytes, encode}
use sba_g_rpc_5g.Packet.{gtp_bytes}
use sba_g_rpc_5g.Packet.View.{view}
use sba_g_rpc_5g.Net.{Datagram}
use sba_g_rpc_5g.Messages.{message}
use sba_g_rpc_5g.UnorderedMap.{clear, put, nat_key, bytes_key, bytes_same}
use sba_g_rpc_5g.Upf.State.{UeContext, Upf}
use sba_g_rpc_5g.Upf.Tables.{DownlinkInfo, get_downlink_info}
use sba_g_rpc_5g.Upf.Sessions.{IsConsistent, IsIndexed}
use sba_g_rpc_5g.Upf.Handover.{ho_key, handle_indirect_tunnel_setup, handle_handover_completion}
use sba_g_rpc_5g.Upf.Tunnels.{
  handle_indirect_tunnel_setup-overlaps, handle_handover_completion-switches,
}
use sba_g_rpc_5g.Upf.Tests.{addr, smf, gtp_0, packet_0, context, one, known}

-- A second session, with the next TEID and an address of its own.
abbrev addr_8 : Bytes
addr_8 = b'1' ∷ []

abbrev context_8 : UeContext
context_8 = record context {
  ip_addr = addr_8;
  s1_uteid_ul = 8;
  s11_cteid_smf = 8;
  s11_cteid_upf = 8;
}

abbrev two : Upf
two = record {
  s11_id = put 8 119000000008 one.s11_id;
  s1_id = put 8 119000000008 one.s1_id;
  sgi_id = put addr_8 119000000008 one.sgi_id;
  ue_ctx = put 119000000008 context_8 one.ue_ctx;
  ho_ue_ctx = clear;
  ip_addrs = one.ip_addrs;
}

two-IsIndexed : IsIndexed two 119000000007 context
unfolding bytes_same
two-IsIndexed = record { by_s11 = refl; by_s1 = refl; by_addr = refl }

two-IsIndexed_8 : IsIndexed two 119000000008 context_8
unfolding bytes_same
two-IsIndexed_8 = record { by_s11 = refl; by_s1 = refl; by_addr = refl }

two-IsConsistent : IsConsistent two
two-IsConsistent = record {
  indexed = λ j c e. elim (Bool-cases (119000000008 == j)) [
    | inl here ↦
        let is_j : j ≡ 119000000008 = ground arith in
        let is_c : c ≡ context_8 = ground arith in rw (is_j, is_c) two-IsIndexed_8
    | inr other ↦ let k = known j c (ground arith) in rw (k.0, k.1) two-IsIndexed
  ];
}

handle_indirect_tunnel_setup-overlaps_example :
    let out : Datagram = record {
      to = smf;
      bytes = message 4 7 gtp_0 (encode 1 1 ++ encode 4 8);
    } in
    (u' : Upf) × (handle_indirect_tunnel_setup context context smf
        (view packet_0 (gtp_bytes gtp_0) (encode 4 9 ++ []))
        two
      ≡ ok (u', out))
    × (two.s1_id 8 ≡ some 119000000008)
    × (u'.ue_ctx 119000000008 ≡ some context_8)
    × (u'.s1_id 8 ≡ some 119000000007)
handle_indirect_tunnel_setup-overlaps_example =
    handle_indirect_tunnel_setup-overlaps context context smf packet_0 (gtp_bytes gtp_0) two
      119000000007 context refl refl 9 119000000008 context_8 (omega arith) two-IsConsistent refl
      (omega arith) refl

abbrev context_9 : UeContext
context_9 = record context { enodeb_ip_addr = addr; enodeb_port = 4000 }

abbrev ready : Upf
ready = record one { ue_ctx = put 119000000007 context_9 clear }

handle_handover_completion-switches_example :
    let info : DownlinkInfo = record {
      s1_uteid_dl = 9;
      enodeb_ip_addr = addr;
      enodeb_port = 4000;
    } in
    (u1 : Upf) × (u2 : Upf) × (out1 : Datagram) × (handle_indirect_tunnel_setup context context smf
        (view packet_0 (gtp_bytes gtp_0) (encode 4 9 ++ []))
        ready
      ≡ ok (u1, out1))
    × (handle_handover_completion context context smf
          (view packet_0 (gtp_bytes gtp_0) (encode 4 1))
          u1
        ≡ ok (u2, record { to = smf; bytes = message 5 7 gtp_0 (1 ∷ []) }))
    × (get_downlink_info 119000000007 u2 ≡ some info)
    × (u2.ho_ue_ctx (ho_key 119000000007) ≡ none)
handle_handover_completion-switches_example =
    handle_handover_completion-switches context context smf packet_0 (gtp_bytes gtp_0) ready
      119000000007 context_9 refl refl 9 (encode 4 1) (omega arith) (omega arith)
