-- ===== src/Cases/System.antt =====
-- A registration through all the parts at concrete values.
use sba_g_rpc_5g.Base.{refl, arith}
use sba_g_rpc_5g.UnorderedMap.{clear, put, nat_key}
use sba_g_rpc_5g.Rpc.{AmfSmfReply}
use sba_g_rpc_5g.Telecom.{get_guti_lem}
use sba_g_rpc_5g.Amf.Clients.{amf_ausf_interaction}
use sba_g_rpc_5g.Smf.State.{Smf, new_ue_context}
use sba_g_rpc_5g.Upf.State.{Upf}
use sba_g_rpc_5g.Upf.Sessions.{IsConsistent, IsFree}
use sba_g_rpc_5g.UpfPeer.{upf_peer}
use sba_g_rpc_5g.Registration.{apn_of}
use sba_g_rpc_5g.Registration.Outcome.{Registered}
use sba_g_rpc_5g.System.{smf_server}
use sba_g_rpc_5g.System.Joined.{IsJoined, register_once-upf_peer}
use sba_g_rpc_5g.Cases.Data.{
  packet_0, amf_0, amf_context, grpc_0, plain_ssl, plain_ssl-IsOpenssl, never, addr, smf_context,
  smf_0,
}
use sba_g_rpc_5g.Cases.UserPlane.{raw, upf_0, src, fresh-IsGtp, addr-IsText}
use sba_g_rpc_5g.Cases.Registration.{start, locals, ausf, ue-IsUe, teid_of_guti}

abbrev upf_8 : Upf
upf_8 = record upf_0 { ip_addrs = put 119000000008 addr clear }

upf_8-IsConsistent : IsConsistent upf_8
upf_8-IsConsistent = record { indexed = λ j c e. absurd (ground arith) }

upf_8-IsFree : IsFree upf_8 119000000008 8 addr
upf_8-IsFree = record {
  s11_free = λ j c e n. absurd (ground arith);
  s1_free = λ j c e n. absurd (ground arith);
  addr_free = λ j c e n. absurd (ground arith);
}

register_once-upf_peer_example :
    (u1 : Upf) × (u2 : Upf) × (u3 : Upf) × (s1 : Smf) × (s2 : Smf) × (reply : AmfSmfReply)
    × IsJoined smf_context packet_0 raw raw src packet_0 packet_0 packet_0 upf_8 smf_0
        1111119000000008 119000000008 8
        (apn_of plain_ssl plain_ssl-IsOpenssl)
        1
        addr
        u1
        u2
        u3
        s1
        s2
        reply
    × Registered plain_ssl amf_context grpc_0 locals ausf
        (smf_server smf_context packet_0 (upf_peer raw raw src packet_0 upf_8) smf_0)
        (smf_server smf_context packet_0 (upf_peer raw raw src packet_0 u1) s1)
        (smf_server smf_context packet_0 (upf_peer raw raw src packet_0 u2) s2)
        never
        packet_0
        packet_0
        start
        amf_0
        1111119000000008
        reply
unfolding amf_ausf_interaction new_ue_context
register_once-upf_peer_example =
    register_once-upf_peer smf_context packet_0 raw raw src packet_0 packet_0 packet_0 plain_ssl
      plain_ssl-IsOpenssl amf_context grpc_0 locals ausf never packet_0 packet_0 packet_0 packet_0 5
      start amf_0 upf_8 smf_0 1111119000000008 8 addr ue-IsUe (omega arith) (omega arith)
      (omega arith) (omega arith) (omega arith) (omega arith)
      (get_guti_lem 119000000008 (omega arith) (omega arith)) teid_of_guti (omega arith)
      (omega arith) (omega arith) refl fresh-IsGtp upf_8-IsConsistent refl addr-IsText (omega arith)
      upf_8-IsFree
