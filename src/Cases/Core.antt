-- ===== src/Cases/Core.antt =====
-- A session in the SMF and the UPF, for concrete requests.
use sba_g_rpc_5g.Base.{◌≡◌, refl, true, none, some, [], ◌++◌, arith}
use sba_g_rpc_5g.Result.{ok}
use sba_g_rpc_5g.Bytes.{encode}
use sba_g_rpc_5g.Messages.{message}
use sba_g_rpc_5g.Net.{Datagram}
use sba_g_rpc_5g.Packet.{Packet, new_packet}
use sba_g_rpc_5g.Rpc.{AmfSmfRequest, AmfSmfReply, new_smf_reply}
use sba_g_rpc_5g.Smf.State.{Smf, new_smf}
use sba_g_rpc_5g.Smf.State as SmfState
use sba_g_rpc_5g.Smf.Handlers.{context, amf_smf_interaction}
use sba_g_rpc_5g.Smf.Reachable.{IsReachable, IsUnset, reachable-IsUnset}
use sba_g_rpc_5g.UpfPeer.{upf_peer}
use sba_g_rpc_5g.Upf.State.{Upf}
use sba_g_rpc_5g.Upf.Server.{s11_round}
use sba_g_rpc_5g.Upf.Tables.{get_downlink_info}
use sba_g_rpc_5g.Upf.Sessions.{IsConsistent}
use sba_g_rpc_5g.Upf.Requests.{create_request, modify_request}
use sba_g_rpc_5g.Core.{IsCreatable, s1, created, s2, modified}
use sba_g_rpc_5g.Core.Life.{amf_smf_interaction-upf_peer}
use sba_g_rpc_5g.Cases.Data.{packet_0, addr, smf_context, smf_0, request}
use sba_g_rpc_5g.Cases.UserPlane.{
  raw, upf_0, src, upf_0-IsConsistent, upf_0-IsFree, fresh-IsGtp, addr-IsText,
}

request-IsCreatable : IsCreatable upf_0 addr request
request-IsCreatable = record {
  real = omega arith;
  imsi = omega arith;
  ue = omega arith;
  apn = omega arith;
  tai = omega arith;
  known = refl;
  text = addr-IsText;
  short = omega arith;
  consistent = upf_0-IsConsistent;
  free = upf_0-IsFree;
}

abbrev modify : AmfSmfRequest
modify = record request { msg_type = 2 }

abbrev detach : AmfSmfRequest
detach = record request { msg_type = 3 }

amf_smf_interaction-upf_peer_example :
    (u1 : Upf) × (u2 : Upf) × (u3 : Upf) × (s1 : Smf) × (s2 : Smf) × (s3 : Smf)
    × (answer : AmfSmfReply) × (c : SmfState.UeContext) × (p1 : Packet) × (p2 : Packet)
    × (p3 : Packet) × (o1 : Datagram) × (o2 : Datagram) × (o3 : Datagram) × (amf_smf_interaction
          smf_context packet_0
          (upf_peer raw raw src packet_0 upf_0)
          request
          smf_0
        ≡ ok (s1, answer))
    × (answer.res ≡ true)
    × (answer.ue_ip_addr ≡ addr)
    × (answer.s1_uteid_ul ≡ 7)
    × (s11_round raw raw src
          (message 1 0 (new_packet packet_0).gtp_hdr (create_request 7 119000000007 5 1 1))
          packet_0
          upf_0
        ≡ ok (p1, u1, some o1))
    × IsConsistent u1
    × (u1.s11_id 7 ≡ some 119000000007)
    × (u1.s1_id 7 ≡ some 119000000007)
    × (u1.sgi_id addr ≡ some 119000000007)
    × (amf_smf_interaction smf_context packet_0 (upf_peer raw raw src packet_0 u1) modify s1
        ≡ ok (s2, record new_smf_reply { res = true }))
    × (s11_round raw raw src
          (message 2 7 (new_packet packet_0).gtp_hdr (modify_request 5 0 addr 4000))
          packet_0
          u1
        ≡ ok (p2, u2, some o2))
    × IsConsistent u2
    × (get_downlink_info 119000000007 u2
        ≡ some (record { s1_uteid_dl = 0; enodeb_ip_addr = addr; enodeb_port = 4000 }))
    × (amf_smf_interaction smf_context packet_0 (upf_peer raw raw src packet_0 u2) detach s2
        ≡ ok (s3, record new_smf_reply { res = true }))
    × (s11_round raw raw src
          (message 3 7 (new_packet packet_0).gtp_hdr (encode 1 5 ++ (encode 8 1 ++ [])))
          packet_0
          u2
        ≡ ok (p3, u3, some o3))
    × IsConsistent u3
    × (u3.ue_ctx 119000000007 ≡ none)
    × (u3.s11_id 7 ≡ none)
    × (u3.s1_id 7 ≡ none)
    × (u3.sgi_id addr ≡ none)
    × (s3.ue_ctx 1111 ≡ some c)
amf_smf_interaction-upf_peer_example =
    amf_smf_interaction-upf_peer smf_context packet_0 raw raw src upf_0 smf_0 request modify detach
      addr packet_0 packet_0 packet_0 fresh-IsGtp request-IsCreatable refl refl addr-IsText
      (omega arith) refl refl refl refl

-- The service after a create session, and after the modify bearer that follows, whose request has the
-- downlink TEID 9.
abbrev smf_created : Smf
smf_created =
    s1 smf_context packet_0 raw raw src upf_0 new_smf request addr fresh-IsGtp request-IsCreatable
      packet_0

no_teid : (context smf_context 1111 new_smf).s1_uteid_dl ≡ 0
unfolding new_smf SmfState.new_ue_context
no_teid = refl

abbrev smf_modified : Smf
smf_modified =
    s2 smf_context packet_0 raw raw src upf_0 new_smf request addr fresh-IsGtp request-IsCreatable
      packet_0 no_teid modify refl addr-IsText (omega arith) packet_0

smf_modified-IsReachable : IsReachable smf_modified
smf_modified-IsReachable =
    IsReachable.call _ packet_0 _ modify smf_created smf_modified _
      (IsReachable.call _ packet_0 _ request new_smf smf_created _ IsReachable.start (
        created smf_context packet_0 raw raw src upf_0 new_smf request addr fresh-IsGtp
          request-IsCreatable packet_0 refl))
      (modified smf_context packet_0 raw raw src upf_0 new_smf request addr fresh-IsGtp
        request-IsCreatable packet_0 no_teid modify refl addr-IsText (omega arith) packet_0 refl)

reachable-IsUnset_example : IsUnset smf_modified
reachable-IsUnset_example = reachable-IsUnset smf_modified smf_modified-IsReachable
