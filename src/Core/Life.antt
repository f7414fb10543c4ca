-- ===== src/Core/Life.antt =====
-- The life of a session in the SMF and the UPF: create, modify and detach (src/smf_server.cpp,
-- src/upf_server.cpp).
use sba_g_rpc_5g.Base.{
  ◌%◌, ◌^◌, ◌≤◌, ◌≡◌, refl, sym, ap, ◌∙◌, true, none, some, [], ◌++◌, length, arith, ◌==◌,
  if◌then◌else◌,
}
use sba_g_rpc_5g.Result.{ok}
use sba_g_rpc_5g.Bytes.{Bytes, encode}
use sba_g_rpc_5g.Packet.{Packet, new_packet}
use sba_g_rpc_5g.Packet.Numbers.{IsText}
use sba_g_rpc_5g.Packet.Transport.{IsGtp}
use sba_g_rpc_5g.Messages.{message}
use sba_g_rpc_5g.Net.{SockAddr, Datagram}
use sba_g_rpc_5g.UnorderedMap.{nat_key}
use sba_g_rpc_5g.Rpc.{AmfSmfRequest, AmfSmfReply, new_smf_reply}
use sba_g_rpc_5g.Smf.State.{Smf}
use sba_g_rpc_5g.Smf.State as SmfState
use sba_g_rpc_5g.Smf.Handlers.{amf_smf_interaction, answered, requested, create_reply}
use sba_g_rpc_5g.Smf.Handlers as SmfHandlers
use sba_g_rpc_5g.Upf.State.{UeContext, Upf}
use sba_g_rpc_5g.Upf.Server.{s11_round}
use sba_g_rpc_5g.Upf.Tables.{get_downlink_info}
use sba_g_rpc_5g.Upf.Sessions.{IsConsistent}
use sba_g_rpc_5g.Upf.Requests.{create_request, modify_request}
use sba_g_rpc_5g.UpfPeer.{upf_peer}
use sba_g_rpc_5g.Core.{
  IsCreatable, created, consistent1, round1, modified, round2, detached, round3, left_tables,
  consistent2, consistent3, leads1, uplink1, by_addr1,
}

-- A session of a UE that has an address at the UPF, over three requests of the AMF for one GUTI,
-- where the SMF's context of the GUTI has no downlink TEID yet, the TEID and the address are free and
-- the members of the requests are in range: the SMF answers each request with success, the UPF serves
-- a message for each in one round of its loop and has consistent tables after it; the answer to the create session
-- has the address of the UE and the TEID of the request, under both of which the UPF finds the UE
-- then; after the modify bearer the UPF sends downlink traffic of the UE to the address of the
-- request, with the TEID 0; after the detach the UPF has no entry for the UE, its TEID or its address,
-- and the SMF has the context still.
pub amf_smf_interaction-upf_peer :
    (smf_raw : SmfState.UeContext) (fresh : Packet) (ho_raw raw : UeContext) (src : SockAddr)
    (u : Upf) (s : Smf) (create modify detach : AmfSmfRequest) (addr : Bytes)
    (pkt1 pkt2 pkt3 : Packet)
    → IsGtp (new_packet fresh).gtp_hdr
    → IsCreatable u addr create
    → (SmfHandlers.context smf_raw create.guti s).s1_uteid_dl ≡ 0
    → modify.guti ≡ create.guti
    → IsText modify.g_trafmon_ip_addr
    → length modify.g_trafmon_ip_addr ≤ 15
    → detach.guti ≡ create.guti
    → create.msg_type ≡ 1
    → modify.msg_type ≡ 2
    → detach.msg_type ≡ 3
    → let hdr = (new_packet fresh).gtp_hdr in
      let n = create.s11_cteid_amf % 2 ^ 32 in
      let bearer = create.eps_bearer_id % 2 ^ 8 in
      let port = modify.g_trafmon_port % 2 ^ 32 in
      let leave = encode 1 (detach.eps_bearer_id % 2 ^ 8) ++ (encode 8 detach.tai ++ []) in
      (u1 : Upf) × (u2 : Upf) × (u3 : Upf) × (s1 : Smf) × (s2 : Smf) × (s3 : Smf)
      × (answer : AmfSmfReply) × (c : SmfState.UeContext) × (p1 : Packet) × (p2 : Packet)
      × (p3 : Packet) × (o1 : Datagram) × (o2 : Datagram) × (o3 : Datagram) × (amf_smf_interaction
            smf_raw fresh
            (upf_peer ho_raw raw src pkt1 u)
            create
            s
          ≡ ok (s1, answer))
      × (answer.res ≡ true)
      × (answer.ue_ip_addr ≡ addr)
      × (answer.s1_uteid_ul ≡ n)
      × (s11_round ho_raw raw src
            (message 1 0 hdr (create_request n create.imsi bearer create.apn_in_use create.tai))
            pkt1
            u
          ≡ ok (p1, u1, some o1))
      × IsConsistent u1
      × (u1.s11_id n ≡ some create.imsi)
      × (u1.s1_id n ≡ some create.imsi)
      × (u1.sgi_id addr ≡ some create.imsi)
      × (amf_smf_interaction smf_raw fresh (upf_peer ho_raw raw src pkt2 u1) modify s1
          ≡ ok (s2, record new_smf_reply { res = true }))
      × (s11_round ho_raw raw src
            (message 2 n hdr (modify_request bearer 0 modify.g_trafmon_ip_addr port))
            pkt2
            u1
          ≡ ok (p2, u2, some o2))
      × IsConsistent u2
      × (get_downlink_info create.imsi u2 ≡ (
          if port == 0
          then none
          else some (record {
            s1_uteid_dl = 0;
            enodeb_ip_addr = modify.g_trafmon_ip_addr;
            enodeb_port = port;
          })))
      × (amf_smf_interaction smf_raw fresh (upf_peer ho_raw raw src pkt3 u2) detach s2
          ≡ ok (s3, record new_smf_reply { res = true }))
      × (s11_round ho_raw raw src (message 3 n hdr leave) pkt3 u2 ≡ ok (p3, u3, some o3))
      × IsConsistent u3
      × (u3.ue_ctx create.imsi ≡ none)
      × (u3.s11_id n ≡ none)
      × (u3.s1_id n ≡ none)
      × (u3.sgi_id addr ≡ none)
      × (s3.ue_ctx create.guti ≡ some c)
unfolding get_downlink_info create_reply answered
amf_smf_interaction-upf_peer smf_raw fresh ho_raw raw src u s create modify detach addr pkt1 pkt2
      pkt3 r creatable unset same text short same' one two three =
    let left =
      detached smf_raw fresh ho_raw raw src u s create addr r creatable pkt1 unset modify same text
        short pkt2 detach same' pkt3 three in
    let gone =
      left_tables smf_raw fresh ho_raw raw src u s create addr r creatable pkt1 unset modify same
        text short pkt2 detach same' pkt3 in
    (
      _,
      _,
      _,
      _,
      _,
      left.0,
      _,
      _,
      _,
      _,
      _,
      _,
      _,
      _,
      created smf_raw fresh ho_raw raw src u s create addr r creatable pkt1 one,
      refl,
      refl,
      refl,
      round1 smf_raw fresh ho_raw raw src u s create addr r creatable pkt1,
      consistent1 smf_raw fresh ho_raw raw src u s create addr r creatable,
      leads1 smf_raw fresh ho_raw raw src u s create addr r creatable,
      uplink1 smf_raw fresh ho_raw raw src u s create addr r creatable,
      by_addr1 smf_raw fresh ho_raw raw src u s create addr r creatable,
      modified smf_raw fresh ho_raw raw src u s create addr r creatable pkt1 unset modify same text
          short pkt2 two,
      round2 smf_raw fresh ho_raw raw src u s create addr r creatable pkt1 unset modify same text
          short pkt2,
      consistent2 smf_raw fresh ho_raw raw src u s create addr r creatable pkt1 unset modify same
          text short pkt2 detach same' pkt3,
      ground arith,
      left.1,
      round3 smf_raw fresh ho_raw raw src u s create addr r creatable pkt1 unset modify same text
          short pkt2 detach same' pkt3,
      consistent3 smf_raw fresh ho_raw raw src u s create addr r creatable pkt1 unset modify same
          text short pkt2 detach same' pkt3,
      gone.0,
      gone.1,
      gone.2,
      gone.3,
      ap left.0.ue_ctx (sym same') ∙ left.2,
    )
