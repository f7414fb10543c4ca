-- ===== src/System/Joined.antt =====
-- One registration through the base station, the AMF, the SMF and the UPF (register_once of
-- src/ran_simulator.cpp, src/amf_server.cpp, src/smf_server.cpp, src/upf_server.cpp).
use sba_g_rpc_5g.Base.{
  ℕ, ◌-◌, ◌%◌, ◌^◌, ◌≤◌, ◌<◌, ◌≡◌, ◌≢◌, refl, true, none, some, [], ◌++◌, length, arith,
}
use sba_g_rpc_5g.Result.{ok}
use sba_g_rpc_5g.Bytes.{Bytes, encode}
use sba_g_rpc_5g.Packet.{Packet, new_packet}
use sba_g_rpc_5g.Packet.Numbers.{IsText}
use sba_g_rpc_5g.Packet.Transport.{IsGtp}
use sba_g_rpc_5g.Messages.{message}
use sba_g_rpc_5g.Net.{SockAddr, Datagram}
use sba_g_rpc_5g.Telecom.{get_guti}
use sba_g_rpc_5g.Security.{Openssl, IsOpenssl}
use sba_g_rpc_5g.UnorderedMap.{nat_key}
use sba_g_rpc_5g.Rpc.{AmfSmfReply, new_smf_reply, UdpPeer}
use sba_g_rpc_5g.Amf.State.{Amf, g_trafmon, get_s11cteidamf}
use sba_g_rpc_5g.Amf.State as AmfState
use sba_g_rpc_5g.Amf.Clients.{GrpcPacket, AusfServer}
use sba_g_rpc_5g.Amf.Attach.{Unset}
use sba_g_rpc_5g.Smf.State.{Smf, upf_s1}
use sba_g_rpc_5g.Smf.State as SmfState
use sba_g_rpc_5g.Smf.Handlers.{amf_smf_interaction, create_reply, answered}
use sba_g_rpc_5g.Smf.Handlers as SmfHandlers
use sba_g_rpc_5g.Upf.State.{UeContext, Upf}
use sba_g_rpc_5g.Upf.Server.{s11_round}
use sba_g_rpc_5g.Upf.Sessions.{IsConsistent, IsFree}
use sba_g_rpc_5g.Upf.Tables.{get_downlink_info}
use sba_g_rpc_5g.Upf.Requests.{create_request, modify_request}
use sba_g_rpc_5g.UpfPeer.{upf_peer}
use sba_g_rpc_5g.Core.{
  IsCreatable, created, detached, uplink1, u3, round1, round2, round3, consistent1, consistent2,
  consistent3, left_tables,
}
use sba_g_rpc_5g.Attach.{vector}
use sba_g_rpc_5g.Registration.{asked_of, apn_of}
use sba_g_rpc_5g.Registration.Challenges.{IsUe}
use sba_g_rpc_5g.Registration.Outcome.{Registered}
use sba_g_rpc_5g.Registration.Rounds.{register_once-handle_ue}
use sba_g_rpc_5g.Simulator.{Simulation}
use sba_g_rpc_5g.System.{
  smf_server, modify_of, detach_of, apn_of_small, g_trafmon_text, g_trafmon_short, creating_creates,
  upf_with, smf_with, upf_switched, smf_switched, modifying-Modifies, detaching-Detaches,
  modified_by_amf,
}

module _ (smf_raw : SmfState.UeContext) (fresh : Packet) (ho_raw raw : UeContext) (src : SockAddr)
    (pkt1 pkt2 pkt3 : Packet) where
  -- A round of the UPF that answers.
  abbrev pub UpfRound : Packet → Bytes → Upf → Upf → Type 0
  UpfRound pkt bytes u u' =
      (p' : Packet) × (out : Datagram) × (s11_round ho_raw raw src bytes pkt u
        ≡ ok (p', u', some out))

  -- The session of a UE in the SMF in `s` and the UPF in `u`, from the create session that the AMF
  -- asks for to the detach: the states of both and the answer to the create session.
  pub record IsJoined (u : Upf) (s : Smf) (guti imsi s11 apn tai : ℕ) (addr : Bytes)
      (u1 u2 u3 : Upf) (s1 s2 : Smf) (reply : AmfSmfReply) : Type 0 where
    pub created :
        amf_smf_interaction smf_raw fresh
          (upf_peer ho_raw raw src pkt1 u)
          (asked_of guti imsi s11 apn tai)
          s
        ≡ ok (s1, reply)
    pub creates :
        UpfRound pkt1
          (message 1 0 (new_packet fresh).gtp_hdr (create_request (s11 % 2 ^ 32) imsi 5 apn tai))
          u
          u1
    pub modified :
        (eps dl : ℕ)
        → amf_smf_interaction smf_raw fresh
            (upf_peer ho_raw raw src pkt2 u1)
            (modify_of guti eps dl)
            s1
          ≡ ok (s2, record new_smf_reply { res = true })
    pub modifies :
        UpfRound pkt2
          (message 2
            (s11 % 2 ^ 32)
            (new_packet fresh).gtp_hdr
            (modify_request 5 0 g_trafmon.ip_addr g_trafmon.port))
          u1
          u2
    pub detached :
        (eps area : ℕ)
        → (s3 : Smf) × (amf_smf_interaction smf_raw fresh
              (upf_peer ho_raw raw src pkt3 u2)
              (detach_of guti eps area)
              s2
            ≡ ok (s3, record new_smf_reply { res = true }))
    pub detaches :
        (eps area : ℕ)
        → UpfRound pkt3
            (message 3
              (s11 % 2 ^ 32)
              (new_packet fresh).gtp_hdr
              (encode 1 (eps % 2 ^ 8) ++ (encode 8 area ++ [])))
            u2
            u3
    pub addr_given : reply.ue_ip_addr ≡ addr
    pub gateway_given : reply.g_upf_s1_ip_addr ≡ upf_s1.ip_addr
    pub uplink : u1.s1_id reply.s1_uteid_ul ≡ some imsi
    pub uplink_switched : u2.s1_id reply.s1_uteid_ul ≡ some imsi
    pub downlink :
        get_downlink_info imsi u2
        ≡ some (record {
          s1_uteid_dl = 0;
          enodeb_ip_addr = g_trafmon.ip_addr;
          enodeb_port = g_trafmon.port;
        })
    pub consistent_with : IsConsistent u1
    pub consistent_switched : IsConsistent u2
    pub consistent_without : IsConsistent u3
    pub no_context : u3.ue_ctx imsi ≡ none
    pub no_uplink : u3.s1_id reply.s1_uteid_ul ≡ none
    pub no_addr : u3.sgi_id addr ≡ none

  module _ (u : Upf) (s : Smf) (guti imsi s11 apn tai : ℕ) (addr : Bytes)
      (r : IsGtp (new_packet fresh).gtp_hdr)
      (creatable : IsCreatable u addr (asked_of guti imsi s11 apn tai))
      (unset : (SmfHandlers.context smf_raw guti s).s1_uteid_dl ≡ 0) where
    pub upf_with-IsJoined :
        IsJoined u s guti imsi s11 apn tai addr
          (upf_with smf_raw fresh ho_raw raw src u s guti imsi s11 apn tai addr pkt1 pkt2 pkt3 r
            creatable unset)
          (upf_switched smf_raw fresh ho_raw raw src u s guti imsi s11 apn tai addr pkt1 pkt2 pkt3 r
            creatable unset)
          (u3 smf_raw fresh ho_raw raw src u s
            (asked_of guti imsi s11 apn tai)
            addr
            r
            creatable
            pkt1
            unset
            (modify_of guti 0 0)
            refl
            g_trafmon_text
            g_trafmon_short
            pkt2
            (detach_of guti 0 0)
            refl
            pkt3)
          (smf_with smf_raw fresh ho_raw raw src u s guti imsi s11 apn tai addr pkt1 pkt2 pkt3 r
            creatable unset)
          (smf_switched smf_raw fresh ho_raw raw src u s guti imsi s11 apn tai addr pkt1 pkt2 pkt3 r
            creatable unset)
          (creating_creates smf_raw fresh ho_raw raw src u s guti imsi s11 apn tai addr pkt1 pkt2
            pkt3 r creatable unset).reply
    unfolding creating_creates create_reply answered get_downlink_info
    upf_with-IsJoined =
        let gone =
          left_tables smf_raw fresh ho_raw raw src u s (asked_of guti imsi s11 apn tai) addr r
            creatable pkt1 unset (modify_of guti 0 0) refl g_trafmon_text g_trafmon_short pkt2
            (detach_of guti 0 0) refl pkt3 in
        record {
          created =
              created smf_raw fresh ho_raw raw src u s (asked_of guti imsi s11 apn tai) addr r
                creatable pkt1 refl;
          creates = (
            _,
            _,
            round1 smf_raw fresh ho_raw raw src u s (asked_of guti imsi s11 apn tai) addr r
                creatable pkt1,
          );
          modified = λ eps dl.
              modified_by_amf smf_raw fresh ho_raw raw src u s guti imsi s11 apn tai addr pkt1 pkt2
                pkt3 r creatable unset eps dl;
          modifies = (
            _,
            _,
            round2 smf_raw fresh ho_raw raw src u s (asked_of guti imsi s11 apn tai) addr r
                creatable pkt1 unset (modify_of guti 0 0) refl g_trafmon_text g_trafmon_short pkt2,
          );
          detached = λ eps area.
              let e =
                detached smf_raw fresh ho_raw raw src u s (asked_of guti imsi s11 apn tai) addr r
                  creatable pkt1 unset (modify_of guti 0 0) refl g_trafmon_text g_trafmon_short pkt2
                  (detach_of guti eps area) refl pkt3 refl in
              (e.0, e.1);
          detaches = λ eps area. (
            _,
            _,
            round3 smf_raw fresh ho_raw raw src u s (asked_of guti imsi s11 apn tai) addr r
                creatable pkt1 unset (modify_of guti 0 0) refl g_trafmon_text g_trafmon_short pkt2
                (detach_of guti eps area) refl pkt3,
          );
          addr_given = refl;
          gateway_given = refl;
          uplink =
              uplink1 smf_raw fresh ho_raw raw src u s (asked_of guti imsi s11 apn tai) addr r
                creatable;
          uplink_switched =
              uplink1 smf_raw fresh ho_raw raw src u s (asked_of guti imsi s11 apn tai) addr r
                creatable;
          downlink = ground arith;
          consistent_with =
              consistent1 smf_raw fresh ho_raw raw src u s (asked_of guti imsi s11 apn tai) addr r
                creatable;
          consistent_switched =
              consistent2 smf_raw fresh ho_raw raw src u s (asked_of guti imsi s11 apn tai) addr r
                creatable pkt1 unset (modify_of guti 0 0) refl g_trafmon_text g_trafmon_short pkt2
                (detach_of guti 0 0) refl pkt3;
          consistent_without =
              consistent3 smf_raw fresh ho_raw raw src u s (asked_of guti imsi s11 apn tai) addr r
                creatable pkt1 unset (modify_of guti 0 0) refl g_trafmon_text g_trafmon_short pkt2
                (detach_of guti 0 0) refl pkt3;
          no_context = gone.0;
          no_uplink = gone.2;
          no_addr = gone.3;
        }

  -- A whole registration through the base station, the AMF, the SMF and the UPF. The members of the
  -- base station are in range, the AMF has room, the IMSI has a GUTI other than 0 with a TEID in it,
  -- the numbers that the AUSF answers are in range, the SMF's context of the GUTI has no downlink TEID
  -- yet, and the UPF has consistent tables, an address for the UE, and the TEID and the address are
  -- free. Then there are states of the SMF and the UPF such that the requests of the AMF take the SMF
  -- through them and one message for each takes the UPF through them, with consistent tables in each;
  -- and there are messages and answers such that the round of the load generator succeeds against the
  -- AMF, whose create session, modify bearer and detach are served by the SMF over the UPF in these
  -- states. In the end the base station sends the traffic of the UE's address to the gateway that the
  -- SMF named, under the TEID that leads the UPF to the IMSI until the detach; after it the UPF has no
  -- entry for the UE.
  pub register_once-upf_peer :
      (ssl : Openssl) (w : IsOpenssl ssl) (amf_raw : AmfState.UeContext) (raw_grpc : GrpcPacket)
      (locals : Unset) (ausf : AusfServer) (hss : UdpPeer) (p pr pkt before_detach : Packet)
      (mtime_diff_us : ℕ) (x : Simulation) (a : Amf) (u : Upf) (s : Smf) (guti s11 : ℕ)
      (addr : Bytes)
      → IsUe x.ran.ran_ctx
      → x.ran.ran_ctx.imsi ≢ 0
      → pkt.s1ap_hdr.pad < 2 ^ 8
      → before_detach.s1ap_hdr.pad < 2 ^ 8
      → guti ≢ 0
      → guti < 2 ^ 64
      → a.ue_count < 2 ^ 32 - 1
      → get_guti a.amf_ids.guamfi x.ran.ran_ctx.imsi ≡ ok guti
      → get_s11cteidamf guti ≡ ok s11
      → (vector amf_raw raw_grpc locals ausf a x.ran.ran_ctx guti).autn_num < 2 ^ 64
      → (vector amf_raw raw_grpc locals ausf a x.ran.ran_ctx guti).rand_num < 2 ^ 64
      → locals.k_asme < 2 ^ 64
      → (SmfHandlers.context smf_raw guti s).s1_uteid_dl ≡ 0
      → IsGtp (new_packet fresh).gtp_hdr
      → IsConsistent u
      → u.ip_addrs x.ran.ran_ctx.imsi ≡ some addr
      → IsText addr
      → length addr ≤ 15
      → IsFree u x.ran.ran_ctx.imsi (s11 % 2 ^ 32) addr
      → (u1 : Upf) × (u2 : Upf) × (u3 : Upf) × (s1 : Smf) × (s2 : Smf) × (reply : AmfSmfReply)
        × IsJoined u s guti x.ran.ran_ctx.imsi s11
            (apn_of ssl w)
            x.ran.ran_ctx.tai
            addr
            u1
            u2
            u3
            s1
            s2
            reply
        × Registered ssl amf_raw raw_grpc locals ausf
            (smf_server smf_raw fresh (upf_peer ho_raw raw src pkt1 u) s)
            (smf_server smf_raw fresh (upf_peer ho_raw raw src pkt2 u1) s1)
            (smf_server smf_raw fresh (upf_peer ho_raw raw src pkt3 u2) s2)
            hss
            p
            pr
            x
            a
            guti
            reply
  register_once-upf_peer ssl w amf_raw raw_grpc locals ausf hss p pr pkt before_detach mtime_diff_us
        x a u s guti s11 addr ue there pad pad' real small room has_guti teid autn rand key unset r
        consistent known text short free =
      let c = x.ran.ran_ctx in
      let apn = apn_of ssl w in
      let creatable : IsCreatable u addr (asked_of guti c.imsi s11 apn c.tai) = record {
        real = real;
        imsi = ue.imsi;
        ue = there;
        apn = apn_of_small ssl w;
        tai = ue.tai;
        known = known;
        text = text;
        short = short;
        consistent = consistent;
        free = free;
      } in
      let creates =
        creating_creates smf_raw fresh ho_raw raw src u s guti c.imsi s11 apn c.tai addr pkt1 pkt2
          pkt3 r creatable unset in
      (
        _,
        _,
        _,
        _,
        _,
        creates.reply,
        upf_with-IsJoined u s guti c.imsi s11 apn c.tai addr r creatable unset,
        register_once-handle_ue ssl w amf_raw raw_grpc locals ausf _ _ _ hss p pr pkt before_detach
            mtime_diff_us x a guti s11 ue pad pad' real small room creates autn rand key has_guti
            teid
            (modifying-Modifies smf_raw fresh ho_raw raw src u s guti c.imsi s11 apn c.tai addr pkt1
              pkt2 pkt3 r creatable unset)
            (detaching-Detaches smf_raw fresh ho_raw raw src u s guti c.imsi s11 apn c.tai addr pkt1
              pkt2 pkt3 r creatable unset),
      )
