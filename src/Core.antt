-- ===== src/Core.antt =====
-- A session of a UE in the SMF and the UPF, from its set-up to its end: the service of
-- src/smf_server.cpp over the receive loop of src/upf_server.cpp.
pub mod Life
use sba_g_rpc_5g.Base.{
  ℕ, ◌+◌, ◌%◌, ◌^◌, ◌≤◌, ◌<◌, ◌≡◌, ◌≢◌, refl, ap, ◌∙◌, true, none, some, [], ◌∷◌, ◌++◌, length,
  arith, length-append, ◌==◌, if◌then◌else◌,
}
use sba_g_rpc_5g.Result.{Result, ok}
use sba_g_rpc_5g.Bytes.{Bytes, encode}
use sba_g_rpc_5g.Packet.{Packet, Gtp, gtp_bytes, new_packet}
use sba_g_rpc_5g.Packet.Numbers.{IsText}
use sba_g_rpc_5g.Packet.Transport.{IsGtp, control_hdr, control_hdr-IsGtp}
use sba_g_rpc_5g.Messages.{message}
use sba_g_rpc_5g.Net.{SockAddr, Datagram}
use sba_g_rpc_5g.UnorderedMap.{bytes_same_iff, put, or_fresh, nat_key}
use sba_g_rpc_5g.Rpc.{AmfSmfRequest, AmfSmfReply, new_smf_reply, UdpPeer}
use sba_g_rpc_5g.Smf.State.{Smf}
use sba_g_rpc_5g.Smf.State as SmfState
use sba_g_rpc_5g.Smf.Handlers.{amf_smf_interaction, requested, answered}
use sba_g_rpc_5g.Smf.Handlers as SmfHandlers
use sba_g_rpc_5g.Smf.Lifecycle as SmfLifecycle
use sba_g_rpc_5g.Upf.State.{UeContext, Upf, new_ue_context, init_ue_context}
use sba_g_rpc_5g.Upf.Server.{s11_round}
use sba_g_rpc_5g.Upf.Tables.{DownlinkInfo, get_downlink_info}
use sba_g_rpc_5g.Upf.Sessions.{
  IsConsistent, IsFree, added, added-IsConsistent, removed, removed_tables, removed-IsConsistent,
  IsConsistent-ip_addrs, IsFree-ip_addrs, IsConsistent-update,
}
use sba_g_rpc_5g.Upf.Requests.{
  create_request, modify_request, with_session, with_downlink, handle_create_session_lem,
  handle_modify_bearer_lem, handle_detach_lem,
}
use sba_g_rpc_5g.Upf.Replies.{create_body}
use sba_g_rpc_5g.UpfPeer.{
  upf_peer, upf_peer-s11_round, round_hdr, round_pkt, s11_round-create, s11_round-modify,
  s11_round-detach,
}

-- What a request to create a session needs: members in range, an address for the UE at the UPF, and
-- tables where its TEID and address are free.
pub record IsCreatable (u : Upf) (addr : Bytes) (request : AmfSmfRequest) : Type 0 where
  pub real : request.guti ≢ 0
  pub imsi : request.imsi < 2 ^ 64
  pub ue : request.imsi ≢ 0
  pub apn : request.apn_in_use < 2 ^ 64
  pub tai : request.tai < 2 ^ 64
  pub known : u.ip_addrs request.imsi ≡ some addr
  pub text : IsText addr
  pub short : length addr ≤ 15
  pub consistent : IsConsistent u
  pub free : IsFree u request.imsi (request.s11_cteid_amf % 2 ^ 32) addr

module _ (smf_raw : SmfState.UeContext) (fresh : Packet) (ho_raw raw : UeContext) (src : SockAddr)
    (u : Upf) (s : Smf) (create : AmfSmfRequest) (addr : Bytes)
    (r : IsGtp (new_packet fresh).gtp_hdr) (ok_create : IsCreatable u addr create) where
  abbrev pub teid : ℕ
  teid = create.s11_cteid_amf % 2 ^ 32

  abbrev pub eps : ℕ
  eps = create.eps_bearer_id % 2 ^ 8

  abbrev pub h : Gtp
  h = (new_packet fresh).gtp_hdr

  -- The UPF and its context of the UE, once the session is there.
  abbrev pub u1 : Upf
  u1 = with_session raw teid create.imsi eps create.apn_in_use create.tai addr u

  abbrev pub c1 : UeContext
  c1 =
      record (init_ue_context addr create.tai create.apn_in_use eps teid teid teid
        (or_fresh (new_ue_context raw) (u.ue_ctx create.imsi))) { tai = create.tai }

  pub there1 : u1.ue_ctx create.imsi ≡ some c1
  unfolding added
  there1 = ground arith

  pub leads1 : u1.s11_id teid ≡ some create.imsi
  unfolding added
  leads1 = ground arith

  pub uplink1 : u1.s1_id teid ≡ some create.imsi
  unfolding added
  uplink1 = ground arith

  pub by_addr1 : u1.sgi_id addr ≡ some create.imsi
  unfolding added
  by_addr1 = ground (arith, bytes_same_iff addr addr)

  pub consistent1 : IsConsistent u1
  consistent1 =
      added-IsConsistent raw teid create.imsi eps create.apn_in_use create.tai addr
        (record u { ip_addrs = put create.imsi addr u.ip_addrs })
        (IsConsistent-ip_addrs _ u ok_create.consistent)
        (IsFree-ip_addrs _ u create.imsi teid addr ok_create.free)

  abbrev pub body1 : Bytes
  body1 = create_request teid create.imsi eps create.apn_in_use create.tai

  module _ (pkt : Packet) where
    abbrev pub q1 : Packet
    q1 = round_pkt ho_raw raw src pkt u 1 0 h body1 r (omega arith) (omega arith) (omega arith)

    pub round1 :
        s11_round ho_raw raw src (message 1 0 h body1) pkt u
        ≡ ok (
          q1,
          u1,
          some (record {
            to = src;
            bytes = message 1 teid (control_hdr 1 29 0 h) (create_body teid addr);
          }),
        )
    round1 =
        s11_round-create ho_raw raw src pkt u 1 0 h body1 r (omega arith) (omega arith)
          (omega arith) u1 _ refl
          (handle_create_session_lem raw src (record pkt { gtp_hdr = control_hdr 1 29 0 h })
            (gtp_bytes (control_hdr 1 29 0 h)) u teid create.imsi eps create.apn_in_use create.tai
            addr (omega arith) ok_create.imsi (omega arith) ok_create.apn ok_create.tai
            ok_create.known ok_create.text ok_create.short)

    abbrev pub peer1 : UdpPeer
    peer1 = upf_peer ho_raw raw src pkt u

    -- The context that the SMF makes.
    abbrev pub d1 : SmfState.UeContext
    d1 =
        answered smf_raw fresh peer1 teid addr teid
          (requested smf_raw fresh peer1 create (SmfHandlers.context smf_raw create.guti s))

    abbrev pub s1 : Smf
    s1 = record s { ue_ctx = put create.guti d1 s.ue_ctx }

    abbrev pub answer1 : AmfSmfReply
    answer1 = SmfHandlers.create_reply smf_raw fresh peer1 create.guti d1 new_smf_reply

    pub created :
        create.msg_type ≡ 1 → amf_smf_interaction smf_raw fresh peer1 create s ≡ ok (s1, answer1)
    unfolding amf_smf_interaction
    created one = rw (
      SmfLifecycle.handle_create_session_lem smf_raw fresh peer1 create new_smf_reply s teid
          (control_hdr 1 29 0 h) addr ok_create.real
          (control_hdr-IsGtp 1 29 0 h r (omega arith) (omega arith) (omega arith)) (omega arith)
          ok_create.text ok_create.short (upf_peer-s11_round ho_raw raw src _ _ pkt _ u _ _ round1),
      one,
    )

    -- The modify bearer, with the downlink TEID 0 of the new context.
    module _ (unset : (SmfHandlers.context smf_raw create.guti s).s1_uteid_dl ≡ 0)
        (modify : AmfSmfRequest) (same : modify.guti ≡ create.guti)
        (text : IsText modify.g_trafmon_ip_addr) (short : length modify.g_trafmon_ip_addr ≤ 15)
        (pkt2 : Packet) where
      abbrev pub port : ℕ
      port = modify.g_trafmon_port % 2 ^ 32

      abbrev pub u2 : Upf
      u2 = with_downlink create.imsi c1 0 modify.g_trafmon_ip_addr port u1

      abbrev pub body2 : Bytes
      body2 = modify_request eps 0 modify.g_trafmon_ip_addr port

      abbrev pub g2 : Gtp
      g2 = control_hdr 2 (length body2 % 2 ^ 16) teid h

      pub q2 : 16 + length body2 ≤ 1024
      q2 = omega (arith, length-append modify.g_trafmon_ip_addr (encode 4 port ++ []))

      pub round2 :
          s11_round ho_raw raw src (message 2 teid h body2) pkt2 u1
          ≡ ok (
            round_pkt ho_raw raw src pkt2 u1 2 teid h body2 r (omega arith) (omega arith) q2,
            u2,
            some (record { to = src; bytes = message 2 teid g2 (1 ∷ []) }),
          )
      unfolding control_hdr init_ue_context
      round2 =
          s11_round-modify ho_raw raw src pkt2 u1 2 teid h body2 r (omega arith) (omega arith) q2 u2
            _ refl
            (handle_modify_bearer_lem raw src (record pkt2 { gtp_hdr = g2 }) (gtp_bytes g2) u1
              create.imsi c1 leads1 ok_create.ue there1 eps 0 modify.g_trafmon_ip_addr port
              (omega arith) (omega arith) text (omega arith) (omega arith))

      abbrev peer2 : UdpPeer
      peer2 = upf_peer ho_raw raw src pkt2 u1

      abbrev pub s2 : Smf
      s2 = record {
        ue_ctx = put modify.guti d1 s1.ue_ctx;
        g_trafmon_ip_addr = modify.g_trafmon_ip_addr;
        g_trafmon_port = port;
      }

      there_smf : s1.ue_ctx modify.guti ≡ some d1
      there_smf = ground (arith, same)

      asked2 :
          peer2 (record {
            to = SmfState.g_upf_smf;
            bytes =
                message 2 d1.s11_cteid_sgw h
                  (modify_request d1.eps_bearer_id d1.s1_uteid_dl modify.g_trafmon_ip_addr port);
          })
          ≡ some (message 2 teid g2 (1 ∷ []))
      unfolding answered requested
      asked2 =
          ap
            (λ n. peer2 (record {
              to = SmfState.g_upf_smf;
              bytes = message 2 teid h (modify_request eps n modify.g_trafmon_ip_addr port);
            }))
            unset
          ∙ upf_peer-s11_round ho_raw raw src _ _ pkt2 _ u1 _ _ round2

      pub modified :
          modify.msg_type ≡ 2
          → amf_smf_interaction smf_raw fresh peer2 modify s1
            ≡ ok (s2, record new_smf_reply { res = true })
      unfolding amf_smf_interaction
      modified two = rw (
        SmfLifecycle.handle_modify_bearer-overrides smf_raw fresh peer2 modify new_smf_reply s1 d1
            teid g2 (omega (arith, same, ok_create.real)) there_smf
            (control_hdr-IsGtp 2 (length body2 % 2 ^ 16) teid h r (omega arith) (omega arith)
              (omega arith))
            (omega arith) text short asked2,
        two,
      )

      -- The detach.
      module _ (detach : AmfSmfRequest) (same' : detach.guti ≡ create.guti) (pkt3 : Packet) where
        abbrev pub eps3 : ℕ
        eps3 = detach.eps_bearer_id % 2 ^ 8

        abbrev pub c2 : UeContext
        c2 = record c1 {
          s1_uteid_dl = 0;
          enodeb_ip_addr = modify.g_trafmon_ip_addr;
          enodeb_port = port;
        }

        abbrev pub u3 : Upf
        u3 = removed create.imsi c2 u2

        abbrev pub body3 : Bytes
        body3 = encode 1 eps3 ++ (encode 8 detach.tai ++ [])

        abbrev pub g3 : Gtp
        g3 = control_hdr 3 9 teid h

        pub there2 : u2.ue_ctx create.imsi ≡ some c2
        there2 = ground arith

        pub round3 :
            s11_round ho_raw raw src (message 3 teid h body3) pkt3 u2
            ≡ ok (
              round_pkt ho_raw raw src pkt3 u2 3 teid h body3 r
                  (omega arith)
                  (omega arith)
                  (omega arith),
              u3,
              some (record { to = src; bytes = message 3 teid g3 (1 ∷ []) }),
            )
        unfolding control_hdr init_ue_context
        round3 =
            s11_round-detach ho_raw raw src pkt3 u2 3 teid h body3 r (omega arith) (omega arith)
              (omega arith) u3 _ refl
              (handle_detach_lem raw src (record pkt3 { gtp_hdr = g3 }) (gtp_bytes g3) u2
                create.imsi c2 leads1 ok_create.ue there2 eps3 detach.tai)

        abbrev peer3 : UdpPeer
        peer3 = upf_peer ho_raw raw src pkt3 u2

        there_smf2 : s2.ue_ctx detach.guti ≡ some d1
        there_smf2 = ground (arith, same, same')

        pub detached :
            detach.msg_type ≡ 3
            → (s3 : Smf) × (amf_smf_interaction smf_raw fresh peer3 detach s2
                ≡ ok (s3, record new_smf_reply { res = true }))
              × (s3.ue_ctx detach.guti ≡ some d1)
        unfolding amf_smf_interaction answered
        detached three =
            let kept =
              SmfLifecycle.handle_detach-keeps smf_raw fresh peer3 detach new_smf_reply s2 d1 teid
                g3 (omega (arith, same', ok_create.real)) there_smf2
                (control_hdr-IsGtp 3 9 teid h r (omega arith) (omega arith) (omega arith))
                (omega arith) (upf_peer-s11_round ho_raw raw src _ _ pkt3 _ u2 _ _ round3) in
            (kept.0, rw (kept.1, three), kept.2)

        pub left_tables :
            (u3.ue_ctx create.imsi ≡ none)
            × (u3.s11_id teid ≡ none)
            × (u3.s1_id teid ≡ none)
            × (u3.sgi_id addr ≡ none)
        unfolding init_ue_context
        left_tables = removed_tables create.imsi c2 u2

        pub consistent2 : IsConsistent u2
        consistent2 = IsConsistent-update create.imsi c1 c2 u1 consistent1 there1 refl refl refl

        pub consistent3 : IsConsistent u3
        consistent3 = removed-IsConsistent create.imsi c2 u2 consistent2 there2
