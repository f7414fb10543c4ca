-- ===== src/Registration/Legs.antt =====
-- Each message of a base station, the AMF's answer to it, and what the base station makes of that
-- (src/ran.cpp, src/amf_server.cpp).
use sba_g_rpc_5g.Base.{ℕ, ◌+◌, ◌^◌, ◌≤◌, ◌<◌, ◌≡◌, ◌≢◌, none, some, [], ◌++◌, length, arith}
use sba_g_rpc_5g.Result.{ok, ◌>>=◌}
use sba_g_rpc_5g.Bytes.{Bytes, encode}
use sba_g_rpc_5g.Packet.{Packet, S1ap, s1ap_init}
use sba_g_rpc_5g.Packet.View.{view}
use sba_g_rpc_5g.Telecom.{get_guti}
use sba_g_rpc_5g.UnorderedMap.{nat_key}
use sba_g_rpc_5g.Security.{Openssl, IsOpenssl}
use sba_g_rpc_5g.Sctp.{Segment, requester}
use sba_g_rpc_5g.Rpc.{UdpPeer}
use sba_g_rpc_5g.Signals.{signal_hdr, signal, frame, deliver, deliver-frame, length-signal}
use sba_g_rpc_5g.Signals.Protected.{sealed, cipher_of}
use sba_g_rpc_5g.Amf.State.{UeContext, Amf, context, get_s11cteidamf}
use sba_g_rpc_5g.Amf.Clients.{GrpcPacket, AusfServer, SmfServer}
use sba_g_rpc_5g.Amf.Attach.{Unset}
use sba_g_rpc_5g.Amf.Server.{handle_ue}
use sba_g_rpc_5g.Ran.State.{RanContext}
use sba_g_rpc_5g.AttachAccept.{IsSignalHdr, sealed_small}
use sba_g_rpc_5g.Attach.{attach_body, challenge_body, vector}
use sba_g_rpc_5g.SecurityMode.{cmd_body, coded_length}
use sba_g_rpc_5g.Registration.{IsKnown, Creates, Modifies, Detaches, asked_of, apn_of}
use sba_g_rpc_5g.Registration.Challenges.{IsUe, challenging, new_id, handle_ue-request}
use sba_g_rpc_5g.Registration.Answers.{
  commanding, handle_ue-response, handle_ue-complete_attach, handle_ue-leave,
}
use sba_g_rpc_5g.Registration.Accepts.{created, accepting, accepted_by, accepting-IsAccept}
use sba_g_rpc_5g.Registration.Sessions.{located, located-IsKnown, located_apn, handle_ue-secured}
use sba_g_rpc_5g.Amf.Replies.{accept_body}
use sba_g_rpc_5g.Ran.Accepted.{complete_body}
use sba_g_rpc_5g.Detach.{detach_body, small}

-- A message of a base station or to it.
abbrev pub segment : Bytes → Segment
segment bytes = record { to = requester; bytes = frame bytes }

-- A packet that a frame is delivered to.
pub delivered :
    (msg_type e m : ℕ) (h : S1ap) (body : Bytes) (p : Packet)
    → 12 + length body ≤ 1024
    → deliver (record { to = requester; bytes = frame (signal msg_type e m h body) }) p
      ≡ ok (view p [] (signal msg_type e m h body))
delivered msg_type e m h body p small =
    let n = length-signal msg_type e m h body in
    deliver-frame requester (signal msg_type e m h body) p (omega (arith, n)) (omega (arith, n))

module _ (ssl : Openssl) (raw : UeContext) (raw_grpc : GrpcPacket) (unset : Unset)
    (ausf : AusfServer) (smf : SmfServer) (upf : UdpPeer) (p pr : Packet) where
  -- The message `m` takes the AMF from `a` to `a'`, and its answer arrives as the packet `q`.
  pub record Answered (m : Segment) (a a' : Amf) (q : Packet) : Type 0 where
    pub answer : Segment
    pub handled :
        (deliver m p >>= λ x. handle_ue ssl raw raw_grpc unset ausf smf upf x a)
        ≡ ok (a', some answer)
    pub arrives : deliver answer pr ≡ ok q

  -- The message `m` takes the AMF from `a` to `a'`, which does not answer.
  abbrev pub Taken : Segment → Amf → Amf → Type 0
  Taken m a a' =
      (deliver m p >>= λ x. handle_ue ssl raw raw_grpc unset ausf smf upf x a) ≡ ok (a', none)

  pub request-Answered :
      (a : Amf) (r : RanContext) (guti : ℕ) (h : S1ap)
      → h.pad < 2 ^ 8
      → get_guti a.amf_ids.guamfi r.imsi ≡ ok guti
      → IsUe r
      → let e = r.enodeb_s1ap_ue_id in
        let v = vector raw raw_grpc unset ausf a r guti in
        let id = new_id ssl raw raw_grpc unset ausf smf upf a r guti in
        Answered
          (segment (signal 1 e 0 h (attach_body r)))
          a
          (challenging ssl raw raw_grpc unset ausf smf upf a r guti)
          (view pr [] (
            signal 1 e id
              (signal_hdr 1 e 0 h (attach_body r))
              (challenge_body v.autn_num v.rand_num)))
  request-Answered a r guti h pad named u =
      let e = r.enodeb_s1ap_ue_id in
      let v = vector raw raw_grpc unset ausf a r guti in
      let id = new_id ssl raw raw_grpc unset ausf smf upf a r guti in
      record {
        answer = _;
        handled =
            rw (delivered 1 e 0 h (attach_body r) p (omega arith))
              (handle_ue-request ssl raw raw_grpc unset ausf smf upf a r guti h p pad named u);
        arrives =
            delivered 1 e id (signal_hdr 1 e 0 h (attach_body r))
              (challenge_body v.autn_num v.rand_num) pr (omega arith);
      }

  module _ (w : IsOpenssl ssl) (e m guti : ℕ) (h : S1ap) (a : Amf) (k : IsSignalHdr e m h)
      (named : m ≢ 0) (real : guti ≢ 0) where
    pub response-Answered :
        (res : ℕ)
        → res < 2 ^ 64
        → a.s1amf_id m ≡ some guti
        → let a' = commanding ssl w raw raw_grpc unset ausf smf upf e m guti h p a k named real in
          let d = context raw guti a' in
          let body = ssl.hmac (cmd_body d) ++ cmd_body d in
          Answered
            (segment (signal 2 e m h (encode 8 res)))
            a
            a'
            (view pr [] (signal 2 e m (signal_hdr 2 e m h (encode 8 res)) body))
    response-Answered res small known =
        let a' = commanding ssl w raw raw_grpc unset ausf smf upf e m guti h p a k named real in
        let d = context raw guti a' in
        let body = ssl.hmac (cmd_body d) ++ cmd_body d in
        record {
          answer = _;
          handled = rw (delivered 2 e m h (encode 8 res) p (omega arith)) (
              handle_ue-response ssl w raw raw_grpc unset ausf smf upf e m guti h p a k named real
                res small known);
          arrives =
              delivered 2 e m (signal_hdr 2 e m h (encode 8 res)) body pr
                (omega (arith, coded_length ssl w (cmd_body d)));
        }

    pub security-Answered :
        (key s11 : ℕ) (r : RanContext) (known : IsKnown raw a m guti r key)
        (creates : Creates smf (asked_of guti r.imsi s11 (apn_of ssl w) r.tai))
        → guti < 2 ^ 64
        → key < 2 ^ 64
        → r.tai < 2 ^ 64
        → r.nw_capability < 2 ^ 16
        → get_s11cteidamf guti ≡ ok s11
        → let body = sealed ssl (cipher_of ssl w (encode 1 1)) in
          let a1 =
            located ssl w raw raw_grpc unset ausf smf upf e m guti key s11 h p a r k named real
              known creates in
          let g = created raw raw_grpc smf a1 guti s11 in
          let c = accepting raw raw_grpc smf a1 guti s11 in
          Answered (segment (signal 3 e m h body)) a (accepted_by raw raw_grpc smf a1 guti s11) (
            view pr [] (
              signal 3 e m
                (signal_hdr 3 e m h body)
                (sealed ssl (cipher_of ssl w (accept_body g c r.tai)))))
    security-Answered key s11 r known creates hg hk ht hn teid =
        let body = sealed ssl (cipher_of ssl w (encode 1 1)) in
        let a1 =
          located ssl w raw raw_grpc unset ausf smf upf e m guti key s11 h p a r k named real known
            creates in
        let known1 =
          located-IsKnown ssl w raw raw_grpc unset ausf smf upf e m guti key s11 h p a r k named
            real known creates in
        let apn1 =
          located_apn ssl w raw raw_grpc unset ausf smf upf e m guti key s11 h p a r k named real
            known creates in
        let g = created raw raw_grpc smf a1 guti s11 in
        let c = accepting raw raw_grpc smf a1 guti s11 in
        let accept =
          accepting-IsAccept raw raw_grpc smf a1 guti s11 m key (apn_of ssl w) r known1 apn1 creates
            hg hk ht hn in
        record {
          answer = _;
          handled = rw (delivered 3 e m h body p (omega (arith, small ssl w (encode 1 1)))) (
              handle_ue-secured ssl w raw raw_grpc unset ausf smf upf e m guti key s11 h p a r k
                named real known creates teid);
          arrives =
              delivered 3 e m (signal_hdr 3 e m h body)
                (sealed ssl (cipher_of ssl w (accept_body g c r.tai))) pr
                (omega (arith, sealed_small ssl w g c r.tai accept));
        }

    pub leave-Answered :
        (c : RanContext)
        → c.guti ≡ guti
        → guti < 2 ^ 64
        → c.ksi_asme < 2 ^ 64
        → a.s1amf_id m ≡ some guti
        → Detaches smf guti
        → let body = sealed ssl (cipher_of ssl w (detach_body c)) in
          let back = sealed ssl (cipher_of ssl w (encode 1 1)) in
          (a' : Amf) × Answered
            (segment (signal 5 e m h body))
            a
            a'
            (view pr [] (signal 5 e m (signal_hdr 5 e m h body) back))
          × (a'.s1amf_id m ≡ none)
          × (a'.ue_ctx guti ≡ none)
    unfolding signal_hdr s1ap_init
    leave-Answered c same hg hk known confirms =
        let body = sealed ssl (cipher_of ssl w (detach_body c)) in
        let back = sealed ssl (cipher_of ssl w (encode 1 1)) in
        let left =
          handle_ue-leave ssl w raw raw_grpc unset ausf smf upf e m guti h p a k named real c same
            hg hk known confirms in
        (
          left.0,
          record {
            answer = _;
            handled =
                rw (delivered 5 e m h body p (omega (arith, small ssl w (detach_body c)))) left.1;
            arrives =
                delivered 5 e m (signal_hdr 5 e m h body) back pr
                  (omega (arith, small ssl w (encode 1 1)));
          },
          left.2,
          left.3,
        )

    pub complete-Taken :
        (c : RanContext)
        → c.eps_bearer_id < 2 ^ 8
        → c.s1_uteid_ul < 2 ^ 32
        → a.s1amf_id m ≡ some guti
        → Modifies smf guti
        → (a' : Amf) × Taken
            (segment (signal 4 e m h (sealed ssl (cipher_of ssl w (complete_body c)))))
            a
            a'
          × (a'.s1amf_id m ≡ some guti)
          × ((context raw guti a').emm_state ≡ 1)
          × ((context raw guti a').ecm_state ≡ 1)
          × ((context raw guti a').s1_uteid_dl ≡ c.s1_uteid_ul)
    complete-Taken c he ht known confirms =
        let done =
          handle_ue-complete_attach ssl w raw raw_grpc unset ausf smf upf e m guti h p a k named
            real c he ht known confirms in
        (
          done.0,
          rw
              (delivered 4 e m h (sealed ssl (cipher_of ssl w (complete_body c))) p
                (omega (arith, small ssl w (complete_body c))))
              done.1,
          done.2,
          done.3,
          done.4,
          done.5,
        )
