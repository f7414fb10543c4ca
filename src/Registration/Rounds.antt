-- ===== src/Registration/Rounds.antt =====
-- One round of the load generator (register_once of src/ran_simulator.cpp) against the AMF
-- (src/amf_server.cpp): five messages, four answers.
use sba_g_rpc_5g.Base.{
  ℕ, ◌+◌, ◌-◌, ◌%◌, ◌^◌, ◌<◌, ◌≡◌, ◌≢◌, refl, sym, ap, ◌∙◌, true, some, List, [], ◌∷◌, ◌++◌, arith,
  append_assoc,
}
use sba_g_rpc_5g.Result.{ok}
use sba_g_rpc_5g.Bytes.{Bytes, encode}
use sba_g_rpc_5g.Packet.{Packet, S1ap, s1ap_init}
use sba_g_rpc_5g.Packet.View.{view}
use sba_g_rpc_5g.Telecom.{get_guti}
use sba_g_rpc_5g.UnorderedMap.{nat_key, bytes_same_iff}
use sba_g_rpc_5g.Security.{Openssl, IsOpenssl}
use sba_g_rpc_5g.Sctp.{Segment}
use sba_g_rpc_5g.Rpc.{UdpPeer}
use sba_g_rpc_5g.Signals.{signal_hdr, signal}
use sba_g_rpc_5g.Signals.Protected.{sealed, cipher_of}
use sba_g_rpc_5g.Amf.State.{UeContext, Amf, context, set_upf_info, get_s11cteidamf}
use sba_g_rpc_5g.Amf.Clients.{GrpcPacket, AusfServer, SmfServer}
use sba_g_rpc_5g.Amf.Attach.{Unset}
use sba_g_rpc_5g.Ran.State.{RanContext, Ran, set_crypt_context, set_integrity_context}
use sba_g_rpc_5g.Ran.Attach.{response, derive_k_asme}
use sba_g_rpc_5g.Ran.Traffic.{TrafficMonitor, update_uplink_info, get_uplink_info}
use sba_g_rpc_5g.Ran.Session.{attached}
use sba_g_rpc_5g.AttachAccept.{IsSignalHdr, set_eps_session_lem}
use sba_g_rpc_5g.Attach.{attach_body, challenge_body, vector, initial_attach_lem}
use sba_g_rpc_5g.SecurityMode.{cmd_body, secured_ran}
use sba_g_rpc_5g.Registration.{IsKnown, Creates, Modifies, Detaches, asked_of, apn_of}
use sba_g_rpc_5g.Registration.Challenges.{
  IsUe, challenging, new_id, challenging-IsKnown, new_id_lem,
}
use sba_g_rpc_5g.Registration.Answers.{commanding, commanding-IsKnown, commanding_algos}
use sba_g_rpc_5g.Registration.Accepts.{
  created, accepting, accepted_by, created-IsCreated, accepting-IsAccept,
}
use sba_g_rpc_5g.Registration.Sessions.{located, located-IsKnown, located_apn}
use sba_g_rpc_5g.Amf.Replies.{accept_body}
use sba_g_rpc_5g.Ran.Accepted.{complete_body}
use sba_g_rpc_5g.Detach.{detach_body, request_detach_lem, confirm_detach-answer}
use sba_g_rpc_5g.Ran.Accepted.{IsAccept, accepted}
use sba_g_rpc_5g.Registration.Legs.{
  segment, request-Answered, response-Answered, security-Answered, complete-Taken, leave-Answered,
}
use sba_g_rpc_5g.Registration.Outcome.{Registered}
use sba_g_rpc_5g.Registration.Station.{authenticate_lem, set_security_lem}
use sba_g_rpc_5g.Simulator.{Round, Simulation, register_once, secure, use_session, leave}

-- What was sent, as one list.
gathered :
    (sent : List Segment) (m1 m2 m3 m4 m5 : Segment)
    → (((sent ++ (m1 ∷ m2 ∷ [])) ++ (m3 ∷ [])) ++ (m4 ∷ [])) ++ (m5 ∷ [])
      ≡ sent ++ (m1 ∷ m2 ∷ m3 ∷ m4 ∷ m5 ∷ [])
gathered sent m1 m2 m3 m4 m5 = simp (append_assoc)

-- What is stored for an address is found under it.
stored_uplink :
    (x y : Bytes) (n n' : ℕ) (to to' : Bytes) (t : TrafficMonitor)
    → x ≡ y
    → n ≡ n'
    → to ≡ to'
    → get_uplink_info y (update_uplink_info x n to 7100 t)
      ≡ some (record { s1_uteid_ul = n'; sgw_s1_ip_addr = to'; sgw_s1_port = 7100 })
unfolding get_uplink_info update_uplink_info
stored_uplink x y n n' to to' t same teid upf = ground (arith, same, teid, upf, bytes_same_iff x y)

module _ (ssl : Openssl) (w : IsOpenssl ssl) (raw : UeContext) (raw_grpc : GrpcPacket)
    (unset : Unset) (ausf : AusfServer) (smf smf_modify smf_detach : SmfServer) (upf : UdpPeer)
    (p pr pkt before_detach : Packet) (mtime_diff_us : ℕ) (s : Simulation) (a : Amf) (guti s11 : ℕ)
    (ue : IsUe s.ran.ran_ctx) (pad : pkt.s1ap_hdr.pad < 2 ^ 8)
    (pad' : before_detach.s1ap_hdr.pad < 2 ^ 8) (real : guti ≢ 0) (hg : guti < 2 ^ 64)
    (room : a.ue_count < 2 ^ 32 - 1)
    (creates : Creates smf
      (asked_of guti s.ran.ran_ctx.imsi s11 (apn_of ssl w) s.ran.ran_ctx.tai)) where
  abbrev r : RanContext
  r = s.ran.ran_ctx

  abbrev e : ℕ
  e = r.enodeb_s1ap_ue_id

  abbrev v : GrpcPacket
  v = vector raw raw_grpc unset ausf a r guti

  abbrev id : ℕ
  id = new_id ssl raw raw_grpc unset ausf smf upf a r guti

  named : id ≢ 0
  named = omega (arith, new_id_lem ssl raw raw_grpc unset ausf smf upf a r guti room, room)

  -- The headers of the messages, each made in the packet of the one before.
  abbrev h1 : S1ap
  h1 = signal_hdr 1 e 0 pkt.s1ap_hdr (attach_body r)

  abbrev h2 : S1ap
  h2 = signal_hdr 1 e id h1 (challenge_body v.autn_num v.rand_num)

  IsSignalHdr-signal_hdr :
      (msg_type m n : ℕ) (h : S1ap) (body : Bytes)
      → n < 2 ^ 32
      → IsSignalHdr e m h
      → IsSignalHdr e n (signal_hdr msg_type e m h body)
  unfolding signal_hdr s1ap_init
  IsSignalHdr-signal_hdr msg_type m n h body hn k = (k.0, hn, k.2)

  k1 : IsSignalHdr e id h1
  k1 =
      IsSignalHdr-signal_hdr 1 0 id pkt.s1ap_hdr (attach_body r) (omega arith)
        (ue.enodeb_s1ap_ue_id, omega arith, pad)

  k2 : IsSignalHdr e id h2
  k2 = IsSignalHdr-signal_hdr 1 id id h1 (challenge_body v.autn_num v.rand_num) (omega arith) k1

  abbrev res : ℕ
  res = response r v.autn_num v.rand_num

  abbrev challenged : Ran
  challenged = record s.ran {
    ran_ctx = record r {
      mme_s1ap_ue_id = id;
      ksi_asme = 1;
      k_asme = derive_k_asme r res v.rand_num;
    };
  }

  abbrev a1 : Amf
  a1 = challenging ssl raw raw_grpc unset ausf smf upf a r guti

  known1 : IsKnown raw a1 id guti r unset.k_asme
  known1 = challenging-IsKnown ssl raw raw_grpc unset ausf smf upf a r guti

  abbrev a2 : Amf
  a2 = commanding ssl w raw raw_grpc unset ausf smf upf e id guti h2 p a1 k2 named real

  known2 : IsKnown raw a2 id guti r unset.k_asme
  known2 =
      commanding-IsKnown ssl w raw raw_grpc unset ausf smf upf e id guti h2 p a1 k2 named real r
        unset.k_asme known1

  abbrev d : UeContext
  d = context raw guti a2

  abbrev command_body : Bytes
  command_body = ssl.hmac (cmd_body d) ++ cmd_body d

  abbrev h3 : S1ap
  h3 = signal_hdr 2 e id h2 (encode 8 res)

  abbrev h4 : S1ap
  h4 = signal_hdr 2 e id h3 command_body

  k3 : IsSignalHdr e id h3
  k3 = IsSignalHdr-signal_hdr 2 id id h2 (encode 8 res) (omega arith) k2

  k4 : IsSignalHdr e id h4
  k4 = IsSignalHdr-signal_hdr 2 id id h3 command_body (omega arith) k3

  abbrev trusted : Ran
  trusted = record challenged { ran_ctx = secured_ran ssl w d challenged.ran_ctx }

  abbrev back : Bytes
  back = sealed ssl (cipher_of ssl w (encode 1 1))

  abbrev asked : Amf
  asked =
      located ssl w raw raw_grpc unset ausf smf upf e id guti unset.k_asme s11 h4 p a2 r k4 named
        real known2 creates

  abbrev g : GrpcPacket
  g = created raw raw_grpc smf asked guti s11

  abbrev c : UeContext
  c = accepting raw raw_grpc smf asked guti s11

  abbrev a3 : Amf
  a3 = accepted_by raw raw_grpc smf asked guti s11

  res_small : res < 2 ^ 64
  unfolding response
  res_small = ground arith

  abbrev k_located : IsKnown raw asked id guti r unset.k_asme
  k_located =
      located-IsKnown ssl w raw raw_grpc unset ausf smf upf e id guti unset.k_asme s11 h4 p a2 r k4
        named real known2 creates

  asked_apn : (context raw guti asked).apn_in_use ≡ apn_of ssl w
  asked_apn =
      located_apn ssl w raw raw_grpc unset ausf smf upf e id guti unset.k_asme s11 h4 p a2 r k4
        named real known2 creates

  leads3 : a3.s1amf_id id ≡ some guti
  unfolding set_upf_info
  leads3 = k_located.leads

  abbrev accept_body_sealed : Bytes
  accept_body_sealed = sealed ssl (cipher_of ssl w (accept_body g c r.tai))

  abbrev h5 : S1ap
  h5 = signal_hdr 3 e id h4 back

  abbrev h6 : S1ap
  h6 = signal_hdr 3 e id h5 accept_body_sealed

  k5 : IsSignalHdr e id h5
  k5 = IsSignalHdr-signal_hdr 3 id id h4 back (omega arith) k4

  k6 : IsSignalHdr e id h6
  k6 = IsSignalHdr-signal_hdr 3 id id h5 accept_body_sealed (omega arith) k5

  abbrev joined : Ran
  joined = accepted g c r.tai trusted

  abbrev h7 : S1ap
  h7 =
      signal_hdr 5 e id before_detach.s1ap_hdr
        (sealed ssl (cipher_of ssl w (detach_body joined.ran_ctx)))

  k_detach : IsSignalHdr e id before_detach.s1ap_hdr
  k_detach = (ue.enodeb_s1ap_ue_id, omega arith, pad')

  k7 : IsSignalHdr e id h7
  k7 =
      IsSignalHdr-signal_hdr 5 id id before_detach.s1ap_hdr
        (sealed ssl (cipher_of ssl w (detach_body joined.ran_ctx))) (omega arith) k_detach

  -- What the base station hears.
  abbrev heard : Round
  heard = record {
    pkt = pkt;
    challenge = view pr [] (signal 1 e id h1 (challenge_body v.autn_num v.rand_num));
    command = view pr [] (signal 2 e id h3 command_body);
    acceptance = view pr [] (signal 3 e id h5 accept_body_sealed);
    before_detach = before_detach;
    confirmation = view pr [] (signal 5 e id h7 back);
    mtime_diff_us = mtime_diff_us;
  }

  abbrev m1 : Segment
  m1 = segment (signal 1 e 0 pkt.s1ap_hdr (attach_body r))

  abbrev m2 : Segment
  m2 = segment (signal 2 e id h2 (encode 8 res))

  abbrev m3 : Segment
  m3 = segment (signal 3 e id h4 back)

  abbrev m4 : Segment
  m4 = segment (signal 4 e id h6 (sealed ssl (cipher_of ssl w (complete_body joined.ran_ctx))))

  abbrev m5 : Segment
  m5 = segment (
      signal 5 e id before_detach.s1ap_hdr
        (sealed ssl (cipher_of ssl w (detach_body joined.ran_ctx))))

  abbrev registered : Simulation
  registered = record s {
    ran = attached joined;
    g_traf_mon = update_uplink_info g.ue_ip_addr g.s1_uteid_ul g.g_upf_s1_ip_addr 7100 s.g_traf_mon;
    g_tot_regs = (s.g_tot_regs + 1) % 2 ^ 32;
    g_tot_regstime = (s.g_tot_regstime + mtime_diff_us) % 2 ^ 64;
    sent = s.sent ++ (m1 ∷ m2 ∷ m3 ∷ m4 ∷ m5 ∷ []);
  }

  module _ (ha : v.autn_num < 2 ^ 64) (hr : v.rand_num < 2 ^ 64) (hk : unset.k_asme < 2 ^ 64) where
    accept_ok : IsAccept g c r.tai
    accept_ok =
        accepting-IsAccept raw raw_grpc smf asked guti s11 id unset.k_asme (apn_of ssl w) r
          k_located asked_apn creates hg hk ue.tai ue.nw_capability

    register_once_lem : register_once ssl heard s ≡ ok (registered, true)
    unfolding register_once secure use_session leave set_crypt_context set_integrity_context
        accepted attached
    register_once_lem =
        let algos =
          commanding_algos ssl w raw raw_grpc unset ausf smf upf e id guti h2 p a1 k2 named real in
        rw
          (
            initial_attach_lem r pkt,
            authenticate_lem ssl w pr s.ran v.autn_num v.rand_num id h1 ha hr k1,
            set_security_lem ssl w pr challenged d id h3 (omega (arith, known2.ksi_asme))
                (omega (arith, known2.nw_capability, ue.nw_capability)) (omega (arith, algos.0))
                (omega (arith, algos.1)) k3,
            set_eps_session_lem ssl w g c r.tai accept_ok e id h5 pr trusted s.g_traf_mon k5,
            request_detach_lem ssl w (attached joined) before_detach,
            confirm_detach-answer ssl w e id h7 pr k7,
          )
          (ap (λ out. ok (record registered { sent = out }, true)) (gathered s.sent m1 m2 m3 m4 m5))

    -- A whole registration of a base station whose members are in range, at an AMF that has room for
    -- it, where the IMSI has a GUTI other than 0 with a TEID in it, the numbers that the AUSF answers
    -- are in range and the SMF creates the session that it is asked for and confirms the modify bearer
    -- and the detach: there are five messages and the AMF's answers to four of them such that the
    -- round of the load generator that hears these answers sends these messages, succeeds and is
    -- counted. The base station then sends the traffic of the UE's address with the TEID and to the
    -- address that the SMF answered. Before the detach the AMF has the UE as registered and connected,
    -- with the TEID of the base station; after it the AMF has neither the new UE id nor the context.
    pub register_once-handle_ue :
        get_guti a.amf_ids.guamfi s.ran.ran_ctx.imsi ≡ ok guti
        → get_s11cteidamf guti ≡ ok s11
        → Modifies smf_modify guti
        → Detaches smf_detach guti
        → Registered ssl raw raw_grpc unset ausf smf smf_modify smf_detach upf p pr s a guti
            creates.reply
    unfolding set_crypt_context set_integrity_context accepted attached
    register_once-handle_ue has_guti teid modifies detaches =
        let i =
          created-IsCreated raw raw_grpc smf asked guti s11 id unset.k_asme (apn_of ssl w) r
            k_located asked_apn creates in
        let taken =
          complete-Taken ssl raw raw_grpc unset ausf smf_modify upf p pr w e id guti h6 a3 k6 named
            real joined.ran_ctx (omega arith) i.s1_uteid_ul leads3 modifies in
        let left =
          leave-Answered ssl raw raw_grpc unset ausf smf_detach upf p pr w e id guti
            before_detach.s1ap_hdr taken.0 k_detach named real joined.ran_ctx i.same hg
            (omega (arith, known2.ksi_asme)) taken.2 detaches in
        record {
          round = heard;
          after = registered;
          challenged = a1;
          commanded = a2;
          accepted = a3;
          completed = taken.0;
          departed = left.0;
          attach_sent = m1;
          response_sent = m2;
          complete_sent = m3;
          attached_sent = m4;
          leave_sent = m5;
          attach_answered =
              request-Answered ssl raw raw_grpc unset ausf smf upf p pr a r guti pkt.s1ap_hdr pad
                has_guti ue;
          response_answered =
              response-Answered ssl raw raw_grpc unset ausf smf upf p pr w e id guti h2 a1 k2 named
                real res res_small known1.leads;
          complete_answered =
              security-Answered ssl raw raw_grpc unset ausf smf upf p pr w e id guti h4 a2 k4 named
                real unset.k_asme s11 r known2 creates hg hk ue.tai ue.nw_capability teid;
          attached_taken = taken.1;
          leave_answered = left.1;
          succeeds = register_once_lem;
          sent = refl;
          counted = refl;
          named = i.same;
          uplink = stored_uplink _ _ _ _ _ _ s.g_traf_mon i.ue_ip_addr i.teid i.upf_ip_addr;
          emm_state = taken.3;
          ecm_state = taken.4;
          s1_uteid_dl = taken.5;
          no_id =
              ap left.0.s1amf_id
                (sym (new_id_lem ssl raw raw_grpc unset ausf smf upf a r guti room))
              ∙ left.2;
          no_context = left.3;
        }
