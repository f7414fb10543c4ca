-- ===== src/Registration/Answers.antt =====
-- The AMF on the messages of a base station but the third (src/amf.cpp, src/amf_server.cpp).
use sba_g_rpc_5g.Base.{nonzero, ℕ, ◌^◌, ◌<◌, ◌≡◌, ◌≢◌, refl, ap, ◌∙◌, none, some, [], ◌++◌, arith}
use sba_g_rpc_5g.Result.{ok}
use sba_g_rpc_5g.Bytes.{encode}
use sba_g_rpc_5g.Packet.{Packet, S1ap, s1ap_bytes, s1ap_init}
use sba_g_rpc_5g.Packet.View.{view, s1ap_hdr-view}
use sba_g_rpc_5g.Packet.Transport.{length-s1ap_bytes}
use sba_g_rpc_5g.Security.{Openssl, IsOpenssl}
use sba_g_rpc_5g.Sctp.{Segment, requester}
use sba_g_rpc_5g.Rpc.{UdpPeer}
use sba_g_rpc_5g.Signals.{signal_hdr, signal, frame}
use sba_g_rpc_5g.UnorderedMap.{nat_key}
use sba_g_rpc_5g.Amf.State.{UeContext, Amf, context, set_context, g_trafmon, rem_itfid, rem_uectx}
use sba_g_rpc_5g.Amf.State
use sba_g_rpc_5g.Amf.Session.{handle_modify_bearer}
use sba_g_rpc_5g.Signals.Protected.{sealed, cipher_of}
use sba_g_rpc_5g.Amf.Clients.{GrpcPacket, AusfServer, SmfServer}
use sba_g_rpc_5g.Amf.Attach.{Unset}
use sba_g_rpc_5g.Amf.Server.{handle_ue}
use sba_g_rpc_5g.Amf.Switch.{handle_ue-authenticate, handle_ue-attached, handle_ue-detach}
use sba_g_rpc_5g.Amf.Identity.{handle_autn-accepts}
use sba_g_rpc_5g.Ran.State.{RanContext}
use sba_g_rpc_5g.AttachAccept.{IsSignalHdr, signal_hdr-IsS1ap, handle_attach_complete_lem}
use sba_g_rpc_5g.SecurityMode.{cmd_body, chosen, handle_security_mode_cmd_lem}
use sba_g_rpc_5g.Registration.{
  IsKnown, Modifies, Detaches, modify_bearer_fc-Modifies, detach_fc-Detaches,
}
use sba_g_rpc_5g.Ran.Accepted.{complete_body}
use sba_g_rpc_5g.Detach.{detach_body, small, answer, handle_detach_lem}

module _ (ssl : Openssl) (w : IsOpenssl ssl) (raw : UeContext) (raw_grpc : GrpcPacket)
    (unset : Unset) (ausf : AusfServer) (smf : SmfServer) (upf : UdpPeer) (e m guti : ℕ) (h : S1ap)
    (p : Packet) (a : Amf) (k : IsSignalHdr e m h) (named : m ≢ 0) (real : guti ≢ 0) where
  -- The AMF once it has sent the command.
  abbrev pub commanding : Amf
  commanding = chosen ssl w raw guti (set_context guti (context raw guti a) a)

  pub commanding-IsKnown :
      (r : RanContext) (key : ℕ) → IsKnown raw a m guti r key → IsKnown raw commanding m guti r key
  unfolding State.set_crypt_context State.set_integrity_context
  commanding-IsKnown r key known = record {
    leads = known.leads;
    imsi = ground (arith, known.imsi);
    tai = ground (arith, known.tai);
    nw_capability = ground (arith, known.nw_capability);
    ksi_asme = ground (arith, known.ksi_asme);
    k_asme = ground (arith, known.k_asme);
  }

  -- The algorithms that the command names.
  pub commanding_algos :
      ((context raw guti commanding).nas_enc_algo ≡ 1)
      × ((context raw guti commanding).nas_int_algo ≡ 1)
  unfolding State.set_crypt_context State.set_integrity_context
  commanding_algos = (ground arith, ground arith)

  abbrev in_command : S1ap → Segment
  in_command g =
      let d = context raw guti commanding in
      record {
        to = requester;
        bytes =
            frame (
              signal 2 g.enodeb_s1ap_ue_id g.mme_s1ap_ue_id g
                (ssl.hmac (cmd_body d) ++ cmd_body d));
      }

  pub handle_ue-response :
      (res : ℕ)
      → res < 2 ^ 64
      → a.s1amf_id m ≡ some guti
      → let d = context raw guti commanding in
        handle_ue ssl raw raw_grpc unset ausf smf upf (view p [] (signal 2 e m h (encode 8 res))) a
        ≡ ok (
          commanding,
          some (record {
            to = requester;
            bytes = frame (
                signal 2 e m
                  (signal_hdr 2 e m h (encode 8 res))
                  (ssl.hmac (cmd_body d) ++ cmd_body d));
          }),
        )
  unfolding signal_hdr s1ap_init
  handle_ue-response res small known =
      let hdr = signal_hdr 2 e m h (encode 8 res) in
      let r = signal_hdr-IsS1ap 2 e m h (encode 8 res) (omega arith) k in
      let q : Packet = record p { s1ap_hdr = hdr } in
      let seen = s1ap_hdr-view q (s1ap_bytes hdr) (encode 8 res) in
      let a0 = set_context guti (context raw guti a) a in
      handle_ue-authenticate ssl raw raw_grpc unset ausf smf upf e m h (encode 8 res) p a
        (omega arith) r named
      ∙ rw
          (
            handle_autn-accepts raw q a (s1ap_bytes hdr) [] res guti small known real,
            handle_security_mode_cmd_lem ssl w raw (view q (s1ap_bytes hdr) (encode 8 res)) a0 guti
                (ap (λ (g : S1ap). a.s1amf_id g.mme_s1ap_ue_id) seen ∙ known) real,
          )
          (ap (λ (g : S1ap). ok (commanding, some (in_command g))) seen)

  -- The attach complete of a base station with the context `c`, and the modify bearer after it.
  pub handle_ue-complete_attach :
      (c : RanContext)
      → c.eps_bearer_id < 2 ^ 8
      → c.s1_uteid_ul < 2 ^ 32
      → a.s1amf_id m ≡ some guti
      → Modifies smf guti
      → (a' : Amf) × (handle_ue ssl raw raw_grpc unset ausf smf upf
            (view p [] (signal 4 e m h (sealed ssl (cipher_of ssl w (complete_body c)))))
            a
          ≡ ok (a', none))
        × (a'.s1amf_id m ≡ some guti)
        × ((context raw guti a').emm_state ≡ 1)
        × ((context raw guti a').ecm_state ≡ 1)
        × ((context raw guti a').s1_uteid_dl ≡ c.s1_uteid_ul)
  unfolding signal_hdr s1ap_init handle_modify_bearer State.get_guti
  handle_ue-complete_attach c he ht known confirms =
      let body = sealed ssl (cipher_of ssl w (complete_body c)) in
      let short = small ssl w (complete_body c) in
      let hdr = signal_hdr 4 e m h body in
      let r = signal_hdr-IsS1ap 4 e m h body (omega arith) k in
      let q : Packet = record p { s1ap_hdr = hdr } in
      let seen : a.s1amf_id (view q (s1ap_bytes hdr) body).s1ap_hdr.mme_s1ap_ue_id ≡ some guti =
        ap (λ (g : S1ap). a.s1amf_id g.mme_s1ap_ue_id) (s1ap_hdr-view q (s1ap_bytes hdr) body)
        ∙ known in
      let c1 = record (context raw guti a) { s1_uteid_dl = c.s1_uteid_ul; emm_state = 1 } in
      let a1 = set_context guti c1 a in
      let c2 = context raw guti a1 in
      let asked : GrpcPacket = record raw_grpc {
        guti = guti;
        eps_bearer_id = c2.eps_bearer_id;
        s1_uteid_dl = c2.s1_uteid_dl;
        g_trafmon_ip_addr = g_trafmon.ip_addr;
        g_trafmon_port = g_trafmon.port;
        msg_type = 2;
      } in
      (
        set_context guti (record c2 { ecm_state = 1 }) a1,
        handle_ue-attached ssl raw raw_grpc unset ausf smf upf e m h body p a (omega (arith, short))
              r named
            ∙ rw (
              handle_attach_complete_lem ssl w raw q (s1ap_bytes hdr) a guti c known real he ht
                  (omega (arith, length-s1ap_bytes hdr)),
              seen,
              nonzero guti real,
              modify_bearer_fc-Modifies smf guti asked confirms refl refl refl,
            ),
        known,
        ground arith,
        ground arith,
        ground arith,
      )

  -- The detach request of a base station with the context `c`.
  pub handle_ue-leave :
      (c : RanContext)
      → c.guti ≡ guti
      → guti < 2 ^ 64
      → c.ksi_asme < 2 ^ 64
      → a.s1amf_id m ≡ some guti
      → Detaches smf guti
      → let body = sealed ssl (cipher_of ssl w (detach_body c)) in
        (a' : Amf) × (handle_ue ssl raw raw_grpc unset ausf smf upf
            (view p [] (signal 5 e m h body))
            a
          ≡ ok (a', some (answer ssl w (signal_hdr 5 e m h body))))
        × (a'.s1amf_id m ≡ none)
        × (a'.ue_ctx guti ≡ none)
  unfolding signal_hdr s1ap_init rem_uectx rem_itfid
  handle_ue-leave c same hg hk known confirms =
      let body = sealed ssl (cipher_of ssl w (detach_body c)) in
      let hdr = signal_hdr 5 e m h body in
      let r = signal_hdr-IsS1ap 5 e m h body (omega arith) k in
      let q : Packet = record p { s1ap_hdr = hdr } in
      let a1 = set_context guti (context raw guti a) a in
      (
        rem_uectx c.guti (rem_itfid m a1),
        handle_ue-detach ssl raw raw_grpc unset ausf smf upf e m h body p a
              (omega (arith, small ssl w (detach_body c))) r named
            ∙ handle_detach_lem ssl w raw raw_grpc smf q (s1ap_bytes hdr) a c guti known real
                (omega (arith, same, hg)) hk (omega (arith, length-s1ap_bytes hdr))
                (detach_fc-Detaches smf guti _ confirms same refl),
        ground arith,
        ground (arith, same),
      )
