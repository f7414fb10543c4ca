-- ===== src/Registration/Sessions.antt =====
-- The third message of a base station at the AMF, from the switch to the attach accept (src/amf.cpp,
-- src/amf_server.cpp).
use sba_g_rpc_5g.Base.{ℕ, ◌≡◌, ◌≢◌, ap, ◌∙◌, some, [], arith}
use sba_g_rpc_5g.Result.{ok}
use sba_g_rpc_5g.Bytes.{Bytes, encode}
use sba_g_rpc_5g.Packet.{Packet, S1ap, s1ap_bytes, s1ap_init}
use sba_g_rpc_5g.Packet.View.{view, s1ap_hdr-view}
use sba_g_rpc_5g.Packet.Transport.{length-s1ap_bytes}
use sba_g_rpc_5g.UnorderedMap.{nat_key}
use sba_g_rpc_5g.Security.{Openssl, IsOpenssl}
use sba_g_rpc_5g.Sctp.{Segment, requester}
use sba_g_rpc_5g.Rpc.{UdpPeer}
use sba_g_rpc_5g.Signals.{signal_hdr, signal, frame}
use sba_g_rpc_5g.Signals.Protected.{sealed, cipher_of, length-sealed, cipher_short}
use sba_g_rpc_5g.Amf.State.{UeContext, Amf, context, set_context, get_s11cteidamf}
use sba_g_rpc_5g.Amf.Clients.{GrpcPacket, AusfServer, SmfServer}
use sba_g_rpc_5g.Amf.Attach.{Unset}
use sba_g_rpc_5g.Amf.Replies.{accept_body}
use sba_g_rpc_5g.Amf.Server.{handle_ue}
use sba_g_rpc_5g.Amf.Switch.{handle_ue-secure}
use sba_g_rpc_5g.Ran.State.{RanContext}
use sba_g_rpc_5g.AttachAccept.{IsSignalHdr, signal_hdr-IsS1ap}
use sba_g_rpc_5g.SecurityMode.{handle_security_mode_complete_lem}
use sba_g_rpc_5g.Registration.{IsKnown, Creates, asked_of, apn_of}
use sba_g_rpc_5g.Registration.Accepts.{
  handle_location_update_lem, created, accepting, accepted_by, handle_create_session_lem,
}

module _ (ssl : Openssl) (w : IsOpenssl ssl) (raw : UeContext) (raw_grpc : GrpcPacket)
    (unset : Unset) (ausf : AusfServer) (smf : SmfServer) (upf : UdpPeer) (e m guti key s11 : ℕ)
    (h : S1ap) (p : Packet) (a : Amf) (r : RanContext) (k : IsSignalHdr e m h) (named : m ≢ 0)
    (real : guti ≢ 0) (known : IsKnown raw a m guti r key)
    (creates : Creates smf (asked_of guti r.imsi s11 (apn_of ssl w) r.tai)) where
  abbrev pub security_body : Bytes
  security_body = sealed ssl (cipher_of ssl w (encode 1 1))

  -- The AMF once the location is updated.
  abbrev pub located : Amf
  located =
      let a0 = set_context guti (context raw guti a) a in
      let apn = apn_of ssl w in
      set_context guti (record (context raw guti a0) { default_apn = apn; apn_in_use = apn }) a0

  pub located-IsKnown : IsKnown raw located m guti r key
  located-IsKnown = record {
    leads = known.leads;
    imsi = ground (arith, known.imsi);
    tai = ground (arith, known.tai);
    nw_capability = ground (arith, known.nw_capability);
    ksi_asme = ground (arith, known.ksi_asme);
    k_asme = ground (arith, known.k_asme);
  }

  pub located_apn : (context raw guti located).apn_in_use ≡ apn_of ssl w
  located_apn = ground arith

  abbrev in_accept : S1ap → Segment
  in_accept g = record {
    to = requester;
    bytes = frame (
        signal 3 g.enodeb_s1ap_ue_id g.mme_s1ap_ue_id g (
          sealed ssl (
            cipher_of ssl w (
              accept_body (created raw raw_grpc smf located guti s11)
                (accepting raw raw_grpc smf located guti s11) r.tai))));
  }

  pub handle_ue-secured :
      get_s11cteidamf guti ≡ ok s11
      → handle_ue ssl raw raw_grpc unset ausf smf upf (view p [] (signal 3 e m h security_body)) a
        ≡ ok (
          accepted_by raw raw_grpc smf located guti s11,
          some (record {
            to = requester;
            bytes = frame (
                signal 3 e m (signal_hdr 3 e m h security_body) (
                  sealed ssl (
                    cipher_of ssl w (
                      accept_body
                        (created raw raw_grpc smf located guti s11)
                        (accepting raw raw_grpc smf located guti s11)
                        r.tai))));
          }),
        )
  unfolding signal_hdr s1ap_init
  handle_ue-secured teid =
      let hdr = signal_hdr 3 e m h security_body in
      let short = length-sealed ssl w (cipher_of ssl w (encode 1 1)) in
      let shorter = cipher_short ssl w (encode 1 1) in
      let q : Packet = record p { s1ap_hdr = hdr } in
      let used = s1ap_bytes hdr in
      let seen = s1ap_hdr-view q used security_body in
      let a0 = set_context guti (context raw guti a) a in
      handle_ue-secure ssl raw raw_grpc unset ausf smf upf e m h security_body p a
        (omega (arith, short, shorter)) (signal_hdr-IsS1ap 3 e m h security_body (omega arith) k)
        named
      ∙ rw
          (
            handle_security_mode_complete_lem ssl w raw q used a guti known.leads real
                (omega (arith, length-s1ap_bytes hdr)),
            handle_location_update_lem raw raw_grpc ausf q used security_body a0 guti known.leads
                real (omega (arith, short)),
            handle_create_session_lem raw raw_grpc smf located guti s11 m key (apn_of ssl w) r
                located-IsKnown located_apn creates ssl w (view q used security_body)
                (ap (λ (g : S1ap). a.s1amf_id g.mme_s1ap_ue_id) seen ∙ known.leads) real teid,
          )
          (ap (λ (g : S1ap). ok (accepted_by raw raw_grpc smf located guti s11, some (in_accept g)))
            seen)
