-- ===== src/Amf/Switch.antt =====
-- The switch of handle_ue (src/amf_server.cpp) on a message as it is received: which handlers it
-- calls, and on what.
use sba_g_rpc_5g.Base.{
  nonzero, ℕ, ◌+◌, ◌≤◌, ◌<◌, ◌≡◌, ◌≢◌, ap, ◌∙◌, false, [], length, arith, ◌==◌, ◌^◌, ◌||◌, leb,
  if◌then◌else◌,
}
use sba_g_rpc_5g.Result.{ok, ◌>>=◌}
use sba_g_rpc_5g.Bytes.{Bytes}
use sba_g_rpc_5g.Packet.{Packet, S1ap, s1ap_bytes, s1ap_init, copy, buf_size}
use sba_g_rpc_5g.Packet.View.{view, s1ap_hdr-view}
use sba_g_rpc_5g.Packet.Moves.{copy-view}
use sba_g_rpc_5g.Packet.Transport.{IsS1ap, length-s1ap_bytes}
use sba_g_rpc_5g.Security.{Openssl}
use sba_g_rpc_5g.Rpc.{UdpPeer}
use sba_g_rpc_5g.Signals.{signal_hdr, signal, read_signal, length-signal}
use sba_g_rpc_5g.Amf.State.{UeContext, Amf}
use sba_g_rpc_5g.Amf.Clients.{GrpcPacket, AusfServer, SmfServer}
use sba_g_rpc_5g.Amf.Attach.{
  Unset, handle_initial_attach, handle_autn, handle_security_mode_cmd,
  handle_security_mode_complete, handle_location_update,
}
use sba_g_rpc_5g.Amf.Session.{
  handle_create_session, handle_attach_complete, handle_modify_bearer, handle_detach,
}
use sba_g_rpc_5g.Amf.Server.{
  sent, kept, authenticated, secured, attached, unidentified, identified, handle_ue,
}

present :
    (p : Packet) (bytes : Bytes)
    → 0 < length bytes
    → length bytes < 2 ^ 31
    → ((view p [] bytes).len == 0 || leb (2 ^ 31) (view p [] bytes).len) ≡ false
unfolding view
present p bytes a h = ground arith

module _ (ssl : Openssl) (raw : UeContext) (raw_grpc : GrpcPacket) (unset : Unset)
    (ausf : AusfServer) (smf : SmfServer) (upf : UdpPeer) where
  module _ (msg_type e m : ℕ) (h : S1ap) (body : Bytes) (p : Packet) (a : Amf)
      (small : 12 + length body ≤ buf_size) (r : IsS1ap (signal_hdr msg_type e m h body)) where
    abbrev hdr : S1ap
    hdr = signal_hdr msg_type e m h body

    abbrev read : Packet
    read = view (record p { s1ap_hdr = hdr }) (s1ap_bytes hdr) body

    signal_present : 0 < length (signal msg_type e m h body)
    signal_present = omega (arith, length-signal msg_type e m h body)

    id_read : read.s1ap_hdr.mme_s1ap_ue_id ≡ m
    unfolding signal_hdr s1ap_init
    id_read =
        ap (λ (g : S1ap). g.mme_s1ap_ue_id)
          (s1ap_hdr-view (record p { s1ap_hdr = hdr }) (s1ap_bytes hdr) body)

    type_read : read.s1ap_hdr.msg_type ≡ msg_type
    unfolding signal_hdr s1ap_init
    type_read =
        ap (λ (g : S1ap). g.msg_type)
          (s1ap_hdr-view (record p { s1ap_hdr = hdr }) (s1ap_bytes hdr) body)

    copied : copy read ≡ ok read
    copied =
        copy-view (record p { s1ap_hdr = hdr }) (s1ap_bytes hdr) body
          (omega (arith, length-s1ap_bytes hdr))

    identified-message :
        m ≢ 0
        → handle_ue ssl raw raw_grpc unset ausf smf upf (view p [] (signal msg_type e m h body)) a
          ≡ identified ssl raw raw_grpc unset ausf smf upf read a
    unfolding handle_ue
    identified-message n = rw (
      present p (signal msg_type e m h body) signal_present
          (omega (arith, length-signal msg_type e m h body)),
      read_signal msg_type e m h body p r,
      id_read,
      nonzero m n,
    )

  module _ (e m : ℕ) (h : S1ap) (body : Bytes) (p : Packet) (a : Amf)
      (small : 12 + length body ≤ buf_size) where
    abbrev message : ℕ → ℕ → Packet
    message msg_type i = view p [] (signal msg_type e i h body)

    pub handle_ue-attach :
        (r : IsS1ap (signal_hdr 1 e 0 h body))
        → handle_ue ssl raw raw_grpc unset ausf smf upf (message 1 0) a ≡ (
            handle_initial_attach raw raw_grpc unset ausf (read 1 e 0 h body p a small r) a
            >>= sent)
    unfolding handle_ue unidentified
    handle_ue-attach r = rw (
      present p (signal 1 e 0 h body) (signal_present 1 e 0 h body p a small r)
          (omega (arith, length-signal 1 e 0 h body)),
      read_signal 1 e 0 h body p r,
      copied 1 e 0 h body p a small r,
      id_read 1 e 0 h body p a small r,
      type_read 1 e 0 h body p a small r,
    )

    pub handle_ue-authenticate :
        (r : IsS1ap (signal_hdr 2 e m h body))
        → m ≢ 0
        → let q = read 2 e m h body p a small r in
          handle_ue ssl raw raw_grpc unset ausf smf upf (message 2 m) a ≡ (
            handle_autn raw q a >>= λ x.
            if x.1 then handle_security_mode_cmd ssl raw q x.0 >>= sent else kept x.0)
    unfolding identified authenticated
    handle_ue-authenticate r n =
        identified-message 2 e m h body p a small r n
        ∙ rw (copied 2 e m h body p a small r, type_read 2 e m h body p a small r)

    pub handle_ue-secure :
        (r : IsS1ap (signal_hdr 3 e m h body))
        → m ≢ 0
        → let q = read 3 e m h body p a small r in
          handle_ue ssl raw raw_grpc unset ausf smf upf (message 3 m) a ≡ (
            handle_security_mode_complete ssl raw q a >>= λ x.
            if x.1
            then (handle_location_update raw raw_grpc ausf q x.0 >>= λ a2.
                handle_create_session ssl raw raw_grpc smf q a2 >>= sent)
            else kept x.0)
    unfolding identified secured
    handle_ue-secure r n =
        identified-message 3 e m h body p a small r n
        ∙ rw (copied 3 e m h body p a small r, type_read 3 e m h body p a small r)

    pub handle_ue-attached :
        (r : IsS1ap (signal_hdr 4 e m h body))
        → m ≢ 0
        → let q = read 4 e m h body p a small r in
          handle_ue ssl raw raw_grpc unset ausf smf upf (message 4 m) a ≡ (
            handle_attach_complete ssl raw q a >>= λ a1.
            handle_modify_bearer raw raw_grpc smf q a1 >>= kept)
    unfolding identified attached
    handle_ue-attached r n =
        identified-message 4 e m h body p a small r n
        ∙ rw (copied 4 e m h body p a small r, type_read 4 e m h body p a small r)

    pub handle_ue-detach :
        (r : IsS1ap (signal_hdr 5 e m h body))
        → m ≢ 0
        → handle_ue ssl raw raw_grpc unset ausf smf upf (message 5 m) a
          ≡ handle_detach ssl raw raw_grpc smf (read 5 e m h body p a small r) a
    unfolding identified
    handle_ue-detach r n =
        identified-message 5 e m h body p a small r n
        ∙ rw (copied 5 e m h body p a small r, type_read 5 e m h body p a small r)
