-- ===== src/Registration/Challenges.antt =====
-- The AMF on an attach request (src/amf.cpp, src/amf_server.cpp).
use sba_g_rpc_5g.Base.{ℕ, ◌+◌, ◌-◌, ◌%◌, ◌^◌, ◌<◌, ◌≡◌, refl, ◌∙◌, some, [], arith}
use sba_g_rpc_5g.Result.{ok}
use sba_g_rpc_5g.Packet.{Packet, S1ap, s1ap_bytes, s1ap_init}
use sba_g_rpc_5g.Packet.View.{view}
use sba_g_rpc_5g.Telecom.{get_guti}
use sba_g_rpc_5g.Security.{Openssl}
use sba_g_rpc_5g.Sctp.{requester}
use sba_g_rpc_5g.Rpc.{UdpPeer}
use sba_g_rpc_5g.Signals.{signal_hdr, signal, frame}
use sba_g_rpc_5g.UnorderedMap.{nat_key}
use sba_g_rpc_5g.Amf.State.{UeContext, Amf, init_ue_context}
use sba_g_rpc_5g.Amf.Clients.{GrpcPacket, AusfServer, SmfServer}
use sba_g_rpc_5g.Amf.Attach.{Unset, register, store_keys}
use sba_g_rpc_5g.Amf.Server.{handle_ue}
use sba_g_rpc_5g.Amf.Switch.{handle_ue-attach}
use sba_g_rpc_5g.Ran.State.{RanContext}
use sba_g_rpc_5g.AttachAccept.{signal_hdr-IsS1ap}
use sba_g_rpc_5g.Attach.{attach_body, challenge_body, registered, vector, handle_initial_attach_lem}
use sba_g_rpc_5g.Registration.{IsKnown}

-- The members that an attach request has are in the range of their types.
pub record IsUe (r : RanContext) : Type 0 where
  pub imsi : r.imsi < 2 ^ 64
  pub tai : r.tai < 2 ^ 64
  pub ksi_asme : r.ksi_asme < 2 ^ 64
  pub nw_capability : r.nw_capability < 2 ^ 16
  pub enodeb_s1ap_ue_id : r.enodeb_s1ap_ue_id < 2 ^ 32

module _ (ssl : Openssl) (raw : UeContext) (raw_grpc : GrpcPacket) (unset : Unset)
    (ausf : AusfServer) (smf : SmfServer) (upf : UdpPeer) (a : Amf) (r : RanContext)
    (guti : ℕ) where
  abbrev pub asking : Amf
  asking = registered raw raw_grpc unset ausf a r guti

  -- The AMF once it has sent the challenge.
  abbrev pub challenging : Amf
  challenging = store_keys raw unset guti asking

  -- The new UE id.
  abbrev pub new_id : ℕ
  new_id = asking.ue_count % 2 ^ 32

  pub new_id_lem : a.ue_count < 2 ^ 32 - 1 → new_id ≡ a.ue_count + 1
  unfolding register
  new_id_lem h = omega arith

  pub challenging-IsKnown : IsKnown raw challenging new_id guti r unset.k_asme
  unfolding store_keys register init_ue_context
  challenging-IsKnown = record {
    leads = ground arith;
    imsi = ground arith;
    tai = ground arith;
    nw_capability = ground arith;
    ksi_asme = ground arith;
    k_asme = ground arith;
  }

  pub handle_ue-request :
      (h : S1ap) (p : Packet)
      → h.pad < 2 ^ 8
      → get_guti a.amf_ids.guamfi r.imsi ≡ ok guti
      → IsUe r
      → let e = r.enodeb_s1ap_ue_id in
        let v = vector raw raw_grpc unset ausf a r guti in
        handle_ue ssl raw raw_grpc unset ausf smf upf (view p [] (signal 1 e 0 h (attach_body r))) a
        ≡ ok (
          challenging,
          some (record {
            to = requester;
            bytes = frame (
                signal 1 e new_id
                  (signal_hdr 1 e 0 h (attach_body r))
                  (challenge_body v.autn_num v.rand_num));
          }),
        )
  unfolding signal_hdr s1ap_init
  handle_ue-request h p pad named u =
      let e = r.enodeb_s1ap_ue_id in
      let hdr = signal_hdr 1 e 0 h (attach_body r) in
      let i =
        signal_hdr-IsS1ap 1 e 0 h (attach_body r) (omega arith)
          (u.enodeb_s1ap_ue_id, omega arith, pad) in
      let q : Packet = record p { s1ap_hdr = hdr } in
      handle_ue-attach ssl raw raw_grpc unset ausf smf upf e 0 h (attach_body r) p a (omega arith) i
      ∙ rw (
          handle_initial_attach_lem raw raw_grpc unset ausf a r guti q (s1ap_bytes hdr) named refl
            u.imsi u.tai u.ksi_asme u.nw_capability)
