-- ===== src/Amf/Server.antt =====
-- The switch of handle_ue (src/amf_server.cpp). A handler gets a copy of the packet.
use sba_g_rpc_5g.Base.{◌^◌, ◌||◌, leb, Option, none, some, ◌==◌, if◌then◌else◌}
use sba_g_rpc_5g.Result.{Result, ok, ◌>>=◌}
use sba_g_rpc_5g.Packet.{Packet, copy, extract_s1ap_hdr}
use sba_g_rpc_5g.Security.{Openssl}
use sba_g_rpc_5g.Sctp.{Segment}
use sba_g_rpc_5g.Rpc.{UdpPeer}
use sba_g_rpc_5g.Amf.State.{UeContext, Amf}
use sba_g_rpc_5g.Amf.Clients.{GrpcPacket, AusfServer, SmfServer}
use sba_g_rpc_5g.Amf.Attach.{
  Unset, handle_initial_attach, handle_autn, handle_security_mode_cmd,
  handle_security_mode_complete, handle_location_update,
}
use sba_g_rpc_5g.Amf.Session.{
  handle_create_session, handle_attach_complete, handle_modify_bearer, handle_detach,
}
use sba_g_rpc_5g.Amf.Handover.{
  request_target_ran, setup_indirect_tunnel, handle_handover_completion, teardown_indirect_tunnel,
}

abbrev pub sent : Amf × Segment → Result (Amf × Option Segment)
sent (a, out) = ok (a, some out)

abbrev pub kept : Amf → Result (Amf × Option Segment)
kept a = ok (a, none)

module _ (ssl : Openssl) (raw : UeContext) (raw_grpc : GrpcPacket) (unset : Unset)
    (ausf : AusfServer) (smf : SmfServer) (upf : UdpPeer) where
  -- The cases of the switch with two calls.
  unfoldable pub authenticated : Packet → Amf → Result (Amf × Option Segment)
  authenticated pkt a = do
    arg ← copy pkt
    (a1, res) ← handle_autn raw arg a
    if res then handle_security_mode_cmd ssl raw arg a1 >>= sent else kept a1

  unfoldable pub secured : Packet → Amf → Result (Amf × Option Segment)
  secured pkt a = do
    arg ← copy pkt
    (a1, res) ← handle_security_mode_complete ssl raw arg a
    if res
        then (do
          a2 ← handle_location_update raw raw_grpc ausf arg a1
          handle_create_session ssl raw raw_grpc smf arg a2 >>= sent)
        else kept a1

  unfoldable pub attached : Packet → Amf → Result (Amf × Option Segment)
  attached pkt a = do
    arg ← copy pkt
    a1 ← handle_attach_complete ssl raw arg a
    handle_modify_bearer raw raw_grpc smf arg a1 >>= kept

  -- The switch on an attach request, where the message has no UE id yet.
  unfoldable pub unidentified : Packet → Amf → Result (Amf × Option Segment)
  unidentified pkt a =
      if pkt.s1ap_hdr.msg_type == 1
      then (do arg ← copy pkt; handle_initial_attach raw raw_grpc unset ausf arg a >>= sent)
      else kept a

  -- The switch on the message of a UE that has an id. Message 10 falls through to the default case,
  -- which does nothing.
  unfoldable pub identified : Packet → Amf → Result (Amf × Option Segment)
  unfolding authenticated secured attached
  identified pkt a =
      let msg_type = pkt.s1ap_hdr.msg_type in
      if msg_type == 2
      then authenticated pkt a
      else if msg_type == 3
      then secured pkt a
      else if msg_type == 4
      then attached pkt a
      else if msg_type == 5
      then (do arg ← copy pkt; handle_detach ssl raw raw_grpc smf arg a)
      else if msg_type == 7
      then (do arg ← copy pkt; request_target_ran raw arg a >>= sent)
      else if msg_type == 8
      then (do arg ← copy pkt; setup_indirect_tunnel raw upf arg a)
      else if msg_type == 9
      then (do arg ← copy pkt; handle_handover_completion raw upf arg a)
      else if msg_type == 10
      then (do arg ← copy pkt; teardown_indirect_tunnel raw upf arg a >>= kept)
      else kept a

  -- handle_ue on a packet that has been received. `len <= 0`, of an int, ends it.
  unfoldable pub handle_ue : Packet → Amf → Result (Amf × Option Segment)
  unfolding unidentified identified
  handle_ue pkt a = if pkt.len == 0 || leb (2 ^ 31) pkt.len then kept a else do
    p1 ← extract_s1ap_hdr pkt
    if p1.s1ap_hdr.mme_s1ap_ue_id == 0 then unidentified p1 a else identified p1 a
