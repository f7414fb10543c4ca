-- ===== src/Registration/Outcome.antt =====
-- What a whole registration comes to (register_once of src/ran_simulator.cpp against
-- src/amf_server.cpp).
use sba_g_rpc_5g.Base.{ℕ, ◌+◌, ◌%◌, ◌^◌, ◌≡◌, true, none, some, [], ◌∷◌, ◌++◌}
use sba_g_rpc_5g.Result.{ok}
use sba_g_rpc_5g.Packet.{Packet}
use sba_g_rpc_5g.Security.{Openssl}
use sba_g_rpc_5g.Sctp.{Segment}
use sba_g_rpc_5g.Rpc.{AmfSmfReply, UdpPeer}
use sba_g_rpc_5g.Amf.State.{UeContext, Amf, context}
use sba_g_rpc_5g.Amf.Clients.{GrpcPacket, AusfServer, SmfServer}
use sba_g_rpc_5g.Amf.Attach.{Unset}
use sba_g_rpc_5g.Ran.Traffic.{get_uplink_info}
use sba_g_rpc_5g.Registration.Legs.{Answered, Taken}
use sba_g_rpc_5g.Simulator.{Round, Simulation, register_once}

-- The round of the base station in `s` with the AMF in `a`, for the GUTI and the answer `reply` of
-- the SMF to the create session: the states of the AMF after each of the five messages, the packets
-- that the base station hears, and what the two ends have then.
pub record Registered (ssl : Openssl) (raw : UeContext) (raw_grpc : GrpcPacket) (unset : Unset)
    (ausf : AusfServer) (smf smf_modify smf_detach : SmfServer) (upf : UdpPeer) (p pr : Packet)
    (s : Simulation) (a : Amf) (guti : ℕ) (reply : AmfSmfReply) : Type 0 where
  pub round : Round
  pub after : Simulation
  pub challenged : Amf
  pub commanded : Amf
  pub accepted : Amf
  pub completed : Amf
  pub departed : Amf
  pub attach_sent : Segment
  pub response_sent : Segment
  pub complete_sent : Segment
  pub attached_sent : Segment
  pub leave_sent : Segment
  pub attach_answered :
      Answered ssl raw raw_grpc unset ausf smf upf p pr attach_sent a challenged round.challenge
  pub response_answered :
      Answered ssl raw raw_grpc unset ausf smf upf p pr response_sent challenged commanded
        round.command
  pub complete_answered :
      Answered ssl raw raw_grpc unset ausf smf upf p pr complete_sent commanded accepted
        round.acceptance
  pub attached_taken :
      Taken ssl raw raw_grpc unset ausf smf_modify upf p pr attached_sent accepted completed
  pub leave_answered :
      Answered ssl raw raw_grpc unset ausf smf_detach upf p pr leave_sent completed departed
        round.confirmation
  pub succeeds : register_once ssl round s ≡ ok (after, true)
  pub sent :
      after.sent
      ≡ s.sent ++ (attach_sent ∷ response_sent ∷ complete_sent ∷ attached_sent ∷ leave_sent ∷ [])
  pub counted : after.g_tot_regs ≡ (s.g_tot_regs + 1) % 2 ^ 32
  pub named : after.ran.ran_ctx.guti ≡ guti
  pub uplink :
      get_uplink_info reply.ue_ip_addr after.g_traf_mon
      ≡ some (record {
        s1_uteid_ul = reply.s1_uteid_ul;
        sgw_s1_ip_addr = reply.g_upf_s1_ip_addr;
        sgw_s1_port = 7100;
      })
  pub emm_state : (context raw guti completed).emm_state ≡ 1
  pub ecm_state : (context raw guti completed).ecm_state ≡ 1
  pub s1_uteid_dl : (context raw guti completed).s1_uteid_dl ≡ after.ran.ran_ctx.s1_uteid_ul
  pub no_id : departed.s1amf_id (a.ue_count + 1) ≡ none
  pub no_context : departed.ue_ctx guti ≡ none
