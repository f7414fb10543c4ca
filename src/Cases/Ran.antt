-- ===== src/Cases/Ran.antt =====
-- The theorems on the procedures between base station and AMF at concrete values.
use sba_g_rpc_5g.Base.{◌≡◌, refl, true, none, some, [], ◌∷◌, ◌++◌, arith}
use sba_g_rpc_5g.Result.{ok, ◌>>=◌}
use sba_g_rpc_5g.Bytes.{Bytes, encode}
use sba_g_rpc_5g.Packet.{extract_s1ap_hdr}
use sba_g_rpc_5g.Messages.{message}
use sba_g_rpc_5g.UnorderedMap.{clear, nat_key, bytes_key}
use sba_g_rpc_5g.Telecom.{get_guti_lem}
use sba_g_rpc_5g.Sctp.{Segment, target_ran}
use sba_g_rpc_5g.Signals.{deliver}
use sba_g_rpc_5g.Amf.State.{UeContext, Amf, context, set_context}
use sba_g_rpc_5g.Amf.Clients.{AusfServer, SmfServer, detach_fc, amf_ausf_interaction}
use sba_g_rpc_5g.Amf.Attach.{Unset, handle_initial_attach}
use sba_g_rpc_5g.Amf.Session.{handle_detach}
use sba_g_rpc_5g.Amf.Handover.{request_target_ran}
use sba_g_rpc_5g.Ran.State.{RanContext, Ran}
use sba_g_rpc_5g.Ran.Attach.{initial_attach, response, derive_k_asme, answer_challenge}
use sba_g_rpc_5g.Ran.Traffic.{TrafficMonitor}
use sba_g_rpc_5g.Ran.Session.{request_detach, confirm_detach}
use sba_g_rpc_5g.Ran.Handover.{initiate_handover, handle_handover}
use sba_g_rpc_5g.Attach.{answer_challenge-handle_initial_attach}
use sba_g_rpc_5g.Detach.{request_detach-handle_detach}
use sba_g_rpc_5g.Handover.{open_segment, initiate_handover-handle_handover}
use sba_g_rpc_5g.Cases.Data.{
  packet_0, gtp_0, amf_0, amf_context, ran_context, ran_0, grpc_0, plain_ssl, plain_ssl-IsOpenssl,
}

abbrev listed_context : UeContext
listed_context = record amf_context { tai_list = 1 ∷ []; e_rab_id = 5; tau_timer = 100 }

abbrev no_info : TrafficMonitor
no_info = record { uplink_info = clear }

abbrev agrees : SmfServer
agrees asked = some (record {
  guti = 1111;
  eps_bearer_id = 5;
  e_rab_id = 5;
  s1_uteid_ul = 7;
  s11_cteid_upf = 7;
  k_enodeb = 0;
  tai_list_size = 1;
  tau_timer = 100;
  ue_ip_addr = [];
  g_upf_s1_ip_addr = [];
  g_upf_s1_port = 7100;
  res = true;
})

request_detach-handle_detach_example :
    (request : Segment) × (out : Segment) × (a' : Amf) × (request_detach plain_ssl ran_0 packet_0
      ≡ ok request)
    × ((deliver request packet_0 >>= λ p1.
          extract_s1ap_hdr p1 >>= λ p2. handle_detach plain_ssl amf_context grpc_0 agrees p2 amf_0)
        ≡ ok (a', some out))
    × ((deliver out packet_0 >>= confirm_detach plain_ssl) ≡ ok true)
    × (a'.s1amf_id 1 ≡ none)
    × (a'.ue_ctx 1111 ≡ none)
unfolding detach_fc
request_detach-handle_detach_example =
    request_detach-handle_detach plain_ssl plain_ssl-IsOpenssl amf_context grpc_0 agrees ran_0
      packet_0 packet_0 packet_0 amf_0 1111 (omega arith) (omega arith) (omega arith) refl
      (omega arith) refl

initiate_handover-handle_handover_example :
    (source' : Ran) × (target' : Ran) × (asked : Segment) × (told : Segment)
    × (acknowledged : Segment) × (initiate_handover ran_0 packet_0 ≡ ok (source', asked))
    × ((open_segment asked packet_0 >>= λ q. request_target_ran amf_context q amf_0)
        ≡ ok (set_context 1111 amf_context amf_0, told))
    × (told.to ≡ target_ran)
    × ((open_segment told packet_0 >>= handle_handover ran_0) ≡ ok (target', acknowledged))
    × (source'.handover_state ≡ 1)
    × (target'.handover_state ≡ 3)
    × (target'.ran_ctx.enodeb_s1ap_ue_id ≡ 7)
    × (target'.ran_ctx.mme_s1ap_ue_id ≡ 1)
    × (target'.ran_ctx.s1_uteid_ul ≡ 0)
initiate_handover-handle_handover_example =
    initiate_handover-handle_handover amf_context ran_0 ran_0 packet_0 packet_0 packet_0 amf_0 1111
      amf_context (omega arith) (omega arith) (omega arith) refl refl

abbrev tunnel_answer : Bytes
tunnel_answer = message 4 7 gtp_0 (encode 1 1 ++ encode 4 8)

abbrev unwritten : Unset
unwritten = record { xres = 99; k_asme = 98 }

abbrev vector_of_ausf : AusfServer
vector_of_ausf asked =
    some (record {
      autn_num = 12;
      rand_num = 3;
      xres = 11;
      k_asme = 40;
      default_apn = 0;
      msg_type = 1;
    })

abbrev new_ue : RanContext
new_ue = record ran_context { imsi = 119000000008; enodeb_s1ap_ue_id = 8 }

answer_challenge-handle_initial_attach_example :
    (a' : Amf) × (r' : RanContext) × (asked : Segment) × (challenge : Segment)
    × (answered : Segment) × (initial_attach new_ue packet_0 ≡ ok asked)
    × ((open_segment asked packet_0 >>= λ q.
          handle_initial_attach amf_context grpc_0 unwritten vector_of_ausf q amf_0)
        ≡ ok (a', challenge))
    × ((deliver challenge packet_0 >>= answer_challenge new_ue) ≡ ok (r', answered))
    × (r'.mme_s1ap_ue_id ≡ 2)
    × (r'.k_asme ≡ derive_k_asme new_ue (response new_ue 12 3) 3)
    × (a'.s1amf_id 2 ≡ some 1111119000000008)
    × ((context amf_context 1111119000000008 a').imsi ≡ 119000000008)
    × ((context amf_context 1111119000000008 a').xres ≡ 99)
    × ((context amf_context 1111119000000008 a').k_asme ≡ 98)
unfolding amf_ausf_interaction
answer_challenge-handle_initial_attach_example =
    answer_challenge-handle_initial_attach amf_context grpc_0 unwritten vector_of_ausf amf_0 new_ue
      1111119000000008 packet_0 packet_0 packet_0 (omega arith) (omega arith) (omega arith)
      (omega arith) (omega arith) (get_guti_lem 119000000008 (omega arith) (omega arith))
      (omega arith) (omega arith)
