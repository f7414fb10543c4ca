-- ===== src/Cases/Smf.antt =====
-- The theorems on the session management function at concrete requests.
use sba_g_rpc_5g.Base.{◌≡◌, refl, true, some, [], ◌∷◌, arith}
use sba_g_rpc_5g.Result.{ok}
use sba_g_rpc_5g.Messages.{message}
use sba_g_rpc_5g.Packet.Numbers.{IsText}
use sba_g_rpc_5g.Packet.Transport.{IsGtp}
use sba_g_rpc_5g.UnorderedMap.{put, nat_key}
use sba_g_rpc_5g.Rpc.{AmfSmfReply, new_smf_reply}
use sba_g_rpc_5g.Smf.State.{UeContext, Smf}
use sba_g_rpc_5g.Smf.Handlers.{handle_create_session, handle_modify_bearer, handle_detach}
use sba_g_rpc_5g.Smf.Lifecycle.{handle_modify_bearer-overrides, handle_detach-keeps}
use sba_g_rpc_5g.Smf.Silence.{handle_create_session-silent}
use sba_g_rpc_5g.Cases.Data.{gtp_0, packet_0, addr, answers, never, smf_context, smf_0, request}

gtp_0-IsGtp : IsGtp gtp_0
gtp_0-IsGtp = record {
  flags = omega arith;
  pad_1 = omega arith;
  msg_len = omega arith;
  field_1 = omega arith;
  field_2 = omega arith;
  field_3 = omega arith;
  msg_type = omega arith;
  pad_2 = omega arith;
  teid = omega arith;
}

addr-IsText : IsText addr
addr-IsText = ground arith

handle_modify_bearer-overrides_example :
    handle_modify_bearer smf_context packet_0
      (answers (message 2 7 gtp_0 (1 ∷ [])))
      request
      new_smf_reply
      smf_0
    ≡ ok (
      record {
        ue_ctx = put 1111 smf_context smf_0.ue_ctx;
        g_trafmon_ip_addr = addr;
        g_trafmon_port = 4000;
      },
      record new_smf_reply { res = true },
    )
handle_modify_bearer-overrides_example =
    handle_modify_bearer-overrides smf_context packet_0 (answers (message 2 7 gtp_0 (1 ∷ [])))
      request new_smf_reply smf_0 smf_context 7 gtp_0 (omega arith) refl gtp_0-IsGtp (omega arith)
      addr-IsText (omega arith) refl

handle_detach-keeps_example :
    (s' : Smf) × (handle_detach smf_context packet_0
        (answers (message 3 7 gtp_0 (1 ∷ [])))
        request
        new_smf_reply
        smf_0
      ≡ ok (s', record new_smf_reply { res = true }))
    × (s'.ue_ctx 1111 ≡ some smf_context)
handle_detach-keeps_example =
    handle_detach-keeps smf_context packet_0 (answers (message 3 7 gtp_0 (1 ∷ []))) request
      new_smf_reply smf_0 smf_context 7 gtp_0 (omega arith) refl gtp_0-IsGtp (omega arith) refl

handle_create_session-silent_example :
    (c : UeContext) × (r : AmfSmfReply) × (handle_create_session smf_context packet_0 never request
        new_smf_reply smf_0
      ≡ ok (record smf_0 { ue_ctx = put 1111 c smf_0.ue_ctx }, r))
    × (r.res ≡ true)
    × (r.s11_cteid_upf ≡ 0)
    × (r.s1_uteid_ul ≡ 0)
    × (r.ue_ip_addr ≡ [])
    × (c.ip_addr ≡ [])
handle_create_session-silent_example =
    handle_create_session-silent smf_context packet_0 never (λ d. refl) request new_smf_reply smf_0
      (omega arith)
