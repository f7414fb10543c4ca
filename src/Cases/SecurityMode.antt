-- ===== src/Cases/SecurityMode.antt =====
-- The exchange of the security mode at concrete values.
use sba_g_rpc_5g.Base.{◌≡◌, refl, true, arith}
use sba_g_rpc_5g.Result.{ok, ◌>>=◌}
use sba_g_rpc_5g.Sctp.{Segment}
use sba_g_rpc_5g.Signals.{deliver}
use sba_g_rpc_5g.Handover.{open_segment}
use sba_g_rpc_5g.Amf.State.{Amf, context, set_context}
use sba_g_rpc_5g.Amf.Attach.{handle_security_mode_cmd, handle_security_mode_complete}
use sba_g_rpc_5g.Ran.State.{RanContext}
use sba_g_rpc_5g.Ran.Attach.{answer_security_mode}
use sba_g_rpc_5g.SecurityMode.Exchange.{answer_security_mode-handle_security_mode_cmd}
use sba_g_rpc_5g.Cases.Data.{packet_0, amf_0, amf_context, ran_0, plain_ssl, plain_ssl-IsOpenssl}

answer_security_mode-handle_security_mode_cmd_example :
    (a' : Amf) × (r' : RanContext) × (cmd : Segment) × (answered : Segment)
    × (handle_security_mode_cmd plain_ssl amf_context packet_0 amf_0 ≡ ok (a', cmd))
    × ((deliver cmd packet_0 >>= answer_security_mode plain_ssl ran_0.ran_ctx) ≡ ok (r', answered))
    × ((open_segment answered packet_0 >>= λ q'.
          handle_security_mode_complete plain_ssl amf_context q' a')
        ≡ ok (set_context 1111 (context amf_context 1111 a') a', true))
    × (r'.ksi_asme ≡ 0)
    × (r'.nw_capability ≡ 0)
    × ((context amf_context 1111 a').k_nas_enc ≡ r'.k_nas_enc)
    × ((context amf_context 1111 a').k_nas_int ≡ r'.k_nas_int)
answer_security_mode-handle_security_mode_cmd_example =
    answer_security_mode-handle_security_mode_cmd plain_ssl plain_ssl-IsOpenssl amf_context packet_0
      packet_0 packet_0 amf_0 1111 amf_context ran_0.ran_ctx (omega arith) refl (omega arith) refl
      refl (omega arith) (omega arith) (omega arith) refl refl refl refl
