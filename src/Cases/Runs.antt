-- ===== src/Cases/Runs.antt =====
-- A run of the AMF at concrete values.
use sba_g_rpc_5g.Base.{ℕ, ◌≡◌, none, ◌⊎◌, arith}
use sba_g_rpc_5g.Telecom.{get_guti_lem}
use sba_g_rpc_5g.Amf.State.{Amf}
use sba_g_rpc_5g.Amf.Clients.{amf_ausf_interaction}
use sba_g_rpc_5g.Amf.Identity.{IsCounted}
use sba_g_rpc_5g.Amf.Runs.{Run, Run-IsCounted}
use sba_g_rpc_5g.Registration.Challenges.{challenging, handle_ue-request}
use sba_g_rpc_5g.Cases.Data.{packet_0, amf_0, amf_context, grpc_0, plain_ssl, never}
use sba_g_rpc_5g.Cases.Amf.{amf_0-IsCounted}
use sba_g_rpc_5g.Cases.Registration.{ue, locals, ausf, smf, ue-IsUe}

-- The AMF after an attach request.
abbrev amf_1 : Amf
amf_1 = challenging plain_ssl amf_context grpc_0 locals ausf smf never amf_0 ue 1111119000000008

one_turn : Run amf_0 amf_1
unfolding amf_ausf_interaction
one_turn =
    Run.turn plain_ssl amf_context grpc_0 locals ausf smf never _ amf_0 amf_0 amf_1 _
      (Run.stay amf_0) (omega arith)
      (handle_ue-request plain_ssl amf_context grpc_0 locals ausf smf never amf_0 ue
        1111119000000008 packet_0.s1ap_hdr packet_0 (omega arith)
        (get_guti_lem 119000000008 (omega arith) (omega arith)) ue-IsUe)

Run-IsCounted_example :
    IsCounted amf_1
    × ((id : ℕ)
        → (amf_1.s1amf_id id ≡ amf_0.s1amf_id id)
          ⊎ ((amf_1.s1amf_id id ≡ none) ⊎ (amf_0.s1amf_id id ≡ none)))
Run-IsCounted_example = Run-IsCounted amf_0 amf_1 amf_0-IsCounted one_turn
