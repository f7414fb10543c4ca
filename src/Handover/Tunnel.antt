-- ===== src/Handover/Tunnel.antt =====
-- The indirect tunnel of a handover: from the acknowledgement of the target over the AMF and the user
-- plane function to the source, and its tear down by the source (src/ran.cpp, src/amf.cpp).
use sba_g_rpc_5g.Base.{ℕ, ◌^◌, ◌<◌}
use sba_g_rpc_5g.Bytes.{Bytes}
use sba_g_rpc_5g.Packet.{Packet, Gtp}
use sba_g_rpc_5g.Packet.Transport.{IsGtp}
use sba_g_rpc_5g.Rpc.{UdpPeer}
use sba_g_rpc_5g.UnorderedMap.{nat_key}
use sba_g_rpc_5g.AttachAccept.{IsSignalHdr}
use sba_g_rpc_5g.Amf.State.{UeContext, Amf, context}
use sba_g_rpc_5g.Amf.State
use sba_g_rpc_5g.Ran.State.{Ran}

module _ (raw : UeContext) (upf : UdpPeer) (source : Ran) (q p : Packet) (used : Bytes) (a : Amf)
    (guti dl teid answer_teid : ℕ) (c : UeContext) (h : Gtp) (r : IsGtp h) (ht : teid < 2 ^ 32)
    (hd : dl < 2 ^ 32) (ha : answer_teid < 2 ^ 32)
    (k : IsSignalHdr q.s1ap_hdr.enodeb_s1ap_ue_id q.s1ap_hdr.mme_s1ap_ue_id q.s1ap_hdr) where
  -- What the source holds in the end.
  abbrev pub redirected : Ran
  redirected = record source {
    handover_state = 4;
    ran_ctx = record source.ran_ctx { indirect_s1_uteid_ul = teid };
  }
