-- ===== src/Handover.antt =====
-- The handover between the source base station, the AMF and the target: class Ran of src/ran.cpp
-- against the handlers of src/amf.cpp. The caller of a base station's method has read the header of
-- the message, as the method's comment asks.
pub mod Tunnel
use sba_g_rpc_5g.Base.{
  ℕ, ◌+◌, ◌%◌, ◌^◌, ◌≤◌, ◌<◌, ◌≡◌, refl, ap, ◌∙◌, true, some, if◌then◌else◌, [], ◌++◌, length,
  arith,
}
use sba_g_rpc_5g.Result.{Result, ok, ◌>>=◌}
use sba_g_rpc_5g.Bytes.{Bytes, encode}
use sba_g_rpc_5g.Packet.{
  Packet, S1ap, Gtp, s1ap_bytes, gtp_bytes, s1ap_init, append_u16, append_u32, append_int,
  extract_bool, extract_u16, extract_u32, extract_int, extract_s1ap_hdr, prepend_s1ap_hdr,
}
use sba_g_rpc_5g.Packet.View.{view, view-view, s1ap_hdr-view, append_bytes-view}
use sba_g_rpc_5g.Packet.Moves.{clear_pkt-view}
use sba_g_rpc_5g.Packet.Numbers.{extract_number-view, extract_bool-view}
use sba_g_rpc_5g.Packet.Transport.{IsGtp, control_hdr, length-s1ap_bytes}
use sba_g_rpc_5g.Messages.{message}
use sba_g_rpc_5g.Exchanges.{ask-answered}
use sba_g_rpc_5g.Rpc.{UdpPeer}
use sba_g_rpc_5g.UnorderedMap.{nat_key}
use sba_g_rpc_5g.Sctp.{Peer, Segment, send, requester, source_ran, target_ran}
use sba_g_rpc_5g.Signals.{
  signal_hdr, signal, frame, deliver, deliver-frame, read_signal, length-signal, send-signal,
}
use sba_g_rpc_5g.AttachAccept.{IsSignalHdr, signal_hdr-IsS1ap}
use sba_g_rpc_5g.Amf.State.{UeContext, Amf, context, set_context, g_upf_s11}
use sba_g_rpc_5g.Amf.State
use sba_g_rpc_5g.Amf.Handover.{request_target_ran, setup_indirect_tunnel}
use sba_g_rpc_5g.Ran.State.{RanContext, Ran}
use sba_g_rpc_5g.Ran.Handover.{to_amf, initiate_handover, handle_handover, indirect_tunnel_complete}

-- What a base station sends under the ids of its context.
pub to_amf-view :
    (msg_type : ℕ) (c : RanContext) (q : Packet) (body : Bytes)
    → 16 + length body ≤ 1024
    → to_amf msg_type c (view q body [])
      ≡ ok (record {
        to = requester;
        bytes =
            frame (signal msg_type c.enodeb_s1ap_ue_id c.mme_s1ap_ue_id q.s1ap_hdr (body ++ []));
      })
unfolding to_amf
to_amf-view msg_type c q body h =
    send-signal requester msg_type c.enodeb_s1ap_ue_id c.mme_s1ap_ue_id q body [] (omega arith)

-- What the AMF sends to a base station goes out under the ids of the header that it has read.
pub to_ran-view :
    (peer : Peer) (msg_type : ℕ) (q : Packet) (body : Bytes)
    → 16 + length body ≤ 1024
    → (prepend_s1ap_hdr msg_type
          (view q body []).len
          (view q body []).s1ap_hdr.enodeb_s1ap_ue_id
          (view q body []).s1ap_hdr.mme_s1ap_ue_id
          (view q body [])
        >>= send peer)
      ≡ ok (record {
        to = peer;
        bytes = frame (
            signal msg_type q.s1ap_hdr.enodeb_s1ap_ue_id q.s1ap_hdr.mme_s1ap_ue_id q.s1ap_hdr
              (body ++ []));
      })
to_ran-view peer msg_type q body h =
    ap
      (λ (g : S1ap).
        prepend_s1ap_hdr msg_type (view q body []).len g.enodeb_s1ap_ue_id g.mme_s1ap_ue_id
          (view q body [])
        >>= send peer)
      (s1ap_hdr-view q body [])
    ∙ send-signal peer msg_type q.s1ap_hdr.enodeb_s1ap_ue_id q.s1ap_hdr.mme_s1ap_ue_id q body []
        (omega arith)

-- The body of a handover request: the kind, the ids of source and target, and those of the UE.
abbrev request_body : Ran → Bytes
request_body r =
    encode 4 0
    ++ (encode 2 r.enodeb_id
        ++ (encode 2 2
            ++ (encode 4 r.ran_ctx.enodeb_s1ap_ue_id ++ encode 4 r.ran_ctx.mme_s1ap_ue_id)))

initiated : Ran → Ran
initiated r = record r {
  handover_state = 1;
  ran_ctx = record r.ran_ctx { enodeb_id = 1; handover_target_enodeb_id = 2 };
}

initiate_handover_lem :
    (r : Ran) (q : Packet)
    → let c = r.ran_ctx in
      initiate_handover r q
      ≡ ok (
        initiated r,
        record {
          to = requester;
          bytes = frame (signal 7 c.enodeb_s1ap_ue_id c.mme_s1ap_ue_id q.s1ap_hdr (request_body r));
        },
      )
unfolding initiate_handover append_int append_u16 append_u32 initiated
initiate_handover_lem r q =
    let c = r.ran_ctx in
    let p1 = encode 4 0 in
    let p2 = p1 ++ encode 2 r.enodeb_id in
    let p3 = p2 ++ encode 2 2 in
    let p4 = p3 ++ encode 4 c.enodeb_s1ap_ue_id in
    rw (
      clear_pkt-view q,
      append_bytes-view q [] p1 (omega arith),
      append_bytes-view q p1 (encode 2 r.enodeb_id) (omega arith),
      append_bytes-view q p2 (encode 2 2) (omega arith),
      append_bytes-view q p3 (encode 4 c.enodeb_s1ap_ue_id) (omega arith),
      append_bytes-view q p4 (encode 4 c.mme_s1ap_ue_id) (omega arith),
      to_amf-view 7 c q (request_body r) (omega arith),
    )

-- What the AMF tells the target: the target's id, the ids of the UE and its uplink TEID.
abbrev target_body : ℕ → ℕ → ℕ → Bytes
target_body e m teid = encode 2 2 ++ (encode 4 e ++ (encode 4 m ++ encode 4 teid))

request_target_ran_lem :
    (raw : UeContext) (q : Packet) (used : Bytes) (a : Amf) (r : Ran) (guti : ℕ) (c : UeContext)
    → a.s1amf_id q.s1ap_hdr.mme_s1ap_ue_id ≡ some guti
    → a.ue_ctx guti ≡ some c
    → r.enodeb_id < 2 ^ 16
    → r.ran_ctx.enodeb_s1ap_ue_id < 2 ^ 32
    → r.ran_ctx.mme_s1ap_ue_id < 2 ^ 32
    → request_target_ran raw (view q used (request_body r)) a
      ≡ ok (
        set_context guti c a,
        record {
          to = target_ran;
          bytes = frame (
              signal 7 q.s1ap_hdr.enodeb_s1ap_ue_id q.s1ap_hdr.mme_s1ap_ue_id q.s1ap_hdr
                (target_body r.ran_ctx.enodeb_s1ap_ue_id r.ran_ctx.mme_s1ap_ue_id c.s1_uteid_ul));
        },
      )
unfolding request_target_ran State.get_guti extract_int extract_u16 extract_u32 append_u16
    append_u32
request_target_ran_lem raw q used a r guti c known there hs he hm =
    let e = r.ran_ctx.enodeb_s1ap_ue_id in
    let m = r.ran_ctx.mme_s1ap_ue_id in
    let p1 = used ++ encode 4 0 in
    let p2 = p1 ++ encode 2 r.enodeb_id in
    let p3 = p2 ++ encode 2 2 in
    let p4 = p3 ++ encode 4 e in
    let p5 = p4 ++ encode 4 m in
    let id : a.s1amf_id (view q p5 []).s1ap_hdr.mme_s1ap_ue_id ≡ some guti =
      ap (λ (h : S1ap). a.s1amf_id h.mme_s1ap_ue_id) (s1ap_hdr-view q p5 []) ∙ known in
    rw (
      extract_number-view 4 0 q used _ (omega arith),
      extract_number-view 2 r.enodeb_id q p1 _ hs,
      extract_number-view 2 2 q p2 _ (omega arith),
      extract_number-view 4 e q p3 _ he,
      extract_number-view 4 m q p4 [] hm,
      id,
      there,
      clear_pkt-view (view q p5 []),
      view-view q p5 [] [] [],
      append_bytes-view q [] (encode 2 2) (omega arith),
      append_bytes-view q (encode 2 2) (encode 4 e) (omega arith),
      append_bytes-view q (encode 2 2 ++ encode 4 e) (encode 4 m) (omega arith),
      append_bytes-view q ((encode 2 2 ++ encode 4 e) ++ encode 4 m) (encode 4 c.s1_uteid_ul)
          (omega arith),
      to_ran-view target_ran 7 q (target_body e m c.s1_uteid_ul) (omega arith),
    )

-- The target: it takes over the ids and the TEID, and acknowledges with the id of the UE.
moved : ℕ → ℕ → ℕ → Ran → Ran
moved e m teid r = record r {
  handover_state = 3;
  ran_ctx = record r.ran_ctx { enodeb_s1ap_ue_id = e; mme_s1ap_ue_id = m; s1_uteid_ul = teid };
}

handle_handover_lem :
    (e m teid : ℕ) (r : Ran) (q : Packet) (used : Bytes)
    → e < 2 ^ 32
    → m < 2 ^ 32
    → teid < 2 ^ 32
    → handle_handover r (view q used (target_body e m teid))
      ≡ ok (
        moved e m teid r,
        record { to = requester; bytes = frame (signal 8 e m q.s1ap_hdr (encode 4 e)) },
      )
unfolding handle_handover extract_u16 extract_u32 append_u32 moved
handle_handover_lem e m teid r q used he hm ht =
    let p1 = used ++ encode 2 2 in
    let p2 = p1 ++ encode 4 e in
    let p3 = p2 ++ encode 4 m in
    let p4 = p3 ++ encode 4 teid in
    rw (
      extract_number-view 2 2 q used _ (omega arith),
      extract_number-view 4 e q p1 _ he,
      extract_number-view 4 m q p2 _ hm,
      extract_number-view 4 teid q p3 [] ht,
      clear_pkt-view (view q p4 []),
      view-view q p4 [] [] [],
      append_bytes-view q [] (encode 4 e) (omega arith),
      to_amf-view 8 (moved e m teid r).ran_ctx q (encode 4 e) (omega arith),
    )

-- A message that a receiver has got and whose header it has read.
abbrev pub open_segment : Segment → Packet → Result Packet
open_segment segment p = deliver segment p >>= extract_s1ap_hdr

pub open_segment_lem :
    (peer : Peer) (msg_type e m : ℕ) (h : S1ap) (body : Bytes) (p : Packet)
    → msg_type < 2 ^ 8
    → IsSignalHdr e m h
    → 12 + length body ≤ 1024
    → let g = signal_hdr msg_type e m h body in
      open_segment (record { to = peer; bytes = frame (signal msg_type e m h body) }) p
      ≡ ok (view (record p { s1ap_hdr = g }) (s1ap_bytes g) body)
open_segment_lem peer msg_type e m h body p a k small =
    let n = length-signal msg_type e m h body in
    rw (deliver-frame peer (signal msg_type e m h body) p (omega (arith, n)) (omega (arith, n)))
      (read_signal msg_type e m h body p (signal_hdr-IsS1ap msg_type e m h body a k))

module _ (raw : UeContext) (source target : Ran) (pkt p p' : Packet) (a : Amf) (guti : ℕ)
    (c : UeContext)
    (k : IsSignalHdr source.ran_ctx.enodeb_s1ap_ue_id source.ran_ctx.mme_s1ap_ue_id pkt.s1ap_hdr)
    (hs : source.enodeb_id < 2 ^ 16) (ht : c.s1_uteid_ul < 2 ^ 32) where
  -- The preparation of a handover, for a UE whose id at the source leads to a context of the AMF:
  -- what the source sends is taken by the AMF to the target without a change of the AMF's tables;
  -- the target takes over the two ids of the UE and the uplink TEID of the AMF's context, whatever
  -- it held, and acknowledges. The source is then in state 1 and the target in state 3.
  pub initiate_handover-handle_handover :
      a.s1amf_id source.ran_ctx.mme_s1ap_ue_id ≡ some guti
      → a.ue_ctx guti ≡ some c
      → (source' : Ran) × (target' : Ran) × (asked : Segment) × (told : Segment)
        × (acknowledged : Segment) × (initiate_handover source pkt ≡ ok (source', asked))
        × ((open_segment asked p >>= λ q. request_target_ran raw q a)
            ≡ ok (set_context guti c a, told))
        × (told.to ≡ target_ran)
        × ((open_segment told p' >>= handle_handover target) ≡ ok (target', acknowledged))
        × (source'.handover_state ≡ 1)
        × (target'.handover_state ≡ 3)
        × (target'.ran_ctx.enodeb_s1ap_ue_id ≡ source.ran_ctx.enodeb_s1ap_ue_id)
        × (target'.ran_ctx.mme_s1ap_ue_id ≡ source.ran_ctx.mme_s1ap_ue_id)
        × (target'.ran_ctx.s1_uteid_ul ≡ c.s1_uteid_ul)
  unfolding signal_hdr s1ap_init moved initiated
  initiate_handover-handle_handover known there =
      let e = source.ran_ctx.enodeb_s1ap_ue_id in
      let m = source.ran_ctx.mme_s1ap_ue_id in
      let body = request_body source in
      let hdr = signal_hdr 7 e m pkt.s1ap_hdr body in
      let q : Packet = record p { s1ap_hdr = hdr } in
      let body' = target_body e m c.s1_uteid_ul in
      let hdr' = signal_hdr 7 e m hdr body' in
      let q' : Packet = record p' { s1ap_hdr = hdr' } in
      (
        initiated source,
        moved e m c.s1_uteid_ul target,
        record { to = requester; bytes = frame (signal 7 e m pkt.s1ap_hdr body) },
        record { to = target_ran; bytes = frame (signal 7 e m hdr body') },
        record { to = requester; bytes = frame (signal 8 e m hdr' (encode 4 e)) },
        initiate_handover_lem source pkt,
        rw (open_segment_lem requester 7 e m pkt.s1ap_hdr body p (omega arith) k (omega arith))
            (request_target_ran_lem raw q (s1ap_bytes hdr) a source guti c known there hs k.0 k.1),
        refl,
        rw (open_segment_lem target_ran 7 e m hdr body' p' (omega arith) k (omega arith))
            (handle_handover_lem e m c.s1_uteid_ul target q' (s1ap_bytes hdr') k.0 k.1 ht),
        refl,
        refl,
        refl,
        refl,
        refl,
      )
