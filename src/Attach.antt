-- ===== src/Attach.antt =====
-- The start of the attach between the base station and the AMF: Ran::initial_attach and
-- Ran::authenticate of src/ran.cpp against Amf::handle_initial_attach of src/amf.cpp.
use sba_g_rpc_5g.Base.{ℕ, ◌+◌, ◌%◌, ◌^◌, ◌<◌, ◌≡◌, refl, ap, ◌∙◌, some, [], ◌++◌, arith}
use sba_g_rpc_5g.Result.{ok, ◌>>=◌}
use sba_g_rpc_5g.Bytes.{Bytes, encode}
use sba_g_rpc_5g.Packet.{
  Packet, S1ap, s1ap_bytes, s1ap_init, append_u16, append_u64, extract_u16, extract_u64,
}
use sba_g_rpc_5g.Packet.View.{view, view-view, s1ap_hdr-view, append_bytes-view}
use sba_g_rpc_5g.Packet.Moves.{clear_pkt-view}
use sba_g_rpc_5g.Packet.Numbers.{extract_number-view}
use sba_g_rpc_5g.UnorderedMap.{nat_key}
use sba_g_rpc_5g.Telecom.{get_guti}
use sba_g_rpc_5g.Sctp.{Segment, requester}
use sba_g_rpc_5g.Signals.{
  signal_hdr, signal, frame, deliver, deliver-frame, length-signal, read_signal, send-signal,
  prepend_signal, send_headed,
}
use sba_g_rpc_5g.AttachAccept.{IsSignalHdr, signal_hdr-IsS1ap}
use sba_g_rpc_5g.Handover.{open_segment, open_segment_lem}
use sba_g_rpc_5g.Amf.State.{UeContext, Amf, context, init_ue_context}
use sba_g_rpc_5g.Amf.Clients.{GrpcPacket, AusfServer, amf_ausf_interaction}
use sba_g_rpc_5g.Amf.Attach.{Unset, register, store_keys, handle_initial_attach}
use sba_g_rpc_5g.Ran.State.{RanContext}
use sba_g_rpc_5g.Ran.Attach.{initial_attach, response, derive_k_asme, answer_challenge}

-- The body of an attach request.
abbrev pub attach_body : RanContext → Bytes
attach_body c =
    encode 8 c.imsi ++ (encode 8 c.tai ++ (encode 8 c.ksi_asme ++ encode 2 c.nw_capability))

pub initial_attach_lem :
    (c : RanContext) (q : Packet)
    → initial_attach c q
      ≡ ok (record {
        to = requester;
        bytes = frame (signal 1 c.enodeb_s1ap_ue_id 0 q.s1ap_hdr (attach_body c));
      })
unfolding initial_attach append_u16 append_u64
initial_attach_lem c q =
    let p1 = encode 8 c.imsi in
    let p2 = p1 ++ encode 8 c.tai in
    let p3 = p2 ++ encode 8 c.ksi_asme in
    rw (
      clear_pkt-view q,
      append_bytes-view q [] p1 (omega arith),
      append_bytes-view q p1 (encode 8 c.tai) (omega arith),
      append_bytes-view q p2 (encode 8 c.ksi_asme) (omega arith),
      append_bytes-view q p3 (encode 2 c.nw_capability) (omega arith),
      send-signal requester 1 c.enodeb_s1ap_ue_id 0 q (attach_body c) [] (omega arith),
    )

-- The body of the challenge. The key set identifier is 1.
abbrev pub challenge_body : ℕ → ℕ → Bytes
challenge_body autn_num rand_num = encode 8 autn_num ++ (encode 8 rand_num ++ encode 8 1)

module _ (raw : UeContext) (raw_grpc : GrpcPacket) (unset : Unset) (ausf : AusfServer) (a : Amf)
    (r : RanContext) (guti : ℕ) where
  abbrev pub registered : Amf
  registered = register raw guti r.imsi r.tai r.nw_capability r.enodeb_s1ap_ue_id a

  -- What the AMF has after it has asked the AUSF.
  abbrev pub vector : GrpcPacket
  vector = amf_ausf_interaction ausf (record raw_grpc {
    msg_type = 1;
    imsi = r.imsi;
    plmn_id = a.amf_ids.plmn_id;
    num_autn_vectors = 1;
    nw_type = (context raw guti registered).nw_type;
  })

  stored_ksi : (b : Amf) → (context raw guti (store_keys raw unset guti b)).ksi_asme ≡ 1
  unfolding store_keys
  stored_ksi b = ground arith

  pub handle_initial_attach_lem :
      (q : Packet) (used : Bytes)
      → get_guti a.amf_ids.guamfi r.imsi ≡ ok guti
      → q.s1ap_hdr.enodeb_s1ap_ue_id ≡ r.enodeb_s1ap_ue_id
      → r.imsi < 2 ^ 64
      → r.tai < 2 ^ 64
      → r.ksi_asme < 2 ^ 64
      → r.nw_capability < 2 ^ 16
      → handle_initial_attach raw raw_grpc unset ausf (view q used (attach_body r)) a
        ≡ ok (
          store_keys raw unset guti registered,
          record {
            to = requester;
            bytes = frame (
                signal 1 r.enodeb_s1ap_ue_id
                  (registered.ue_count % 2 ^ 32)
                  q.s1ap_hdr
                  (challenge_body vector.autn_num vector.rand_num));
          },
        )
  unfolding handle_initial_attach append_u64 extract_u16 extract_u64
  handle_initial_attach_lem q used named id hi ht hk hn =
      let p1 = used ++ encode 8 r.imsi in
      let p2 = p1 ++ encode 8 r.tai in
      let p3 = p2 ++ encode 8 r.ksi_asme in
      let p4 = p3 ++ encode 2 r.nw_capability in
      let ids : (view q p4 []).s1ap_hdr.enodeb_s1ap_ue_id ≡ r.enodeb_s1ap_ue_id =
        ap (λ (h : S1ap). h.enodeb_s1ap_ue_id) (s1ap_hdr-view q p4 []) ∙ id in
      let b1 = encode 8 vector.autn_num in
      let b2 = b1 ++ encode 8 vector.rand_num in
      rw (
        extract_number-view 8 r.imsi q used _ hi,
        extract_number-view 8 r.tai q p1 _ ht,
        extract_number-view 8 r.ksi_asme q p2 _ hk,
        extract_number-view 2 r.nw_capability q p3 [] hn,
        named,
        clear_pkt-view (view q p4 []),
        view-view q p4 [] [] [],
        ids,
        stored_ksi registered,
        append_bytes-view q [] b1 (omega arith),
        append_bytes-view q b1 (encode 8 vector.rand_num) (omega arith),
        append_bytes-view q b2 (encode 8 1) (omega arith),
        prepend_signal 1 r.enodeb_s1ap_ue_id (registered.ue_count % 2 ^ 32) q
            (challenge_body vector.autn_num vector.rand_num) [] (omega arith),
        send_headed requester 1 r.enodeb_s1ap_ue_id (registered.ue_count % 2 ^ 32) q.s1ap_hdr q
            (challenge_body vector.autn_num vector.rand_num) [] (omega arith),
      )

-- The challenge at the base station, whichever of its branches is taken.
pub answer_challenge_lem :
    (c : RanContext) (autn_num rand_num : ℕ) (e m : ℕ) (h : S1ap) (p : Packet)
    → autn_num < 2 ^ 64
    → rand_num < 2 ^ 64
    → IsSignalHdr e m h
    → let hdr = signal_hdr 1 e m h (challenge_body autn_num rand_num) in
      let res = response c autn_num rand_num in
      let c' : RanContext = record c {
        mme_s1ap_ue_id = m;
        ksi_asme = 1;
        k_asme = derive_k_asme c res rand_num;
      } in
      answer_challenge c (view p [] (signal 1 e m h (challenge_body autn_num rand_num)))
      ≡ ok (
        c',
        record {
          to = requester;
          bytes = frame (signal 2 c.enodeb_s1ap_ue_id m hdr (encode 8 res));
        },
      )
unfolding answer_challenge append_u64 extract_u64 signal_hdr s1ap_init
answer_challenge_lem c autn_num rand_num e m h p ha hr k =
    let body = challenge_body autn_num rand_num in
    let hdr = signal_hdr 1 e m h body in
    let p' : Packet = record p { s1ap_hdr = hdr } in
    let u0 = s1ap_bytes hdr in
    let u1 = u0 ++ encode 8 autn_num in
    let u2 = u1 ++ encode 8 rand_num in
    let u3 = u2 ++ encode 8 1 in
    let res = response c autn_num rand_num in
    let e' = c.enodeb_s1ap_ue_id in
    rw (
      read_signal 1 e m h body p (signal_hdr-IsS1ap 1 e m h body (omega arith) k),
      extract_number-view 8 autn_num p' u0 _ ha,
      extract_number-view 8 rand_num p' u1 _ hr,
      extract_number-view 8 1 p' u2 [] (omega arith),
      clear_pkt-view (view p' u3 []),
      view-view p' u3 [] [] [],
      s1ap_hdr-view p' u0 body,
      append_bytes-view p' [] (encode 8 res) (omega arith),
      prepend_signal 2 e' m p' (encode 8 res) [] (omega arith),
      send_headed requester 2 e' m hdr p' (encode 8 res) [] (omega arith),
    )

module _ (raw : UeContext) (raw_grpc : GrpcPacket) (unset : Unset) (ausf : AusfServer) (a : Amf)
    (r : RanContext) (guti : ℕ) (pkt p p' : Packet) (hi : r.imsi < 2 ^ 64) (ht : r.tai < 2 ^ 64)
    (hk : r.ksi_asme < 2 ^ 64) (hn : r.nw_capability < 2 ^ 16)
    (k : IsSignalHdr r.enodeb_s1ap_ue_id 0 pkt.s1ap_hdr) where
  -- The attach request and the challenge, for a UE whose members are in the range of their types and
  -- whose IMSI has the GUTI `guti`: the AMF takes the request, registers the UE under a new id and
  -- sends the numbers of the AUSF's vector; the base station takes over the new id, which leads to
  -- the GUTI in the AMF, derives its key from its response to the vector, and answers. The AMF's
  -- context has the IMSI of the UE, and as expected response and key what two locals happened to
  -- hold, whatever the AUSF said.
  pub answer_challenge-handle_initial_attach :
      get_guti a.amf_ids.guamfi r.imsi ≡ ok guti
      → (vector raw raw_grpc unset ausf a r guti).autn_num < 2 ^ 64
      → (vector raw raw_grpc unset ausf a r guti).rand_num < 2 ^ 64
      → let v = vector raw raw_grpc unset ausf a r guti in
        let id = (a.ue_count + 1) % 2 ^ 64 % 2 ^ 32 in
        (a' : Amf) × (r' : RanContext) × (asked : Segment) × (challenge : Segment)
        × (answered : Segment) × (initial_attach r pkt ≡ ok asked)
        × ((open_segment asked p >>= λ q. handle_initial_attach raw raw_grpc unset ausf q a)
            ≡ ok (a', challenge))
        × ((deliver challenge p' >>= answer_challenge r) ≡ ok (r', answered))
        × (r'.mme_s1ap_ue_id ≡ id)
        × (r'.k_asme ≡ derive_k_asme r (response r v.autn_num v.rand_num) v.rand_num)
        × (a'.s1amf_id id ≡ some guti)
        × ((context raw guti a').imsi ≡ r.imsi)
        × ((context raw guti a').xres ≡ unset.xres)
        × ((context raw guti a').k_asme ≡ unset.k_asme)
  unfolding signal_hdr s1ap_init store_keys register init_ue_context
  answer_challenge-handle_initial_attach named ha hr =
      let e = r.enodeb_s1ap_ue_id in
      let body = attach_body r in
      let hdr = signal_hdr 1 e 0 pkt.s1ap_hdr body in
      let q : Packet = record p { s1ap_hdr = hdr } in
      let v = vector raw raw_grpc unset ausf a r guti in
      let a1 = registered raw raw_grpc unset ausf a r guti in
      let m = a1.ue_count % 2 ^ 32 in
      let body' = challenge_body v.autn_num v.rand_num in
      let k' : IsSignalHdr e m hdr = (k.0, omega arith, k.2) in
      let hdr' = signal_hdr 1 e m hdr body' in
      let res = response r v.autn_num v.rand_num in
      let n = length-signal 1 e m hdr body' in
      (
        store_keys raw unset guti a1,
        record r { mme_s1ap_ue_id = m; ksi_asme = 1; k_asme = derive_k_asme r res v.rand_num },
        record { to = requester; bytes = frame (signal 1 e 0 pkt.s1ap_hdr body) },
        record { to = requester; bytes = frame (signal 1 e m hdr body') },
        record { to = requester; bytes = frame (signal 2 e m hdr' (encode 8 res)) },
        initial_attach_lem r pkt,
        rw (open_segment_lem requester 1 e 0 pkt.s1ap_hdr body p (omega arith) k (omega arith)) (
            handle_initial_attach_lem raw raw_grpc unset ausf a r guti q (s1ap_bytes hdr) named refl
              hi ht hk hn),
        rw
            (deliver-frame requester (signal 1 e m hdr body') p' (omega (arith, n))
              (omega (arith, n)))
            (answer_challenge_lem r v.autn_num v.rand_num e m hdr p' ha hr k'),
        refl,
        refl,
        ground arith,
        ground arith,
        ground arith,
        ground arith,
      )
