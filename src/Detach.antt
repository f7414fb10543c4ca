-- ===== src/Detach.antt =====
-- The detach between the base station and the AMF: Ran::detach of src/ran.cpp against
-- Amf::handle_detach of src/amf.cpp, there and back.
use sba_g_rpc_5g.Base.{
  nonzero, ℕ, ◌+◌, ◌^◌, ◌≤◌, ◌<◌, ◌≡◌, ◌≢◌, ap, ◌∙◌, true, Option, none, some, [], ◌++◌, length,
  arith,
}
use sba_g_rpc_5g.Result.{ok, ◌>>=◌}
use sba_g_rpc_5g.Bytes.{Bytes, encode}
use sba_g_rpc_5g.Packet.{
  Packet, S1ap, s1ap_bytes, s1ap_init, append_bool, append_u64, extract_u64, extract_s1ap_hdr,
  prepend_s1ap_hdr,
}
use sba_g_rpc_5g.Packet.View.{view, s1ap_hdr-view, append_bytes-view}
use sba_g_rpc_5g.Packet.Moves.{clear_pkt-view}
use sba_g_rpc_5g.Packet.Transport.{length-s1ap_bytes}
use sba_g_rpc_5g.Packet.Numbers.{extract_number-view, extract_bool-view}
use sba_g_rpc_5g.UnorderedMap.{nat_key}
use sba_g_rpc_5g.Security.{Openssl, IsOpenssl}
use sba_g_rpc_5g.Security.Protection.{enc-view, add_hmac-view}
use sba_g_rpc_5g.Sctp.{Segment, requester, send}
use sba_g_rpc_5g.Signals.{
  signal_hdr, signal, frame, deliver, deliver-frame, read_signal, length-signal, prepend_signal,
  send_headed,
}
use sba_g_rpc_5g.Signals.Protected.{
  sealed, cipher_of, cipher_short, length-sealed, open_sealed, send-sealed,
}
use sba_g_rpc_5g.Amf.State.{UeContext, Amf, context, set_context, rem_itfid, rem_uectx}
use sba_g_rpc_5g.Amf.State
use sba_g_rpc_5g.Amf.Clients.{GrpcPacket, SmfServer, detach_fc}
use sba_g_rpc_5g.Amf.Session.{handle_detach}
use sba_g_rpc_5g.Amf.Session
use sba_g_rpc_5g.Ran.State.{RanContext, Ran}
use sba_g_rpc_5g.Ran.Session.{request_detach, send_protected}
use sba_g_rpc_5g.Ran.Session as RanSession
use sba_g_rpc_5g.AttachAccept.{IsSignalHdr, signal_hdr-IsS1ap, something}

-- The body of a detach request.
abbrev pub detach_body : RanContext → Bytes
detach_body c = encode 8 c.guti ++ (encode 8 c.ksi_asme ++ encode 8 1)

module _ (ssl : Openssl) (w : IsOpenssl ssl) where
  pub small : (body : Bytes) → length (sealed ssl (cipher_of ssl w body)) ≤ length body + 36
  small body = omega (arith, length-sealed ssl w (cipher_of ssl w body), cipher_short ssl w body)

  pub request_detach_lem :
      (r : Ran) (q : Packet)
      → let c = r.ran_ctx in
        request_detach ssl r q
        ≡ ok (record {
          to = requester;
          bytes = frame (
              signal 5 c.enodeb_s1ap_ue_id c.mme_s1ap_ue_id q.s1ap_hdr
                (sealed ssl (cipher_of ssl w (detach_body c))));
        })
  unfolding request_detach send_protected append_u64
  request_detach_lem r q =
      let c = r.ran_ctx in
      rw (
        clear_pkt-view q,
        append_bytes-view q [] (encode 8 c.guti) (omega arith),
        append_bytes-view q (encode 8 c.guti) (encode 8 c.ksi_asme) (omega arith),
        append_bytes-view q (encode 8 c.guti ++ encode 8 c.ksi_asme) (encode 8 1) (omega arith),
        send-sealed ssl w requester 5 c.enodeb_s1ap_ue_id c.mme_s1ap_ue_id q (detach_body c)
            (omega arith),
      )

  abbrev pub answer : S1ap → Segment
  answer h = record {
    to = requester;
    bytes = frame (
        signal 5 h.enodeb_s1ap_ue_id h.mme_s1ap_ue_id h
          (sealed ssl (cipher_of ssl w (encode 1 1))));
  }

  abbrev pub detached : ℕ → Amf → S1ap → Amf × Option Segment
  detached guti a h = (rem_uectx guti (rem_itfid h.mme_s1ap_ue_id a), some (answer h))

  -- The answer of the AMF goes out under the ids of the request.
  confirm_detach_lem :
      (guti : ℕ) (q : Packet) (a : Amf)
      → Session.confirm_detach ssl guti q a ≡ ok (detached guti a q.s1ap_hdr)
  unfolding Session.confirm_detach append_bool sealed signal_hdr s1ap_init
  confirm_detach_lem guti q a =
      let r = w.decrypt-encrypt (encode 1 1) in
      let hmac = ssl.hmac r.0 in
      let e = q.s1ap_hdr.enodeb_s1ap_ue_id in
      let m = q.s1ap_hdr.mme_s1ap_ue_id in
      let hdr = signal_hdr 5 e m q.s1ap_hdr (hmac ++ r.0) in
      let ids : (view q hmac r.0).s1ap_hdr ≡ q.s1ap_hdr = s1ap_hdr-view q hmac r.0 in
      rw
        (
          clear_pkt-view q,
          append_bytes-view q [] (encode 1 1) (omega arith),
          enc-view ssl w q (encode 1 1) r.0 (omega arith) (omega (arith, r.3)) r.1,
          add_hmac-view ssl w q r.0 (omega (arith, r.3)),
        )
        (ap
            (λ (g : S1ap).
              prepend_s1ap_hdr 5 (view q hmac r.0).len g.enodeb_s1ap_ue_id g.mme_s1ap_ue_id
                (view q hmac r.0)
              >>= λ p4. send requester p4 >>= λ out.
                  ok (rem_uectx guti (rem_itfid p4.s1ap_hdr.mme_s1ap_ue_id a), some out))
            ids
          ∙ rw (
            prepend_signal 5 e m q hmac r.0 (omega (arith, r.3, w.length-hmac r.0)),
            send_headed requester 5 e m q.s1ap_hdr q hmac r.0
                (omega (arith, r.3, w.length-hmac r.0)),
            s1ap_hdr-view (record q { s1ap_hdr = hdr }) (s1ap_bytes hdr ++ hmac) r.0,
          ))

  -- A detach request at the AMF, of a UE that it knows, where the SMF confirms.
  pub handle_detach_lem :
      (raw : UeContext) (raw_grpc : GrpcPacket) (smf : SmfServer) (q : Packet) (used : Bytes)
      (a : Amf) (c : RanContext) (known : ℕ)
      → a.s1amf_id q.s1ap_hdr.mme_s1ap_ue_id ≡ some known
      → known ≢ 0
      → c.guti < 2 ^ 64
      → c.ksi_asme < 2 ^ 64
      → length used ≤ 12
      → (detach_fc smf (record raw_grpc {
        guti = c.guti;
        eps_bearer_id = (context raw known a).eps_bearer_id;
        tai = (context raw known a).tai;
        msg_type = 3;
      })).res
        ≡ true
      → handle_detach ssl raw raw_grpc smf
          (view q used (sealed ssl (cipher_of ssl w (detach_body c))))
          a
        ≡ ok (detached c.guti (set_context known (context raw known a) a) q.s1ap_hdr)
  unfolding handle_detach State.get_guti extract_u64
  handle_detach_lem raw raw_grpc smf q used a c guti known real hg hk short confirmed =
      let body = sealed ssl (cipher_of ssl w (detach_body c)) in
      let id : a.s1amf_id (view q used body).s1ap_hdr.mme_s1ap_ue_id ≡ some guti =
        ap (λ (h : S1ap). a.s1amf_id h.mme_s1ap_ue_id) (s1ap_hdr-view q used body) ∙ known in
      let p1 = encode 8 c.guti in
      let p2 = p1 ++ encode 8 c.ksi_asme in
      let a1 = set_context guti (context raw guti a) a in
      let q' = view q (p2 ++ encode 8 1) [] in
      rw
        (
          id,
          nonzero guti real,
          open_sealed ssl w q used (detach_body c) (omega arith),
          extract_number-view 8 c.guti q [] (encode 8 c.ksi_asme ++ encode 8 1) hg,
          extract_number-view 8 c.ksi_asme q p1 (encode 8 1) hk,
          extract_number-view 8 1 q p2 [] (omega arith),
          confirmed,
        )
        (confirm_detach_lem c.guti q' a1
          ∙ ap (λ h. ok (detached c.guti a1 h)) (s1ap_hdr-view q (p2 ++ encode 8 1) []))

  pub confirm_detach-answer :
      (e m : ℕ) (h : S1ap) (p : Packet)
      → IsSignalHdr e m h
      → let body = sealed ssl (cipher_of ssl w (encode 1 1)) in
        RanSession.confirm_detach ssl (view p [] (signal 5 e m h body)) ≡ ok true
  unfolding RanSession.confirm_detach
  confirm_detach-answer e m h p k =
      let body = sealed ssl (cipher_of ssl w (encode 1 1)) in
      let hdr = signal_hdr 5 e m h body in
      let n = length-signal 5 e m h body in
      let p' : Packet = record p { s1ap_hdr = hdr } in
      rw (
        something p (signal 5 e m h body) (omega (arith, n)) (omega (arith, n, small (encode 1 1))),
        read_signal 5 e m h body p (signal_hdr-IsS1ap 5 e m h body (omega arith) k),
        open_sealed ssl w p' (s1ap_bytes hdr) (encode 1 1) (omega (arith, length-s1ap_bytes hdr)),
        extract_bool-view true p' [] [],
      )

module _ (ssl : Openssl) (w : IsOpenssl ssl) (raw : UeContext) (raw_grpc : GrpcPacket)
    (smf : SmfServer) (r : Ran) (pkt p p' : Packet) (a : Amf) (known : ℕ)
    (hg : r.ran_ctx.guti < 2 ^ 64) (hk : r.ran_ctx.ksi_asme < 2 ^ 64)
    (k : IsSignalHdr r.ran_ctx.enodeb_s1ap_ue_id r.ran_ctx.mme_s1ap_ue_id pkt.s1ap_hdr) where
  -- The detach of a UE, under any protection that decrypts what it encrypted, where the UE id of the
  -- base station leads to a GUTI other than 0 in the AMF and the SMF confirms the detach of the
  -- base station's GUTI: the AMF forgets the UE id and the context under this GUTI and answers, and
  -- the base station reports success.
  pub request_detach-handle_detach :
      let c = r.ran_ctx in
      a.s1amf_id c.mme_s1ap_ue_id ≡ some known
      → known ≢ 0
      → (detach_fc smf (record raw_grpc {
        guti = c.guti;
        eps_bearer_id = (context raw known a).eps_bearer_id;
        tai = (context raw known a).tai;
        msg_type = 3;
      })).res
        ≡ true
      → (request : Segment) × (out : Segment) × (a' : Amf) × (request_detach ssl r pkt ≡ ok request)
        × ((deliver request p >>= λ p1.
              extract_s1ap_hdr p1 >>= λ p2. handle_detach ssl raw raw_grpc smf p2 a)
            ≡ ok (a', some out))
        × ((deliver out p' >>= RanSession.confirm_detach ssl) ≡ ok true)
        × (a'.s1amf_id c.mme_s1ap_ue_id ≡ none)
        × (a'.ue_ctx c.guti ≡ none)
  unfolding signal_hdr s1ap_init rem_uectx rem_itfid
  request_detach-handle_detach there real confirmed =
      let c = r.ran_ctx in
      let e = c.enodeb_s1ap_ue_id in
      let i = c.mme_s1ap_ue_id in
      let body = sealed ssl (cipher_of ssl w (detach_body c)) in
      let hdr = signal_hdr 5 e i pkt.s1ap_hdr body in
      let q = record p { s1ap_hdr = hdr } in
      let a1 = set_context known (context raw known a) a in
      let n = length-signal 5 e i pkt.s1ap_hdr body in
      let back = sealed ssl (cipher_of ssl w (encode 1 1)) in
      let n' = length-signal 5 e i hdr back in
      (
        record { to = requester; bytes = frame (signal 5 e i pkt.s1ap_hdr body) },
        answer ssl w hdr,
        rem_uectx c.guti (rem_itfid i a1),
        request_detach_lem ssl w r pkt,
        rw
            (
              deliver-frame requester (signal 5 e i pkt.s1ap_hdr body) p (omega (arith, n))
                  (omega (arith, n, small ssl w (detach_body c))),
              read_signal 5 e i pkt.s1ap_hdr body p
                  (signal_hdr-IsS1ap 5 e i pkt.s1ap_hdr body (omega arith) k),
            )
            (handle_detach_lem ssl w raw raw_grpc smf q (s1ap_bytes hdr) a c known there real hg hk
              (omega (arith, length-s1ap_bytes hdr)) confirmed),
        rw
            (deliver-frame requester (signal 5 e i hdr back) p' (omega (arith, n'))
              (omega (arith, n', small ssl w (encode 1 1))))
            (confirm_detach-answer ssl w e i hdr p' k),
        ground arith,
        ground arith,
      )
