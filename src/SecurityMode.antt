-- ===== src/SecurityMode.antt =====
-- The security mode between the AMF and the base station: Amf::handle_security_mode_cmd and
-- Amf::handle_security_mode_complete of src/amf.cpp against Ran::set_security of src/ran.cpp.
pub mod Exchange
use sba_g_rpc_5g.Base.{
  nonzero, ℕ, ◌+◌, ◌%◌, ◌^◌, ◌≤◌, ◌<◌, ◌≡◌, ◌≢◌, refl, sym, ap, ◌∙◌, Bool, true, false, some, ◌==◌,
  [], ◌++◌, length, arith, append-nil, length-append,
}
use sba_g_rpc_5g.Result.{ok, ◌>>=◌}
use sba_g_rpc_5g.Bytes.{Bytes, encode}
use sba_g_rpc_5g.Packet.{
  Packet, S1ap, s1ap_bytes, s1ap_init, append_bool, append_u16, append_u64, extract_u16,
  extract_u64, extract_s1ap_hdr, prepend_s1ap_hdr, buf_size,
}
use sba_g_rpc_5g.Packet.View.{view, view-view, s1ap_hdr-view, append_bytes-view, extract_bytes-view}
use sba_g_rpc_5g.Packet.Moves.{clear_pkt-view, prepend_bytes-view, truncate-view}
use sba_g_rpc_5g.Packet.Transport.{length-s1ap_bytes}
use sba_g_rpc_5g.Packet.Numbers.{extract_number-view, extract_bool-view}
use sba_g_rpc_5g.UnorderedMap.{nat_key}
use sba_g_rpc_5g.Security.{Openssl, IsOpenssl, add_hmac, rem_hmac, cmp_hmacs}
use sba_g_rpc_5g.Security.Protection.{get_hmac-view, cmp_hmacs_iff, enc-view, add_hmac-view}
use sba_g_rpc_5g.Sctp.{Segment, requester, send}
use sba_g_rpc_5g.Signals.{
  signal_hdr, signal, frame, deliver, deliver-frame, read_signal, length-signal, prepend_signal,
  send_headed,
}
use sba_g_rpc_5g.Signals.Protected.{
  sealed, cipher_of, cipher_short, length-sealed, open_sealed, send-sealed,
}
use sba_g_rpc_5g.Amf.State.{UeContext, Amf, context, set_context}
use sba_g_rpc_5g.Amf.State
use sba_g_rpc_5g.Amf.Attach.{handle_security_mode_cmd, handle_security_mode_complete}
use sba_g_rpc_5g.Ran.State.{RanContext, set_crypt_context, set_integrity_context}
use sba_g_rpc_5g.Ran.Attach.{answer_security_mode}
use sba_g_rpc_5g.Ran.Keys.{set_crypt_context-agrees}
use sba_g_rpc_5g.Handover.{open_segment, open_segment_lem}
use sba_g_rpc_5g.AttachAccept.{IsSignalHdr, signal_hdr-IsS1ap}

-- The body of a security mode command. It is not encrypted.
abbrev pub cmd_body : UeContext → Bytes
cmd_body c =
    encode 8 c.ksi_asme
    ++ (encode 2 c.nw_capability ++ (encode 8 c.nas_enc_algo ++ encode 8 c.nas_int_algo))

module _ (ssl : Openssl) (w : IsOpenssl ssl) where
  -- The code of a content that the cursor has passed, in front of it.
  add_hmac_behind :
      (q : Packet) (body : Bytes)
      → 20 + length body ≤ buf_size
      → add_hmac ssl (view q body []) ≡ ok (view q (ssl.hmac body ++ body) [])
  unfolding add_hmac
  add_hmac_behind q body h = rw (
    get_hmac-view ssl w q body [] (omega arith),
    append-nil body,
    prepend_bytes-view q body [] (ssl.hmac body) (omega (arith, w.length-hmac body)),
  )

  rem_hmac-view :
      (q : Packet) (used body : Bytes)
      → length used + 20 + length body ≤ buf_size
      → rem_hmac ssl (view q used (ssl.hmac body ++ body)) ≡ ok (ssl.hmac body, view q [] body)
  unfolding rem_hmac
  rem_hmac-view q used body h = rw (
    extract_bytes-view 20 q used (ssl.hmac body) body (sym (w.length-hmac body)),
    truncate-view q (used ++ ssl.hmac body) body
        (omega (arith, length-append used (ssl.hmac body), w.length-hmac body)),
  )

  pub coded_length : (body : Bytes) → length (ssl.hmac body ++ body) ≡ 20 + length body
  coded_length body = omega (arith, length-append (ssl.hmac body) body, w.length-hmac body)

  -- The state of the AMF and the context in it once the algorithms are chosen.
  abbrev pub chosen : UeContext → ℕ → Amf → Amf
  chosen raw guti a = State.set_integrity_context raw guti (State.set_crypt_context raw guti a)

  abbrev pub command : UeContext → Packet → Segment
  command c q = record {
    to = requester;
    bytes = frame (
        signal 2 q.s1ap_hdr.enodeb_s1ap_ue_id q.s1ap_hdr.mme_s1ap_ue_id q.s1ap_hdr
          (ssl.hmac (cmd_body c) ++ cmd_body c));
  }

  pub handle_security_mode_cmd_lem :
      (raw : UeContext) (q : Packet) (a : Amf) (guti : ℕ)
      → a.s1amf_id q.s1ap_hdr.mme_s1ap_ue_id ≡ some guti
      → guti ≢ 0
      → let a1 = chosen raw guti a in
        handle_security_mode_cmd ssl raw q a ≡ ok (a1, command (context raw guti a1) q)
  unfolding handle_security_mode_cmd State.get_guti append_u16 append_u64
  handle_security_mode_cmd_lem raw q a guti known real =
      let c = context raw guti (chosen raw guti a) in
      let b1 = encode 8 c.ksi_asme in
      let b2 = b1 ++ encode 2 c.nw_capability in
      let b3 = b2 ++ encode 8 c.nas_enc_algo in
      let body = cmd_body c in
      let full = ssl.hmac body ++ body in
      let ids : (view q full []).s1ap_hdr ≡ q.s1ap_hdr = s1ap_hdr-view q full [] in
      rw
        (
          known,
          nonzero guti real,
          clear_pkt-view q,
          append_bytes-view q [] b1 (omega arith),
          append_bytes-view q b1 (encode 2 c.nw_capability) (omega arith),
          append_bytes-view q b2 (encode 8 c.nas_enc_algo) (omega arith),
          append_bytes-view q b3 (encode 8 c.nas_int_algo) (omega arith),
          add_hmac_behind q body (omega arith),
        )
        (ap
            (λ (g : S1ap).
              prepend_s1ap_hdr 2 (view q full []).len g.enodeb_s1ap_ue_id g.mme_s1ap_ue_id
                (view q full [])
              >>= λ p6. send requester p6 >>= λ out. ok (chosen raw guti a, out))
            ids
          ∙ rw (
            prepend_signal 2 q.s1ap_hdr.enodeb_s1ap_ue_id q.s1ap_hdr.mme_s1ap_ue_id q full []
                (omega (arith, coded_length body)),
            send_headed requester 2 q.s1ap_hdr.enodeb_s1ap_ue_id q.s1ap_hdr.mme_s1ap_ue_id
                q.s1ap_hdr q full [] (omega (arith, coded_length body)),
            append-nil full,
          ))

  -- What the base station takes from a command for the context `c`.
  abbrev pub secured_ran : UeContext → RanContext → RanContext
  secured_ran c r = set_integrity_context (
      set_crypt_context (record r {
        ksi_asme = c.ksi_asme;
        nw_capability = c.nw_capability;
        nas_enc_algo = c.nas_enc_algo;
        nas_int_algo = c.nas_int_algo;
      }))

  abbrev pub complete : RanContext → S1ap → Segment
  complete r h = record {
    to = requester;
    bytes = frame (
        signal 3 r.enodeb_s1ap_ue_id r.mme_s1ap_ue_id h
          (sealed ssl (cipher_of ssl w (encode 1 1))));
  }

  pub answer_security_mode_lem :
      (c : UeContext) (r : RanContext) (e m : ℕ) (h : S1ap) (p : Packet)
      → c.ksi_asme < 2 ^ 64
      → c.nw_capability < 2 ^ 16
      → c.nas_enc_algo < 2 ^ 64
      → c.nas_int_algo < 2 ^ 64
      → IsSignalHdr e m h
      → let body = ssl.hmac (cmd_body c) ++ cmd_body c in
        answer_security_mode ssl r (view p [] (signal 2 e m h body))
        ≡ ok (secured_ran c r, complete r (signal_hdr 2 e m h body))
  unfolding answer_security_mode sealed append_bool extract_u16 extract_u64 set_crypt_context
      set_integrity_context
  answer_security_mode_lem c r e m h p hk hn he hi k =
      let full = ssl.hmac (cmd_body c) ++ cmd_body c in
      let hdr = signal_hdr 2 e m h full in
      let p' : Packet = record p { s1ap_hdr = hdr } in
      let u1 = encode 8 c.ksi_asme in
      let u2 = u1 ++ encode 2 c.nw_capability in
      let u3 = u2 ++ encode 8 c.nas_enc_algo in
      let code = ssl.hmac (cmd_body c) in
      let t = w.decrypt-encrypt (encode 1 1) in
      rw (
        read_signal 2 e m h full p (signal_hdr-IsS1ap 2 e m h full (omega arith) k),
        rem_hmac-view p' (s1ap_bytes hdr) (cmd_body c) (omega (arith, length-s1ap_bytes hdr)),
        extract_number-view 8 c.ksi_asme p' [] _ hk,
        extract_number-view 2 c.nw_capability p' u1 _ hn,
        extract_number-view 8 c.nas_enc_algo p' u2 _ he,
        extract_number-view 8 c.nas_int_algo p' u3 [] hi,
        get_hmac-view ssl w p' (cmd_body c) [] (omega arith),
        (cmp_hmacs_iff ssl code code refl).1 refl,
        clear_pkt-view (view p' (cmd_body c) []),
        view-view p' (cmd_body c) [] [] [],
        append_bytes-view p' [] (encode 1 1) (omega arith),
        enc-view ssl w p' (encode 1 1) t.0 (omega arith) (omega (arith, t.3)) t.1,
        add_hmac-view ssl w p' t.0 (omega (arith, t.3)),
        prepend_signal 3 r.enodeb_s1ap_ue_id r.mme_s1ap_ue_id p' (ssl.hmac t.0) t.0
            (omega (arith, t.3, w.length-hmac t.0)),
        send_headed requester 3 r.enodeb_s1ap_ue_id r.mme_s1ap_ue_id hdr p' (ssl.hmac t.0) t.0
            (omega (arith, t.3, w.length-hmac t.0)),
      )

  pub handle_security_mode_complete_lem :
      (raw : UeContext) (q : Packet) (used : Bytes) (a : Amf) (guti : ℕ)
      → a.s1amf_id q.s1ap_hdr.mme_s1ap_ue_id ≡ some guti
      → guti ≢ 0
      → length used ≤ 12
      → handle_security_mode_complete ssl raw
          (view q used (sealed ssl (cipher_of ssl w (encode 1 1))))
          a
        ≡ ok (set_context guti (context raw guti a) a, true)
  unfolding handle_security_mode_complete State.get_guti
  handle_security_mode_complete_lem raw q used a guti known real short =
      let body = sealed ssl (cipher_of ssl w (encode 1 1)) in
      let id : a.s1amf_id (view q used body).s1ap_hdr.mme_s1ap_ue_id ≡ some guti =
        ap (λ (h : S1ap). a.s1amf_id h.mme_s1ap_ue_id) (s1ap_hdr-view q used body) ∙ known in
      rw (
        id,
        nonzero guti real,
        open_sealed ssl w q used (encode 1 1) (omega arith),
        extract_bool-view true q [] [],
      )
