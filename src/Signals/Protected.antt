-- ===== src/Signals/Protected.antt =====
-- Protected messages between the base station and the AMF: encrypted, with a code, behind an S1AP
-- header (src/security.cpp, src/packet.cpp).
use sba_g_rpc_5g.Base.{ℕ, ◌+◌, ◌≤◌, ◌≡◌, refl, ap, ◌∙◌, [], ◌++◌, length, arith, length-append}
use sba_g_rpc_5g.Result.{ok, ◌>>=◌}
use sba_g_rpc_5g.Bytes.{Bytes}
use sba_g_rpc_5g.Packet.{Packet, S1ap, s1ap_bytes, prepend_s1ap_hdr, extract_s1ap_hdr, buf_size}
use sba_g_rpc_5g.Packet.View.{view, s1ap_hdr-view}
use sba_g_rpc_5g.Packet.Transport.{IsS1ap, length-s1ap_bytes}
use sba_g_rpc_5g.Security.{Openssl, IsOpenssl, enc, add_hmac, open_message}
use sba_g_rpc_5g.Security.Protection.{hmac_check-accepts, enc-view, add_hmac-view, dec-view}
use sba_g_rpc_5g.Sctp.{Peer, send}
use sba_g_rpc_5g.Signals.{signal_hdr, signal, frame, send-signal, read_signal}

-- A cipher text with its code.
unfoldable pub sealed : Openssl → Bytes → Bytes
sealed ssl cipher = ssl.hmac cipher ++ cipher

module _ (ssl : Openssl) (w : IsOpenssl ssl) where
  -- The cipher text of a body.
  abbrev pub cipher_of : Bytes → Bytes
  cipher_of body = (w.decrypt-encrypt body).0

  pub cipher_short : (body : Bytes) → length (cipher_of body) ≤ length body + 16
  cipher_short body = (w.decrypt-encrypt body).3

  pub length-sealed : (cipher : Bytes) → length (sealed ssl cipher) ≡ 20 + length cipher
  unfolding sealed
  length-sealed cipher = omega (arith, length-append (ssl.hmac cipher) cipher, w.length-hmac cipher)

  -- What a handler sends that has filled a packet with a body.
  pub send-sealed :
      (peer : Peer) (msg_type e m : ℕ) (q : Packet) (body : Bytes)
      → 52 + length body ≤ buf_size
      → (enc ssl (view q body []) >>= λ p1.
          add_hmac ssl p1 >>= λ p2. prepend_s1ap_hdr msg_type p2.len e m p2 >>= send peer)
        ≡ ok (record {
          to = peer;
          bytes = frame (signal msg_type e m q.s1ap_hdr (sealed ssl (cipher_of body)));
        })
  unfolding sealed
  send-sealed peer msg_type e m q body h =
      let r = w.decrypt-encrypt body in
      rw
        (
          enc-view ssl w q body r.0 (omega arith) (omega (arith, r.3)) r.1,
          add_hmac-view ssl w q r.0 (omega (arith, r.3)),
        )
        (send-signal peer msg_type e m q (ssl.hmac r.0) r.0 (omega (arith, r.3, w.length-hmac r.0)))

  -- What the receiver finds in it, whatever was read before.
  pub open_sealed :
      (q : Packet) (used body : Bytes)
      → length used + 36 + length body ≤ buf_size
      → open_message ssl (view q used (sealed ssl (cipher_of body))) ≡ ok (view q [] body)
  unfolding open_message sealed
  open_sealed q used body h =
      let r = w.decrypt-encrypt body in
      let check =
        hmac_check-accepts ssl w q used (ssl.hmac r.0) r.0 (w.length-hmac r.0)
          (omega (arith, r.3)) in
      rw (check.1, check.2.1 refl)
        (dec-view ssl w q [] r.0 body (omega (arith, r.3)) (omega arith) r.2)

  -- The same from the header on.
  pub open_signal :
      (msg_type e m : ℕ) (h : S1ap) (p : Packet) (body : Bytes)
      → 48 + length body ≤ buf_size
      → IsS1ap (signal_hdr msg_type e m h (sealed ssl (cipher_of body)))
      → (extract_s1ap_hdr (view p [] (signal msg_type e m h (sealed ssl (cipher_of body))))
          >>= open_message ssl)
        ≡ ok (
            view
              (record p { s1ap_hdr = signal_hdr msg_type e m h (sealed ssl (cipher_of body)) })
              []
              body)
  open_signal msg_type e m h p body small r =
      let g = signal_hdr msg_type e m h (sealed ssl (cipher_of body)) in
      rw (read_signal msg_type e m h (sealed ssl (cipher_of body)) p r) (
        open_sealed (record p { s1ap_hdr = g }) (s1ap_bytes g) body
          (omega (arith, length-s1ap_bytes g)))

  -- A handler that answers under the ids of the header that it has read.
  pub reply_sealed :
      (peer : Peer) (msg_type : ℕ) (q : Packet) (body : Bytes)
      → 52 + length body ≤ buf_size
      → (enc ssl (view q body []) >>= λ p1. add_hmac ssl p1 >>= λ p2.
          prepend_s1ap_hdr msg_type p2.len p2.s1ap_hdr.enodeb_s1ap_ue_id p2.s1ap_hdr.mme_s1ap_ue_id
            p2
          >>= send peer)
        ≡ ok (record {
          to = peer;
          bytes = frame (
              signal msg_type q.s1ap_hdr.enodeb_s1ap_ue_id q.s1ap_hdr.mme_s1ap_ue_id q.s1ap_hdr
                (sealed ssl (cipher_of body)));
        })
  unfolding sealed
  reply_sealed peer msg_type q body h =
      let r = w.decrypt-encrypt body in
      let ids : (view q (ssl.hmac r.0) r.0).s1ap_hdr ≡ q.s1ap_hdr =
        s1ap_hdr-view q (ssl.hmac r.0) r.0 in
      rw
        (
          enc-view ssl w q body r.0 (omega arith) (omega (arith, r.3)) r.1,
          add_hmac-view ssl w q r.0 (omega (arith, r.3)),
        )
        (ap
            (λ (g : S1ap).
              prepend_s1ap_hdr msg_type (view q (ssl.hmac r.0) r.0).len g.enodeb_s1ap_ue_id
                g.mme_s1ap_ue_id (view q (ssl.hmac r.0) r.0)
              >>= send peer)
            ids
          ∙ send-signal peer msg_type q.s1ap_hdr.enodeb_s1ap_ue_id q.s1ap_hdr.mme_s1ap_ue_id q
              (ssl.hmac r.0) r.0 (omega (arith, r.3, w.length-hmac r.0)))
