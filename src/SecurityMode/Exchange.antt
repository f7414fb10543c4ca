-- ===== src/SecurityMode/Exchange.antt =====
-- The exchange of the security mode, there and back (src/amf.cpp, src/ran.cpp).
use sba_g_rpc_5g.Base.{ℕ, ◌+◌, ◌^◌, ◌<◌, ◌≡◌, ◌≢◌, refl, ap, ◌∙◌, true, some, ◌++◌, arith}
use sba_g_rpc_5g.Result.{ok, ◌>>=◌}
use sba_g_rpc_5g.Bytes.{encode}
use sba_g_rpc_5g.Packet.{Packet, s1ap_bytes, s1ap_init}
use sba_g_rpc_5g.Packet.Transport.{length-s1ap_bytes}
use sba_g_rpc_5g.UnorderedMap.{nat_key}
use sba_g_rpc_5g.Security.{Openssl, IsOpenssl}
use sba_g_rpc_5g.Sctp.{Segment, requester}
use sba_g_rpc_5g.Signals.{signal_hdr, signal, deliver, deliver-frame, length-signal}
use sba_g_rpc_5g.Signals.Protected.{sealed, cipher_of, cipher_short, length-sealed}
use sba_g_rpc_5g.Amf.State.{UeContext, Amf, context, set_context}
use sba_g_rpc_5g.Amf.State
use sba_g_rpc_5g.Amf.Attach.{handle_security_mode_cmd, handle_security_mode_complete}
use sba_g_rpc_5g.Ran.State.{RanContext, set_crypt_context, set_integrity_context}
use sba_g_rpc_5g.Ran.Attach.{answer_security_mode}
use sba_g_rpc_5g.Ran.Keys.{set_crypt_context-agrees}
use sba_g_rpc_5g.Handover.{open_segment, open_segment_lem}
use sba_g_rpc_5g.AttachAccept.{IsSignalHdr}
use sba_g_rpc_5g.SecurityMode.{
  cmd_body, coded_length, chosen, command, secured_ran, complete, handle_security_mode_cmd_lem,
  answer_security_mode_lem, handle_security_mode_complete_lem,
}

chosen_lem :
    (raw : UeContext) (guti : ℕ) (a : Amf) (c : UeContext)
    → a.ue_ctx guti ≡ some c
    → let a1 = State.set_integrity_context raw guti (State.set_crypt_context raw guti a) in
      let d = context raw guti a1 in
      (d.ksi_asme ≡ c.ksi_asme)
      × (d.nw_capability ≡ c.nw_capability)
      × (d.nas_enc_algo ≡ 1)
      × (d.nas_int_algo ≡ 1)
      × (a1.s1amf_id ≡ a.s1amf_id)
unfolding State.set_crypt_context State.set_integrity_context
chosen_lem raw guti a c known = (
  ground (arith, known),
  ground (arith, known),
  ground (arith, known),
  ground (arith, known),
  refl,
)

module _ (ssl : Openssl) (w : IsOpenssl ssl) (raw : UeContext) (q p p' : Packet) (a : Amf)
    (guti : ℕ) (c : UeContext) (r : RanContext)
    (k : IsSignalHdr q.s1ap_hdr.enodeb_s1ap_ue_id q.s1ap_hdr.mme_s1ap_ue_id q.s1ap_hdr) where
  -- The security mode of a UE whose id leads to a context of the AMF, with a base station that has
  -- that id and the same key, count and bearer, and a direction one less: the AMF chooses the
  -- algorithms and sends its command with the code of its content; the base station accepts the
  -- code, takes over the key set identifier and the capability of the AMF's context, and answers;
  -- the AMF reads success from the answer. The two have then the same two NAS keys.
  pub answer_security_mode-handle_security_mode_cmd :
      a.s1amf_id q.s1ap_hdr.mme_s1ap_ue_id ≡ some guti
      → guti ≢ 0
      → a.ue_ctx guti ≡ some c
      → r.mme_s1ap_ue_id ≡ q.s1ap_hdr.mme_s1ap_ue_id
      → r.enodeb_s1ap_ue_id < 2 ^ 32
      → c.ksi_asme < 2 ^ 64
      → c.nw_capability < 2 ^ 16
      → c.k_asme ≡ r.k_asme
      → c.count ≡ r.count
      → c.bearer ≡ r.bearer
      → c.dir ≡ r.dir + 1
      → (a' : Amf) × (r' : RanContext) × (cmd : Segment) × (answered : Segment)
        × (handle_security_mode_cmd ssl raw q a ≡ ok (a', cmd))
        × ((deliver cmd p >>= answer_security_mode ssl r) ≡ ok (r', answered))
        × ((open_segment answered p' >>= λ q'. handle_security_mode_complete ssl raw q' a')
            ≡ ok (set_context guti (context raw guti a') a', true))
        × (r'.ksi_asme ≡ c.ksi_asme)
        × (r'.nw_capability ≡ c.nw_capability)
        × ((context raw guti a').k_nas_enc ≡ r'.k_nas_enc)
        × ((context raw guti a').k_nas_int ≡ r'.k_nas_int)
  unfolding signal_hdr s1ap_init set_crypt_context set_integrity_context
  answer_security_mode-handle_security_mode_cmd known real there same he hk hn key count bearer
        dir =
      let e = q.s1ap_hdr.enodeb_s1ap_ue_id in
      let m = q.s1ap_hdr.mme_s1ap_ue_id in
      let a1 = chosen ssl w raw guti a in
      let d = context raw guti a1 in
      let (ksi, capability, enc_algo, int_algo, ids) = chosen_lem raw guti a c there in
      let body = ssl.hmac (cmd_body d) ++ cmd_body d in
      let hdr = signal_hdr 2 e m q.s1ap_hdr body in
      let body' = sealed ssl (cipher_of ssl w (encode 1 1)) in
      let hdr' = signal_hdr 3 r.enodeb_s1ap_ue_id r.mme_s1ap_ue_id hdr body' in
      let n = length-signal 2 e m q.s1ap_hdr body in
      let n' = coded_length ssl w (cmd_body d) in
      let small = length-sealed ssl w (cipher_of ssl w (encode 1 1)) in
      let short = cipher_short ssl w (encode 1 1) in
      let r0 : RanContext = record r { ksi_asme = d.ksi_asme; nw_capability = d.nw_capability } in
      let id = ap (λ f. f r.mme_s1ap_ue_id) ids ∙ ap a.s1amf_id same ∙ known in
      let keys = set_crypt_context-agrees raw guti a c r0 there key count bearer dir in
      (
        a1,
        secured_ran ssl w d r,
        command ssl w d q,
        complete ssl w r hdr,
        handle_security_mode_cmd_lem ssl w raw q a guti known real,
        rw
            (deliver-frame requester (signal 2 e m q.s1ap_hdr body) p (omega (arith, n, n'))
              (omega (arith, n, n')))
            (answer_security_mode_lem ssl w d r e m q.s1ap_hdr p (omega (arith, ksi, hk))
              (omega (arith, capability, hn)) (omega (arith, enc_algo)) (omega (arith, int_algo))
              k),
        rw
            (open_segment_lem requester 3 r.enodeb_s1ap_ue_id r.mme_s1ap_ue_id hdr body' p'
              (omega arith) (he, omega (arith, same, k.1), k.2) (omega (arith, small, short)))
            (handle_security_mode_complete_lem ssl w raw (record p' { s1ap_hdr = hdr' })
              (s1ap_bytes hdr') a1 guti id real (omega (arith, length-s1ap_bytes hdr'))),
        ksi,
        capability,
        keys.0,
        keys.1,
      )
