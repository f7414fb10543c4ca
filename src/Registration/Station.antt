-- ===== src/Registration/Station.antt =====
-- What the base station makes of the answers to its first two messages (src/ran.cpp).
use sba_g_rpc_5g.Base.{ℕ, ◌^◌, ◌<◌, ◌≡◌, true, [], ◌∷◌, ◌++◌, arith}
use sba_g_rpc_5g.Result.{ok}
use sba_g_rpc_5g.Bytes.{encode}
use sba_g_rpc_5g.Packet.{Packet, S1ap}
use sba_g_rpc_5g.Packet.View.{view}
use sba_g_rpc_5g.UnorderedMap.{nat_key}
use sba_g_rpc_5g.Security.{Openssl, IsOpenssl}
use sba_g_rpc_5g.Signals.{signal_hdr, signal, length-signal}
use sba_g_rpc_5g.Signals.Protected.{sealed, cipher_of}
use sba_g_rpc_5g.Amf.State.{UeContext}
use sba_g_rpc_5g.Ran.State.{Ran}
use sba_g_rpc_5g.Ran.Attach.{authenticate, set_security, response, derive_k_asme}
use sba_g_rpc_5g.AttachAccept.{IsSignalHdr, something}
use sba_g_rpc_5g.Attach.{challenge_body, answer_challenge_lem}
use sba_g_rpc_5g.SecurityMode.{cmd_body, coded_length, secured_ran, answer_security_mode_lem}
use sba_g_rpc_5g.Registration.Legs.{segment}

module _ (ssl : Openssl) (w : IsOpenssl ssl) (pr : Packet) where
  -- The base station takes a challenge and responds.
  pub authenticate_lem :
      (r : Ran) (autn_num rand_num m : ℕ) (h : S1ap)
      → autn_num < 2 ^ 64
      → rand_num < 2 ^ 64
      → IsSignalHdr r.ran_ctx.enodeb_s1ap_ue_id m h
      → let c = r.ran_ctx in
        let e = c.enodeb_s1ap_ue_id in
        let res = response c autn_num rand_num in
        authenticate r (view pr [] (signal 1 e m h (challenge_body autn_num rand_num)))
        ≡ ok (
          record r {
            ran_ctx = record c {
              mme_s1ap_ue_id = m;
              ksi_asme = 1;
              k_asme = derive_k_asme c res rand_num;
            };
          },
          segment (
                signal 2 e m (signal_hdr 1 e m h (challenge_body autn_num rand_num)) (encode 8 res))
              ∷ [],
          true,
        )
  unfolding authenticate
  authenticate_lem r autn_num rand_num m h ha hr k =
      let e = r.ran_ctx.enodeb_s1ap_ue_id in
      let body = challenge_body autn_num rand_num in
      let n = length-signal 1 e m h body in
      rw (
        something pr (signal 1 e m h body) (omega (arith, n)) (omega (arith, n)),
        answer_challenge_lem r.ran_ctx autn_num rand_num e m h pr ha hr k,
      )

  pub set_security_lem :
      (r : Ran) (d : UeContext) (m : ℕ) (h : S1ap)
      → d.ksi_asme < 2 ^ 64
      → d.nw_capability < 2 ^ 16
      → d.nas_enc_algo < 2 ^ 64
      → d.nas_int_algo < 2 ^ 64
      → IsSignalHdr r.ran_ctx.enodeb_s1ap_ue_id m h
      → let c = r.ran_ctx in
        let e = c.enodeb_s1ap_ue_id in
        let body = ssl.hmac (cmd_body d) ++ cmd_body d in
        set_security ssl r (view pr [] (signal 2 e m h body))
        ≡ ok (
          record r { ran_ctx = secured_ran ssl w d c },
          segment (
                signal 3 e c.mme_s1ap_ue_id
                  (signal_hdr 2 e m h body)
                  (sealed ssl (cipher_of ssl w (encode 1 1))))
              ∷ [],
          true,
        )
  unfolding set_security
  set_security_lem r d m h hk hn he hi k =
      let e = r.ran_ctx.enodeb_s1ap_ue_id in
      let body = ssl.hmac (cmd_body d) ++ cmd_body d in
      let n = length-signal 2 e m h body in
      let n' = coded_length ssl w (cmd_body d) in
      rw (
        something pr (signal 2 e m h body) (omega (arith, n, n')) (omega (arith, n, n')),
        answer_security_mode_lem ssl w d r.ran_ctx e m h pr hk hn he hi k,
      )
