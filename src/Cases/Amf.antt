-- ===== src/Cases/Amf.antt =====
-- The theorems on the access and mobility management, authentication and security at concrete
-- values.
use sba_g_rpc_5g.Base.{
  ℕ, ◌+◌, ◌%◌, ◌^◌, ◌≡◌, ◌≢◌, ◌↔◌, refl, Bool, true, none, some, [], ◌∷◌, ◌++◌, arith, replicate,
  length-replicate,
}
use sba_g_rpc_5g.Result.{ok, ◌>>=◌}
use sba_g_rpc_5g.Bytes.{Bytes, encode}
use sba_g_rpc_5g.Packet.View.{view}
use sba_g_rpc_5g.UnorderedMap.{clear, put, nat_key}
use sba_g_rpc_5g.Security.{enc, dec, add_hmac, hmac_check}
use sba_g_rpc_5g.Security.Protection.{hmac_check-accepts, dec-enc}
use sba_g_rpc_5g.Rpc.{AmfAusfRequest, AmfAusfReply}
use sba_g_rpc_5g.Ausf.{Db, AutnInfo, amf_ausf_interaction}
use sba_g_rpc_5g.Ran.State.{set_crypt_context, set_integrity_context}
use sba_g_rpc_5g.Ran.Attach.{response, derive_k_asme}
use sba_g_rpc_5g.Ran.Keys.{response-amf_ausf_interaction, set_crypt_context-agrees}
use sba_g_rpc_5g.Amf.State.{Amf, context, set_context}
use sba_g_rpc_5g.Amf.State
use sba_g_rpc_5g.Amf.Attach.{register, handle_autn}
use sba_g_rpc_5g.Amf.Identity.{IsCounted, register-fresh, handle_autn-accepts}
use sba_g_rpc_5g.Cases.Data.{
  packet_0, amf_context, amf_0, ran_context, plain_ssl, plain_ssl-IsOpenssl,
}

pub amf_0-IsCounted : IsCounted amf_0
amf_0-IsCounted = record { counted = λ id guti e. ground arith }

register-fresh_example :
    let a' = register amf_context 2222 119000000008 1 1 8 amf_0 in
    (amf_0.s1amf_id 2 ≡ none)
    × (a'.s1amf_id 2 ≡ some 2222)
    × ((j : ℕ) → j ≢ 2 → a'.s1amf_id j ≡ amf_0.s1amf_id j)
    × ((context amf_context 2222 a').imsi ≡ 119000000008)
    × ((context amf_context 2222 a').mme_s1ap_ue_id ≡ 2)
    × IsCounted a'
register-fresh_example =
    register-fresh amf_context 2222 119000000008 1 1 8 amf_0 amf_0-IsCounted (omega arith)

handle_autn-accepts_example :
    handle_autn amf_context (view packet_0 [] (encode 8 99 ++ [])) amf_0
    ≡ ok (set_context 1111 (context amf_context 1111 amf_0) amf_0, true)
handle_autn-accepts_example =
    handle_autn-accepts amf_context packet_0 amf_0 [] [] 99 1111 (omega arith) refl (omega arith)

abbrev autn_request : AmfAusfRequest
autn_request = record {
  imsi = 5;
  plmn_id = 11;
  num_autn_vec = 1;
  nw_type = 0;
  msg_type = 1;
  mmei = 0;
}

abbrev info : AutnInfo
info = record { key_id = 5; rand_num = 3 }

abbrev db : Db
db = record { autn_info = put 5 info clear; loc_info = clear }

response-amf_ausf_interaction_example :
    (reply : AmfAusfReply) × (amf_ausf_interaction (ok tt) autn_request db ≡ ok (db, reply))
    × (response ran_context reply.autn_num reply.rand_num ≡ reply.xres)
    × ((derive_k_asme ran_context
              (response ran_context reply.autn_num reply.rand_num)
              reply.rand_num
            + 1)
          % 2 ^ 64
        ≡ (reply.k_asme + 11) % 2 ^ 64)
response-amf_ausf_interaction_example =
    response-amf_ausf_interaction (ok tt) autn_request db info ran_context refl refl

set_crypt_context-agrees_example :
    let d = context amf_context 1111 (
      State.set_integrity_context amf_context 1111
        (State.set_crypt_context amf_context 1111 amf_0)) in
    let s = set_integrity_context (
      set_crypt_context
        (record ran_context { nas_enc_algo = d.nas_enc_algo; nas_int_algo = d.nas_int_algo })) in
    (d.k_nas_enc ≡ s.k_nas_enc) × (d.k_nas_int ≡ s.k_nas_int)
set_crypt_context-agrees_example =
    set_crypt_context-agrees amf_context 1111 amf_0 amf_context ran_context refl refl refl refl refl

abbrev code : Bytes
code = replicate 20 1

hmac_check-accepts_example :
    (res : Bool) × (hmac_check plain_ssl (view packet_0 [] (code ++ (7 ∷ [])))
      ≡ ok (res, view packet_0 [] (7 ∷ [])))
    × ((res ≡ true) ↔ (code ≡ code))
hmac_check-accepts_example =
    hmac_check-accepts plain_ssl plain_ssl-IsOpenssl packet_0 [] (code) (7 ∷ [])
      (length-replicate 20 1) (omega arith)

dec-enc_example :
    (cipher : Bytes) × ((enc plain_ssl (view packet_0 (7 ∷ []) []) >>= add_hmac plain_ssl)
      ≡ ok (view packet_0 (code) cipher))
    × (hmac_check plain_ssl (view packet_0 [] (code ++ cipher))
        ≡ ok (true, view packet_0 [] cipher))
    × (dec plain_ssl (view packet_0 [] cipher) ≡ ok (view packet_0 [] (7 ∷ [])))
dec-enc_example = dec-enc plain_ssl plain_ssl-IsOpenssl packet_0 (7 ∷ []) [] (omega arith)
