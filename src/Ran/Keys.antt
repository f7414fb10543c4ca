-- ===== src/Ran/Keys.antt =====
-- Authentication and keys on the two sides: the AUSF's vector and the base station's response
-- (src/ausf.cpp, src/ausf_server.cpp, src/ran.cpp), and the NAS keys of AMF and base station
-- (src/amf.cpp, src/ran.cpp).
use sba_g_rpc_5g.Base.{ℕ, ◌+◌, ◌%◌, ◌^◌, ◌≡◌, some, arith}
use sba_g_rpc_5g.Result.{Result, ok, ◌>>◌, bind_assoc}
use sba_g_rpc_5g.UnorderedMap.{nat_key}
use sba_g_rpc_5g.Rpc.{AmfAusfRequest, AmfAusfReply}
use sba_g_rpc_5g.Ausf.{Db, AutnInfo, get_autn_info, handle_autninfo_req, amf_ausf_interaction}
use sba_g_rpc_5g.Ran.State.{RanContext, set_crypt_context, set_integrity_context}
use sba_g_rpc_5g.Ran.Attach.{response, derive_k_asme}
use sba_g_rpc_5g.Amf.State.{UeContext, Amf, context, set_context}
use sba_g_rpc_5g.Amf.State

mod_swap : (x a b : ℕ) → ((x + a) % 2 ^ 64 + b) % 2 ^ 64 ≡ ((x + b) % 2 ^ 64 + a) % 2 ^ 64
mod_swap x a b = omega arith

-- For a request of type 1 on a subscriber of the database: the service of the AUSF ends as its use of
-- the result that its handler does not return ends; if that comes to nothing, the vector that it gives
-- out is answered by any base station with the expected response, whatever key it has itself;
-- the k_asme that it derives and the AUSF's differ by its PLMN id against the number of vectors of
-- the request, which the service hands over in the place of the PLMN id.
pub response-amf_ausf_interaction :
    (falls_off : Result (Unit {0})) (request : AmfAusfRequest) (db : Db) (info : AutnInfo)
    (c : RanContext)
    → request.msg_type ≡ 1
    → db.autn_info request.imsi ≡ some info
    → (reply : AmfAusfReply) × (amf_ausf_interaction falls_off request db
        ≡ (falls_off >> ok (db, reply)))
      × (response c reply.autn_num reply.rand_num ≡ reply.xres)
      × ((derive_k_asme c (response c reply.autn_num reply.rand_num) reply.rand_num
              + request.num_autn_vec % 2 ^ 16)
            % 2 ^ 64
          ≡ (reply.k_asme + c.plmn_id) % 2 ^ 64)
unfolding amf_ausf_interaction handle_autninfo_req get_autn_info response derive_k_asme
response-amf_ausf_interaction falls_off request db info c one known =
    let n = request.num_autn_vec % 2 ^ 16 in
    let sqn = (info.rand_num + 1) % 2 ^ 64 in
    let xres = (info.key_id + sqn + info.rand_num) % 2 ^ 64 in
    let k_asme = ((xres + 2) % 2 ^ 64 + (xres + 3) % 2 ^ 64 + sqn + n) % 2 ^ 64 in
    let reply : AmfAusfReply = record {
      autn_num = (xres + 1) % 2 ^ 64;
      rand_num = info.rand_num;
      xres = xres;
      k_asme = k_asme;
      default_apn = 0;
      msg_type = 1;
    } in
    let answer : response c reply.autn_num reply.rand_num ≡ xres = ground arith in
    (
      reply,
      rw (one, known) (bind_assoc falls_off _ _),
      answer,
      rw answer (mod_swap ((xres + 2) % 2 ^ 64 + (xres + 3) % 2 ^ 64 + sqn) c.plmn_id n),
    )

-- A UE context of the AMF and one of the base station with the same k_asme, count and bearer, where
-- the direction of the AMF is one more: the AMF in its security mode command and the base station
-- that reads the algorithms from it derive the same two NAS keys.
pub set_crypt_context-agrees :
    (raw : UeContext) (guti : ℕ) (a : Amf) (c : UeContext) (r : RanContext)
    → a.ue_ctx guti ≡ some c
    → c.k_asme ≡ r.k_asme
    → c.count ≡ r.count
    → c.bearer ≡ r.bearer
    → c.dir ≡ r.dir + 1
    → let d =
        context raw guti
          (State.set_integrity_context raw guti (State.set_crypt_context raw guti a)) in
      let s = set_integrity_context (
        set_crypt_context
          (record r { nas_enc_algo = d.nas_enc_algo; nas_int_algo = d.nas_int_algo })) in
      (d.k_nas_enc ≡ s.k_nas_enc) × (d.k_nas_int ≡ s.k_nas_int)
unfolding set_crypt_context set_integrity_context State.set_crypt_context
    State.set_integrity_context
set_crypt_context-agrees raw guti a c r known k n b d =
    (ground (arith, known, k, n, b, d), ground (arith, known, k, n, b, d))
