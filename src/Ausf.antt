-- ===== src/Ausf.antt =====
-- The authentication server function (src/ausf.cpp, src/ausf_server.cpp). The subscriber database is a
-- parameter: the row of `autn_info` for an IMSI; what set_loc_info writes is the list of the queries'
-- rows. Both handlers end without the `return` that their type asks for, and the service goes on with
-- the pointer that it takes for their result, which is undefined behaviour. `falls_off` is what comes
-- of that: a fault, or nothing. In that case the reply that is sent is the one of the service's caller,
-- into which the handlers have written.
use sba_g_rpc_5g.Base.{ℕ, ◌+◌, ◌%◌, ◌^◌, Option, none, some, ◌==◌, if◌then◌else◌}
use sba_g_rpc_5g.Result.{Result, ok, fault, exit_failure, ◌>>=◌, ◌>>◌}
use sba_g_rpc_5g.UnorderedMap.{Map, put, nat_key}
use sba_g_rpc_5g.Rpc.{AmfAusfRequest, AmfAusfReply, new_ausf_reply}

pub record AutnInfo : Type 0 where
  pub key_id : ℕ
  pub rand_num : ℕ

-- autn_info and loc_info
pub record Db : Type 0 where
  pub autn_info : Map ℕ AutnInfo
  pub loc_info : Map ℕ ℕ

row : Option AutnInfo → Result AutnInfo
row none = fault exit_failure
row (some info) = ok info

-- Ausf::get_autn_info: a missing row ends the process.
unfoldable pub get_autn_info : ℕ → Db → Result AutnInfo
unfolding row
get_autn_info imsi db = row (db.autn_info imsi)

unfoldable pub handle_autninfo_req :
    Result (Unit {0}) → ℕ → ℕ → ℕ → ℕ → AmfAusfReply → Db → Result AmfAusfReply
handle_autninfo_req falls_off imsi num_autn_vectors plmn_id nw_type reply db = do
  info ← get_autn_info imsi db
  let sqn = (info.rand_num + 1) % 2 ^ 64
  let xres = (info.key_id + sqn + info.rand_num) % 2 ^ 64
  let autn_num = (xres + 1) % 2 ^ 64
  let ck = (xres + 2) % 2 ^ 64
  let ik = (xres + 3) % 2 ^ 64
  let k_asme = (ck + ik + sqn + plmn_id) % 2 ^ 64
  falls_off
  ok (record reply {
    msg_type = 1;
    autn_num = autn_num;
    rand_num = info.rand_num;
    xres = xres;
    k_asme = k_asme;
  })

-- Ausf::set_loc_info: the row of the IMSI is deleted and a new one inserted.
unfoldable pub set_loc_info : ℕ → ℕ → Db → Db
set_loc_info imsi mmei db = record db { loc_info = put imsi mmei db.loc_info }

unfoldable pub handle_location_update :
    Result (Unit {0}) → ℕ → ℕ → AmfAusfReply → Db → Result (Db × AmfAusfReply)
handle_location_update falls_off imsi mmei reply db = do
  let db' = set_loc_info imsi mmei db
  falls_off
  ok (db', record reply { default_apn = 1 })

-- GreeterServiceImpl::AmfAusfInteraction. The PLMN id of the request stands where the handler takes
-- the number of vectors, and the number of vectors where it takes the PLMN id.
unfoldable pub amf_ausf_interaction :
    Result (Unit {0}) → AmfAusfRequest → Db → Result (Db × AmfAusfReply)
amf_ausf_interaction falls_off request db =
    if request.msg_type == 1
    then (do
      reply ←
          handle_autninfo_req falls_off request.imsi (request.plmn_id % 2 ^ 16)
            (request.num_autn_vec % 2 ^ 16) (request.nw_type % 2 ^ 16) new_ausf_reply db
      ok (db, reply))
    else if request.msg_type == 2
    then handle_location_update falls_off request.imsi (request.mmei % 2 ^ 32) new_ausf_reply db
    else ok (db, new_ausf_reply)
