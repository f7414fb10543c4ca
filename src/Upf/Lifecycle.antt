-- ===== src/Upf/Lifecycle.antt =====
-- A session from its set-up to its end: each handler on a request that carries what it reads.
use sba_g_rpc_5g.Base.{
  ℕ, ◌-◌, ◌^◌, ◌≤◌, ◌<◌, ◌≡◌, ◌≢◌, refl, none, some, [], ◌∷◌, ◌++◌, length, arith, ◌==◌, ◌⊎◌,
  if◌then◌else◌,
}
use sba_g_rpc_5g.Result.{ok}
use sba_g_rpc_5g.Bytes.{Bytes, encode}
use sba_g_rpc_5g.Packet.{Packet}
use sba_g_rpc_5g.Packet.View.{view}
use sba_g_rpc_5g.Packet.Numbers.{IsText}
use sba_g_rpc_5g.Net.{SockAddr, Datagram}
use sba_g_rpc_5g.Messages.{message}
use sba_g_rpc_5g.UnorderedMap.{put, or_fresh, nat_key, bytes_key}
use sba_g_rpc_5g.Upf.State.{UeContext, Upf, new_ue_context, init_ue_context}
use sba_g_rpc_5g.Upf.Tables.{DownlinkInfo, get_downlink_info}
use sba_g_rpc_5g.Upf.Session.{handle_create_session, handle_modify_bearer, handle_detach}
use sba_g_rpc_5g.Upf.Sessions.{
  IsConsistent, IsFree, added, added_tables, added-IsConsistent, removed, removed_tables,
  removed-IsConsistent, IsConsistent-ip_addrs, IsFree-ip_addrs, IsConsistent-update,
}
use sba_g_rpc_5g.Upf.Requests.{
  create_request, modify_request, with_session, with_downlink, handle_create_session_lem,
  handle_modify_bearer_lem, handle_detach_lem,
}
use sba_g_rpc_5g.Upf.Replies.{create_body}

module _ (raw : UeContext) (src : SockAddr) (q : Packet) (used : Bytes) (u : Upf)
    (teid imsi eps apn tai : ℕ) (addr : Bytes) where
  -- A create session request with members in range, for a UE that has an address (a text of at most
  -- 15 bytes), in consistent tables where no other session has the TEID or the address: it is
  -- answered with the TEID and the address, the session is indexed by all three tables, under the
  -- TEID on both interfaces, the tables stay consistent, and the context of the IMSI, new if there
  -- was none, has the members of the request, the address and the TEID; all other contexts stay.
  pub handle_create_session-adds :
      teid < 2 ^ 32
      → imsi < 2 ^ 64
      → eps < 2 ^ 8
      → apn < 2 ^ 64
      → tai < 2 ^ 64
      → u.ip_addrs imsi ≡ some addr
      → IsText addr
      → length addr ≤ 15
      → IsConsistent u
      → IsFree u imsi teid addr
      → (u' : Upf) × (handle_create_session raw src
            (view q used (create_request teid imsi eps apn tai))
            u
          ≡ ok (u', record { to = src; bytes = message 1 teid q.gtp_hdr (create_body teid addr) }))
        × IsConsistent u'
        × (u'.s11_id teid ≡ some imsi)
        × (u'.s1_id teid ≡ some imsi)
        × (u'.sgi_id addr ≡ some imsi)
        × (u'.ue_ctx imsi
            ≡ some (record (or_fresh (new_ue_context raw) (u.ue_ctx imsi)) {
              ip_addr = addr;
              tai = tai;
              apn_in_use = apn;
              eps_bearer_id = eps;
              s1_uteid_ul = teid;
              s11_cteid_smf = teid;
              s11_cteid_upf = teid;
            }))
        × ((j : ℕ) → (j ≡ imsi) ⊎ (u'.ue_ctx j ≡ u.ue_ctx j))
  unfolding added init_ue_context
  handle_create_session-adds ht hi he ha hx known text short w f =
      let u1 = record u { ip_addrs = put imsi addr u.ip_addrs } in
      let tables = added_tables raw teid imsi eps apn tai addr u1 in
      (
        with_session raw teid imsi eps apn tai addr u,
        handle_create_session_lem raw src q used u teid imsi eps apn tai addr ht hi he ha hx known
            text short,
        added-IsConsistent raw teid imsi eps apn tai addr u1 (IsConsistent-ip_addrs _ u w)
            (IsFree-ip_addrs _ u imsi teid addr f),
        tables.0,
        tables.1,
        tables.2,
        ground arith,
        λ j. ground arith,
      )

module _ (raw : UeContext) (src : SockAddr) (q : Packet) (used : Bytes) (u : Upf) (imsi : ℕ)
    (c : UeContext) (known : u.s11_id q.gtp_hdr.teid ≡ some imsi) (real : imsi ≢ 0)
    (there : u.ue_ctx imsi ≡ some c) (w : IsConsistent u) where
  -- A modify bearer request with members in range under the TEID of a session, in consistent tables,
  -- is acknowledged under the TEID of the SMF; from then on downlink data of the UE goes to the
  -- tunnel and the address that the request names (for port 0 it is held back), and the tables stay
  -- consistent.
  pub handle_modify_bearer-switches :
      (eps dl : ℕ) (addr : Bytes) (port : ℕ)
      → eps < 2 ^ 8
      → dl < 2 ^ 32
      → IsText addr
      → length addr < 2 ^ 31 - 1
      → port < 2 ^ 32
      → let out : Datagram = record {
        to = src;
        bytes = message 2 c.s11_cteid_smf q.gtp_hdr (1 ∷ []);
      } in
        let info : DownlinkInfo = record {
          s1_uteid_dl = dl;
          enodeb_ip_addr = addr;
          enodeb_port = port;
        } in
        (u' : Upf) × (handle_modify_bearer raw src (view q used (modify_request eps dl addr port)) u
          ≡ ok (u', out))
        × (get_downlink_info imsi u' ≡ (if port == 0 then none else some info))
        × IsConsistent u'
  unfolding get_downlink_info
  handle_modify_bearer-switches eps dl addr port he hd text short hp =
      let d = record c { s1_uteid_dl = dl; enodeb_ip_addr = addr; enodeb_port = port } in
      (
        with_downlink imsi c dl addr port u,
        handle_modify_bearer_lem raw src q used u imsi c known real there eps dl addr port he hd
            text short hp,
        ground arith,
        IsConsistent-update imsi c d u w there refl refl refl,
      )

  -- A detach request under the TEID of a session, in consistent tables, is acknowledged, the session
  -- is gone from every table, and the tables stay consistent.
  pub handle_detach-removes :
      (eps tai : ℕ)
      → let out : Datagram = record {
        to = src;
        bytes = message 3 c.s11_cteid_smf q.gtp_hdr (1 ∷ []);
      } in
        (u' : Upf) × (handle_detach src (view q used (encode 1 eps ++ (encode 8 tai ++ []))) u
          ≡ ok (u', out))
        × (u'.ue_ctx imsi ≡ none)
        × (u'.s11_id c.s11_cteid_upf ≡ none)
        × (u'.s1_id c.s1_uteid_ul ≡ none)
        × (u'.sgi_id c.ip_addr ≡ none)
        × IsConsistent u'
  handle_detach-removes eps tai =
      let gone = removed_tables imsi c u in
      (
        removed imsi c u,
        handle_detach_lem raw src q used u imsi c known real there eps tai,
        gone.0,
        gone.1,
        gone.2,
        gone.3,
        removed-IsConsistent imsi c u w there,
      )
