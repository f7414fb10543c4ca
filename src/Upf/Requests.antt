-- ===== src/Upf/Requests.antt =====
-- Each session handler of the user plane function on a request that carries what it reads, with the
-- state that it leaves (src/upf.cpp).
use sba_g_rpc_5g.Base.{
  nonzero, ℕ, ◌-◌, ◌^◌, ◌≤◌, ◌<◌, ◌≡◌, ◌≢◌, refl, ap, ◌∙◌, some, [], ◌∷◌, ◌++◌, length,
}
use sba_g_rpc_5g.Result.{ok}
use sba_g_rpc_5g.Bytes.{Bytes, encode}
use sba_g_rpc_5g.Packet.{
  Packet, Gtp, extract_u8, extract_u32, extract_u64, extract_int, extract_number,
}
use sba_g_rpc_5g.Packet.View.{view, gtp_hdr-view, extract_bytes-view}
use sba_g_rpc_5g.Packet.Numbers.{IsText, extract_number-view, extract_string-view}
use sba_g_rpc_5g.Net.{SockAddr}
use sba_g_rpc_5g.Messages.{message}
use sba_g_rpc_5g.UnorderedMap.{put, nat_key, bytes_key}
use sba_g_rpc_5g.Upf.State.{UeContext, Upf}
use sba_g_rpc_5g.Upf.Tables.{get_imsi}
use sba_g_rpc_5g.Upf.Session.{
  handle_create_session, handle_modify_bearer, handle_detach, detach_from,
}
use sba_g_rpc_5g.Upf.Sessions.{added, add_session-added, removed, remove_session-removed}
use sba_g_rpc_5g.Upf.Replies.{flag_reply_lem, create_reply_lem, create_body}

-- The body of a create session request.
abbrev pub create_request : ℕ → ℕ → ℕ → ℕ → ℕ → Bytes
create_request teid imsi eps apn tai =
    encode 4 teid ++ (encode 8 imsi ++ (encode 1 eps ++ (encode 8 apn ++ (encode 8 tai ++ []))))

-- The tables with the session of a request.
abbrev pub with_session : UeContext → ℕ → ℕ → ℕ → ℕ → ℕ → Bytes → Upf → Upf
with_session raw teid imsi eps apn tai addr u =
    added raw teid imsi eps apn tai addr (record u { ip_addrs = put imsi addr u.ip_addrs })

module _ (raw : UeContext) (src : SockAddr) (q : Packet) (used : Bytes) (u : Upf)
    (teid imsi eps apn tai : ℕ) (addr : Bytes) where
  pub handle_create_session_lem :
      teid < 2 ^ 32
      → imsi < 2 ^ 64
      → eps < 2 ^ 8
      → apn < 2 ^ 64
      → tai < 2 ^ 64
      → u.ip_addrs imsi ≡ some addr
      → IsText addr
      → length addr ≤ 15
      → handle_create_session raw src (view q used (create_request teid imsi eps apn tai)) u
        ≡ ok (
          with_session raw teid imsi eps apn tai addr u,
          record { to = src; bytes = message 1 teid q.gtp_hdr (create_body teid addr) },
        )
  unfolding handle_create_session extract_u8 extract_u32 extract_u64
  handle_create_session_lem ht hi he ha hx known text short =
      let u1 = record u { ip_addrs = put imsi addr u.ip_addrs } in
      let p1 = used ++ encode 4 teid in
      let p2 = p1 ++ encode 8 imsi in
      let p3 = p2 ++ encode 1 eps in
      let p4 = p3 ++ encode 8 apn in
      rw (
        extract_number-view 4 teid q used _ ht,
        extract_number-view 8 imsi q p1 _ hi,
        extract_number-view 1 eps q p2 _ he,
        extract_number-view 8 apn q p3 _ ha,
        extract_number-view 8 tai q p4 _ hx,
        known,
        add_session-added raw teid imsi eps apn tai addr u1,
        create_reply_lem src teid addr (view q (p4 ++ encode 8 tai) []) text short,
        gtp_hdr-view q (p4 ++ encode 8 tai) [],
      )

-- The body of a modify bearer request.
abbrev pub modify_request : ℕ → ℕ → Bytes → ℕ → Bytes
modify_request eps dl addr port =
    encode 1 eps ++ (encode 4 dl ++ (encode 4 (length addr) ++ (addr ++ (encode 4 port ++ []))))

-- The tables with the downlink of a request.
abbrev pub with_downlink : ℕ → UeContext → ℕ → Bytes → ℕ → Upf → Upf
with_downlink imsi c dl addr port u = record u {
  ue_ctx =
      put imsi (record c { s1_uteid_dl = dl; enodeb_ip_addr = addr; enodeb_port = port }) u.ue_ctx;
}

module _ (raw : UeContext) (src : SockAddr) (q : Packet) (used : Bytes) (u : Upf) (imsi : ℕ)
    (c : UeContext) (known : u.s11_id q.gtp_hdr.teid ≡ some imsi) (real : imsi ≢ 0)
    (there : u.ue_ctx imsi ≡ some c) where
  known_view : (body : Bytes) → u.s11_id (view q used body).gtp_hdr.teid ≡ some imsi
  known_view body = ap (λ (h : Gtp). u.s11_id h.teid) (gtp_hdr-view q used body) ∙ known

  pub handle_modify_bearer_lem :
      (eps dl : ℕ) (addr : Bytes) (port : ℕ)
      → eps < 2 ^ 8
      → dl < 2 ^ 32
      → IsText addr
      → length addr < 2 ^ 31 - 1
      → port < 2 ^ 32
      → handle_modify_bearer raw src (view q used (modify_request eps dl addr port)) u
        ≡ ok (
          with_downlink imsi c dl addr port u,
          record { to = src; bytes = message 2 c.s11_cteid_smf q.gtp_hdr (1 ∷ []) },
        )
  unfolding handle_modify_bearer extract_u8 extract_u32 extract_int get_imsi
  handle_modify_bearer_lem eps dl addr port he hd text short hp =
      let p1 = used ++ encode 1 eps in
      let p2 = p1 ++ encode 4 dl in
      let p3 = (p2 ++ encode 4 (length addr)) ++ addr in
      rw (
        known_view (modify_request eps dl addr port),
        nonzero imsi real,
        extract_number-view 1 eps q used _ he,
        extract_number-view 4 dl q p1 _ hd,
        extract_string-view addr q p2 _ text short,
        extract_number-view 4 port q p3 _ hp,
        there,
        flag_reply_lem src 2 c.s11_cteid_smf (view q (p3 ++ encode 4 port) []),
        gtp_hdr-view q (p3 ++ encode 4 port) [],
      )

  pub handle_detach_lem :
      (eps tai : ℕ)
      → handle_detach src (view q used (encode 1 eps ++ (encode 8 tai ++ []))) u
        ≡ ok (
          removed imsi c u,
          record { to = src; bytes = message 3 c.s11_cteid_smf q.gtp_hdr (1 ∷ []) },
        )
  unfolding handle_detach detach_from extract_u8 extract_u64 extract_number get_imsi
  handle_detach_lem eps tai =
      let p1 = used ++ encode 1 eps in
      rw (
        known_view (encode 1 eps ++ (encode 8 tai ++ [])),
        nonzero imsi real,
        extract_bytes-view 1 q used (encode 1 eps) _ refl,
        extract_bytes-view 8 q p1 (encode 8 tai) [] refl,
        there,
        flag_reply_lem src 3 c.s11_cteid_smf (view q (p1 ++ encode 8 tai) []),
        remove_session-removed imsi c u,
        gtp_hdr-view q (p1 ++ encode 8 tai) [],
      )
