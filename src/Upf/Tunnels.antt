-- ===== src/Upf/Tunnels.antt =====
-- Handover at the user plane function: where downlink data goes after it, and what an indirect tunnel
-- does to the uplink table (src/upf.cpp).
use sba_g_rpc_5g.Base.{
  ℕ, ◌+◌, ◌%◌, ◌^◌, ◌<◌, ◌≡◌, ◌≢◌, sym, ap, ◌∙◌, true, none, some, [], ◌∷◌, ◌++◌, arith, ◌==◌,
}
use sba_g_rpc_5g.Result.{ok, ◌>>=◌, bind_assoc}
use sba_g_rpc_5g.Bytes.{Bytes, encode}
use sba_g_rpc_5g.Packet.{Packet, Gtp, extract_u32, append_bool, append_u32, prepend_gtp_hdr}
use sba_g_rpc_5g.Packet.View.{view, gtp_hdr-view, append_bytes-view}
use sba_g_rpc_5g.Packet.Moves.{clear_pkt-view}
use sba_g_rpc_5g.Packet.Numbers.{extract_number-view}
use sba_g_rpc_5g.Messages.{message, send_message}
use sba_g_rpc_5g.Net.{SockAddr, Datagram, snd}
use sba_g_rpc_5g.UnorderedMap.{put, erase, or_fresh, nat_key}
use sba_g_rpc_5g.Upf.State.{UeContext, Upf, new_ue_context}
use sba_g_rpc_5g.Upf.Tables.{get_imsi, update_itfid, DownlinkInfo, get_downlink_info}
use sba_g_rpc_5g.Upf.Handover.{ho_key, handle_indirect_tunnel_setup, handle_handover_completion}
use sba_g_rpc_5g.Upf.Replies.{flag_reply_lem}
use sba_g_rpc_5g.Upf.Sessions.{IsConsistent, IsIndexed}

self : (n : ℕ) → (n == n) ≡ true
self n = ground arith

module _ (ho_raw raw : UeContext) (src : SockAddr) (q : Packet) (used : Bytes) (u : Upf) (imsi : ℕ)
    (c : UeContext) (known : u.s11_id q.gtp_hdr.teid ≡ some imsi)
    (there : u.ue_ctx imsi ≡ some c) where
  known_view : (body : Bytes) → u.s11_id (view q used body).gtp_hdr.teid ≡ some imsi
  known_view body = ap (λ (h : Gtp). u.s11_id h.teid) (gtp_hdr-view q used body) ∙ known

  set_up : ℕ → Upf
  set_up dl = record u {
    s1_id = put ((c.s11_cteid_smf + 1) % 2 ^ 32) imsi u.s1_id;
    ue_ctx = put imsi c u.ue_ctx;
    ho_ue_ctx =
        put (ho_key imsi)
          (record (or_fresh (new_ue_context ho_raw) (u.ho_ue_ctx (ho_key imsi))) {
            s1_uteid_dl = dl;
          })
          u.ho_ue_ctx;
  }

  setup-answers :
      (dl : ℕ)
      → dl < 2 ^ 32
      → let teid = (c.s11_cteid_smf + 1) % 2 ^ 32 in
        handle_indirect_tunnel_setup ho_raw raw src (view q used (encode 4 dl ++ [])) u
        ≡ ok (
          set_up dl,
          record {
            to = src;
            bytes = message 4 c.s11_cteid_smf q.gtp_hdr (encode 1 1 ++ encode 4 teid);
          },
        )
  unfolding handle_indirect_tunnel_setup set_up get_imsi update_itfid extract_u32 append_bool
      append_u32
  setup-answers dl h =
      let teid = (c.s11_cteid_smf + 1) % 2 ^ 32 in
      let p = view q (used ++ encode 4 dl) [] in
      rw
        (
          known_view (encode 4 dl ++ []),
          extract_number-view 4 dl q used [] h,
          there,
          clear_pkt-view p,
          append_bytes-view p [] (encode 1 1) (omega arith),
          append_bytes-view p (encode 1 1) (encode 4 teid) (omega arith),
        )
        (sym (
            bind_assoc
              (prepend_gtp_hdr 2 4 (view p (encode 1 1 ++ encode 4 teid) []).len c.s11_cteid_smf
                (view p (encode 1 1 ++ encode 4 teid) []))
              (snd src) (λ out. ok (set_up dl, out)))
          ∙ (ap (λ m. m >>= λ out. ok (set_up dl, out))
                (send_message src 4 c.s11_cteid_smf p (encode 1 1 ++ encode 4 teid) (omega arith))
              ∙ ap
                  (λ h. ok (
                    set_up dl,
                    record {
                      to = src;
                      bytes = message 4 c.s11_cteid_smf h (encode 1 1 ++ encode 4 teid);
                    },
                  ))
                  (gtp_hdr-view q (used ++ encode 4 dl) [])))

  -- In consistent tables, the set-up of an indirect tunnel for a session is answered with the TEID
  -- that follows the TEID of its SMF. If another session has this TEID on the uplink, the entry of
  -- s1_id for the TEID is that of the other session before, and that of the UE of the tunnel
  -- afterwards, while the other session is still there.
  pub handle_indirect_tunnel_setup-overlaps :
      (dl j : ℕ) (d : UeContext)
      → dl < 2 ^ 32
      → IsConsistent u
      → u.ue_ctx j ≡ some d
      → j ≢ imsi
      → d.s1_uteid_ul ≡ (c.s11_cteid_smf + 1) % 2 ^ 32
      → let teid = (c.s11_cteid_smf + 1) % 2 ^ 32 in
        let out : Datagram = record {
          to = src;
          bytes = message 4 c.s11_cteid_smf q.gtp_hdr (encode 1 1 ++ encode 4 teid);
        } in
        (u' : Upf) × (handle_indirect_tunnel_setup ho_raw raw src
            (view q used (encode 4 dl ++ []))
            u
          ≡ ok (u', out))
        × (u.s1_id d.s1_uteid_ul ≡ some j)
        × (u'.ue_ctx j ≡ some d)
        × (u'.s1_id d.s1_uteid_ul ≡ some imsi)
  unfolding set_up
  handle_indirect_tunnel_setup-overlaps dl j d h w other apart next =
      let index : IsIndexed u j d = w.indexed j d other in
      (
        set_up dl,
        setup-answers dl h,
        index.by_s1,
        ground (arith, apart, other),
        ground (arith, next),
      )

  -- For a session with a base station: the set-up of an indirect tunnel followed by the completion
  -- of the handover, whatever is received with it, are both answered; downlink data of the UE then
  -- goes into the tunnel that the set-up named, still to the base station of before, and the
  -- handover entry is gone.
  pub handle_handover_completion-switches :
      (dl : ℕ) (body : Bytes)
      → dl < 2 ^ 32
      → c.enodeb_port ≢ 0
      → let info : DownlinkInfo = record {
        s1_uteid_dl = dl;
        enodeb_ip_addr = c.enodeb_ip_addr;
        enodeb_port = c.enodeb_port;
      } in
        (u1 : Upf) × (u2 : Upf) × (out1 : Datagram) × (handle_indirect_tunnel_setup ho_raw raw src
            (view q used (encode 4 dl ++ []))
            u
          ≡ ok (u1, out1))
        × (handle_handover_completion ho_raw raw src (view q used body) u1
            ≡ ok (u2, record { to = src; bytes = message 5 c.s11_cteid_smf q.gtp_hdr (1 ∷ []) }))
        × (get_downlink_info imsi u2 ≡ some info)
        × (u2.ho_ue_ctx (ho_key imsi) ≡ none)
  unfolding set_up handle_handover_completion get_imsi get_downlink_info
  handle_handover_completion-switches dl body h port = (
    set_up dl,
    record (set_up dl) {
      ue_ctx = put imsi (record c { s1_uteid_dl = dl }) (set_up dl).ue_ctx;
      ho_ue_ctx = erase (ho_key imsi) (set_up dl).ho_ue_ctx;
    },
    _,
    setup-answers dl h,
    rw (
      known_view body,
      self imsi,
      self (ho_key imsi),
      flag_reply_lem src 5 c.s11_cteid_smf (view q used body),
      gtp_hdr-view q used body,
    ),
    ground arith,
    ground arith,
  )
