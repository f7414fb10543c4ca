-- ===== src/Upf/Handover.antt =====
-- The handover handlers of class Upf (src/upf.cpp). They do not test the IMSI that they find: for
-- an unknown TEID it is 0. `ho_raw` and `raw` are the memory of new contexts.
use sba_g_rpc_5g.Base.{ℕ, ◌+◌, ◌%◌, ◌^◌, true}
use sba_g_rpc_5g.Result.{Result, ok, ◌>>=◌}
use sba_g_rpc_5g.Packet.{Packet, clear_pkt, append_bool, append_u32, prepend_gtp_hdr, extract_u32}
use sba_g_rpc_5g.Net.{SockAddr, Datagram, snd}
use sba_g_rpc_5g.UnorderedMap.{put, erase, or_fresh, nat_key}
use sba_g_rpc_5g.Upf.State.{UeContext, Upf, new_ue_context}
use sba_g_rpc_5g.Upf.Tables.{update_itfid, get_imsi, rem_itfid}
use sba_g_rpc_5g.Upf.Session.{flag_reply}

-- `ue_ctx[imsi]` is read, which makes an entry where there is none.
abbrev context : UeContext → ℕ → Upf → UeContext
context raw imsi u = or_fresh (new_ue_context raw) (u.ue_ctx imsi)

abbrev touch : UeContext → ℕ → Upf → Upf
touch raw imsi u = record u { ue_ctx = put imsi (context raw imsi u) u.ue_ctx }

-- The key of `ho_ue_ctx` is a uint32_t, so an IMSI is cut to its low half.
abbrev pub ho_key : ℕ → ℕ
ho_key imsi = imsi % 2 ^ 32

unfoldable pub handle_indirect_tunnel_setup :
    UeContext → UeContext → SockAddr → Packet → Upf → Result (Upf × Datagram)
handle_indirect_tunnel_setup ho_raw raw src pkt u = do
  imsi ← get_imsi 11 pkt.gtp_hdr.teid u
  (s1_uteid_dl, p1) ← extract_u32 pkt
  let ho = record (or_fresh (new_ue_context ho_raw) (u.ho_ue_ctx (ho_key imsi))) {
    s1_uteid_dl = s1_uteid_dl;
  }
  let s11_cteid_smf = (context raw imsi u).s11_cteid_smf
  let s1_uteid_ul = (s11_cteid_smf + 1) % 2 ^ 32
  u' ←
      update_itfid 1 s1_uteid_ul imsi
        (record (touch raw imsi u) { ho_ue_ctx = put (ho_key imsi) ho u.ho_ue_ctx })
  p2 ← append_bool true (clear_pkt p1)
  p3 ← append_u32 s1_uteid_ul p2
  p4 ← prepend_gtp_hdr 2 4 p3.len s11_cteid_smf p3
  out ← snd src p4
  ok (u', out)

unfoldable pub handle_handover_completion :
    UeContext → UeContext → SockAddr → Packet → Upf → Result (Upf × Datagram)
handle_handover_completion ho_raw raw src pkt u = do
  imsi ← get_imsi 11 pkt.gtp_hdr.teid u
  let ho = or_fresh (new_ue_context ho_raw) (u.ho_ue_ctx (ho_key imsi))
  let ctx = record (context raw imsi u) { s1_uteid_dl = ho.s1_uteid_dl }
  out ← flag_reply src 5 ctx.s11_cteid_smf pkt
  ok (record u { ue_ctx = put imsi ctx u.ue_ctx; ho_ue_ctx = erase (ho_key imsi) u.ho_ue_ctx }, out)

unfoldable pub handle_indirect_tunnel_teardown :
    UeContext → SockAddr → Packet → Upf → Result (Upf × Datagram)
handle_indirect_tunnel_teardown raw src pkt u = do
  imsi ← get_imsi 11 pkt.gtp_hdr.teid u
  (s1_uteid_ul_indirect, p1) ← extract_u32 pkt
  u' ← rem_itfid 1 s1_uteid_ul_indirect (touch raw imsi u)
  out ← flag_reply src 6 (context raw imsi u).s11_cteid_smf p1
  ok (u', out)
