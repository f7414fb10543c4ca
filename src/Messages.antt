-- ===== src/Messages.antt =====
-- Control messages over GTP, byte by byte: what a handler sends that clears its packet, appends a
-- body and prepends a header with the body's length (src/packet.cpp, src/upf.cpp, src/smf.cpp).
use sba_g_rpc_5g.Base.{
  ℕ, ◌+◌, ◌%◌, ◌^◌, ◌≤◌, ◌≡◌, ap, ◌∙◌, [], ◌++◌, length, arith, append-nil, length-append,
}
use sba_g_rpc_5g.Result.{ok, ◌>>=◌}
use sba_g_rpc_5g.Bytes.{Bytes}
use sba_g_rpc_5g.Packet.{Packet, Gtp, gtp_bytes, prepend_gtp_hdr, buf_size}
use sba_g_rpc_5g.Packet.View.{view, len-view, len-view_unread}
use sba_g_rpc_5g.Packet.Moves.{payload-view}
use sba_g_rpc_5g.Packet.Transport.{
  control_hdr, user_hdr, prepend_gtp_hdr-view_user, prepend_gtp_hdr-view, length-gtp_bytes,
}
use sba_g_rpc_5g.Net.{SockAddr, snd}

-- A GTP control message: the header, with the length of the body, and the body.
unfoldable pub message : ℕ → ℕ → Gtp → Bytes → Bytes
message msg_type teid h body =
    gtp_bytes (control_hdr msg_type (length body % 2 ^ 16) teid h) ++ body

-- Whatever body was appended to a cleared packet is sent behind a header.
pub send_message :
    (src : SockAddr) (msg_type teid : ℕ) (q : Packet) (body : Bytes)
    → 16 + length body ≤ buf_size
    → (prepend_gtp_hdr 2 msg_type (view q body []).len teid (view q body []) >>= snd src)
      ≡ ok (record { to = src; bytes = message msg_type teid q.gtp_hdr body })
unfolding snd message
send_message src msg_type teid q body h =
    let g = control_hdr msg_type (length body % 2 ^ 16) teid q.gtp_hdr in
    ap (λ n. prepend_gtp_hdr 2 msg_type n teid (view q body []) >>= snd src) (len-view q body)
    ∙ rw (
      prepend_gtp_hdr-view msg_type (length body) teid q body h,
      payload-view (record q { gtp_hdr = g }) (gtp_bytes g ++ body) []
          (omega (arith, length-append (gtp_bytes g) body, length-gtp_bytes g)),
      append-nil (gtp_bytes g ++ body),
    )

-- User data is sent behind a header of protocol 1.
unfoldable pub user_message : ℕ → ℕ → Gtp → Bytes → Bytes
user_message msg_type teid h inner =
    gtp_bytes (user_hdr msg_type (length inner % 2 ^ 16) teid h) ++ inner

pub send_user_data :
    (dst : SockAddr) (msg_type teid : ℕ) (q : Packet) (inner : Bytes)
    → 16 + length inner ≤ buf_size
    → (prepend_gtp_hdr 1 msg_type (view q [] inner).len teid (view q [] inner) >>= snd dst)
      ≡ ok (record { to = dst; bytes = user_message msg_type teid q.gtp_hdr inner })
unfolding snd user_message
send_user_data dst msg_type teid q inner h =
    let g = user_hdr msg_type (length inner % 2 ^ 16) teid q.gtp_hdr in
    ap (λ n. prepend_gtp_hdr 1 msg_type n teid (view q [] inner) >>= snd dst)
      (len-view_unread q inner)
    ∙ rw (
      prepend_gtp_hdr-view_user msg_type (length inner) teid q inner h,
      payload-view (record q { gtp_hdr = g }) (gtp_bytes g) inner
          (omega (arith, length-gtp_bytes g)),
    )
