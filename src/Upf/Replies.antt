-- ===== src/Upf/Replies.antt =====
-- The responses of the user plane function. They are built in a cleared packet, so nothing of the
-- request is left in them but the members of the GTP header that `Gtp::init` keeps (src/upf.cpp).
use sba_g_rpc_5g.Base.{ℕ, ◌≤◌, ◌≡◌, [], ◌∷◌, ◌++◌, length, arith, length-append}
use sba_g_rpc_5g.Result.{ok}
use sba_g_rpc_5g.Bytes.{Bytes, encode}
use sba_g_rpc_5g.Packet.{Packet, append_bool, append_u32, append_string, append_int, append_cstr}
use sba_g_rpc_5g.Packet.View.{append_bytes-view}
use sba_g_rpc_5g.Packet.Moves.{clear_pkt-view}
use sba_g_rpc_5g.Packet.Numbers.{IsText, c_str-IsText}
use sba_g_rpc_5g.Net.{SockAddr}
use sba_g_rpc_5g.Messages.{message, send_message}
use sba_g_rpc_5g.Upf.Session.{create_reply, flag_reply}

-- The flag of a response is one byte, 1.
pub flag_reply_lem :
    (src : SockAddr) (msg_type teid : ℕ) (pkt : Packet)
    → flag_reply src msg_type teid pkt
      ≡ ok (record { to = src; bytes = message msg_type teid pkt.gtp_hdr (1 ∷ []) })
unfolding flag_reply append_bool
flag_reply_lem src msg_type teid pkt =
    rw (clear_pkt-view pkt, append_bytes-view pkt [] (1 ∷ []) (omega arith))
      (send_message src msg_type teid pkt (1 ∷ []) (omega arith))

abbrev pub create_body : ℕ → Bytes → Bytes
create_body teid addr = encode 4 teid ++ (encode 4 (length addr) ++ (addr ++ encode 4 teid))

pub create_reply_lem :
    (src : SockAddr) (teid : ℕ) (addr : Bytes) (pkt : Packet)
    → IsText addr
    → length addr ≤ 15
    → create_reply src teid addr pkt
      ≡ ok (record { to = src; bytes = message 1 teid pkt.gtp_hdr (create_body teid addr) })
unfolding create_reply append_u32 append_string append_int append_cstr
create_reply_lem src teid addr pkt t h =
    rw
      (
        clear_pkt-view pkt,
        c_str-IsText addr t,
        append_bytes-view pkt [] (encode 4 teid) (omega arith),
        append_bytes-view pkt (encode 4 teid) (encode 4 (length addr)) (omega arith),
        append_bytes-view pkt (encode 4 teid ++ encode 4 (length addr)) addr (omega arith),
        append_bytes-view pkt ((encode 4 teid ++ encode 4 (length addr)) ++ addr) (encode 4 teid)
            (omega (arith, length-append (encode 4 teid ++ encode 4 (length addr)) addr)),
      )
      (send_message src 1 teid pkt (create_body teid addr)
        (omega (arith, length-append addr (encode 4 teid))))
