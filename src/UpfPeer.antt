-- ===== src/UpfPeer.antt =====
-- The user plane function as the peer of a client over UDP: one round of handle_s11_traffic
-- (src/upf_server.cpp) on a control message, with the state that it leaves.
use sba_g_rpc_5g.Base.{
  ℕ, ◌+◌, ◌%◌, ◌^◌, ◌≤◌, ◌<◌, ◌≡◌, ap, ◌∙◌, Option, none, some, [], ◌++◌, length, arith,
  length-append,
}
use sba_g_rpc_5g.Result.{Result, ok, fault, ◌>>=◌}
use sba_g_rpc_5g.Bytes.{Bytes}
use sba_g_rpc_5g.Packet.{Packet, Gtp, gtp_bytes, copy, buf_size}
use sba_g_rpc_5g.Packet.View.{view, gtp_hdr-view}
use sba_g_rpc_5g.Packet.Moves.{received-view, copy-view}
use sba_g_rpc_5g.Packet.Transport.{
  IsGtp, control_hdr, control_hdr-IsGtp, extract_gtp_hdr-view, length-gtp_bytes,
}
use sba_g_rpc_5g.Messages.{message}
use sba_g_rpc_5g.Net.{SockAddr, Datagram}
use sba_g_rpc_5g.UnorderedMap.{nat_key}
use sba_g_rpc_5g.Rpc.{UdpPeer}
use sba_g_rpc_5g.Upf.State.{UeContext, Upf}
use sba_g_rpc_5g.Upf.Session.{handle_create_session, handle_modify_bearer, handle_detach}
use sba_g_rpc_5g.Upf.Server.{s11_round, handle_s11}

-- What a round answers.
answer_of : Result (Packet × Upf × Option Datagram) → Option Bytes
answer_of (ok (pkt, u, some out)) = some out.bytes
answer_of (ok (pkt, u, none)) = none
answer_of (fault e) = none

-- The user plane function as a peer, in the state `u`, with the packet of its loop.
unfoldable pub upf_peer : UeContext → UeContext → SockAddr → Packet → Upf → UdpPeer
unfolding answer_of
upf_peer ho_raw raw src pkt u out = answer_of (s11_round ho_raw raw src out.bytes pkt u)

pub upf_peer-s11_round :
    (ho_raw raw : UeContext) (src dst : SockAddr) (bytes : Bytes) (pkt pkt' : Packet) (u u' : Upf)
    (out : Datagram)
    → s11_round ho_raw raw src bytes pkt u ≡ ok (pkt', u', some out)
    → upf_peer ho_raw raw src pkt u (record { to = dst; bytes = bytes }) ≡ some out.bytes
unfolding upf_peer answer_of
upf_peer-s11_round ho_raw raw src dst bytes pkt pkt' u u' out e = ap answer_of e

module _ (ho_raw raw : UeContext) (src : SockAddr) (pkt : Packet) (u : Upf) (msg_type teid : ℕ)
    (h : Gtp) (body : Bytes) (r : IsGtp h) (small : msg_type < 2 ^ 8) (ht : teid < 2 ^ 32)
    (short : 16 + length body ≤ buf_size) where
  abbrev pub round_hdr : Gtp
  round_hdr = control_hdr msg_type (length body % 2 ^ 16) teid h

  -- The packet of the loop, with its header read.
  abbrev pub round_pkt : Packet
  round_pkt = view (record pkt { gtp_hdr = round_hdr }) (gtp_bytes round_hdr) body

  type_read : round_pkt.gtp_hdr.msg_type ≡ msg_type
  unfolding control_hdr
  type_read =
      ap (λ (g : Gtp). g.msg_type)
        (gtp_hdr-view (record pkt { gtp_hdr = round_hdr }) (gtp_bytes round_hdr) body)

  copied : copy round_pkt ≡ ok round_pkt
  copied =
      copy-view (record pkt { gtp_hdr = round_hdr }) (gtp_bytes round_hdr) body
        (omega (arith, length-gtp_bytes round_hdr))

  message_round :
      s11_round ho_raw raw src (message msg_type teid h body) pkt u
      ≡ (handle_s11 ho_raw raw src round_pkt u >>= λ x. ok (round_pkt, x.0, x.1))
  unfolding s11_round message
  message_round = rw (
    received-view (gtp_bytes round_hdr ++ body) pkt
        (omega (arith, length-append (gtp_bytes round_hdr) body, length-gtp_bytes round_hdr)),
    extract_gtp_hdr-view round_hdr pkt [] body
        (control_hdr-IsGtp msg_type (length body % 2 ^ 16) teid h r small (omega arith) ht),
  )

  module _ (u' : Upf) (out : Datagram) where
    pub s11_round-create :
        msg_type ≡ 1
        → handle_create_session raw src round_pkt u ≡ ok (u', out)
        → s11_round ho_raw raw src (message msg_type teid h body) pkt u
          ≡ ok (round_pkt, u', some out)
    unfolding handle_s11
    s11_round-create one e = message_round ∙ rw (copied, e, type_read, one)

    pub s11_round-modify :
        msg_type ≡ 2
        → handle_modify_bearer raw src round_pkt u ≡ ok (u', out)
        → s11_round ho_raw raw src (message msg_type teid h body) pkt u
          ≡ ok (round_pkt, u', some out)
    unfolding handle_s11
    s11_round-modify two e = message_round ∙ rw (copied, e, type_read, two)

    pub s11_round-detach :
        msg_type ≡ 3
        → handle_detach src round_pkt u ≡ ok (u', out)
        → s11_round ho_raw raw src (message msg_type teid h body) pkt u
          ≡ ok (round_pkt, u', some out)
    unfolding handle_s11
    s11_round-detach three e = message_round ∙ rw (copied, e, type_read, three)
