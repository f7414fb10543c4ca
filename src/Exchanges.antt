-- ===== src/Exchanges.antt =====
-- A request over UDP and its answer: what the packet of a client holds after `snd` and `rcv`
-- (src/udp_client.cpp), in the two cases that something arrives and that nothing does.
use sba_g_rpc_5g.Base.{
  ℕ, ◌+◌, ◌%◌, ◌^◌, ◌≤◌, ◌<◌, ◌≡◌, refl, sym, ap, ◌∙◌, none, some, [], ◌++◌, length, arith,
  append-nil, length-append, replicate,
}
use sba_g_rpc_5g.Result.{ok, ◌>>=◌, bind_assoc}
use sba_g_rpc_5g.Bytes.{Bytes}
use sba_g_rpc_5g.Packet.{
  Packet, Gtp, gtp_bytes, extract_bytes, peek, allocate, prepend_gtp_hdr, extract_gtp_hdr, buf_size,
  received_nothing,
}
use sba_g_rpc_5g.Packet.View.{view, len-view, view-view}
use sba_g_rpc_5g.Packet.Moves.{payload-view, received-view}
use sba_g_rpc_5g.Packet.Transport.{
  IsGtp, control_hdr, control_hdr-IsGtp, prepend_gtp_hdr-view, extract_gtp_hdr-view,
  length-gtp_bytes,
}
use sba_g_rpc_5g.Messages.{message}
use sba_g_rpc_5g.Net.{SockAddr, snd}
use sba_g_rpc_5g.Rpc.{UdpPeer, exchange, ask}

-- The packet that a request leaves behind, before the answer.
abbrev pub sent : ℕ → ℕ → Packet → Bytes → Packet
sent msg_type teid q body = record q {
  gtp_hdr = control_hdr msg_type (length body % 2 ^ 16) teid q.gtp_hdr;
}

module _ (peer : UdpPeer) (dst : SockAddr) (msg_type teid : ℕ) (q : Packet) (body : Bytes)
    (small : 16 + length body ≤ buf_size) where
  pub exchange-answered :
      (answer : Bytes)
      → length answer ≤ buf_size
      → peer (record { to = dst; bytes = message msg_type teid q.gtp_hdr body }) ≡ some answer
      → (prepend_gtp_hdr 2 msg_type (view q body []).len teid (view q body [])
          >>= exchange peer dst)
        ≡ ok (view (sent msg_type teid q body) [] answer)
  unfolding exchange snd message
  exchange-answered answer short e =
      let g = control_hdr msg_type (length body % 2 ^ 16) teid q.gtp_hdr in
      ap (λ n. prepend_gtp_hdr 2 msg_type n teid (view q body []) >>= exchange peer dst)
        (len-view q body)
      ∙ rw
          (
            prepend_gtp_hdr-view msg_type (length body) teid q body small,
            payload-view (record q { gtp_hdr = g }) (gtp_bytes g ++ body) []
                (omega (arith, length-append (gtp_bytes g) body, length-gtp_bytes g)),
            append-nil (gtp_bytes g ++ body),
            e,
            received-view answer (view (record q { gtp_hdr = g }) (gtp_bytes g ++ body) []) short,
          )
          (ap ok (view-view (record q { gtp_hdr = g }) (gtp_bytes g ++ body) [] [] answer))

  -- A control message in answer: its header is read, and its body is there to be.
  pub ask-answered :
      (answer_type answer_teid : ℕ) (h : Gtp) (answer : Bytes)
      → IsGtp h
      → answer_type < 2 ^ 8
      → answer_teid < 2 ^ 32
      → 16 + length answer ≤ buf_size
      → peer (record { to = dst; bytes = message msg_type teid q.gtp_hdr body })
        ≡ some (message answer_type answer_teid h answer)
      → let g = control_hdr answer_type (length answer % 2 ^ 16) answer_teid h in
        ask peer dst msg_type teid (view q body [])
        ≡ ok (view (record q { gtp_hdr = g }) (gtp_bytes g) answer)
  unfolding ask message
  ask-answered answer_type answer_teid h answer r tr er short e =
      let g = control_hdr answer_type (length answer % 2 ^ 16) answer_teid h in
      sym (
        bind_assoc (prepend_gtp_hdr 2 msg_type (view q body []).len teid (view q body []))
          (exchange peer dst) extract_gtp_hdr)
      ∙ (ap (λ m. m >>= extract_gtp_hdr)
            (exchange-answered (gtp_bytes g ++ answer)
              (omega (arith, length-append (gtp_bytes g) answer, length-gtp_bytes g)) e)
          ∙ extract_gtp_hdr-view g (sent msg_type teid q body) [] answer (
              control_hdr-IsGtp answer_type (length answer % 2 ^ 16) answer_teid h r tr
                (omega arith) er))

  -- Nothing in answer.
  pub ask-silent :
      peer (record { to = dst; bytes = message msg_type teid q.gtp_hdr body }) ≡ none
      → ask peer dst msg_type teid (view q body []) ≡ extract_gtp_hdr (received_nothing q)
  unfolding ask exchange snd message extract_gtp_hdr received_nothing extract_bytes peek allocate
      view replicate
  ask-silent e =
      let g = control_hdr msg_type (length body % 2 ^ 16) teid q.gtp_hdr in
      ap
        (λ n. prepend_gtp_hdr 2 msg_type n teid (view q body []) >>= λ p.
          exchange peer dst p >>= extract_gtp_hdr)
        (len-view q body)
      ∙ rw
          (
            prepend_gtp_hdr-view msg_type (length body) teid q body small,
            payload-view (record q { gtp_hdr = g }) (gtp_bytes g ++ body) []
                (omega (arith, length-append (gtp_bytes g) body, length-gtp_bytes g)),
            append-nil (gtp_bytes g ++ body),
            e,
          )
          refl
