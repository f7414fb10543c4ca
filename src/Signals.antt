-- ===== src/Signals.antt =====
-- Messages between the base station and the AMF: an S1AP header and a body in a frame of the SCTP
-- connection, from the sender's packet to the receiver's (src/packet.cpp, src/network.cpp).
pub mod Protected
use sba_g_rpc_5g.Base.{
  ℕ, ◌+◌, ◌%◌, ◌^◌, ◌≤◌, ◌<◌, ◌≡◌, refl, sym, ap, ◌∙◌, [], ◌∷◌, ◌++◌, length, take, drop, arith,
  append-nil, append_assoc, length-append, take-append, drop-append,
}
use sba_g_rpc_5g.Result.{Result, ok, ◌>>=◌}
use sba_g_rpc_5g.Bytes.{Bytes, encode}
use sba_g_rpc_5g.Packet.{
  Packet, S1ap, s1ap_init, s1ap_bytes, prepend_s1ap_hdr, extract_s1ap_hdr, buf_size,
}
use sba_g_rpc_5g.Packet.View.{view}
use sba_g_rpc_5g.Packet.Transport.{
  IsS1ap, prepend_s1ap_hdr-view, extract_s1ap_hdr-view, length-s1ap_bytes,
}
use sba_g_rpc_5g.Sctp.{Peer, Segment, send, got, read_sctp_pkt}
use sba_g_rpc_5g.Sctp.Framing.{Delivers, last, write_sctp_pkt-view, read_sctp_pkt-Delivers}

-- A message: the header, with the length of the body, and the body.
unfoldable pub signal_hdr : ℕ → ℕ → ℕ → S1ap → Bytes → S1ap
signal_hdr msg_type enodeb_s1ap_ue_id mme_s1ap_ue_id h body =
    s1ap_init msg_type (length body % 2 ^ 16) enodeb_s1ap_ue_id mme_s1ap_ue_id h

unfoldable pub signal : ℕ → ℕ → ℕ → S1ap → Bytes → Bytes
unfolding signal_hdr
signal msg_type enodeb_s1ap_ue_id mme_s1ap_ue_id h body =
    s1ap_bytes (signal_hdr msg_type enodeb_s1ap_ue_id mme_s1ap_ue_id h body) ++ body

-- What is written for a message.
unfoldable pub frame : Bytes → Bytes
frame bytes = encode 4 (length bytes) ++ bytes

frame-append : (xs ys : Bytes) → (encode 4 (length xs + length ys) ++ xs) ++ ys ≡ frame (xs ++ ys)
unfolding frame
frame-append xs ys = ap (λ n. (encode 4 n ++ xs) ++ ys) (sym (length-append xs ys))

pub len-view_both :
    (q : Packet) (used rest : Bytes) → (view q used rest).len ≡ length (used ++ rest)
unfolding view
len-view_both q used rest = sym (length-append used rest)

pub length-signal :
    (msg_type e m : ℕ) (h : S1ap) (body : Bytes)
    → length (signal msg_type e m h body) ≡ 12 + length body
unfolding signal signal_hdr
length-signal msg_type e m h body =
    let g = s1ap_init msg_type (length body % 2 ^ 16) e m h in
    omega (arith, length-append (s1ap_bytes g) body, length-s1ap_bytes g)

-- The header in front of what a packet holds.
pub prepend_signal :
    (msg_type e m : ℕ) (q : Packet) (used rest : Bytes)
    → 12 + length used + length rest ≤ buf_size
    → let g = signal_hdr msg_type e m q.s1ap_hdr (used ++ rest) in
      prepend_s1ap_hdr msg_type (view q used rest).len e m (view q used rest)
      ≡ ok (view (record q { s1ap_hdr = g }) (s1ap_bytes g ++ used) rest)
unfolding signal_hdr
prepend_signal msg_type e m q used rest h =
    ap (λ n. prepend_s1ap_hdr msg_type n e m (view q used rest)) (len-view_both q used rest)
    ∙ prepend_s1ap_hdr-view msg_type (length (used ++ rest)) e m q used rest h

-- A packet with a header is sent as a frame.
pub send_headed :
    (peer : Peer) (msg_type e m : ℕ) (h : S1ap) (q : Packet) (used rest : Bytes)
    → 16 + length used + length rest ≤ buf_size
    → let g = signal_hdr msg_type e m h (used ++ rest) in
      send peer (view (record q { s1ap_hdr = g }) (s1ap_bytes g ++ used) rest)
      ≡ ok (record { to = peer; bytes = frame (signal msg_type e m h (used ++ rest)) })
unfolding send signal frame
send_headed peer msg_type e m h q used rest k =
    let g = signal_hdr msg_type e m h (used ++ rest) in
    rw
      (write_sctp_pkt-view (record q { s1ap_hdr = g }) (s1ap_bytes g ++ used) rest
        (omega (arith, length-append (s1ap_bytes g) used, length-s1ap_bytes g)))
      (ap (λ bs. ok (record { to = peer; bytes = bs }))
        (frame-append (s1ap_bytes g ++ used) rest
          ∙ ap frame (append_assoc (s1ap_bytes g) used rest)))

-- A handler that has filled a packet sends its content behind a header.
pub send-signal :
    (peer : Peer) (msg_type e m : ℕ) (q : Packet) (used rest : Bytes)
    → 16 + length used + length rest ≤ buf_size
    → (prepend_s1ap_hdr msg_type (view q used rest).len e m (view q used rest) >>= send peer)
      ≡ ok (record { to = peer; bytes = frame (signal msg_type e m q.s1ap_hdr (used ++ rest)) })
send-signal peer msg_type e m q used rest h =
    rw (prepend_signal msg_type e m q used rest (omega arith))
      (send_headed peer msg_type e m q.s1ap_hdr q used rest h)

-- A connection that delivers what was written in two pieces; any others give the same packet
-- (Sctp.Framing).
unfoldable pub deliver : Segment → Packet → Result Packet
deliver segment p = do
  (p', calls) ← read_sctp_pkt (got (take 4 segment.bytes) ∷ got (drop 4 segment.bytes) ∷ []) p
  ok p'

pub deliver-frame :
    (peer : Peer) (bytes : Bytes) (p : Packet)
    → 0 < length bytes
    → length bytes ≤ buf_size
    → deliver (record { to = peer; bytes = frame bytes }) p ≡ ok (view p [] bytes)
unfolding deliver frame
deliver-frame peer bytes p a h =
    let head = encode 4 (length bytes) in
    rw (take-append 4 head bytes refl, drop-append 4 head bytes refl)
      (rw (
        read_sctp_pkt-Delivers p bytes (got head ∷ []) (got bytes ∷ []) [] a h
          (last head (omega arith)) (last bytes a)))

-- What a receiver finds: the header that was sent, and the body, unread.
pub read_signal :
    (msg_type e m : ℕ) (h : S1ap) (body : Bytes) (p : Packet)
    → IsS1ap (signal_hdr msg_type e m h body)
    → extract_s1ap_hdr (view p [] (signal msg_type e m h body))
      ≡ ok (
          view
            (record p { s1ap_hdr = signal_hdr msg_type e m h body })
            (s1ap_bytes (signal_hdr msg_type e m h body))
            body)
unfolding signal
read_signal msg_type e m h body p r =
    extract_s1ap_hdr-view (signal_hdr msg_type e m h body) p [] body r
