-- ===== src/Sctp/Framing.antt =====
-- The framing of packets on an SCTP connection: however the stream is cut into reads, the packet that
-- was written is read (src/network.cpp).
use sba_g_rpc_5g.Base.{
  ℕ, ◌+◌, ◌-◌, ◌^◌, ◌≤◌, ◌<◌, ◌≡◌, refl, sym, ap, ◌∙◌, true, false, ◌||◌, leb, List, [], ◌∷◌, ◌++◌,
  length, arith, ◌==◌, append_assoc, length-append,
}
use sba_g_rpc_5g.Result.{ok}
use sba_g_rpc_5g.Bytes.{Bytes, encode, decode-encode}
use sba_g_rpc_5g.Packet.{Packet, buf_size, prepend_len, clear_pkt}
use sba_g_rpc_5g.Packet.View.{view, buffer, poke-buffer, allocate-buffer}
use sba_g_rpc_5g.Packet.Moves.{copy-view, prepend_bytes-view, peek_all}
use sba_g_rpc_5g.Sctp.{
  Read, got, read_loop, read_stream, read_packet, read_sctp_pkt, write_sctp_pkt,
}

-- The calls deliver the bytes in pieces of at least one byte.
pub data Delivers : Bytes → List Read → Type 0 where
  last : (xs : Bytes) → 0 < length xs → Delivers xs (got xs ∷ [])
  more :
      (xs ys : Bytes) (calls : List Read)
      → 0 < length xs
      → 0 < length ys
      → Delivers ys calls
      → Delivers (xs ++ ys) (got xs ∷ calls)

nothing_left : (n : ℕ) → (n - n == 0) ≡ true
nothing_left n = ground arith

some_left : (n : ℕ) → 0 < n → (n == 0) ≡ false
some_left n h = ground arith

ordinary : (n : ℕ) → 0 < n → n < 2 ^ 31 → (n == 0 || leb (2 ^ 31) n) ≡ false
ordinary n a b = ground arith

pub read_loop-Delivers :
    (len : ℕ) (before bytes : Bytes) (calls after : List Read)
    → Delivers bytes calls
    → length before + length bytes ≤ buf_size
    → read_loop len (length before) (length bytes) (buffer before) (calls ++ after)
      ≡ ok (len, buffer (before ++ bytes), after)
unfolding read_loop
read_loop-Delivers len before bytes calls after (last xs some_bytes) h =
    rw (poke-buffer (length before) before xs refl h, nothing_left (length xs))
read_loop-Delivers len before bytes calls after (more xs ys rest a b d) h =
    let left : length (xs ++ ys) - length xs ≡ length ys = omega (arith, length-append xs ys) in
    rw
      (
        poke-buffer (length before) before xs refl (omega (arith, length-append xs ys)),
        left,
        some_left (length ys) b,
      )
      (ap (λ n. read_loop len n (length ys) (buffer (before ++ xs)) (rest ++ after))
          (sym (length-append before xs))
        ∙ (read_loop-Delivers len (before ++ xs) ys rest after d
              (omega (arith, length-append xs ys, length-append before xs))
            ∙ ap (λ bs. ok (len, buffer bs, after)) (append_assoc before xs ys)))

read_stream-Delivers :
    (bytes : Bytes) (calls after : List Read)
    → Delivers bytes calls
    → 0 < length bytes
    → length bytes ≤ buf_size
    → read_stream (length bytes) (buffer []) (calls ++ after)
      ≡ ok (length bytes, buffer bytes, after)
unfolding read_stream
read_stream-Delivers bytes calls after d a h =
    rw (ordinary (length bytes) a (omega arith))
      (read_loop-Delivers (length bytes) [] bytes calls after d (omega arith))

pub write_sctp_pkt-view :
    (q : Packet) (used rest : Bytes)
    → 4 + length used + length rest ≤ buf_size
    → write_sctp_pkt (view q used rest)
      ≡ ok ((encode 4 (length used + length rest) ++ used) ++ rest)
unfolding write_sctp_pkt prepend_len view
write_sctp_pkt-view q used rest h =
    rw
      (
        copy-view q used rest (omega arith),
        prepend_bytes-view q used rest (encode 4 (length used + length rest)) h,
      )
      (peek_all (length (encode 4 (length used + length rest) ++ used) + length rest)
        ((encode 4 (length used + length rest) ++ used) ++ rest)
        (omega (arith, length-append used rest)))

pub read_packet-Delivers :
    (p : Packet) (bytes : Bytes) (calls1 calls2 after : List Read)
    → 0 < length bytes
    → length bytes ≤ buf_size
    → Delivers (encode 4 (length bytes)) calls1
    → Delivers bytes calls2
    → read_packet (calls1 ++ (calls2 ++ after)) p ≡ ok (length bytes, view p [] bytes, after)
unfolding read_packet clear_pkt view
read_packet-Delivers p bytes calls1 calls2 after a h d1 d2 =
    let head = encode 4 (length bytes) in
    rw
      (
        allocate-buffer,
        read_stream-Delivers head calls1 (calls2 ++ after) d1 (omega arith) (omega arith),
        peek_all 4 head refl,
        decode-encode 4 (length bytes) (omega arith),
        read_stream-Delivers bytes calls2 after d2 a h,
      )
      (ground arith)

pub read_sctp_pkt-Delivers :
    (p : Packet) (bytes : Bytes) (calls1 calls2 after : List Read)
    → 0 < length bytes
    → length bytes ≤ buf_size
    → Delivers (encode 4 (length bytes)) calls1
    → Delivers bytes calls2
    → read_sctp_pkt (calls1 ++ (calls2 ++ after)) p ≡ ok (view p [] bytes, after)
unfolding read_sctp_pkt
read_sctp_pkt-Delivers p bytes calls1 calls2 after a h d1 d2 =
    rw (read_packet-Delivers p bytes calls1 calls2 after a h d1 d2) refl

-- A packet that is written to a connection is read from it: whatever pieces of at least one byte the
-- reads deliver its length and its content in, the reader has the content, unread, and the calls
-- that follow are left.
pub read_sctp_pkt-write_sctp_pkt :
    (q p : Packet) (used rest : Bytes) (calls1 calls2 after : List Read)
    → 0 < length (used ++ rest)
    → 4 + length (used ++ rest) ≤ buf_size
    → Delivers (encode 4 (length (used ++ rest))) calls1
    → Delivers (used ++ rest) calls2
    → (write_sctp_pkt (view q used rest) ≡ ok (encode 4 (length (used ++ rest)) ++ (used ++ rest)))
      × (read_sctp_pkt (calls1 ++ (calls2 ++ after)) p ≡ ok (view p [] (used ++ rest), after))
read_sctp_pkt-write_sctp_pkt q p used rest calls1 calls2 after a h d1 d2 =
    let n : length (used ++ rest) ≡ length used + length rest = length-append used rest in
    (
      write_sctp_pkt-view q used rest (omega (arith, n))
          ∙ (ap ok (append_assoc (encode 4 (length used + length rest)) used rest)
              ∙ ap (λ k. ok (encode 4 k ++ (used ++ rest))) (sym n)),
      read_sctp_pkt-Delivers p (used ++ rest) calls1 calls2 after a (omega arith) d1 d2,
    )
