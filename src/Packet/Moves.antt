-- ===== src/Packet/Moves.antt =====
-- The operations that move a whole packet, on views: prepending, copying, truncating, sending and
-- receiving.
use sba_g_rpc_5g.Base.{
  ℕ, ◌+◌, ◌≤◌, ◌≡◌, refl, [], ◌++◌, length, arith, length-append, append-nil, append_assoc,
}
use sba_g_rpc_5g.Result.{ok}
use sba_g_rpc_5g.Bytes.{Bytes}
use sba_g_rpc_5g.Packet.Buffer.{
  Packet, buf_size, sub_int, poke, peek, allocate, copy, truncate, clear_pkt, payload, received,
}
use sba_g_rpc_5g.Packet.Append.{prepend_bytes}
use sba_g_rpc_5g.Packet.View.{view, buffer, allocate-buffer, poke-buffer, peek-buffer}

-- Filling fresh memory from its start.
pub poke-allocate : (xs : Bytes) → length xs ≤ buf_size → poke 0 xs allocate ≡ ok (buffer xs)
poke-allocate xs h = rw allocate-buffer (poke-buffer 0 [] xs refl (omega arith))

-- The whole content, read from the start.
pub peek_all : (n : ℕ) (xs : Bytes) → n ≡ length xs → peek 0 n (buffer xs) ≡ ok xs
peek_all n xs e = rw (append-nil xs) at (peek-buffer 0 n [] xs [] refl e)

pub prepend_bytes-view :
    (q : Packet) (used rest xs : Bytes)
    → length xs + length used + length rest ≤ buf_size
    → prepend_bytes xs (view q used rest) ≡ ok (view q (xs ++ used) rest)
unfolding prepend_bytes view
prepend_bytes-view q used rest xs h =
    let n : length used + length rest ≡ length (used ++ rest) =
      omega (arith, length-append used rest) in
    rw
      (
        poke-allocate xs (omega arith),
        peek_all (length used + length rest) (used ++ rest) n,
        poke-buffer (length xs) xs (used ++ rest) refl (omega arith),
        append_assoc xs used rest,
      )
      (ground (arith, length-append xs used))

pub clear_pkt-view : (p : Packet) → clear_pkt p ≡ view p [] []
unfolding clear_pkt view
clear_pkt-view p = rw allocate-buffer

pub received-view :
    (bytes : Bytes) (p : Packet) → length bytes ≤ buf_size → received bytes p ≡ ok (view p [] bytes)
unfolding received view
received-view bytes p h = rw (poke-allocate bytes h) (ground arith)

pub copy-view :
    (q : Packet) (used rest : Bytes)
    → length used + length rest ≤ buf_size
    → copy (view q used rest) ≡ ok (view q used rest)
unfolding copy view
copy-view q used rest h =
    let e : length used + length rest ≡ length (used ++ rest) =
      omega (arith, length-append used rest) in
    rw (
      peek_all (length used + length rest) (used ++ rest) e,
      poke-allocate (used ++ rest) (omega arith),
    )

pub payload-view :
    (q : Packet) (used rest : Bytes)
    → length used + length rest ≤ buf_size
    → payload (view q used rest) ≡ ok (used ++ rest)
unfolding payload view
payload-view q used rest h =
    rw (copy-view q used rest h)
      (peek_all (length used + length rest) (used ++ rest) (omega (arith, length-append used rest)))

pub truncate-view :
    (q : Packet) (used rest : Bytes)
    → length used + length rest ≤ buf_size
    → truncate (view q used rest) ≡ ok (view q [] rest)
unfolding truncate view
truncate-view q used rest h = rw (← append-nil rest) (
    rw
      (
        peek-buffer (length used) (sub_int (length used + length (rest ++ [])) (length used)) used
            rest [] refl (omega (arith, length-append rest [])),
        poke-allocate rest (omega arith),
      )
      (ground (arith, length-append rest [], append-nil rest)))
