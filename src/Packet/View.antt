-- ===== src/Packet/View.antt =====
-- A packet seen as the bytes that were read and the bytes that are still to be read. The
-- operations of the class are equations between such views.
use sba_g_rpc_5g.Base.{
  ℕ, ◌+◌, ◌-◌, ◌≤◌, ◌≡◌, refl, sym, ap, ◌∙◌, [], ◌++◌, length, take, drop, replicate, arith,
  length-append, length-replicate, take-append, drop-append, drop-append_add, drop-replicate,
  append_assoc, append-nil, le→leb,
}
use sba_g_rpc_5g.Result.{ok}
use sba_g_rpc_5g.Bytes.{Bytes}
use sba_g_rpc_5g.Packet.Buffer.{Packet, buf_size, poke, peek, allocate}
use sba_g_rpc_5g.Packet.Append.{append_bytes}
use sba_g_rpc_5g.Packet.Extract.{extract_bytes}

abbrev pub zeros : ℕ → Bytes
zeros n = replicate n 0

length-zeros : (n : ℕ) → length (zeros n) ≡ n
length-zeros n = length-replicate {A = ℕ} n 0

drop-zeros : (k n : ℕ) → k ≤ n → drop k (zeros n) ≡ zeros (n - k)
drop-zeros k n h = drop-replicate {A = ℕ} k n 0 h

-- Some content in a cleared buffer.
unfoldable pub buffer : Bytes → Bytes
buffer bs = bs ++ zeros (buf_size - length bs)

-- The headers are those of `q`.
unfoldable pub view : Packet → Bytes → Bytes → Packet
view q used rest = record q {
  data_ = buffer (used ++ rest);
  data_ptr = length used;
  len = length used + length rest;
}

pub length-buffer : (bs : Bytes) → length bs ≤ buf_size → length (buffer bs) ≡ buf_size
unfolding buffer
length-buffer bs h =
    omega
      (arith, length-append bs (zeros (buf_size - length bs)), length-zeros (buf_size - length bs))

pub length-le-buffer : (bs : Bytes) → length bs ≤ length (buffer bs)
unfolding buffer
length-le-buffer bs = omega (arith, length-append bs (zeros (buf_size - length bs)))

poke_lem :
    (at : ℕ) (xs buf : Bytes)
    → at + length xs ≤ length buf
    → poke at xs buf ≡ ok (take at buf ++ (xs ++ drop (at + length xs) buf))
unfolding poke
poke_lem at xs buf h = rw (le→leb _ _ h)

pub peek_lem :
    (at n : ℕ) (buf : Bytes) → at + n ≤ length buf → peek at n buf ≡ ok (take n (drop at buf))
unfolding peek
peek_lem at n buf h = rw (le→leb _ _ h)

pub allocate-buffer : allocate ≡ buffer []
unfolding allocate buffer
allocate-buffer = refl

-- Bytes written just behind the content extend it.
pub poke-buffer :
    (at : ℕ) (used xs : Bytes)
    → at ≡ length used
    → length used + length xs ≤ buf_size
    → poke at xs (buffer used) ≡ ok (buffer (used ++ xs))
unfolding buffer
poke-buffer at used xs e h =
    let gap = buf_size - length used in
    let tail = zeros gap in
    poke_lem at xs (used ++ tail) (omega (arith, length-append used tail, length-zeros gap))
    ∙ rw
        (
          take-append at used tail e,
          drop-append_add (at + length xs) (length xs) used tail (omega arith),
          drop-zeros (length xs) gap (omega arith),
        )
        (ap ok (
          sym (append_assoc used xs (zeros (gap - length xs)))
          ∙ ap (λ n. (used ++ xs) ++ zeros n) (omega (arith, length-append used xs))))

-- Bytes of the content are read as they are.
pub peek-buffer :
    (at n : ℕ) (used xs rest : Bytes)
    → at ≡ length used
    → n ≡ length xs
    → peek at n (buffer (used ++ (xs ++ rest))) ≡ ok xs
unfolding buffer
peek-buffer at n used xs rest e f =
    let tail = zeros (buf_size - length (used ++ (xs ++ rest))) in
    rw (append_assoc used (xs ++ rest) tail) (
      peek_lem at n (used ++ ((xs ++ rest) ++ tail)) (
        omega (
          arith,
          length-append used ((xs ++ rest) ++ tail),
          length-append (xs ++ rest) tail,
          length-append xs rest,
        ))
      ∙ rw (drop-append at used ((xs ++ rest) ++ tail) e, append_assoc xs rest tail)
          (ap ok (take-append n xs (rest ++ tail) f)))

pub extract_bytes-view :
    (n : ℕ) (q : Packet) (used xs rest : Bytes)
    → n ≡ length xs
    → extract_bytes n (view q used (xs ++ rest)) ≡ ok (xs, view q (used ++ xs) rest)
unfolding extract_bytes view
extract_bytes-view n q used xs rest e =
    rw (peek-buffer (length used) n used xs rest refl e)
      (ground (arith, append_assoc used xs rest, length-append used xs, length-append xs rest))

pub append_bytes-view :
    (q : Packet) (used xs : Bytes)
    → length used + length xs ≤ buf_size
    → append_bytes xs (view q used []) ≡ ok (view q (used ++ xs) [])
unfolding append_bytes view
append_bytes-view q used xs h =
    rw (append-nil used, poke-buffer (length used) used xs refl h)
      (ground (arith, length-append used xs, append-nil (used ++ xs)))

-- A packet that was only appended to is as long as what was appended.
pub len-view : (q : Packet) (used : Bytes) → (view q used []).len ≡ length used
unfolding view
len-view q used = omega arith

pub gtp_hdr-view : (q : Packet) (used rest : Bytes) → (view q used rest).gtp_hdr ≡ q.gtp_hdr
unfolding view
gtp_hdr-view q used rest = refl

pub s1ap_hdr-view : (q : Packet) (used rest : Bytes) → (view q used rest).s1ap_hdr ≡ q.s1ap_hdr
unfolding view
s1ap_hdr-view q used rest = refl

pub len-view_unread : (q : Packet) (rest : Bytes) → (view q [] rest).len ≡ length rest
unfolding view
len-view_unread q rest = omega arith

-- A view of a view is one of the packet below.
pub view-view :
    (q : Packet) (a b used rest : Bytes) → view (view q a b) used rest ≡ view q used rest
unfolding view
view-view q a b used rest = refl
