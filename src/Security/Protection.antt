-- ===== src/Security/Protection.antt =====
-- Protected messages: what a receiver accepts and what it reads (src/security.cpp).
use sba_g_rpc_5g.Base.{
  ◌+◌, ◌≤◌, ◌≡◌, ◌↔◌, refl, sym, ap, ◌∙◌, Bool, true, some, [], ◌∷◌, ◌++◌, length, arith,
  append-nil, length-append,
}
use sba_g_rpc_5g.Result.{ok, ◌>>=◌}
use sba_g_rpc_5g.Bytes.{Bytes}
use sba_g_rpc_5g.Packet.{Packet, buf_size, peek, poke, allocate}
use sba_g_rpc_5g.Packet.View.{view, extract_bytes-view}
use sba_g_rpc_5g.Packet.Moves.{poke-allocate, peek_all, prepend_bytes-view, truncate-view}
use sba_g_rpc_5g.Security.{
  Openssl, IsOpenssl, hmac_len, or_exit, enc, dec, get_hmac, add_hmac, rem_hmac, cmp_hmacs,
  hmac_check,
}

pub cmp_hmacs_iff :
    (ssl : Openssl) (xs ys : Bytes)
    → length xs ≡ length ys
    → (cmp_hmacs ssl xs ys ≡ true) ↔ (xs ≡ ys)
unfolding cmp_hmacs
cmp_hmacs_iff ssl [] [] e = ground arith
cmp_hmacs_iff ssl [] (y ∷ ys) e = absurd (omega arith)
cmp_hmacs_iff ssl (x ∷ xs) [] e = absurd (omega arith)
cmp_hmacs_iff ssl (x ∷ xs) (y ∷ ys) e = ground (arith, cmp_hmacs_iff ssl xs ys (omega arith))

module _ (ssl : Openssl) (w : IsOpenssl ssl) (q : Packet) where
  pub get_hmac-view :
      (used rest : Bytes)
      → length used + length rest ≤ buf_size
      → get_hmac ssl (view q used rest) ≡ ok (ssl.hmac (used ++ rest))
  unfolding get_hmac view
  get_hmac-view used rest h =
      rw (
        peek_all (length used + length rest) (used ++ rest)
          (omega (arith, length-append used rest)))

  pub add_hmac-view :
      (rest : Bytes)
      → 20 + length rest ≤ buf_size
      → add_hmac ssl (view q [] rest) ≡ ok (view q (ssl.hmac rest) rest)
  unfolding add_hmac
  add_hmac-view rest h = rw (
    get_hmac-view [] rest (omega arith),
    prepend_bytes-view q [] rest (ssl.hmac rest) (omega (arith, w.length-hmac rest)),
    append-nil (ssl.hmac rest),
  )

  -- A message of a code of 20 bytes and a content, in a packet that fits the buffer, is accepted
  -- exactly when the code is that of the content; the packet that is left holds the content alone,
  -- unread.
  pub hmac_check-accepts :
      (used hmac content : Bytes)
      → length hmac ≡ hmac_len
      → length used + 20 + length content ≤ buf_size
      → (res : Bool) × (hmac_check ssl (view q used (hmac ++ content))
          ≡ ok (res, view q [] content))
        × ((res ≡ true) ↔ (hmac ≡ ssl.hmac content))
  unfolding hmac_check rem_hmac
  hmac_check-accepts used hmac content e h =
      let same = cmp_hmacs_iff ssl (ssl.hmac content) hmac (w.length-hmac content ∙ sym e) in
      (
        cmp_hmacs ssl (ssl.hmac content) hmac,
        rw (
          extract_bytes-view 20 q used hmac content (sym e),
          truncate-view q (used ++ hmac) content (omega (arith, length-append used hmac)),
          get_hmac-view [] content (omega arith),
        ),
        ((λ x. sym (same.0 x)), (λ x. same.1 (sym x))),
      )

  pub enc-view :
      (used cipher : Bytes)
      → length used ≤ buf_size
      → length cipher ≤ buf_size
      → ssl.encrypt used ≡ some cipher
      → enc ssl (view q used []) ≡ ok (view q [] cipher)
  unfolding enc or_exit view
  enc-view used cipher h k e =
      rw (append-nil used, peek_all (length used + 0) used (omega arith), e, poke-allocate cipher k)
        (ground arith)

  dec_start :
      (cipher plain : Bytes)
      → length cipher ≤ buf_size
      → length plain ≤ buf_size
      → ssl.decrypt cipher ≡ some plain
      → (peek 0 (view q [] cipher).len (view q [] cipher).data_ >>= λ cipher_text.
          or_exit (ssl.decrypt cipher_text) >>= λ plain_text.
          poke 0 plain_text allocate >>= λ tem_data.
          ok
            (record (view q [] cipher) { data_ = tem_data; data_ptr = 0; len = length plain_text }))
        ≡ ok (view q [] plain)
  unfolding or_exit view
  dec_start cipher plain h k e =
      rw (peek_all (0 + length cipher) cipher (omega arith), e, poke-allocate plain k)
        (ground arith)

  pub dec-view :
      (used cipher plain : Bytes)
      → length used + length cipher ≤ buf_size
      → length plain ≤ buf_size
      → ssl.decrypt cipher ≡ some plain
      → dec ssl (view q used cipher) ≡ ok (view q [] plain)
  unfolding dec or_exit
  dec-view used cipher plain h k e =
      rw (truncate-view q used cipher h) (dec_start cipher plain (omega arith) k e)

  -- A content that fits the buffer with its header, padding and code, when it is encrypted and given
  -- a code, is accepted by the receiver, whatever header was read before, and decrypts to the
  -- content.
  pub dec-enc :
      (content used : Bytes)
      → length used + 36 + length content ≤ buf_size
      → (cipher : Bytes) × ((enc ssl (view q content []) >>= add_hmac ssl)
          ≡ ok (view q (ssl.hmac cipher) cipher))
        × (hmac_check ssl (view q used (ssl.hmac cipher ++ cipher)) ≡ ok (true, view q [] cipher))
        × (dec ssl (view q [] cipher) ≡ ok (view q [] content))
  dec-enc content used h =
      let r = w.decrypt-encrypt content in
      let check =
        hmac_check-accepts used (ssl.hmac r.0) r.0 (w.length-hmac r.0) (omega (arith, r.3)) in
      (
        r.0,
        rw (enc-view content r.0 (omega arith) (omega (arith, r.3)) r.1)
            (add_hmac-view r.0 (omega (arith, r.3))),
        check.1 ∙ ap (λ b. ok (b, view q [] r.0)) (check.2.1 refl),
        dec-view [] r.0 content (omega (arith, r.3)) (omega arith) r.2,
      )
