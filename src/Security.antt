-- ===== src/Security.antt =====
-- Encryption and integrity of control messages (src/security.cpp, src/security.h). The two primitives
-- are OpenSSL's, under the constant keys of the source: the arguments `k_nas_enc` and `k_nas_int` of
-- the methods are not used by them.
pub mod Protection
use sba_g_rpc_5g.Base.{
  ℕ, ◌+◌, ◌≤◌, ◌≡◌, Bool, true, false, Option, none, some, [], ◌∷◌, length, ◌==◌, if◌then◌else◌,
}
use sba_g_rpc_5g.Result.{Result, ok, fault, exit_failure, ◌>>=◌, ◌>>◌, require}
use sba_g_rpc_5g.Bytes.{Bytes, AllBytes}
use sba_g_rpc_5g.Packet.{Packet, poke, peek, allocate, prepend_bytes, extract_bytes, truncate}

-- HMAC_LEN
abbrev pub hmac_len : ℕ
hmac_len = 20

-- AES-256-CBC and HMAC-SHA1 with the program's keys. An error of OpenSSL is `none`.
pub record Openssl : Type 0 where
  pub encrypt : Bytes → Option Bytes
  pub decrypt : Bytes → Option Bytes
  pub hmac : Bytes → Bytes

-- What the documentation says of them: a padded message is at most one block longer and decrypts
-- to itself, and a SHA1 code has 20 bytes.
pub record IsOpenssl (ssl : Openssl) : Type 0 where
  pub decrypt-encrypt :
      (plain : Bytes)
      → (cipher : Bytes) × (ssl.encrypt plain ≡ some cipher)
        × (ssl.decrypt cipher ≡ some plain)
        × (length cipher ≤ length plain + 16)
  pub length-hmac : (bytes : Bytes) → length (ssl.hmac bytes) ≡ hmac_len
  pub bytes-hmac : (bytes : Bytes) → AllBytes (ssl.hmac bytes)

-- handle_crypt_error ends the process.
unfoldable pub or_exit : Option Bytes → Result Bytes
or_exit none = fault exit_failure
or_exit (some bytes) = ok bytes

module _ (ssl : Openssl) where
  -- Crypt::enc, with Crypt::enc_data
  unfoldable pub enc : Packet → Result Packet
  unfolding or_exit
  enc pkt = do
    plain_text ← peek 0 pkt.len pkt.data_
    cipher_text ← or_exit (ssl.encrypt plain_text)
    tem_data ← poke 0 cipher_text allocate
    ok (record pkt { data_ = tem_data; data_ptr = 0; len = length cipher_text })

  -- Crypt::dec, with Crypt::dec_data
  unfoldable pub dec : Packet → Result Packet
  unfolding or_exit
  dec pkt = do
    p1 ← truncate pkt
    cipher_text ← peek 0 p1.len p1.data_
    plain_text ← or_exit (ssl.decrypt cipher_text)
    tem_data ← poke 0 plain_text allocate
    ok (record p1 { data_ = tem_data; data_ptr = 0; len = length plain_text })

  -- Integrity::get_hmac
  unfoldable pub get_hmac : Packet → Result Bytes
  get_hmac pkt = do bytes ← peek 0 pkt.len pkt.data_; ok (ssl.hmac bytes)

  -- Integrity::add_hmac
  unfoldable pub add_hmac : Packet → Result Packet
  add_hmac pkt = do hmac ← get_hmac pkt; prepend_bytes hmac pkt

  -- Integrity::rem_hmac
  unfoldable pub rem_hmac : Packet → Result (Bytes × Packet)
  rem_hmac pkt = do (hmac, p1) ← extract_bytes hmac_len pkt; p2 ← truncate p1; ok (hmac, p2)

  -- Integrity::cmp_hmacs, on two buffers of HMAC_LEN bytes
  unfoldable pub cmp_hmacs : Bytes → Bytes → Bool
  cmp_hmacs (x ∷ xs) (y ∷ ys) = let rest = cmp_hmacs xs ys in if x == y then rest else false
  cmp_hmacs _ _ = true

  -- Integrity::hmac_check
  unfoldable pub hmac_check : Packet → Result (Bool × Packet)
  hmac_check pkt = do
    (hmac_xres, p1) ← rem_hmac pkt
    hmac_res ← get_hmac p1
    ok (cmp_hmacs hmac_res hmac_xres, p1)

  -- How a protected message is opened on both sides: a wrong code ends the process.
  unfoldable pub open_message : Packet → Result Packet
  open_message pkt = do (res, p1) ← hmac_check pkt; require res exit_failure; dec p1
