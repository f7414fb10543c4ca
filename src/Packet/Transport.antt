-- ===== src/Packet/Transport.antt =====
-- The headers travel unchanged: what extract_gtp_hdr and extract_s1ap_hdr read is what the prepend
-- functions wrote.
use sba_g_rpc_5g.Base.{
  ℕ, ◌+◌, ◌%◌, ◌^◌, ◌≤◌, ◌<◌, ◌≡◌, refl, sym, ap, [], ◌++◌, length, arith, ltb, if◌then◌else◌,
}
use sba_g_rpc_5g.Result.{ok}
use sba_g_rpc_5g.Bytes.{Bytes}
use sba_g_rpc_5g.Packet.Headers.{
  Gtp, S1ap, gtp_init, s1ap_init, gtp_bytes, gtp_of_bytes, s1ap_bytes, s1ap_of_bytes,
}
use sba_g_rpc_5g.Packet.Buffer.{Packet, buf_size}
use sba_g_rpc_5g.Packet.Append.{prepend_gtp_hdr, prepend_s1ap_hdr}
use sba_g_rpc_5g.Packet.Extract.{extract_gtp_hdr, extract_s1ap_hdr}
use sba_g_rpc_5g.Packet.View.{view, extract_bytes-view}
use sba_g_rpc_5g.Packet.Moves.{prepend_bytes-view}

-- Every member is in the range of its type.
pub record IsGtp (h : Gtp) : Type 0 where
  pub flags : h.flags < 2 ^ 8
  pub pad_1 : h.pad_1 < 2 ^ 8
  pub msg_len : h.msg_len < 2 ^ 16
  pub field_1 : h.field_1 < 2 ^ 16
  pub field_2 : h.field_2 < 2 ^ 16
  pub field_3 : h.field_3 < 2 ^ 8
  pub msg_type : h.msg_type < 2 ^ 8
  pub pad_2 : h.pad_2 < 2 ^ 16
  pub teid : h.teid < 2 ^ 32

pub record IsS1ap (h : S1ap) : Type 0 where
  pub msg_len : h.msg_len < 2 ^ 16
  pub msg_type : h.msg_type < 2 ^ 8
  pub pad : h.pad < 2 ^ 8
  pub enodeb_s1ap_ue_id : h.enodeb_s1ap_ue_id < 2 ^ 32
  pub mme_s1ap_ue_id : h.mme_s1ap_ue_id < 2 ^ 32

pub gtp_of_bytes-gtp_bytes : (h : Gtp) → IsGtp h → gtp_of_bytes (gtp_bytes h) ≡ h
unfolding gtp_of_bytes gtp_bytes
gtp_of_bytes-gtp_bytes h r = ground arith

pub s1ap_of_bytes-s1ap_bytes : (h : S1ap) → IsS1ap h → s1ap_of_bytes (s1ap_bytes h) ≡ h
unfolding s1ap_of_bytes s1ap_bytes
s1ap_of_bytes-s1ap_bytes h r = ground arith

pub length-gtp_bytes : (h : Gtp) → length (gtp_bytes h) ≡ 16
unfolding gtp_bytes
length-gtp_bytes h = refl

pub length-s1ap_bytes : (h : S1ap) → length (s1ap_bytes h) ≡ 12
unfolding s1ap_bytes
length-s1ap_bytes h = refl

-- The header that Gtp::init leaves for control messages (protocol 2).
unfoldable pub control_hdr : ℕ → ℕ → ℕ → Gtp → Gtp
control_hdr msg_type msg_len teid h = record h {
  msg_type = msg_type;
  msg_len = msg_len;
  teid = teid;
  flags = if ltb 0 teid then 72 else 64;
}

-- For user data (protocol 1).
unfoldable pub user_hdr : ℕ → ℕ → ℕ → Gtp → Gtp
user_hdr msg_type msg_len teid h = record h {
  msg_type = msg_type;
  msg_len = msg_len;
  teid = teid;
  flags = 48;
}

-- A view keeps its bytes when a header is set.
set_gtp-view :
    (h : Gtp) (q : Packet) (used rest : Bytes)
    → record (view q used rest) { gtp_hdr = h } ≡ view (record q { gtp_hdr = h }) used rest
unfolding view
set_gtp-view h q used rest = refl

set_s1ap-view :
    (h : S1ap) (q : Packet) (used rest : Bytes)
    → record (view q used rest) { s1ap_hdr = h } ≡ view (record q { s1ap_hdr = h }) used rest
unfolding view
set_s1ap-view h q used rest = refl

pub extract_gtp_hdr-view :
    (h : Gtp) (q : Packet) (used rest : Bytes)
    → IsGtp h
    → extract_gtp_hdr (view q used (gtp_bytes h ++ rest))
      ≡ ok (view (record q { gtp_hdr = h }) (used ++ gtp_bytes h) rest)
unfolding extract_gtp_hdr
extract_gtp_hdr-view h q used rest r =
    rw
      (
        extract_bytes-view 16 q used (gtp_bytes h) rest (sym (length-gtp_bytes h)),
        gtp_of_bytes-gtp_bytes h r,
      )
      (ap ok (set_gtp-view h q (used ++ gtp_bytes h) rest))

pub extract_s1ap_hdr-view :
    (h : S1ap) (q : Packet) (used rest : Bytes)
    → IsS1ap h
    → extract_s1ap_hdr (view q used (s1ap_bytes h ++ rest))
      ≡ ok (view (record q { s1ap_hdr = h }) (used ++ s1ap_bytes h) rest)
unfolding extract_s1ap_hdr
extract_s1ap_hdr-view h q used rest r =
    rw
      (
        extract_bytes-view 12 q used (s1ap_bytes h) rest (sym (length-s1ap_bytes h)),
        s1ap_of_bytes-s1ap_bytes h r,
      )
      (ap ok (set_s1ap-view h q (used ++ s1ap_bytes h) rest))

pub prepend_gtp_hdr-view :
    (msg_type msg_len teid : ℕ) (q : Packet) (used : Bytes)
    → 16 + length used ≤ buf_size
    → let h = control_hdr msg_type (msg_len % 2 ^ 16) teid q.gtp_hdr in
      prepend_gtp_hdr 2 msg_type msg_len teid (view q used [])
      ≡ ok (view (record q { gtp_hdr = h }) (gtp_bytes h ++ used) [])
unfolding prepend_gtp_hdr gtp_init control_hdr view
prepend_gtp_hdr-view msg_type msg_len teid q used h =
    let g = control_hdr msg_type (msg_len % 2 ^ 16) teid q.gtp_hdr in
    prepend_bytes-view (record q { gtp_hdr = g }) used [] (gtp_bytes g)
      (omega (arith, length-gtp_bytes g))

-- User data is not read before its header is put in front.
pub prepend_gtp_hdr-view_user :
    (msg_type msg_len teid : ℕ) (q : Packet) (rest : Bytes)
    → 16 + length rest ≤ buf_size
    → let h = user_hdr msg_type (msg_len % 2 ^ 16) teid q.gtp_hdr in
      prepend_gtp_hdr 1 msg_type msg_len teid (view q [] rest)
      ≡ ok (view (record q { gtp_hdr = h }) (gtp_bytes h) rest)
unfolding prepend_gtp_hdr gtp_init user_hdr view gtp_bytes
prepend_gtp_hdr-view_user msg_type msg_len teid q rest h =
    let g = user_hdr msg_type (msg_len % 2 ^ 16) teid q.gtp_hdr in
    prepend_bytes-view (record q { gtp_hdr = g }) [] rest (gtp_bytes g)
      (omega (arith, length-gtp_bytes g))

pub prepend_s1ap_hdr-view :
    (msg_type msg_len enodeb_s1ap_ue_id mme_s1ap_ue_id : ℕ) (q : Packet) (used rest : Bytes)
    → 12 + length used + length rest ≤ buf_size
    → let h = s1ap_init msg_type (msg_len % 2 ^ 16) enodeb_s1ap_ue_id mme_s1ap_ue_id q.s1ap_hdr in
      prepend_s1ap_hdr msg_type msg_len enodeb_s1ap_ue_id mme_s1ap_ue_id (view q used rest)
      ≡ ok (view (record q { s1ap_hdr = h }) (s1ap_bytes h ++ used) rest)
unfolding prepend_s1ap_hdr view
prepend_s1ap_hdr-view msg_type msg_len e m q used rest h =
    let g = s1ap_init msg_type (msg_len % 2 ^ 16) e m q.s1ap_hdr in
    prepend_bytes-view (record q { s1ap_hdr = g }) used rest (s1ap_bytes g)
      (omega (arith, length-s1ap_bytes g))

pub s1ap_init-IsS1ap :
    (msg_type msg_len enodeb_s1ap_ue_id mme_s1ap_ue_id : ℕ) (h : S1ap)
    → msg_type < 2 ^ 8
    → msg_len < 2 ^ 16
    → enodeb_s1ap_ue_id < 2 ^ 32
    → mme_s1ap_ue_id < 2 ^ 32
    → h.pad < 2 ^ 8
    → IsS1ap (s1ap_init msg_type msg_len enodeb_s1ap_ue_id mme_s1ap_ue_id h)
unfolding s1ap_init
s1ap_init-IsS1ap msg_type msg_len e m h a b c d k = record {
  msg_len = b;
  msg_type = a;
  pad = k;
  enodeb_s1ap_ue_id = c;
  mme_s1ap_ue_id = d;
}

-- A control header that is built from members in range is in range itself.
pub control_hdr-IsGtp :
    (msg_type msg_len teid : ℕ) (h : Gtp)
    → IsGtp h
    → msg_type < 2 ^ 8
    → msg_len < 2 ^ 16
    → teid < 2 ^ 32
    → IsGtp (control_hdr msg_type msg_len teid h)
unfolding control_hdr
control_hdr-IsGtp msg_type msg_len teid h r a b c = record {
  flags = ground arith;
  pad_1 = r.pad_1;
  msg_len = b;
  field_1 = r.field_1;
  field_2 = r.field_2;
  field_3 = r.field_3;
  msg_type = a;
  pad_2 = r.pad_2;
  teid = c;
}
