-- ===== src/Packet/Headers.antt =====
-- The message headers: gtp.h, gtp.cpp, s1ap.h, s1ap.cpp, diameter.h, diameter.cpp (src/).
-- A header is copied as the bytes of its object, so the padding that the compiler puts between the
-- members is a field here: `init` leaves it as it was.
use sba_g_rpc_5g.Base.{ℕ, ◌++◌, ltb, ◌==◌, if◌then◌else◌, take, drop}
use sba_g_rpc_5g.Result.{Result, ok, fault, exit_failure}
use sba_g_rpc_5g.Bytes.{Bytes, encode, decode}

-- class Gtp
pub record Gtp : Type 0 where
  pub flags : ℕ
  pub pad_1 : ℕ
  pub msg_len : ℕ
  pub field_1 : ℕ
  pub field_2 : ℕ
  pub field_3 : ℕ
  pub msg_type : ℕ
  pub pad_2 : ℕ
  pub teid : ℕ

-- class S1ap
pub record S1ap : Type 0 where
  pub msg_len : ℕ
  pub msg_type : ℕ
  pub pad : ℕ
  pub enodeb_s1ap_ue_id : ℕ
  pub mme_s1ap_ue_id : ℕ

-- class Diameter
pub record Diameter : Type 0 where
  pub msg_len : ℕ
  pub msg_type : ℕ
  pub pad : ℕ

-- GTP_HDR_LEN, S1AP_HDR_LEN, DIAMETER_HDR_LEN: the sizes of the objects
abbrev pub gtp_hdr_len : ℕ
gtp_hdr_len = 16

abbrev pub s1ap_hdr_len : ℕ
s1ap_hdr_len = 12

abbrev pub diameter_hdr_len : ℕ
diameter_hdr_len = 4

-- Gtp::init. The arguments are in the range of their types.
unfoldable pub gtp_init : ℕ → ℕ → ℕ → ℕ → Gtp → Result Gtp
gtp_init protocol msg_type msg_len teid h =
    if protocol == 1
    then ok (record h { msg_type = msg_type; msg_len = msg_len; teid = teid; flags = 48 })
    else if protocol == 2
    then ok (record h {
      msg_type = msg_type;
      msg_len = msg_len;
      teid = teid;
      flags = if ltb 0 teid then 72 else 64;
    })
    else fault exit_failure

-- S1ap::init
unfoldable pub s1ap_init : ℕ → ℕ → ℕ → ℕ → S1ap → S1ap
s1ap_init msg_type msg_len enodeb_s1ap_ue_id mme_s1ap_ue_id h = record h {
  msg_type = msg_type;
  msg_len = msg_len;
  enodeb_s1ap_ue_id = enodeb_s1ap_ue_id;
  mme_s1ap_ue_id = mme_s1ap_ue_id;
}

-- Diameter::init
unfoldable pub diameter_init : ℕ → ℕ → Diameter → Diameter
diameter_init msg_type msg_len h = record h { msg_type = msg_type; msg_len = msg_len }

-- The bytes of the objects, member by member.
unfoldable pub gtp_bytes : Gtp → Bytes
gtp_bytes h =
    encode 1 h.flags
    ++ encode 1 h.pad_1
    ++ encode 2 h.msg_len
    ++ encode 2 h.field_1
    ++ encode 2 h.field_2
    ++ encode 1 h.field_3
    ++ encode 1 h.msg_type
    ++ encode 2 h.pad_2
    ++ encode 4 h.teid

unfoldable pub s1ap_bytes : S1ap → Bytes
s1ap_bytes h =
    encode 2 h.msg_len
    ++ encode 1 h.msg_type
    ++ encode 1 h.pad
    ++ encode 4 h.enodeb_s1ap_ue_id
    ++ encode 4 h.mme_s1ap_ue_id

unfoldable pub diameter_bytes : Diameter → Bytes
diameter_bytes h = encode 2 h.msg_len ++ encode 1 h.msg_type ++ encode 1 h.pad

abbrev field_at : ℕ → ℕ → Bytes → ℕ
field_at i n bs = decode (take n (drop i bs))

unfoldable pub gtp_of_bytes : Bytes → Gtp
gtp_of_bytes bs = record {
  flags = field_at 0 1 bs;
  pad_1 = field_at 1 1 bs;
  msg_len = field_at 2 2 bs;
  field_1 = field_at 4 2 bs;
  field_2 = field_at 6 2 bs;
  field_3 = field_at 8 1 bs;
  msg_type = field_at 9 1 bs;
  pad_2 = field_at 10 2 bs;
  teid = field_at 12 4 bs;
}

unfoldable pub s1ap_of_bytes : Bytes → S1ap
s1ap_of_bytes bs = record {
  msg_len = field_at 0 2 bs;
  msg_type = field_at 2 1 bs;
  pad = field_at 3 1 bs;
  enodeb_s1ap_ue_id = field_at 4 4 bs;
  mme_s1ap_ue_id = field_at 8 4 bs;
}

unfoldable pub diameter_of_bytes : Bytes → Diameter
diameter_of_bytes bs = record {
  msg_len = field_at 0 2 bs;
  msg_type = field_at 2 1 bs;
  pad = field_at 3 1 bs;
}
