-- ===== src/Upf/Tests.antt =====
-- The theorems on the user plane function at concrete sessions.
use sba_g_rpc_5g.Base.{ℕ, Bool, true, false, ◌↔◌, ◌⊎◌, ◌≡◌, refl, none, some, [], ◌∷◌, ◌++◌, arith}
use sba_g_rpc_5g.Result.{ok}
use sba_g_rpc_5g.Bytes.{Bytes, encode}
use sba_g_rpc_5g.Packet.{Packet, Gtp, gtp_bytes}
use sba_g_rpc_5g.Packet.View.{view}
use sba_g_rpc_5g.Packet.Numbers.{IsText}
use sba_g_rpc_5g.Decimal.{to_string, digits}
use sba_g_rpc_5g.Net.{SockAddr, Datagram, inet_ntop}
use sba_g_rpc_5g.Messages.{message, user_message}
use sba_g_rpc_5g.UnorderedMap.{clear, put, nat_key, bytes_key, bytes_same}
use sba_g_rpc_5g.Upf.State.{UeContext, Upf, new_ue_context}
use sba_g_rpc_5g.Upf.Tables.{DownlinkInfo, get_downlink_info}
use sba_g_rpc_5g.Upf.Session.{
  handle_create_session, handle_modify_bearer, handle_detach, handle_downlink_udata,
}
use sba_g_rpc_5g.Upf.Sessions.{IsConsistent, IsFree, IsIndexed}
use sba_g_rpc_5g.Upf.Replies.{create_body}
use sba_g_rpc_5g.Upf.Lifecycle.{
  handle_create_session-adds, handle_modify_bearer-switches, handle_detach-removes,
}
use sba_g_rpc_5g.Upf.Requests.{create_request, modify_request}
use sba_g_rpc_5g.Upf.Addresses.{set_ip_addrs-injective}
use sba_g_rpc_5g.Upf.Downlink.{
  IsUndeliverable, handle_downlink_udata-forwards, handle_downlink_udata-drops,
}

abbrev pub addr : Bytes
addr = b'1' ∷ b'.' ∷ b'2' ∷ b'.' ∷ b'3' ∷ b'.' ∷ b'4' ∷ []

abbrev pub smf : SockAddr
smf = record { ip_addr = addr; port = 8000 }

abbrev pub gtp_0 : Gtp
gtp_0 = record {
  flags = 72;
  pad_1 = 0;
  msg_len = 9;
  field_1 = 0;
  field_2 = 0;
  field_3 = 0;
  msg_type = 2;
  pad_2 = 0;
  teid = 7;
}

abbrev pub packet_0 : Packet
packet_0 = record {
  gtp_hdr = gtp_0;
  s1ap_hdr = record {
    msg_len = 0;
    msg_type = 0;
    pad = 0;
    enodeb_s1ap_ue_id = 0;
    mme_s1ap_ue_id = 0;
  };
  diameter_hdr = record { msg_len = 0; msg_type = 0; pad = 0 };
  data_ = [];
  data_ptr = 0;
  len = 0;
}

abbrev pub context : UeContext
context = record {
  ip_addr = addr;
  tai = 1;
  apn_in_use = 1;
  eps_bearer_id = 5;
  s1_uteid_ul = 7;
  s1_uteid_dl = 0;
  s11_cteid_smf = 7;
  s11_cteid_upf = 7;
  s1_cteid_ul = 0;
  s1_cteid_dl = 0;
  enodeb_ip_addr = [];
  enodeb_port = 0;
  sgi_cteid_ul = 0;
}

abbrev empty : Upf
empty = record {
  s11_id = clear;
  s1_id = clear;
  sgi_id = clear;
  ue_ctx = clear;
  ho_ue_ctx = clear;
  ip_addrs = put 119000000007 addr clear;
}

-- One session.
abbrev pub one : Upf
one = record {
  s11_id = put 7 119000000007 clear;
  s1_id = put 7 119000000007 clear;
  sgi_id = put addr 119000000007 clear;
  ue_ctx = put 119000000007 context clear;
  ho_ue_ctx = clear;
  ip_addrs = put 119000000007 addr clear;
}

empty-IsConsistent : IsConsistent empty
empty-IsConsistent = record { indexed = λ j c e. absurd (ground arith) }

empty-IsFree : IsFree empty 119000000007 7 addr
empty-IsFree = record {
  s11_free = λ j c e n. absurd (ground arith);
  s1_free = λ j c e n. absurd (ground arith);
  addr_free = λ j c e n. absurd (ground arith);
}

pub known : (j : ℕ) (c : UeContext) → one.ue_ctx j ≡ some c → (j ≡ 119000000007) × (c ≡ context)
known j c e = (ground arith, ground arith)

context-IsIndexed : IsIndexed one 119000000007 context
unfolding bytes_same
context-IsIndexed = record { by_s11 = refl; by_s1 = refl; by_addr = refl }

one-IsConsistent : IsConsistent one
one-IsConsistent = record {
  indexed = λ j c e. let k = known j c e in rw (k.0, k.1) context-IsIndexed;
}

addr-IsText : IsText addr
addr-IsText = ground arith

handle_create_session-adds_example :
    (u' : Upf) × (handle_create_session context smf
        (view packet_0 (gtp_bytes gtp_0) (create_request 7 119000000007 5 1 1))
        empty
      ≡ ok (u', record { to = smf; bytes = message 1 7 gtp_0 (create_body 7 addr) }))
    × IsConsistent u'
    × (u'.s11_id 7 ≡ some 119000000007)
    × (u'.s1_id 7 ≡ some 119000000007)
    × (u'.sgi_id addr ≡ some 119000000007)
    × (u'.ue_ctx 119000000007
        ≡ some (record (new_ue_context context) {
          ip_addr = addr;
          tai = 1;
          apn_in_use = 1;
          eps_bearer_id = 5;
          s1_uteid_ul = 7;
          s11_cteid_smf = 7;
          s11_cteid_upf = 7;
        }))
    × ((j : ℕ) → (j ≡ 119000000007) ⊎ (u'.ue_ctx j ≡ empty.ue_ctx j))
handle_create_session-adds_example =
    handle_create_session-adds context smf packet_0 (gtp_bytes gtp_0) empty 7 119000000007 5 1 1
      addr (omega arith) (omega arith) (omega arith) (omega arith) (omega arith) refl addr-IsText
      (omega arith) empty-IsConsistent empty-IsFree

handle_modify_bearer-switches_example :
    let out : Datagram = record { to = smf; bytes = message 2 7 gtp_0 (1 ∷ []) } in
    let info : DownlinkInfo = record {
      s1_uteid_dl = 9;
      enodeb_ip_addr = addr;
      enodeb_port = 4000;
    } in
    (u' : Upf) × (handle_modify_bearer context smf
        (view packet_0 (gtp_bytes gtp_0) (modify_request 5 9 addr 4000))
        one
      ≡ ok (u', out))
    × (get_downlink_info 119000000007 u' ≡ some info)
    × IsConsistent u'
handle_modify_bearer-switches_example =
    handle_modify_bearer-switches context smf packet_0 (gtp_bytes gtp_0) one 119000000007 context
      refl (omega arith) refl one-IsConsistent 5 9 addr 4000 (omega arith) (omega arith) addr-IsText
      (omega arith) (omega arith)

handle_detach-removes_example :
    let out : Datagram = record { to = smf; bytes = message 3 7 gtp_0 (1 ∷ []) } in
    (u' : Upf) × (handle_detach smf
        (view packet_0 (gtp_bytes gtp_0) (encode 1 5 ++ (encode 8 1 ++ [])))
        one
      ≡ ok (u', out))
    × (u'.ue_ctx 119000000007 ≡ none)
    × (u'.s11_id 7 ≡ none)
    × (u'.s1_id 7 ≡ none)
    × (u'.sgi_id addr ≡ none)
    × IsConsistent u'
handle_detach-removes_example =
    handle_detach-removes context smf packet_0 (gtp_bytes gtp_0) one 119000000007 context refl
      (omega arith) refl one-IsConsistent 5 1

abbrev ue_300 : ℕ
ue_300 = 300

set_ip_addrs-injective_example : ue_300 ≡ 300
set_ip_addrs-injective_example = set_ip_addrs-injective 300 300 (omega arith) (omega arith) refl

-- An IP header up to the source address, and a destination.
abbrev pub ip_head : Bytes
ip_head = 69 ∷ 0 ∷ 0 ∷ 21 ∷ 0 ∷ 0 ∷ 0 ∷ 0 ∷ 64 ∷ 17 ∷ 0 ∷ 0 ∷ 8 ∷ 8 ∷ 8 ∷ 8 ∷ []

abbrev pub ip_dst : Bytes
ip_dst = 1 ∷ 2 ∷ 3 ∷ 4 ∷ []

-- The session after modify bearer.
abbrev pub connected : Upf
connected = record one {
  ue_ctx =
      put 119000000007
        (record context { s1_uteid_dl = 9; enodeb_ip_addr = addr; enodeb_port = 4000 }) clear;
}

pub reached : connected.sgi_id (inet_ntop ip_dst) ≡ some 119000000007
unfolding inet_ntop to_string digits bytes_same
reached = refl

-- A stand-in for inet_aton that takes every text that is not empty.
abbrev pub is_addr : Bytes → Bool
is_addr [] = false
is_addr (x ∷ xs) = true

-- A session that no base station is known of yet.
abbrev idle : Upf
idle = record connected {
  ue_ctx = put 119000000007 (record context { enodeb_port = 0 }) connected.ue_ctx;
}

handle_downlink_udata-forwards_example :
    let out : Datagram = record {
      to = record { ip_addr = addr; port = 4000 };
      bytes = user_message 2 9 gtp_0 (ip_head ++ (ip_dst ++ (17 ∷ [])));
    } in
    handle_downlink_udata is_addr (view packet_0 [] (ip_head ++ (ip_dst ++ (17 ∷ [])))) connected
    ≡ ok (some out)
unfolding get_downlink_info
handle_downlink_udata-forwards_example =
    handle_downlink_udata-forwards packet_0 connected ip_head ip_dst (17 ∷ []) refl refl
      (omega arith) is_addr 119000000007
      (record { s1_uteid_dl = 9; enodeb_ip_addr = addr; enodeb_port = 4000 }) reached (omega arith)
      refl refl

handle_downlink_udata-drops_example :
    (handle_downlink_udata is_addr (view packet_0 [] (ip_head ++ (ip_dst ++ (17 ∷ [])))) idle
      ≡ ok none)
    ↔ IsUndeliverable idle (inet_ntop ip_dst)
handle_downlink_udata-drops_example =
    handle_downlink_udata-drops packet_0 idle ip_head ip_dst (17 ∷ []) refl refl (omega arith)
      is_addr
