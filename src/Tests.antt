-- ===== src/Tests.antt =====
-- The theorems on packets and identifiers at concrete values.
use sba_g_rpc_5g.Base.{◌≡◌, true, List, [], ◌∷◌, arith}
use sba_g_rpc_5g.Result.{ok, ◌>>=◌}
use sba_g_rpc_5g.Packet.{Packet, clear_pkt, payload, received}
use sba_g_rpc_5g.Packet.View.{view}
use sba_g_rpc_5g.Packet.Items.{
  Item, bool, u8, u32, text, append_items, extract_items, wire, item_bytes,
  extract_items-append_items,
}

abbrev packet_1 : Packet
packet_1 = record {
  gtp_hdr = record {
    flags = 0;
    pad_1 = 0;
    msg_len = 0;
    field_1 = 0;
    field_2 = 0;
    field_3 = 0;
    msg_type = 0;
    pad_2 = 0;
    teid = 0;
  };
  s1ap_hdr = record {
    msg_len = 0;
    msg_type = 0;
    pad = 0;
    enodeb_s1ap_ue_id = 0;
    mme_s1ap_ue_id = 0;
  };
  diameter_hdr = record { msg_len = 0; msg_type = 0; pad = 0 };
  data_ = [];
  data_ptr = 0;
  len = 0;
}

abbrev items : List Item
items = u8 5 ∷ text (b'1' ∷ b'.' ∷ b'2' ∷ []) ∷ u32 7 ∷ bool true ∷ []

extract_items-append_items_example :
    ((append_items items (clear_pkt packet_1) >>= payload) ≡ ok (wire items))
    × ((received (wire items) packet_1 >>= extract_items items)
        ≡ ok (items, view packet_1 (wire items) []))
unfolding wire item_bytes
extract_items-append_items_example =
    extract_items-append_items items packet_1 packet_1
      (omega arith, ((ground arith, omega arith), (omega arith, (tt, tt)))) (omega arith)
