-- ===== src/Packet/Append.antt =====
-- The overloads of append_item and the functions that prepend (src/packet.cpp).
use sba_g_rpc_5g.Base.{ℕ, ◌+◌, ◌%◌, ◌^◌, Bool, List, [], ◌∷◌, length, ◌==◌, if◌then◌else◌}
use sba_g_rpc_5g.Result.{Result, ok, ◌>>=◌}
use sba_g_rpc_5g.Bytes.{Bytes, encode}
use sba_g_rpc_5g.Packet.Headers.{
  gtp_init, s1ap_init, diameter_init, gtp_bytes, s1ap_bytes, diameter_bytes,
}
use sba_g_rpc_5g.Packet.Buffer.{Packet, poke, peek, allocate, add_int}

-- The common body of the overloads of append_item.
unfoldable pub append_bytes : Bytes → Packet → Result Packet
append_bytes xs p = do
  buf ← poke p.data_ptr xs p.data_
  ok (record p { data_ = buf; data_ptr = p.data_ptr + length xs; len = add_int p.len (length xs) })

unfoldable pub append_bool : Bool → Packet → Result Packet
append_bool item = append_bytes (encode 1 (if item then 1 else 0))

unfoldable pub append_int : ℕ → Packet → Result Packet
append_int item = append_bytes (encode 4 item)

unfoldable pub append_u8 : ℕ → Packet → Result Packet
append_u8 item = append_bytes (encode 1 item)

unfoldable pub append_u16 : ℕ → Packet → Result Packet
append_u16 item = append_bytes (encode 2 item)

unfoldable pub append_u32 : ℕ → Packet → Result Packet
append_u32 item = append_bytes (encode 4 item)

unfoldable pub append_u64 : ℕ → Packet → Result Packet
append_u64 item = append_bytes (encode 8 item)

-- append_item(vector<uint64_t>)
unfoldable pub append_u64s : List ℕ → Packet → Result Packet
append_u64s [] p = ok p
append_u64s (x ∷ xs) p = append_bytes (encode 8 x) p >>= append_u64s xs

-- `strlen` and `c_str()`: the bytes before the first NUL
unfoldable pub c_str : Bytes → Bytes
c_str [] = []
c_str (b ∷ bs) = let rest = c_str bs in if b == 0 then [] else b ∷ rest

-- append_item(const char*), append_item(string)
unfoldable pub append_cstr : Bytes → Packet → Result Packet
append_cstr item = append_bytes (c_str item)

unfoldable pub append_string : Bytes → Packet → Result Packet
append_string item p = append_int (length (c_str item)) p >>= append_cstr item

-- prepend_item(uint8_t*, int), and the common tail of the functions that prepend a header
unfoldable pub prepend_bytes : Bytes → Packet → Result Packet
prepend_bytes xs p = do
  head ← poke 0 xs allocate
  bytes ← peek 0 p.len p.data_
  buf ← poke (length xs) bytes head
  ok (record p {
    data_ = buf;
    data_ptr = add_int p.data_ptr (length xs);
    len = add_int p.len (length xs);
  })

-- `msg_len` is a uint16_t argument: the caller's `int` is cut to its low half.
unfoldable pub prepend_gtp_hdr : ℕ → ℕ → ℕ → ℕ → Packet → Result Packet
prepend_gtp_hdr protocol msg_type msg_len teid p = do
  h ← gtp_init protocol msg_type (msg_len % 2 ^ 16) teid p.gtp_hdr
  prepend_bytes (gtp_bytes h) (record p { gtp_hdr = h })

unfoldable pub prepend_s1ap_hdr : ℕ → ℕ → ℕ → ℕ → Packet → Result Packet
prepend_s1ap_hdr msg_type msg_len enodeb_s1ap_ue_id mme_s1ap_ue_id p =
    let h = s1ap_init msg_type (msg_len % 2 ^ 16) enodeb_s1ap_ue_id mme_s1ap_ue_id p.s1ap_hdr in
    prepend_bytes (s1ap_bytes h) (record p { s1ap_hdr = h })

unfoldable pub prepend_diameter_hdr : ℕ → ℕ → Packet → Result Packet
prepend_diameter_hdr msg_type msg_len p =
    let h = diameter_init msg_type (msg_len % 2 ^ 16) p.diameter_hdr in
    prepend_bytes (diameter_bytes h) (record p { diameter_hdr = h })

unfoldable pub prepend_len : Packet → Result Packet
prepend_len p = prepend_bytes (encode 4 p.len) p
