-- ===== src/Packet/Extract.antt =====
-- The overloads of extract_item and the functions that extract a header (src/packet.cpp).
use sba_g_rpc_5g.Base.{ℕ, zero, suc, ◌+◌, ◌-◌, ◌^◌, Bool, List, [], ◌∷◌, ltb}
use sba_g_rpc_5g.Result.{Result, ok, exit_failure, require, ◌>>=◌, ◌>>◌}
use sba_g_rpc_5g.Bytes.{Bytes, decode}
use sba_g_rpc_5g.Packet.Headers.{
  gtp_hdr_len, s1ap_hdr_len, diameter_hdr_len, gtp_of_bytes, s1ap_of_bytes, diameter_of_bytes,
}
use sba_g_rpc_5g.Packet.Buffer.{Packet, peek}
use sba_g_rpc_5g.Packet.Append.{c_str}

-- The common body of the overloads of extract_item.
unfoldable pub extract_bytes : ℕ → Packet → Result (Bytes × Packet)
extract_bytes n p = do
  xs ← peek p.data_ptr n p.data_
  ok (xs, record p { data_ptr = p.data_ptr + n })

unfoldable pub extract_number : ℕ → Packet → Result (ℕ × Packet)
extract_number n p = do (xs, p') ← extract_bytes n p; ok (decode xs, p')

-- A byte other than 0 and 1 read into a `bool` counts as true.
unfoldable pub extract_bool : Packet → Result (Bool × Packet)
extract_bool p = do (v, p') ← extract_number 1 p; ok (ltb 0 v, p')

unfoldable pub extract_int : Packet → Result (ℕ × Packet)
extract_int = extract_number 4

unfoldable pub extract_u8 : Packet → Result (ℕ × Packet)
extract_u8 = extract_number 1

unfoldable pub extract_u16 : Packet → Result (ℕ × Packet)
extract_u16 = extract_number 2

unfoldable pub extract_u32 : Packet → Result (ℕ × Packet)
extract_u32 = extract_number 4

unfoldable pub extract_u64 : Packet → Result (ℕ × Packet)
extract_u64 = extract_number 8

-- extract_item(vector<uint64_t>&, int): the rounds left are counted down.
unfoldable pub extract_u64s : ℕ → Packet → Result (List ℕ × Packet)
extract_u64s zero p = ok ([], p)
extract_u64s (suc n) p = do
  (x, p') ← extract_number 8 p
  (xs, p'') ← extract_u64s n p'
  ok (x ∷ xs, p'')

-- extract_item(string&): allocate_str_mem(item_len + 1) ends the process on a length below 1.
unfoldable pub extract_string : Packet → Result (Bytes × Packet)
extract_string p = do
  (n, p') ← extract_int p
  require (ltb n (2 ^ 31 - 1)) exit_failure
  (xs, p'') ← extract_bytes n p'
  ok (c_str xs, p'')

unfoldable pub extract_gtp_hdr : Packet → Result Packet
extract_gtp_hdr p = do
  (xs, p') ← extract_bytes gtp_hdr_len p
  ok (record p' { gtp_hdr = gtp_of_bytes xs })

unfoldable pub extract_s1ap_hdr : Packet → Result Packet
extract_s1ap_hdr p = do
  (xs, p') ← extract_bytes s1ap_hdr_len p
  ok (record p' { s1ap_hdr = s1ap_of_bytes xs })

unfoldable pub extract_diameter_hdr : Packet → Result Packet
extract_diameter_hdr p = do
  (xs, p') ← extract_bytes diameter_hdr_len p
  ok (record p' { diameter_hdr = diameter_of_bytes xs })
