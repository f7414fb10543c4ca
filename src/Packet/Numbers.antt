-- ===== src/Packet/Numbers.antt =====
-- Numbers and texts in a packet: what extract_item finds where append_item has written.
use sba_g_rpc_5g.Base.{
  ℕ, ◌-◌, ◌^◌, ◌<◌, ◌≡◌, refl, sym, Bool, true, false, [], ◌∷◌, ◌++◌, length, arith, if◌then◌else◌,
  lt→ltb,
}
use sba_g_rpc_5g.Result.{ok}
use sba_g_rpc_5g.Bytes.{Bytes, encode, length-encode, decode-encode}
use sba_g_rpc_5g.Packet.Buffer.{Packet}
use sba_g_rpc_5g.Packet.Append.{c_str}
use sba_g_rpc_5g.Packet.Extract.{extract_number, extract_bool, extract_string, extract_int}
use sba_g_rpc_5g.Packet.View.{view, extract_bytes-view}

pub extract_number-view :
    (n v : ℕ) (q : Packet) (used rest : Bytes)
    → v < 256 ^ n
    → extract_number n (view q used (encode n v ++ rest)) ≡ ok (v, view q (used ++ encode n v) rest)
unfolding extract_number
extract_number-view n v q used rest h =
    rw
      (extract_bytes-view n q used (encode n v) rest (sym (length-encode n v)), decode-encode n v h)

pub extract_bool-view :
    (b : Bool) (q : Packet) (used rest : Bytes)
    → extract_bool (view q used (encode 1 (if b then 1 else 0) ++ rest))
      ≡ ok (b, view q (used ++ encode 1 (if b then 1 else 0)) rest)
unfolding extract_bool
extract_bool-view true q used rest = rw (extract_number-view 1 1 q used rest (omega arith))
extract_bool-view false q used rest = rw (extract_number-view 1 0 q used rest (omega arith))

-- No NUL byte in a text.
abbrev pub IsText : Bytes → Type 0
IsText [] = Unit
IsText (b ∷ bs) = (0 < b) × IsText bs

pub c_str-IsText : (s : Bytes) → IsText s → c_str s ≡ s
unfolding c_str
c_str-IsText [] h = refl
c_str-IsText (b ∷ bs) h = ground (arith, c_str-IsText bs h.1)

pub extract_string-view :
    (s : Bytes) (q : Packet) (used rest : Bytes)
    → IsText s
    → length s < 2 ^ 31 - 1
    → extract_string (view q used (encode 4 (length s) ++ (s ++ rest)))
      ≡ ok (s, view q ((used ++ encode 4 (length s)) ++ s) rest)
unfolding extract_string extract_int
extract_string-view s q used rest t h = rw (
  extract_number-view 4 (length s) q used (s ++ rest) (omega arith),
  lt→ltb (length s) (2 ^ 31 - 1) h,
  extract_bytes-view (length s) q (used ++ encode 4 (length s)) s rest refl,
  c_str-IsText s t,
)
