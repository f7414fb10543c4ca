-- ===== src/Packet/Items.antt =====
-- A message as a list of typed items: what a sender appends, a receiver extracts.
use sba_g_rpc_5g.Base.{
  ℕ, ◌+◌, ◌-◌, ◌^◌, ◌≤◌, ◌<◌, ◌≡◌, ap, ◌∙◌, Bool, List, [], ◌∷◌, ◌++◌, length, arith, if◌then◌else◌,
  append_assoc, append-nil, length-append,
}
use sba_g_rpc_5g.Result.{Result, ok, ◌>>=◌}
use sba_g_rpc_5g.Bytes.{Bytes, encode}
use sba_g_rpc_5g.Packet.Buffer.{Packet, buf_size, clear_pkt, payload, received}
use sba_g_rpc_5g.Packet.Append.{
  append_bool, append_u8, append_u16, append_u32, append_u64, append_int, append_string,
  append_cstr,
}
use sba_g_rpc_5g.Packet.Extract.{
  extract_bool, extract_u8, extract_u16, extract_u32, extract_u64, extract_string,
}
use sba_g_rpc_5g.Packet.View.{view, append_bytes-view}
use sba_g_rpc_5g.Packet.Moves.{clear_pkt-view, payload-view, received-view}
use sba_g_rpc_5g.Packet.Numbers.{
  IsText, c_str-IsText, extract_number-view, extract_bool-view, extract_string-view,
}

pub data Item : Type 0 where
  bool : Bool → Item
  u8 u16 u32 u64 : ℕ → Item
  text : Bytes → Item

-- The value is one of its C++ type.
abbrev pub InRange : Item → Type 0
InRange (bool b) = Unit
InRange (u8 v) = v < 2 ^ 8
InRange (u16 v) = v < 2 ^ 16
InRange (u32 v) = v < 2 ^ 32
InRange (u64 v) = v < 2 ^ 64
InRange (text s) = IsText s × (length s < 2 ^ 31 - 1)

abbrev pub AllInRange : List Item → Type 0
AllInRange [] = Unit
AllInRange (x ∷ xs) = InRange x × AllInRange xs

-- append_item, by the static type of its argument
pub append_item : Item → Packet → Result Packet
append_item (bool b) = append_bool b
append_item (u8 v) = append_u8 v
append_item (u16 v) = append_u16 v
append_item (u32 v) = append_u32 v
append_item (u64 v) = append_u64 v
append_item (text s) = append_string s

-- extract_item into a variable of the type of the item
pub extract_item : Item → Packet → Result (Item × Packet)
extract_item (bool _) p = do (v, p') ← extract_bool p; ok (bool v, p')
extract_item (u8 _) p = do (v, p') ← extract_u8 p; ok (u8 v, p')
extract_item (u16 _) p = do (v, p') ← extract_u16 p; ok (u16 v, p')
extract_item (u32 _) p = do (v, p') ← extract_u32 p; ok (u32 v, p')
extract_item (u64 _) p = do (v, p') ← extract_u64 p; ok (u64 v, p')
extract_item (text _) p = do (v, p') ← extract_string p; ok (text v, p')

pub append_items : List Item → Packet → Result Packet
append_items [] p = ok p
append_items (x ∷ xs) p = append_item x p >>= append_items xs

pub extract_items : List Item → Packet → Result (List Item × Packet)
extract_items [] p = ok ([], p)
extract_items (x ∷ xs) p = do
  (y, p') ← extract_item x p
  (ys, p'') ← extract_items xs p'
  ok (y ∷ ys, p'')

-- The bytes of an item on the wire.
unfoldable pub item_bytes : Item → Bytes
item_bytes (bool b) = encode 1 (if b then 1 else 0)
item_bytes (u8 v) = encode 1 v
item_bytes (u16 v) = encode 2 v
item_bytes (u32 v) = encode 4 v
item_bytes (u64 v) = encode 8 v
item_bytes (text s) = encode 4 (length s) ++ s

unfoldable pub wire : List Item → Bytes
wire [] = []
wire (x ∷ xs) = item_bytes x ++ wire xs

append_item-view :
    (x : Item) (q : Packet) (used : Bytes)
    → InRange x
    → length used + length (item_bytes x) ≤ buf_size
    → append_item x (view q used []) ≡ ok (view q (used ++ item_bytes x) [])
unfolding append_item item_bytes append_bool append_u8 append_u16 append_u32 append_u64
    append_string append_int append_cstr
append_item-view (bool b) q used r h = append_bytes-view q used (encode 1 (if b then 1 else 0)) h
append_item-view (u8 v) q used r h = append_bytes-view q used (encode 1 v) h
append_item-view (u16 v) q used r h = append_bytes-view q used (encode 2 v) h
append_item-view (u32 v) q used r h = append_bytes-view q used (encode 4 v) h
append_item-view (u64 v) q used r h = append_bytes-view q used (encode 8 v) h
append_item-view (text s) q used r h = rw (c_str-IsText s r.0) (
    rw
      (
        append_bytes-view q used (encode 4 (length s)) (omega arith),
        append_bytes-view q (used ++ encode 4 (length s)) s
            (omega (arith, length-append used (encode 4 (length s)))),
      )
      (ap (λ bs. ok (view q bs [])) (append_assoc used (encode 4 (length s)) s)))

extract_item-view :
    (x : Item) (q : Packet) (used rest : Bytes)
    → InRange x
    → extract_item x (view q used (item_bytes x ++ rest))
      ≡ ok (x, view q (used ++ item_bytes x) rest)
unfolding extract_item item_bytes extract_u8 extract_u16 extract_u32 extract_u64
extract_item-view (bool b) q used rest r = rw (extract_bool-view b q used rest)
extract_item-view (u8 v) q used rest r = rw (extract_number-view 1 v q used rest r)
extract_item-view (u16 v) q used rest r = rw (extract_number-view 2 v q used rest r)
extract_item-view (u32 v) q used rest r = rw (extract_number-view 4 v q used rest r)
extract_item-view (u64 v) q used rest r = rw (extract_number-view 8 v q used rest r)
extract_item-view (text s) q used rest r =
    rw (append_assoc (encode 4 (length s)) s rest, extract_string-view s q used rest r.0 r.1)
      (ap (λ bs. ok (text s, view q bs rest)) (append_assoc used (encode 4 (length s)) s))

append_items-view :
    (xs : List Item) (q : Packet) (used : Bytes)
    → AllInRange xs
    → length used + length (wire xs) ≤ buf_size
    → append_items xs (view q used []) ≡ ok (view q (used ++ wire xs) [])
unfolding append_items wire
append_items-view [] q used r h = rw (append-nil used)
append_items-view (x ∷ xs) q used r h =
    rw (append_item-view x q used r.0 (omega (arith, length-append (item_bytes x) (wire xs)))) (
      append_items-view xs q (used ++ item_bytes x) r.1
        (omega (arith, length-append (item_bytes x) (wire xs), length-append used (item_bytes x)))
      ∙ ap (λ bs. ok (view q bs [])) (append_assoc used (item_bytes x) (wire xs)))

extract_items-view :
    (xs : List Item) (q : Packet) (used rest : Bytes)
    → AllInRange xs
    → extract_items xs (view q used (wire xs ++ rest)) ≡ ok (xs, view q (used ++ wire xs) rest)
unfolding extract_items wire
extract_items-view [] q used rest r = rw (append-nil used)
extract_items-view (x ∷ xs) q used rest r =
    rw
      (
        append_assoc (item_bytes x) (wire xs) rest,
        extract_item-view x q used (wire xs ++ rest) r.0,
        extract_items-view xs q (used ++ item_bytes x) rest r.1,
      )
      (ap (λ bs. ok (x ∷ xs, view q bs rest)) (append_assoc used (item_bytes x) (wire xs)))

-- Items in the range of their types that fit in the buffer, appended to a cleared packet and
-- handed to the socket, are the bytes `wire xs`; a peer that receives these bytes into any packet
-- extracts the same items in the same order, and has then read every byte.
pub extract_items-append_items :
    (xs : List Item) (p q : Packet)
    → AllInRange xs
    → length (wire xs) ≤ buf_size
    → ((append_items xs (clear_pkt p) >>= payload) ≡ ok (wire xs))
      × ((received (wire xs) q >>= extract_items xs) ≡ ok (xs, view q (wire xs) []))
extract_items-append_items xs p q r h = (
  rw (clear_pkt-view p, append_items-view xs p [] r (omega arith))
      (payload-view p (wire xs) [] (omega arith) ∙ ap ok (append-nil (wire xs))),
  rw (received-view (wire xs) q h) (rw (append-nil (wire xs)) at (extract_items-view xs q [] [] r)),
)
