-- ===== src/Decimal.antt =====
-- `to_string` and `stoull` of the C++ library on unsigned numbers, as the program uses them to
-- join identifiers (src/telecom.cpp, src/amf.cpp, src/smf.cpp, src/upf.cpp).
pub mod Laws
use sba_g_rpc_5g.Base.{
  ℕ, zero, suc, ◌+◌, ◌-◌, ◌*◌, ◌/◌, ◌%◌, ◌^◌, Bool, ◌&&◌, ◌||◌, [], ◌∷◌, ◌++◌, ◌≡◌, refl, length,
  drop, leb, ltb, ◌==◌, if◌then◌else◌,
}
use sba_g_rpc_5g.Result.{Result, ok, fault, uncaught}
use sba_g_rpc_5g.Bytes.{Bytes}

-- The last `fuel` decimal digits at most; 20 are enough for a uint64_t.
unfoldable pub digits : ℕ → ℕ → Bytes
digits zero n = []
digits (suc fuel) n =
    let more = digits fuel (n / 10) in
    let last = (b'0' + n % 10) ∷ [] in if n / 10 == 0 then last else more ++ last

unfoldable pub to_string : ℕ → Bytes
to_string = digits 20

abbrev pub is_digit : ℕ → Bool
is_digit c = leb b'0' c && leb c b'9'

abbrev pub is_space : ℕ → Bool
is_space c = (leb 9 c && leb c 13) || (c == 32)

-- The value of the digits at the front, on top of those that were read.
unfoldable pub scan : ℕ → Bytes → ℕ
scan acc [] = acc
scan acc (c ∷ s) = let rest = scan (acc * 10 + (c - b'0')) s in if is_digit c then rest else acc

-- std::invalid_argument where no digit stands, std::out_of_range above 2 ^ 64 - 1.
unfoldable pub unsigned : Bytes → Result ℕ
unsigned [] = fault uncaught
unsigned (c ∷ s) =
    if is_digit c
    then (let v = scan 0 (c ∷ s) in if ltb v (2 ^ 64) then ok v else fault uncaught)
    else fault uncaught

-- A minus sign negates in uint64_t.
unfoldable pub negated : Result ℕ → Result ℕ
negated (ok v) = ok ((2 ^ 64 - v) % 2 ^ 64)
negated (fault e) = fault e

unfoldable pub stoull : Bytes → Result ℕ
unfolding unsigned negated
stoull [] = fault uncaught
stoull (c ∷ s) =
    let skipped = stoull s in
    if is_space c
    then skipped
    else if c == b'+'
    then unsigned s
    else if c == b'-'
    then negated (unsigned s)
    else unsigned (c ∷ s)

-- substr(pos, -1) throws where `pos` is past the end.
unfoldable pub substr_from : ℕ → Bytes → Result Bytes
substr_from pos s = if leb pos (length s) then ok (drop pos s) else fault uncaught
