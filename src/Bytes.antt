-- ===== src/Bytes.antt =====
-- Unsigned integers as they lie in memory on the little-endian machines that the program is built
-- for: what `memmove(dst, &item, sizeof(item))` copies.
use sba_g_rpc_5g.Base.{
  ℕ, zero, suc, ◌+◌, ◌*◌, ◌/◌, ◌%◌, ◌^◌, ◌≤◌, ◌<◌, ◌≡◌, List, [], ◌∷◌, length, ◌++◌, take, drop,
  arith, ap,
}
use native.Mathlib.Nat.{pow-suc}

abbrev pub Bytes : Type 0
Bytes = List ℕ

abbrev pub encode : ℕ → ℕ → Bytes
encode zero v = []
encode (suc n) v = (v % 256) ∷ encode n (v / 256)

abbrev pub decode : Bytes → ℕ
decode [] = 0
decode (b ∷ bs) = b + 256 * decode bs

pub length-encode : (n v : ℕ) → length (encode n v) ≡ n
length-encode zero v = omega arith
length-encode (suc n) v = ap suc (length-encode n (v / 256))

pub decode-encode : (n v : ℕ) → v < 256 ^ n → decode (encode n v) ≡ v
decode-encode zero v h = omega arith
decode-encode (suc n) v h =
    let small : v / 256 < 256 ^ n = omega (arith, pow-suc 256 n) in
    omega (arith, decode-encode n (v / 256) small)

-- In general the value that is read back is the one modulo the width.
pub decode-encode_mod4 : (v : ℕ) → decode (encode 4 v) ≡ v % 2 ^ 32
decode-encode_mod4 v = omega arith

pub decode-encode_mod8 : (v : ℕ) → decode (encode 8 v) ≡ v % 2 ^ 64
decode-encode_mod8 v = omega arith

-- Numbers that are bytes.
abbrev pub AllBytes : Bytes → Type 0
AllBytes [] = Unit {0}
AllBytes (x ∷ xs) = (x < 256) × AllBytes xs

pub decode-AllBytes : (xs : Bytes) → AllBytes xs → decode xs < 256 ^ length xs
decode-AllBytes [] a = omega arith
decode-AllBytes (x ∷ xs) a = omega (arith, a.0, decode-AllBytes xs a.1, pow-suc 256 (length xs))

AllBytes-take_front :
    (n : ℕ) (xs ys : Bytes) → n ≤ length xs → AllBytes xs → AllBytes (take n (xs ++ ys))
AllBytes-take_front zero xs ys h a = tt
AllBytes-take_front (suc n) [] ys h a = absurd (omega arith)
AllBytes-take_front (suc n) (x ∷ xs) ys h a = (a.0, AllBytes-take_front n xs ys (omega arith) a.1)

-- Bytes that lie in the first part of a list.
pub AllBytes-take-drop :
    (k n : ℕ) (xs ys : Bytes)
    → k + n ≤ length xs
    → AllBytes xs
    → AllBytes (take n (drop k (xs ++ ys)))
AllBytes-take-drop zero n xs ys h a = AllBytes-take_front n xs ys (omega (arith, h)) a
AllBytes-take-drop (suc k) n [] ys h a = absurd (omega arith)
AllBytes-take-drop (suc k) n (x ∷ xs) ys h a = AllBytes-take-drop k n xs ys (omega arith) a.1
