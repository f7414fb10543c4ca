-- ===== src/Telecom.antt =====
-- class Telecom (src/telecom.cpp, src/telecom.h): identifiers are joined in decimal.
use sba_g_rpc_5g.Base.{ℕ, suc, ◌+◌, ◌*◌, ◌%◌, ◌^◌, ◌≤◌, ◌<◌, ◌≡◌, ap, ◌∙◌, ◌++◌, length, arith}
use sba_g_rpc_5g.Result.{Result, ok, ◌>>=◌}
use sba_g_rpc_5g.Decimal.{to_string, stoull}
use sba_g_rpc_5g.Decimal.Laws.{stoull-to_string_append, length-to_string}

abbrev joined : ℕ → ℕ → Result ℕ
joined a b = stoull (to_string a ++ to_string b)

-- The result is narrowed to the function's return type.
unfoldable pub get_plmn_id : ℕ → ℕ → Result ℕ
get_plmn_id mcc mnc = do v ← joined mcc mnc; ok (v % 2 ^ 16)

unfoldable pub get_mmei : ℕ → ℕ → Result ℕ
get_mmei mmegi mmec = do v ← joined mmegi mmec; ok (v % 2 ^ 32)

unfoldable pub get_gummei : ℕ → ℕ → Result ℕ
get_gummei plmn_id mmei = joined plmn_id mmei

unfoldable pub get_imsi : ℕ → ℕ → Result ℕ
get_imsi plmn_id msisdn = joined plmn_id msisdn

unfoldable pub get_guti : ℕ → ℕ → Result ℕ
get_guti gummei m_tmsi = joined gummei m_tmsi

-- A number behind one whose decimal form has `w + 1` digits.
joined-shift :
    (w a b : ℕ)
    → suc w ≤ 20
    → 10 ^ w ≤ b
    → b < 10 ^ suc w
    → b < 2 ^ 64
    → a < 2 ^ 64
    → a * 10 ^ suc w + b < 2 ^ 64
    → joined a b ≡ ok (a * 10 ^ suc w + b)
joined-shift w a b s lo hi hb ha h =
    let e : length (to_string b) ≡ suc w = length-to_string w b s lo hi in
    rw e at (stoull-to_string_append a b ha hb (rw e h))

-- For n below 10 ^ 9, the IMSI of the simulated UE n is its MSISDN 9000000000 + n behind the PLMN id
-- 11.
get_imsi_lem : (n : ℕ) → n < 10 ^ 9 → get_imsi 11 (9000000000 + n) ≡ ok (119000000000 + n)
unfolding get_imsi
get_imsi_lem n h =
    joined-shift 9 11 (9000000000 + n) (omega arith) (omega arith) (omega arith) (omega arith)
      (omega arith) (omega arith)
    ∙ ap ok (omega arith)

-- The GUTI of a UE with an IMSI of twelve digits is the IMSI behind the GUAMFI 1111.
pub get_guti_lem :
    (imsi : ℕ) → 10 ^ 11 ≤ imsi → imsi < 10 ^ 12 → get_guti 1111 imsi ≡ ok (1111 * 10 ^ 12 + imsi)
unfolding get_guti
get_guti_lem imsi lo hi =
    joined-shift 11 1111 imsi (omega arith) lo hi (omega arith) (omega arith) (omega arith)
