-- ===== src/Upf/Addresses.antt =====
-- The addresses that Upf::set_ip_addrs (src/upf.cpp) gives to the UEs.
use sba_g_rpc_5g.Base.{
  ℕ, zero, suc, ◌+◌, ◌/◌, ◌%◌, ◌^◌, ◌≤◌, ◌<◌, ◌≡◌, refl, ap, sym, ◌∙◌, inl, inr, some, [], ◌∷◌,
  ◌++◌, length, drop, arith, ◌==◌, if◌then◌else◌, Bool-cases, drop-append_add, append-nil,
}
use sba_g_rpc_5g.Bytes.{Bytes}
use sba_g_rpc_5g.Decimal.{to_string, scan}
use sba_g_rpc_5g.Decimal.Laws.{scan-to_string}
use sba_g_rpc_5g.UnorderedMap.{Map, clear, put, or_fresh, nat_key}
use sba_g_rpc_5g.Upf.State.{ue_address, max_ue_count, set_ip_addrs_from, set_ip_addrs}

abbrev pub imsi_of : ℕ → ℕ
imsi_of k = 119000000000 + k

-- Hosts 3 to 254 of one subnet after the other.
abbrev pub address_of : ℕ → Bytes
address_of k = ue_address (1 + k / 252) (3 + k % 252)

-- The rounds that are left do not touch the UEs before them.
from_before :
    (left i k subnet host : ℕ) (m : Map ℕ Bytes)
    → k < i
    → set_ip_addrs_from left i subnet host m (imsi_of k) ≡ m (imsi_of k)
unfolding set_ip_addrs_from
from_before zero i k s h m lt = refl
from_before (suc left) i k s h m lt =
    from_before left (i + 1) k (if h == 254 then s + 1 else s) (if h == 254 then 3 else h + 1)
      (put (imsi_of i) (ue_address s h) m) (omega arith)
    ∙ ground arith

-- The loop variables before round `i` are those of UE `i`.
from_covers :
    (left i k subnet host : ℕ) (m : Map ℕ Bytes)
    → subnet ≡ 1 + i / 252
    → host ≡ 3 + i % 252
    → i ≤ k
    → k < i + left
    → set_ip_addrs_from left i subnet host m (imsi_of k) ≡ some (address_of k)
unfolding set_ip_addrs_from
from_covers zero i k s h m es eh lo hi = absurd (omega arith)
from_covers (suc left) i k s h m es eh lo hi = elim (Bool-cases (i == k)) [
  | inl now ↦
      let e : i ≡ k = ground arith in
      from_before left (i + 1) k (if h == 254 then s + 1 else s) (if h == 254 then 3 else h + 1)
        (put (imsi_of i) (ue_address s h) m) (omega arith)
      ∙ rw (es, eh, e) (ground arith)
  | inr later ↦
      from_covers left (i + 1) k (if h == 254 then s + 1 else s) (if h == 254 then 3 else h + 1)
        (put (imsi_of i) (ue_address s h) m) (ground arith) (ground arith) (ground arith)
        (omega arith)
]

-- Each of the first 10000 UEs gets host 3 + k % 252 of subnet 1 + k / 252.
pub set_ip_addrs_lem :
    (k : ℕ) → k < max_ue_count → set_ip_addrs clear (imsi_of k) ≡ some (address_of k)
unfolding set_ip_addrs
set_ip_addrs_lem k h =
    from_covers max_ue_count 0 k 1 3 clear (omega arith) (omega arith) (omega arith) h

-- A dotted pair of numbers is read back.
first_number : (a b : ℕ) → a < 2 ^ 64 → scan 0 (to_string a ++ (b'.' ∷ to_string b)) ≡ a
first_number a b h = scan-to_string a (b'.' ∷ to_string b) h refl

second_number :
    (a b : ℕ)
    → b < 2 ^ 64
    → scan 0 (drop (length (to_string a) + 1) (to_string a ++ (b'.' ∷ to_string b))) ≡ b
second_number a b h =
    ap (scan 0) (drop-append_add _ 1 (to_string a) (b'.' ∷ to_string b) refl)
    ∙ (ap (scan 0) (sym (append-nil (to_string b))) ∙ scan-to_string b [] h tt)

dotted_injective :
    (a b c d : ℕ)
    → a < 2 ^ 64
    → b < 2 ^ 64
    → c < 2 ^ 64
    → d < 2 ^ 64
    → to_string a ++ (b'.' ∷ to_string b) ≡ to_string c ++ (b'.' ∷ to_string d)
    → (a ≡ c) × (b ≡ d)
dotted_injective a b c d ha hb hc hd e =
    let ac : a ≡ c = sym (first_number a b ha) ∙ (ap (scan 0) e ∙ first_number c d hc) in
    (
      ac,
      sym (second_number a b hb)
          ∙ (ap (λ s. scan 0 (drop (length (to_string a) + 1) s)) e ∙ rw ac (second_number c d hd)),
    )

-- No two of the first 10000 UEs have the same address.
pub set_ip_addrs-injective :
    (i j : ℕ)
    → i < max_ue_count
    → j < max_ue_count
    → set_ip_addrs clear (imsi_of i) ≡ set_ip_addrs clear (imsi_of j)
    → i ≡ j
unfolding ue_address
set_ip_addrs-injective i j hi hj e =
    let same : address_of i ≡ address_of j =
      ap (or_fresh []) (sym (set_ip_addrs_lem i hi) ∙ (e ∙ set_ip_addrs_lem j hj)) in
    let parts =
      dotted_injective (1 + i / 252) (3 + i % 252) (1 + j / 252) (3 + j % 252) (omega arith)
        (omega arith) (omega arith) (omega arith) (ap (drop 7) same) in
    omega (arith, parts.0, parts.1)
