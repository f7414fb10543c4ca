-- ===== src/UnorderedMap.antt =====
-- std::unordered_map, as the program uses it: find, operator[], erase and clear, never an order or a
-- count of the entries. The key's equality is an instance.
use sba_g_rpc_5g.Base.{
  ℕ, Bool, true, false, ◌&&◌, ◌≡◌, ◌↔◌, Option, none, some, [], ◌∷◌, ◌==◌, ==_iff, if◌then◌else◌,
  arith,
}
use sba_g_rpc_5g.Bytes.{Bytes}

pub record Key (K : Type 0) : Type 0 where
  pub same : K → K → Bool
  pub same_iff : (a b : K) → (same a b ≡ true) ↔ (a ≡ b)

abbrev pub nat_same : ℕ → ℕ → Bool
nat_same a b = a == b

instance abbrev pub nat_key : Key ℕ
nat_key = record { same = nat_same; same_iff = ==_iff }

unfoldable pub bytes_same : Bytes → Bytes → Bool
bytes_same [] [] = true
bytes_same (x ∷ xs) (y ∷ ys) = x == y && bytes_same xs ys
bytes_same _ _ = false

pub bytes_same_iff : (a b : Bytes) → (bytes_same a b ≡ true) ↔ (a ≡ b)
unfolding bytes_same
bytes_same_iff [] [] = ground arith
bytes_same_iff (x ∷ xs) (y ∷ ys) = ground (arith, bytes_same_iff xs ys)
bytes_same_iff [] (y ∷ ys) = ground arith
bytes_same_iff (x ∷ xs) [] = ground arith

instance abbrev pub bytes_key : Key Bytes
bytes_key = record { same = bytes_same; same_iff = bytes_same_iff }

abbrev pub Map : Type 0 → Type 0 → Type 0
Map K V = K → Option V

abbrev pub clear : {K V : Type 0} → Map K V
clear k = none

module _ {K V : Type 0} ⦃e : Key K⦄ where
  -- m[k] = v
  abbrev pub put : K → V → Map K V → Map K V
  put k v m = λ j. if e.same k j then some v else m j

  -- m.erase(k)
  abbrev pub erase : K → Map K V → Map K V
  erase k m = λ j. if e.same k j then none else m j

-- m.find(k) != m.end()
abbrev pub found : {V : Type 0} → Option V → Bool
found none = false
found (some _) = true

-- What m[k] refers to, where a missing entry is made with the value `fresh`.
abbrev pub or_fresh : {V : Type 0} → V → Option V → V
or_fresh fresh none = fresh
or_fresh fresh (some v) = v
