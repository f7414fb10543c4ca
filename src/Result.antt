-- ===== src/Result.antt =====
-- What a call can end in. `overrun` is undefined behaviour of the source: an access outside an
-- allocated buffer. `exit_failure` is the end of the process through `Utils::handle_type1_error`
-- (src/utils.cpp), and `uncaught` its end through an exception that nothing catches.
use sba_g_rpc_5g.Base.{Bool, true, false, ◌≡◌, refl}

pub data Fault : Type 0 where
  overrun exit_failure uncaught : Fault

pub data Result {ℓ} (A : Type ℓ) : Type ℓ where
  ok : A → Result A
  fault : Fault → Result A

infixl 5 ◌>>=◌ ◌>>◌
abbrev pub ◌>>=◌ {ℓ κ} : {A : Type ℓ} {B : Type κ} → Result A → (A → Result B) → Result B
ok a >>= f = f a
fault e >>= f = fault e

abbrev pub ◌>>◌ {ℓ} : {B : Type ℓ} → Result (Unit {0}) → Result B → Result B
m >> k = m >>= λ _. k

-- `require b e` goes on where `b` holds.
abbrev pub require : Bool → Fault → Result (Unit {0})
require true e = ok tt
require false e = fault e

pub bind_assoc {ℓ κ ι} :
    {A : Type ℓ} {B : Type κ} {C : Type ι} (m : Result A) (f : A → Result B) (g : B → Result C)
    → (m >>= f) >>= g ≡ m >>= (λ a. f a >>= g)
bind_assoc (ok a) f g = refl
bind_assoc (fault e) f g = refl

-- A step that succeeded, and what followed it.
module _ {ℓ κ} {A : Type ℓ} {B : Type κ} where
  pub bind_ok :
      (first : Result A) (next : A → Result B) {out : B}
      → first >>= next ≡ ok out
      → (mid : A) × (first ≡ ok mid) × (next mid ≡ ok out)
  bind_ok (fault why) next e = cc
  bind_ok (ok mid) next e = (mid, refl, e)
