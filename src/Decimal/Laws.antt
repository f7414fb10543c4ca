-- ===== src/Decimal/Laws.antt =====
-- Printing and reading decimal numbers, also when two printed numbers are joined.
use sba_g_rpc_5g.Base.{
  ℕ, zero, suc, ◌+◌, ◌-◌, ◌*◌, ◌/◌, ◌%◌, ◌^◌, ◌≤◌, ◌<◌, ◌≡◌, refl, ap, ◌∙◌, sym, inl, inr, true,
  false, [], ◌∷◌, ◌++◌, length, arith, ltb, Bool-cases, append_assoc, append-nil, length-append,
}
use native.Mathlib.Nat.{pow-suc}
use sba_g_rpc_5g.Result.{ok}
use sba_g_rpc_5g.Bytes.{Bytes}
use sba_g_rpc_5g.Decimal.{digits, to_string, scan, stoull, is_digit}

-- One more digit is read.
scan-digit :
    (acc d : ℕ) (rest : Bytes) → d < 10 → scan acc ((b'0' + d) ∷ rest) ≡ scan (acc * 10 + d) rest
unfolding scan
scan-digit acc d rest h =
    ground
      (arith, ap (λ n. scan n rest) {x = acc * 10 + (48 + d - 48)} {y = acc * 10 + d} (omega arith))

pub digits_one : (fuel n : ℕ) → n < 10 → digits (suc fuel) n ≡ (b'0' + n) ∷ []
unfolding digits
digits_one fuel n h =
    ground (arith, ap (λ (d : ℕ). (48 + d) ∷ []) {x = n % 10} {y = n} (omega arith))

pub digits_more :
    (fuel n : ℕ) → 10 ≤ n → digits (suc fuel) n ≡ digits fuel (n / 10) ++ (b'0' + n % 10) ∷ []
unfolding digits
digits_more fuel n h = ground arith

pow-length_snoc : (xs : Bytes) (d : ℕ) → 10 ^ length (xs ++ d ∷ []) ≡ 10 ^ length xs * 10
pow-length_snoc [] d = refl
pow-length_snoc (x ∷ xs) d =
    pow-suc 10 (length (xs ++ d ∷ []))
    ∙ (ap (λ (t : ℕ). t * 10) (pow-length_snoc xs d)
        ∙ ap (λ (t : ℕ). t * 10) (sym (pow-suc 10 (length xs))))

fuel_pos : (f n : ℕ) → 10 ≤ n → n < 10 ^ suc f → 0 < f
fuel_pos zero n a b = absurd (omega arith)
fuel_pos (suc f) n a b = omega arith

scan_end : (a p : ℕ) → scan (0 * p + a) [] ≡ a
unfolding scan
scan_end a p = omega arith

scan_done : (p a b k : ℕ) → scan ((0 * p + a) * 10 ^ k + b) [] ≡ a * 10 ^ k + b
unfolding scan
scan_done p a b k = ap (λ (t : ℕ). t * 10 ^ k + b) {x = 0 * p + a} {y = a} (omega arith)

pow_pos : (w : ℕ) → 0 < 10 ^ w
pow_pos zero = omega arith
pow_pos (suc w) = omega (arith, pow-suc 10 w, pow_pos w)

-- Reading a printed number shifts what was read before and adds the number.
pub scan-digits :
    (fuel n acc : ℕ) (rest : Bytes)
    → n < 10 ^ fuel
    → 0 < fuel
    → scan acc (digits fuel n ++ rest) ≡ scan (acc * 10 ^ length (digits fuel n) + n) rest
scan-digits zero n acc rest h p = absurd (omega arith)
scan-digits (suc f) n acc rest h p = elim (Bool-cases (ltb n 10)) [
  | inl small ↦ rw (digits_one f n (ground arith), scan-digit acc n rest (ground arith)) refl
  | inr large ↦
      rw
        (
          digits_more f n (ground arith),
          append_assoc (digits f (n / 10)) ((b'0' + n % 10) ∷ []) rest,
        )
        (scan-digits f (n / 10) acc ((b'0' + n % 10) ∷ rest) (omega (arith, pow-suc 10 f))
            (fuel_pos f n (ground arith) h)
          ∙ (scan-digit (acc * 10 ^ length (digits f (n / 10)) + n / 10) (n % 10) rest (omega arith)
              ∙ ap (λ v. scan v rest)
                  (rw (pow-length_snoc (digits f (n / 10)) (b'0' + n % 10)) (omega arith))))
]

-- The text starts with a digit.
abbrev pub StartsWithDigit : Bytes → Type 0
StartsWithDigit [] = ⊥
StartsWithDigit (c ∷ s) = is_digit c ≡ true

StartsWithDigit-append : (xs ys : Bytes) → StartsWithDigit xs → StartsWithDigit (xs ++ ys)
StartsWithDigit-append [] ys h = absurd h
StartsWithDigit-append (x ∷ xs) ys h = h

digits-StartsWithDigit : (fuel n : ℕ) → n < 10 ^ fuel → 0 < fuel → StartsWithDigit (digits fuel n)
digits-StartsWithDigit zero n h p = absurd (omega arith)
digits-StartsWithDigit (suc f) n h p = elim (Bool-cases (ltb n 10)) [
  | inl small ↦ rw (digits_one f n (ground arith)) (ground arith)
  | inr large ↦
      let few : n / 10 < 10 ^ f = omega (arith, pow-suc 10 f) in
      rw (digits_more f n (ground arith)) (
        StartsWithDigit-append (digits f (n / 10)) ((b'0' + n % 10) ∷ [])
          (digits-StartsWithDigit f (n / 10) few (fuel_pos f n (ground arith) h)))
]

stoull_digits :
    (s : Bytes) (v : ℕ) → StartsWithDigit s → scan 0 s ≡ v → v < 2 ^ 64 → stoull s ≡ ok v
unfolding stoull
stoull_digits [] v d e h = absurd d
stoull_digits (c ∷ s) v d e h = rw e (ground arith)

-- Two printed numbers that are joined are read as one number.
pub stoull-to_string_append :
    (a b : ℕ)
    → a < 2 ^ 64
    → b < 2 ^ 64
    → a * 10 ^ length (to_string b) + b < 2 ^ 64
    → stoull (to_string a ++ to_string b) ≡ ok (a * 10 ^ length (to_string b) + b)
unfolding to_string
stoull-to_string_append a b ha hb h =
    stoull_digits (digits 20 a ++ digits 20 b) _
      (StartsWithDigit-append (digits 20 a) (digits 20 b)
        (digits-StartsWithDigit 20 a (omega arith) (omega arith)))
      (scan-digits 20 a 0 (digits 20 b) (omega arith) (omega arith)
        ∙ (ap (λ s. scan (0 * 10 ^ length (digits 20 a) + a) s) (sym (append-nil (digits 20 b)))
            ∙ (scan-digits 20 b (0 * 10 ^ length (digits 20 a) + a) [] (omega arith) (omega arith)
                ∙ scan_done (10 ^ length (digits 20 a)) a b (length (digits 20 b)))))
      h

pub stoull-to_string : (a : ℕ) → a < 2 ^ 64 → stoull (to_string a) ≡ ok a
unfolding to_string
stoull-to_string a ha =
    stoull_digits (digits 20 a) a (digits-StartsWithDigit 20 a (omega arith) (omega arith))
      (ap (scan 0) (sym (append-nil (digits 20 a)))
        ∙ (scan-digits 20 a 0 [] (omega arith) (omega arith)
            ∙ scan_end a (10 ^ length (digits 20 a))))
      ha

-- A number of `fuel` digits at most has as many digits as its size says.
pub length-digits :
    (fuel w n : ℕ) → suc w ≤ fuel → 10 ^ w ≤ n → n < 10 ^ suc w → length (digits fuel n) ≡ suc w
length-digits zero w n f a b = absurd (omega arith)
length-digits (suc f) zero n g a b = rw (digits_one f n (omega arith)) refl
length-digits (suc f) (suc w) n g a b =
    rw
      (
        digits_more f n (omega (arith, pow-suc 10 w, pow_pos w)),
        length-append (digits f (n / 10)) ((b'0' + n % 10) ∷ []),
        length-digits f w (n / 10) (omega arith) (omega (arith, pow-suc 10 w))
            (omega (arith, pow-suc 10 (suc w))),
      )
      (omega arith)

pub length-to_string :
    (w n : ℕ) → suc w ≤ 20 → 10 ^ w ≤ n → n < 10 ^ suc w → length (to_string n) ≡ suc w
unfolding to_string
length-to_string w n s lo hi = length-digits 20 w n s lo hi

-- What cannot go on a number.
abbrev pub StopsNumber : Bytes → Type 0
StopsNumber [] = Unit
StopsNumber (c ∷ s) = is_digit c ≡ false

scan_stop : (v : ℕ) (rest : Bytes) → StopsNumber rest → scan v rest ≡ v
unfolding scan
scan_stop v [] h = refl
scan_stop v (c ∷ s) h = rw h

pub scan-to_string :
    (n : ℕ) (rest : Bytes) → n < 2 ^ 64 → StopsNumber rest → scan 0 (to_string n ++ rest) ≡ n
unfolding to_string
scan-to_string n rest h stop =
    scan-digits 20 n 0 rest (omega arith) (omega arith)
    ∙ (scan_stop (0 * 10 ^ length (digits 20 n) + n) rest stop ∙ omega arith)
