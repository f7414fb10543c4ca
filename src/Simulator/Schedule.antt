-- ===== src/Simulator/Schedule.antt =====
-- The distribution of the load (schedule, src/ran_simulator.cpp), which main does
-- not call. The samples of std::poisson_distribution are an argument. An array is a list of its
-- entries, and a write behind its end is a fault.
use sba_g_rpc_5g.Base.{
  ℕ, zero, suc, ◌+◌, ◌-◌, ◌*◌, ◌/◌, ◌≤◌, ◌<◌, ◌≡◌, refl, ap, ◌∙◌, List, [], ◌∷◌, length, replicate,
  length-replicate, arith, ◌==◌, if◌then◌else◌, inl, inr, Bool-cases,
}
use sba_g_rpc_5g.Result.{Result, ok, fault, overrun, ◌>>=◌}

-- nstars, TimePeriod and nrolls
abbrev pub nstars : ℕ
nstars = 100

abbrev pub time_period : ℕ
time_period = 14000

abbrev pub nrolls : ℕ
nrolls = 10000

-- TimetoStart[i] = v
unfoldable pub write : ℕ → ℕ → List ℕ → Result (List ℕ)
write i v [] = fault overrun
write zero v (x ∷ xs) = ok (v ∷ xs)
write (suc i) v (x ∷ xs) = do ys ← write i v xs; ok (x ∷ ys)

-- p[k], after all samples. Only the entries below time_period are read, so the test for it in the
-- source makes no difference.
unfoldable pub histogram : ℕ → List ℕ → ℕ
histogram k [] = 0
histogram k (number ∷ rolls) =
    let rest = histogram k rolls in if number == k then rest + 1 else rest

-- arrivalsAtTime[k]
unfoldable pub arrivals_at_time : List ℕ → ℕ → ℕ
arrivals_at_time rolls k = histogram k rolls * 70 / nrolls

-- The inner loop over the UEs that arrive at `k`
unfoldable pub place_ues : ℕ → ℕ → ℕ → List ℕ → Result (ℕ × List ℕ)
place_ues zero k ue_num times = ok (ue_num, times)
place_ues (suc n) k ue_num times = do
  times1 ← write ue_num k times
  place_ues n k (ue_num + 1) times1

-- The loop over the times, of which `n` are left
unfoldable pub place : ℕ → ℕ → List ℕ → ℕ → List ℕ → Result (ℕ × List ℕ)
place zero k rolls ue_num times = ok (ue_num, times)
place (suc n) k rolls ue_num times = do
  (ue_num1, times1) ← place_ues (arrivals_at_time rolls k) k ue_num times
  place n (k + 1) rolls ue_num1 times1

-- for (int j = lowerbound; j <= upperbound; j++), with `n` rounds left
unfoldable pub set_range : ℕ → ℕ → ℕ → List ℕ → Result (List ℕ)
set_range zero j v times = ok times
set_range (suc n) j v times = do times1 ← write j v times; set_range n (j + 1) v times1

-- The rounds with i from 0 to 9
unfoldable pub first_rounds : ℕ → ℕ → ℕ → ℕ → List ℕ → Result (ℕ × ℕ × List ℕ)
first_rounds zero i lowerbound upperbound times = ok (lowerbound, upperbound, times)
first_rounds (suc n) i lowerbound upperbound times = do
  times1 ← set_range (upperbound + 1 - lowerbound) lowerbound (3 + 60 * i) times
  first_rounds n (i + 1) (lowerbound + 2 * (i + 1)) (upperbound + 2 * (i + 2)) times1

-- The rounds with i from 14 to 18. `k` is one more than in the source, where it ends below 0.
unfoldable pub last_rounds : ℕ → ℕ → ℕ → ℕ → ℕ → List ℕ → Result (List ℕ)
last_rounds zero i k lowerbound upperbound times = ok times
last_rounds (suc n) i k lowerbound upperbound times = do
  times1 ← set_range (upperbound + 1 - lowerbound) lowerbound (3 + 60 * i) times
  last_rounds n (i + 1) (k - 1) (lowerbound + 2 * k - 2) (upperbound + 2 * k) times1

-- TimetoStart, as the first loop leaves it
unfoldable pub time_to_start : List ℕ
time_to_start = replicate nstars 1000

unfoldable pub schedule : List ℕ → Result (List ℕ)
schedule rolls = do
  (ue_num, times) ← place time_period 0 rolls 0 time_to_start
  (lowerbound, upperbound, times1) ← first_rounds 10 0 0 2 times
  last_rounds 5 14 4 lowerbound upperbound times1

-- What is left to place.
total : (ℕ → ℕ) → ℕ → ℕ → ℕ
total f zero k = 0
total f (suc n) k = f k + total f n (k + 1)

written :
    (i v : ℕ) (xs : List ℕ)
    → i < length xs
    → (ys : List ℕ) × (write i v xs ≡ ok ys) × (length ys ≡ length xs)
unfolding write
written i v [] h = absurd (omega arith)
written zero v (x ∷ xs) h = (v ∷ xs, refl, refl)
written (suc i) v (x ∷ xs) h =
    let r = written i v xs (omega arith) in (x ∷ r.0, rw r.1 refl, ap suc r.2)

overwritten : (i v : ℕ) (xs : List ℕ) → length xs ≤ i → write i v xs ≡ fault overrun
unfolding write
overwritten i v [] h = refl
overwritten zero v (x ∷ xs) h = absurd (omega arith)
overwritten (suc i) v (x ∷ xs) h = rw (overwritten i v xs (omega arith)) refl

range_set :
    (n j v : ℕ) (xs : List ℕ)
    → j + n ≤ length xs
    → (ys : List ℕ) × (set_range n j v xs ≡ ok ys) × (length ys ≡ length xs)
unfolding set_range
range_set zero j v xs h = (xs, refl, refl)
range_set (suc n) j v xs h =
    let r = written j v xs (omega arith) in
    let s = range_set n (j + 1) v r.0 (omega (arith, r.2)) in (s.0, rw (r.1, s.1) refl, s.2 ∙ r.2)

range_overrun :
    (n j v : ℕ) (xs : List ℕ)
    → j ≤ length xs
    → length xs < j + n
    → set_range n j v xs ≡ fault overrun
unfolding set_range
range_overrun zero j v xs h k = absurd (omega arith)
range_overrun (suc n) j v xs h k = elim (Bool-cases (j == length xs)) [
  | inl here ↦ rw (overwritten j v xs (ground (arith, here))) refl
  | inr before ↦
      let r = written j v xs (ground (arith, h, before)) in
      rw
        (
          r.1,
          range_overrun n (j + 1) v r.0 (ground (arith, r.2, h, before)) (omega (arith, r.2, k)),
        )
        refl
]

ues_placed :
    (n k ue : ℕ) (xs : List ℕ)
    → ue + n ≤ length xs
    → (ys : List ℕ) × (place_ues n k ue xs ≡ ok (ue + n, ys)) × (length ys ≡ length xs)
unfolding place_ues
ues_placed zero k ue xs h = (xs, ap (λ m. ok (m, xs)) (omega arith), refl)
ues_placed (suc n) k ue xs h =
    let r = written ue k xs (omega arith) in
    let s = ues_placed n k (ue + 1) r.0 (omega (arith, r.2)) in
    (s.0, rw (r.1, s.1) (ap (λ m. ok (m, s.0)) (omega arith)), s.2 ∙ r.2)

placed :
    (n k ue : ℕ) (rolls xs : List ℕ)
    → ue + total (arrivals_at_time rolls) n k ≤ length xs
    → (ys : List ℕ) × (place n k rolls ue xs ≡ ok (ue + total (arrivals_at_time rolls) n k, ys))
      × (length ys ≡ length xs)
unfolding place total
placed zero k ue rolls xs h = (xs, ap (λ m. ok (m, xs)) (omega arith), refl)
placed (suc n) k ue rolls xs h =
    let here = arrivals_at_time rolls k in
    let r = ues_placed here k ue xs (omega arith) in
    let s = placed n (k + 1) (ue + here) rolls r.0 (omega (arith, r.2)) in
    (s.0, rw (r.1, s.1) (ap (λ m. ok (m, s.0)) (omega arith)), s.2 ∙ r.2)

-- One more sample adds to one time at most.
count_before :
    (n k x : ℕ) (rolls : List ℕ)
    → x < k
    → total (λ j. histogram j (x ∷ rolls)) n k ≡ total (λ j. histogram j rolls) n k
unfolding total histogram
count_before zero k x rolls h = refl
count_before (suc n) k x rolls h = ground (arith, count_before n (k + 1) x rolls (omega arith), h)

count_once :
    (n k x : ℕ) (rolls : List ℕ)
    → total (λ j. histogram j (x ∷ rolls)) n k ≤ total (λ j. histogram j rolls) n k + 1
unfolding total histogram
count_once zero k x rolls = omega arith
count_once (suc n) k x rolls = elim (Bool-cases (x == k)) [
  | inl here ↦ ground (arith, here, count_before n (k + 1) x rolls (ground (arith, here)))
  | inr other ↦ ground (arith, other, count_once n (k + 1) x rolls)
]

none_counted : (n k : ℕ) → total (λ j. histogram j []) n k ≡ 0
unfolding total histogram
none_counted zero k = refl
none_counted (suc n) k = omega (arith, none_counted n (k + 1))

counted : (n k : ℕ) (rolls : List ℕ) → total (λ j. histogram j rolls) n k ≤ length rolls
counted n k [] = omega (arith, none_counted n k)
counted n k (x ∷ rolls) = omega (arith, count_once n k x rolls, counted n k rolls)

arrivals_total :
    (n k : ℕ) (rolls : List ℕ)
    → total (arrivals_at_time rolls) n k * 10000 ≤ total (λ j. histogram j rolls) n k * 70
unfolding total arrivals_at_time
arrivals_total zero k rolls = omega arith
arrivals_total (suc n) k rolls = omega (arith, arrivals_total n (k + 1) rolls)

-- The rounds from `i` on write behind the end of the array, whatever is in it.
abbrev Overruns : ℕ → ℕ → ℕ → ℕ → Type 0
Overruns n i lo up = (xs : List ℕ) → length xs ≡ nstars → first_rounds n i lo up xs ≡ fault overrun

step-Overruns :
    (n i lo up : ℕ)
    → lo ≤ up + 1
    → up < nstars
    → Overruns n (i + 1) (lo + 2 * (i + 1)) (up + 2 * (i + 2))
    → Overruns (suc n) i lo up
unfolding first_rounds
step-Overruns n i lo up h k next xs e =
    let r = range_set (up + 1 - lo) lo (3 + 60 * i) xs (omega (arith, h, k, e)) in
    rw (r.1, next r.0 (r.2 ∙ e)) refl

last-Overruns : (n i lo up : ℕ) → lo ≤ nstars → nstars ≤ up → Overruns (suc n) i lo up
unfolding first_rounds
last-Overruns n i lo up h k xs e =
    rw
      (range_overrun (up + 1 - lo) lo (3 + 60 * i) xs (omega (arith, h, e))
        (omega (arith, h, k, e)))
      refl

first_rounds-overrun : Overruns 10 0 0 2
first_rounds-overrun = step-Overruns 9 0 0 2 (omega arith) (omega arith) (
    step-Overruns 8 1 2 6 (omega arith) (omega arith) (
      step-Overruns 7 2 6 12 (omega arith) (omega arith) (
        step-Overruns 6 3 12 20 (omega arith) (omega arith) (
          step-Overruns 5 4 20 30 (omega arith) (omega arith) (
            step-Overruns 4 5 30 42 (omega arith) (omega arith) (
              step-Overruns 3 6 42 56 (omega arith) (omega arith) (
                step-Overruns 2 7 56 72 (omega arith) (omega arith) (
                  step-Overruns 1 8 72 90 (omega arith) (omega arith)
                    (last-Overruns 0 9 90 110 (omega arith) (omega arith))))))))))

length-time_to_start : length time_to_start ≡ nstars
unfolding time_to_start
length-time_to_start = length-replicate nstars 1000

-- Whatever the 10000 samples are, the loops over the arrivals place at most 70 UEs and stay inside
-- the array of 100 entries, and the rounds after them write behind its end.
pub schedule-overrun :
    (rolls : List ℕ)
    → length rolls ≡ nrolls
    → (ue_num : ℕ) × (times : List ℕ) × (place time_period 0 rolls 0 time_to_start
        ≡ ok (ue_num, times))
      × (ue_num ≤ 70)
      × (length times ≡ nstars)
      × (schedule rolls ≡ fault overrun)
unfolding schedule
schedule-overrun rolls h =
    let few : total (arrivals_at_time rolls) time_period 0 ≤ 70 =
      omega (arith, arrivals_total time_period 0 rolls, counted time_period 0 rolls, h) in
    let r = placed time_period 0 0 rolls time_to_start (omega (arith, few, length-time_to_start)) in
    (
      _,
      r.0,
      r.1,
      omega (arith, few),
      r.2 ∙ length-time_to_start,
      rw (r.1, first_rounds-overrun r.0 (r.2 ∙ length-time_to_start)) refl,
    )
