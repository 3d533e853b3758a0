-- ===== src/Rtt/Bounds.antt =====
-- What `record` and `avg` of internal/stats/rtt_accumulator.go compute from a run of measurements.
use native.Mathlib.Nat.{mul-le-mul_right, le-div_iff_mul-le, div-le_of_le-mul}
use mping.Base.{
  ℕ, zero, suc, ◌+◌, ◌*◌, ◌/◌, ◌≤◌, ◌<◌, min, max, ◌≡◌, refl, ◌≢◌, List, [], ◌∷◌, arith, length,
}
use mping.Base.Int.{ℤ, pos, negsuc, ◌+ℤ◌, ◌≤ℤ◌, wrap64-eq_of_InRange, two63, quot}
use mping.Base.Float.{Floats}
use mping.Rtt.{RttAccumulator, fresh, record_rtt, avg}

-- The positive times of a run, as numbers of nanoseconds.
abbrev pub accepted : List ℤ → List ℕ
accepted [] = []
accepted (pos zero ∷ xs) = accepted xs
accepted (pos (suc n) ∷ xs) = suc n ∷ accepted xs
accepted (negsuc n ∷ xs) = accepted xs

abbrev pub total : List ℕ → ℕ
total [] = 0
total (x ∷ xs) = x + total xs

abbrev pub least : List ℕ → ℕ
least [] = 0
least (x ∷ []) = x
least (x ∷ y ∷ ys) = min x (least (y ∷ ys))

abbrev pub greatest : List ℕ → ℕ
greatest [] = 0
greatest (x ∷ xs) = max x (greatest xs)

-- The accumulator after a run of measurements, newest first.
abbrev pub record_all : {F : Type 0} → Floats F → List ℤ → RttAccumulator F
record_all fl [] = fresh fl
record_all fl (x ∷ xs) = record_rtt fl x (record_all fl xs)

pub record Summarises {F : Type 0} (ys : List ℕ) (a : RttAccumulator F) : Type 0 where
  pub samples_eq : a.samples ≡ length ys
  pub sum_eq : a.sum ≡ pos (total ys)
  pub min_eq : a.min_rtt ≡ pos (least ys)
  pub max_eq : a.max_rtt ≡ pos (greatest ys)

fresh-Summarises : {F : Type 0} (fl : Floats F) → Summarises [] (fresh fl)
unfolding fresh
fresh-Summarises fl = record { samples_eq = refl; sum_eq = refl; min_eq = refl; max_eq = refl }

-- A list that starts with a positive time: its least is positive if the rest of it is so.
abbrev AllPositive : List ℕ → Type 0
AllPositive [] = Unit {0}
AllPositive (x ∷ xs) = (0 < x) × AllPositive xs

accepted-AllPositive : (xs : List ℤ) → AllPositive (accepted xs)
accepted-AllPositive [] = tt
accepted-AllPositive (pos zero ∷ xs) = accepted-AllPositive xs
accepted-AllPositive (pos (suc n) ∷ xs) = (omega arith, accepted-AllPositive xs)
accepted-AllPositive (negsuc n ∷ xs) = accepted-AllPositive xs

least_pos : (x : ℕ) (xs : List ℕ) → AllPositive (x ∷ xs) → 0 < least (x ∷ xs)
least_pos x [] h = h.0
least_pos x (y ∷ ys) h = omega (arith, least_pos y ys h.1)

record_rtt_ignored :
    {F : Type 0} (fl : Floats F) (x : ℤ) (a : RttAccumulator F) → x ≤ℤ pos 0 → record_rtt fl x a ≡ a
unfolding record_rtt
record_rtt_ignored fl x a h = ground arith

step-Summarises :
    {F : Type 0} (fl : Floats F) (n : ℕ) (ys : List ℕ) (a : RttAccumulator F)
    → AllPositive ys
    → total (suc n ∷ ys) < two63
    → Summarises ys a
    → Summarises (suc n ∷ ys) (record_rtt fl (pos (suc n)) a)
unfolding record_rtt ◌+ℤ◌
step-Summarises fl n [] a h lt s = ground (arith, wrap64-eq_of_InRange (a.sum +ℤ pos (suc n)))
step-Summarises fl n (y ∷ ys) a h lt s =
    ground (arith, wrap64-eq_of_InRange (a.sum +ℤ pos (suc n)), least_pos y ys h)

-- After a run of measurements whose positive times sum to less than 2^63, the accumulator holds
-- their number, sum, minimum and maximum; times that are not positive leave no trace.
pub record_all-Summarises :
    {F : Type 0} (fl : Floats F) (xs : List ℤ)
    → total (accepted xs) < two63
    → Summarises (accepted xs) (record_all fl xs)
record_all-Summarises fl [] h = fresh-Summarises fl
record_all-Summarises fl (pos zero ∷ xs) h =
    rw (record_rtt_ignored fl (pos zero) (record_all fl xs) (omega arith))
      (record_all-Summarises fl xs h)
record_all-Summarises fl (pos (suc n) ∷ xs) h =
    step-Summarises fl n (accepted xs) (record_all fl xs) (accepted-AllPositive xs) h
      (record_all-Summarises fl xs (omega arith))
record_all-Summarises fl (negsuc n ∷ xs) h =
    rw (record_rtt_ignored fl (negsuc n) (record_all fl xs) (omega arith))
      (record_all-Summarises fl xs h)

least_step : (y m n t : ℕ) → m * n ≤ t → min y m * suc n ≤ y + t
least_step y m n t h = omega (arith, mul-le-mul_right {m = min y m} {n = m} n (omega arith))

least-mul-length : (y : ℕ) (ys : List ℕ) → least (y ∷ ys) * length (y ∷ ys) ≤ total (y ∷ ys)
least-mul-length y [] = omega arith
least-mul-length y (z ∷ zs) =
    least_step y (least (z ∷ zs)) (length (z ∷ zs)) (total (z ∷ zs)) (least-mul-length z zs)

total-le-mul : (ys : List ℕ) → total ys ≤ length ys * greatest ys
total-le-mul [] = omega arith
total-le-mul (y ∷ ys) = grind (arith, total-le-mul ys)

bounds :
    {F : Type 0} (ys : List ℕ) (a : RttAccumulator F)
    → ys ≢ []
    → Summarises ys a
    → (a.min_rtt ≤ℤ avg a) × (avg a ≤ℤ a.max_rtt)
unfolding avg quot
bounds [] a ne s = absurd (ne refl)
bounds (y ∷ ys) a ne s =
    let n : ℕ = length (y ∷ ys) in
    let low : least (y ∷ ys) ≤ total (y ∷ ys) / n =
      (le-div_iff_mul-le (omega arith)).1 (least-mul-length y ys) in
    let high : total (y ∷ ys) / n ≤ greatest (y ∷ ys) =
      div-le_of_le-mul n (total-le-mul (y ∷ ys)) in
    rw (s.samples_eq, s.sum_eq, s.min_eq, s.max_eq) (ground (arith, low, high))

-- After a run with at least one positive time and a sum below 2^63, the average lies between the
-- minimum and the maximum.
pub avg_bounds :
    {F : Type 0} (fl : Floats F) (xs : List ℤ)
    → accepted xs ≢ []
    → total (accepted xs) < two63
    → ((record_all fl xs).min_rtt ≤ℤ avg (record_all fl xs))
      × (avg (record_all fl xs) ≤ℤ (record_all fl xs).max_rtt)
avg_bounds fl xs ne h = bounds (accepted xs) (record_all fl xs) ne (record_all-Summarises fl xs h)
