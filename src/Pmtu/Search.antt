-- ===== src/Pmtu/Search.antt =====
-- The bisection of internal/pinger/pmtu.go: what its result was confirmed by.
use native.Mathlib.Numerals.{unary_clauses}
use mping.Base.{
  ℕ, zero, suc, ◌+◌, ◌-◌, ◌*◌, ◌^◌, ◌/◌, ◌≤◌, ◌<◌, ◌≡◌, refl, ◌⊎◌, inl, inr, true, false, arith,
  ltb, ltb→lt, Bool-cases,
}
use mping.Base.Int.{ℤ, pos, leb_ℤ}
use mping.Base.Text.{String}
use mping.Pmtu.{
  Answer, fits, blocked, broken, Discovery, payload, error, overflowed, out_of_fuel, largest_int,
  Network, nonnegative, baseline, narrow, max_rounds, after_baseline, discover_max_payload,
}

-- A size that an attempt confirmed, and one that an attempt did not get through.
abbrev pub Confirmed : Network → ℕ → Type 0
Confirmed net s = (n : ℕ) × (net.answer n s ≡ fits)

abbrev pub Refused : Network → ℕ → Type 0
Refused net s = (n : ℕ) × (h : String) × (net.answer n s ≡ blocked h)

-- A payload found lies between the bounds, was confirmed, and is the upper bound or the size
-- above it was refused.
abbrev pub Found : Network → ℕ → ℕ → Discovery → Type 0
Found net low top (payload s h) =
    (low ≤ s) × (s ≤ top) × Confirmed net s × ((s ≡ top) ⊎ Refused net (s + 1))
Found net low top (error e h) = Unit {0}
Found net low top overflowed = ⊥
Found net low top out_of_fuel = ⊥

Answer-cases :
    (a : Answer)
    → (a ≡ fits)
      ⊎ (((h : String) × (a ≡ blocked h)) ⊎ ((e : String) × (h : String) × (a ≡ broken e h)))
Answer-cases fits = inl refl
Answer-cases (blocked h) = inr (inl (h, refl))
Answer-cases (broken e h) = inr (inr (e, h, refl))

pub narrow-Found :
    (fuel : ℕ) (net : Network) (n low high base top : ℕ) (hop : String)
    → high < low + 2 ^ fuel
    → base ≤ low
    → low ≤ high
    → high ≤ top
    → top < 2 ^ 62
    → Confirmed net low
    → (high ≡ top) ⊎ Refused net (high + 1)
    → Found net base top (narrow fuel net n low high hop)
unfolding narrow
narrow-Found zero net n low high base top hop small p q r int c d =
    let one : suc high ≤ suc low = simp unary_clauses at small in
    let e : ltb low high ≡ false = ground arith in
    let same : low ≡ high = omega arith in rw e (p, omega arith, c, rw same d)
narrow-Found (suc fuel) net n low high base top hop small p q r int c d =
    let mid = (low + high + 1) / 2 in
    let below : ltb low high ≡ true → mid - 1 + 1 ≡ mid = λ e. ground arith in
    let half : suc high ≤ low + 2 ^ fuel * 2 = simp unary_clauses at small in
    elim (Bool-cases (ltb low high)) [
      | inr e ↦
          let same : low ≡ high = ground arith in rw (narrow, e) (p, omega arith, c, rw same d)
      | inl e ↦
          let lt : low < high = ltb→lt low high e in
          let room : ltb largest_int (low + high + 1) ≡ false = ground arith in
          elim (Bool-cases (net.is_done n)) [
            | inl x ↦ rw (narrow, e, x) tt
            | inr x ↦ elim (Answer-cases (net.answer n mid)) [
              | inl a ↦
                  rw (narrow, e, x, room, a)
                    (narrow-Found fuel net (n + 1) mid high base top hop (omega arith) (omega arith)
                      (omega arith) r int (n, a) d)
              | inr (inl (h, a)) ↦
                  rw (narrow, e, x, room, a)
                    (narrow-Found fuel net (n + 1) low (mid - 1) base top _ (omega arith) p
                      (omega arith) (omega arith) int c (inr (n, h, rw (below e) a)))
              | inr (inr (err, h, a)) ↦ rw (narrow, e, x, room, a) tt
            ]
          ]
    ]

after_baseline-Found :
    (net : Network) (low top : ℕ) (a : Answer)
    → top < 2 ^ 62
    → low ≤ top
    → net.answer 0 low ≡ a
    → Found net low top (after_baseline net low top a)
unfolding after_baseline
after_baseline-Found net low top fits small le e = elim (Bool-cases (net.is_done 1)) [
  | inl x ↦ rw (after_baseline, x) tt
  | inr x ↦
      rw (after_baseline, x)
        (narrow-Found max_rounds net 2 low top low top "" (omega arith) (omega arith) le
          (omega arith) small (0, e) (inl refl))
]
after_baseline-Found net low top (blocked h) small le e = elim (Bool-cases (net.is_done 1)) [
  | inl x ↦ rw (after_baseline, x) tt
  | inr x ↦ rw (after_baseline, x) tt
]
after_baseline-Found net low top (broken err h) small le e = tt

-- For every network and every start below 2^62: where the search finds a payload, its size lies between
-- the baseline and the start and an attempt confirmed it; it is the start, or an attempt at the size above
-- was refused. The search ends within the rounds of the model, and its sums do not overflow.
pub discover_max_payload-Found :
    (net : Network) (start least : ℤ)
    → nonnegative start < 2 ^ 62
    → Found net
        (baseline (nonnegative start) least)
        (nonnegative start)
        (discover_max_payload net start least)
unfolding discover_max_payload
discover_max_payload-Found net start least small =
    let top = nonnegative start in
    let low = baseline top least in
    let under : low ≤ top = ground arith in
    elim (Bool-cases (leb_ℤ start (pos zero))) [
      | inl e ↦ rw (discover_max_payload, e) tt
      | inr e ↦ elim (Bool-cases (net.is_done 0)) [
        | inl x ↦ rw (discover_max_payload, e, x) tt
        | inr x ↦ elim (Bool-cases net.id_free) [
          | inr i ↦ rw (discover_max_payload, e, x, i) tt
          | inl i ↦
              simp (discover_max_payload, e, x, i)
                (after_baseline-Found net low top (net.answer 0 low) small under refl)
        ]
      ]
    ]
