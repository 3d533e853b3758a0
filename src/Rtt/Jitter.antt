-- ===== src/Rtt/Jitter.antt =====
-- The smoothing step of internal/stats/rtt_accumulator.go (`updateJitter`).
use mping.Base.{ℕ, ◌+◌, ◌-◌, ◌<◌, min, max, ◌≡◌, if◌then◌else◌, arith}
use mping.Base.Int.{pos, ◌+ℤ◌, ◌-ℤ◌, wrap64, wrap64-eq_of_InRange, quot, ◌≤ℤ◌, two63, ltb_ℤ}
use mping.Rtt.{update_jitter}

abbrev pub distance : ℕ → ℕ → ℕ
distance a b = (a - b) + (b - a)

abs_difference :
    (rtt last : ℕ)
    → rtt < two63
    → last < two63
    → (if ltb_ℤ (wrap64 (pos rtt -ℤ pos last)) (pos 0)
        then wrap64 (pos 0 -ℤ wrap64 (pos rtt -ℤ pos last))
        else wrap64 (pos rtt -ℤ pos last))
      ≡ pos (distance rtt last)
unfolding ◌-ℤ◌
abs_difference rtt last hr hl = ground (
  arith,
  wrap64-eq_of_InRange (pos rtt -ℤ pos last),
  wrap64-eq_of_InRange (pos 0 -ℤ (pos rtt -ℤ pos last)),
)

smooth_bounds :
    (j d : ℕ)
    → j < two63
    → d < two63
    → let r = wrap64 (pos j +ℤ quot (wrap64 (pos d -ℤ pos j)) 16) in
      (pos (min j d) ≤ℤ r) × (r ≤ℤ pos (max j d))
unfolding ◌-ℤ◌ ◌+ℤ◌ quot
smooth_bounds j d hj hd = ground (
  arith,
  wrap64-eq_of_InRange (pos d -ℤ pos j),
  wrap64-eq_of_InRange (pos j +ℤ quot (pos d -ℤ pos j) 16),
)

-- On times and a jitter that are not negative the step does not overflow: the new jitter lies between
-- the old one and the distance of the two times, and so is not negative.
pub update_jitter_bounds :
    (j rtt last : ℕ)
    → j < two63
    → rtt < two63
    → last < two63
    → (pos (min j (distance rtt last)) ≤ℤ update_jitter (pos j) (pos rtt) (pos last))
      × (update_jitter (pos j) (pos rtt) (pos last) ≤ℤ pos (max j (distance rtt last)))
unfolding update_jitter
update_jitter_bounds j rtt last hj hr hl =
    rw (abs_difference rtt last hr hl) (smooth_bounds j (distance rtt last) hj (omega arith))
