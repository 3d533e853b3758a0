-- ===== src/Thresholds/Order.antt =====
-- The order of the levels of internal/stats/thresholds.go.
use mping.Base.{ℕ, ◌≤◌, ◌≡◌, true, none, arith}
use mping.Base.Int.{ℤ, pos, ◌≤ℤ◌, ltb_ℤ}
use mping.Base.Float.{Floats}
use mping.Thresholds.{
  Thresholds, Level, none_yet, pending, ok, warn, crit, duration_level, validate,
}

abbrev pub rank : Level → ℕ
rank none_yet = 0
rank pending = 0
rank ok = 1
rank warn = 2
rank crit = 3

-- A longer time is never at a lower level, whatever the limits are.
pub duration_level_mono :
    (d d' warn_at crit_at : ℤ)
    → d ≤ℤ d'
    → rank (duration_level d warn_at crit_at) ≤ rank (duration_level d' warn_at crit_at)
unfolding duration_level
duration_level_mono d d' warn_at crit_at le = ground arith

-- Thresholds that are accepted have positive limits in order, for the times and for the jitter.
pub validate-ordered :
    {F : Type 0} (fl : Floats F) (t : Thresholds F)
    → validate fl t ≡ none
    → (ltb_ℤ (pos 0) t.rtt_warn ≡ true)
      × (ltb_ℤ t.rtt_warn t.rtt_crit ≡ true)
      × (ltb_ℤ (pos 0) t.jitter_warn ≡ true)
      × (ltb_ℤ t.jitter_warn t.jitter_crit ≡ true)
unfolding validate
validate-ordered fl t e = ground arith
