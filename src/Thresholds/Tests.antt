-- ===== src/Thresholds/Tests.antt =====
-- The default limits of internal/stats/thresholds.go.
use mping.Base.{ℕ, ◌≡◌, refl, none}
use mping.Base.Sample.{whole}
use mping.Thresholds.{Thresholds, default_thresholds, validate}

abbrev defaults : Thresholds ℕ
defaults = default_thresholds whole

defaults-validate : validate whole defaults ≡ none
unfolding validate default_thresholds
defaults-validate = refl
