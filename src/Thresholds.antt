-- ===== src/Thresholds.antt =====
-- internal/stats/thresholds.go: the limits by which measurements are judged.
-- Percentages are `float64`, whose operations are the argument `fl`.
use mping.Base.{ℕ, Bool, ◌||◌, Option, none, some, ltb, ◌==◌, ◌+◌, if◌then◌else◌}
use mping.Base.Int.{ℤ, pos, ltb_ℤ, leb_ℤ}
use mping.Base.Float.{Floats}
use mping.Base.Text.{String, str_eq}
pub mod Order
pub mod Tests

pub record Thresholds (F : Type 0) : Type 0 where
  pub rtt_warn : ℤ
  pub rtt_crit : ℤ
  pub jitter_warn : ℤ
  pub jitter_crit : ℤ
  pub loss_warn : F
  pub loss_crit : F

abbrev pub millisecond : ℕ
millisecond = 1000000

abbrev pub second : ℕ
second = 1000000000

pub data Level : Type 0 where
  none_yet pending ok warn crit : Level

-- The errors of `Validate`, one for each message.
pub data ThresholdError : Type 0 where
  rtt_not_positive rtt_order jitter_not_positive jitter_order loss_range loss_order : ThresholdError

unfoldable pub duration_level : ℤ → ℤ → ℤ → Level
duration_level d warn_at crit_at =
    if leb_ℤ d (pos 0)
    then none_yet
    else if ltb_ℤ crit_at d
    then crit
    else if ltb_ℤ warn_at d
    then warn
    else ok

pub record Levels : Type 0 where
  pub loss : Level
  pub last_rtt : Level
  pub jitter : Level

module _ {F : Type 0} (fl : Floats F) where
  unfoldable pub default_thresholds : Thresholds F
  default_thresholds = record {
    rtt_warn = pos 50000000;
    rtt_crit = pos 200000000;
    jitter_warn = pos 10000000;
    jitter_crit = pos 50000000;
    loss_warn = fl.of_int (pos 20);
    loss_crit = fl.of_int (pos 80);
  }

  abbrev pub lt0 : F → Bool
  lt0 x = fl.gt (fl.of_int (pos 0)) x

  abbrev pub gt100 : F → Bool
  gt100 x = fl.gt x (fl.of_int (pos 100))

  -- The first complaint, or `none` if the thresholds are accepted.
  unfoldable pub validate : Thresholds F → Option ThresholdError
  validate t =
      if leb_ℤ t.rtt_warn (pos 0) || leb_ℤ t.rtt_crit (pos 0)
      then some rtt_not_positive
      else if leb_ℤ t.rtt_crit t.rtt_warn
      then some rtt_order
      else if leb_ℤ t.jitter_warn (pos 0) || leb_ℤ t.jitter_crit (pos 0)
      then some jitter_not_positive
      else if leb_ℤ t.jitter_crit t.jitter_warn
      then some jitter_order
      else if fl.is_nan t.loss_warn
          || fl.is_nan t.loss_crit
          || lt0 t.loss_warn
          || gt100 t.loss_warn
          || lt0 t.loss_crit
          || gt100 t.loss_crit
      then some loss_range
      else if fl.ge t.loss_warn t.loss_crit
      then some loss_order
      else none

  unfoldable pub rtt_level : Thresholds F → ℤ → Level
  rtt_level t d = duration_level d t.rtt_warn t.rtt_crit

  unfoldable pub jitter_level : Thresholds F → ℤ → Level
  jitter_level t d = duration_level d t.jitter_warn t.jitter_crit

  unfoldable pub loss_level : Thresholds F → F → Level
  loss_level t pct =
      if fl.gt pct t.loss_crit then crit else if fl.gt pct t.loss_warn then warn else ok

  unfoldable pub hop_loss_level : Thresholds F → F → Level
  hop_loss_level t pct =
      if fl.ge pct t.loss_crit then crit else if fl.gt pct (fl.of_int (pos 0)) then warn else ok

  unfoldable pub loss_ratio : ℕ → ℕ → F
  loss_ratio recv loss =
      if recv + loss == 0
      then fl.of_int (pos 0)
      else fl.mul (fl.div (fl.of_int (pos loss)) (fl.of_int (pos (recv + loss))))
          (fl.of_int (pos 100))

  unfoldable pub levels : Thresholds F → ℕ → ℕ → ℤ → ℤ → Levels
  levels t recv loss last_rtt jitter = record {
    loss = if ltb 0 (recv + loss) then loss_level t (loss_ratio recv loss) else none_yet;
    last_rtt = rtt_level t last_rtt;
    jitter = jitter_level t jitter;
  }

unfoldable pub port_status_level : String → Level
port_status_level status =
    if str_eq status "Open"
    then ok
    else if str_eq status "Closed"
    then crit
    else if str_eq status "Filtered" || str_eq status "Open|Filtered"
    then warn
    else pending

unfoldable pub http_status_level : String → Level
http_status_level status =
    if str_eq status "Up"
    then ok
    else if str_eq status "Down" || str_eq status "Error"
    then crit
    else pending
