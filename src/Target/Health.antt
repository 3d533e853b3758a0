-- ===== src/Target/Health.antt =====
-- internal/stats/health.go: the judgment of a target from its recent outcomes.
use mping.Base.{
  ℕ, ◌+◌, ◌-◌, ◌/◌, ◌%◌, Bool, true, false, not, ◌&&◌, ◌||◌, Option, none, some, List, [], ◌∷◌,
  ◌++◌, length, replicate, modify, is_some, ltb, leb, ◌==◌, if◌then◌else◌,
}
use mping.Base.Int.{ℤ, pos, pos_part, quot, ltb_ℤ, leb_ℤ, eqb_ℤ}
use mping.Base.Float.{Floats}
use mping.Base.Text.{String, ◌<>◌, join}
use mping.Thresholds.{default_thresholds, validate, second, millisecond}
use mping.Target.State.{
  Target, HealthPolicy, TargetHealth, OutcomeBucket, Kind, Status, unset, pending, ok, warn, crit,
}
use mping.Target.Log.{record_event}

pub data PolicyError : Type 0 where
  counts_out_of_range window_out_of_range bad_thresholds : PolicyError

abbrev pub is_empty_list {ℓ} : {A : Type ℓ} → List A → Bool
is_empty_list [] = true
is_empty_list (x ∷ xs) = false

abbrev pub is_unset : Status → Bool
is_unset unset = true
is_unset _ = false

abbrev pub status_eq : Status → Status → Bool
status_eq unset unset = true
status_eq pending pending = true
status_eq ok ok = true
status_eq warn warn = true
status_eq crit crit = true
status_eq _ _ = false

abbrev pub status_string : Status → String
status_string unset = ""
status_string pending = "pending"
status_string ok = "ok"
status_string warn = "warn"
status_string crit = "crit"

-- The sum over the buckets in the window that ends now. `now - window` below 1970 leaves none out.
unfoldable pub in_window : ℕ → ℕ → ℕ → Bool
in_window now window s =
    (if ltb now window then true else ltb ((now - window) / second) s) && leb s (now / second)

unfoldable pub recent : ℕ → ℕ → List OutcomeBucket → ℕ × ℕ
recent now window [] = (0, 0)
recent now window (b ∷ bs) =
    let (received, lost) = recent now window bs in
    if in_window now window b.second
    then (b.replies + received, b.losses + lost)
    else (received, lost)

abbrev pub zero_bucket : OutcomeBucket
zero_bucket = record { second = 0; replies = 0; losses = 0 }

-- A slot that still holds an older second is taken over.
unfoldable pub count_outcome : ℕ → Bool → OutcomeBucket → OutcomeBucket
count_outcome s success b =
    let b' : OutcomeBucket =
      if b.second == s then b else record { second = s; replies = 0; losses = 0 } in
    if success then record b' { replies = b'.replies + 1 } else record b' { losses = b'.losses + 1 }

unfoldable pub bucket_count : ℤ → ℕ
bucket_count window = pos_part (quot window second) + 2

unfoldable pub add_outcome : ℕ → Bool → ℕ → List OutcomeBucket → List OutcomeBucket
add_outcome now success n bs =
    let s = now / second in
    let bs' = if length bs == n then bs else replicate n zero_bucket in
    modify bs' (s % n) (count_outcome s success)

module _ {F : Type 0} (fl : Floats F) where
  unfoldable pub default_policy : HealthPolicy F
  default_policy = record {
    failures = pos 3;
    recoveries = pos 2;
    window = pos 60000000000;
    thresholds = default_thresholds fl;
  }

  -- `HealthPolicy.Validate`.
  unfoldable pub validate_policy : HealthPolicy F → Option PolicyError
  validate_policy p =
      if ltb_ℤ p.failures (pos 1)
        || ltb_ℤ (pos 10000) p.failures
        || ltb_ℤ p.recoveries (pos 1)
        || ltb_ℤ (pos 10000) p.recoveries
      then some counts_out_of_range
      else if ltb_ℤ p.window (pos 1000000000) || ltb_ℤ (pos 3600000000000) p.window
      then some window_out_of_range
      else elim (validate fl p.thresholds) [ none ↦ none | some e ↦ some bad_thresholds ]

  -- `healthPolicyLocked`: a target that was never configured is judged by the default.
  unfoldable pub policy_of : TargetHealth F → HealthPolicy F
  policy_of h = if eqb_ℤ h.policy.failures (pos 0) then default_policy else h.policy

  -- `recentLossPct`.
  unfoldable pub recent_loss_pct : ℕ → ℕ → F
  recent_loss_pct received lost =
      if received + lost == 0
      then fl.of_int (pos 0)
      else fl.div (fl.mul (fl.of_int (pos 100)) (fl.of_int (pos lost)))
          (fl.of_int (pos (received + lost)))

  abbrev pub in_ms : ℤ → F
  in_ms d = fl.div (fl.of_int d) (fl.of_int (pos millisecond))

  -- One row of the table of checks: the status and the reasons found so far, and after it.
  unfoldable pub check_value :
      Bool → String → F → F → F → String → Status × List String → Status × List String
  check_value skip name value warn_at crit_at unit (status, reasons) =
      let reason =
        λ (limit : F). name <> " " <> fl.fixed1 value <> unit <> " > " <> fl.fixed1 limit <> unit in
      if skip
      then (status, reasons)
      else if fl.gt value crit_at
      then (crit, reasons ++ (reason crit_at ∷ []))
      else if fl.gt value warn_at
      then (if status_eq status crit then crit else warn, reasons ++ (reason warn_at ∷ []))
      else (status, reasons)

  -- The hysteresis: down after enough failures in a row, up again after enough replies in a row.
  unfoldable pub next_down : HealthPolicy F → ℕ → ℕ → Bool → Bool
  next_down p failures successes down =
      let down' = if leb_ℤ p.failures (pos failures) then true else down in
      if down' && leb_ℤ p.recoveries (pos successes) then false else down'

  -- The judgment of a target that is up, from its recent loss, last time and jitter.
  unfoldable pub judge_up : HealthPolicy F → TargetHealth F → ℤ → ℤ → Status × List String
  judge_up p h last_rtt jitter =
      let received = h.recent_received in
      let lost = h.recent_lost in
      let th = p.thresholds in
      let few = ltb_ℤ (pos (received + lost)) p.failures in
      let loss =
        check_value few "Recent loss" (recent_loss_pct received lost) th.loss_warn th.loss_crit "%"
          (ok, []) in
      let rtt =
        check_value false "RTT" (in_ms last_rtt) (in_ms th.rtt_warn) (in_ms th.rtt_crit) "ms"
          loss in
      let (status, reasons) =
        check_value false "Jitter" (in_ms jitter) (in_ms th.jitter_warn) (in_ms th.jitter_crit) "ms"
          rtt in
      if ltb 0 h.failures && is_empty_list reasons
      then (
        warn,
        ("Waiting for reply ("
              <> fl.itoa (pos h.failures)
              <> "/"
              <> fl.itoa p.failures
              <> " failures)")
            ∷ [],
      )
      else (status, reasons)

  unfoldable pub judge_down : HealthPolicy F → TargetHealth F → Status × List String
  judge_down p h = (
    crit,
    (if ltb 0 h.successes
          then "Recovering ("
            <> fl.itoa (pos h.successes)
            <> "/"
            <> fl.itoa p.recoveries
            <> " replies)"
          else fl.itoa (pos h.failures) <> " consecutive failures")
        ∷ [],
  )

  -- The new health of `evaluateHealthLocked`, before the event.
  unfoldable pub judge : ℕ → ℤ → ℤ → TargetHealth F → TargetHealth F
  judge now last_rtt jitter h0 =
      let p = policy_of h0 in
      let (received, lost) = recent now (pos_part p.window) h0.buckets in
      let h1 = record h0 {
        recent_received = received;
        recent_lost = lost;
        evaluated_at = some now;
      } in
      let is_down = next_down p h1.failures h1.successes h1.down in
      let probed = is_some h1.last_probe in
      let h2 = record h1 { down = if probed then is_down else h1.down } in
      let (status, reasons) : Status × List String =
        if probed
        then (if is_down then judge_down p h2 else judge_up p h2 last_rtt jitter)
        else (pending, "Waiting for a completed probe" ∷ []) in
      let all = if is_empty_list reasons then "Within thresholds" ∷ [] else reasons in
      record h2 {
        since = if status_eq h2.status status then h2.since else some now;
        status = status;
        reason = join all " · ";
      }

  -- `evaluateHealthLocked`: the judgment, and an event if it changed.
  unfoldable pub evaluate_health : ℕ → Target F → Target F
  evaluate_health now t =
      let h = judge now t.last_rtt t.jitter t.health in
      let changed = not (is_unset t.health.status) && not (status_eq h.status t.health.status) in
      let t' = record t { health = h } in
      if changed && h.configured
      then record_event Kind.health (status_string h.status <> ": " <> h.reason) now t'
      else t'

  -- The counters of `recordOutcomeLocked`.
  unfoldable pub count_health : ℕ → Bool → TargetHealth F → TargetHealth F
  count_health now success h = record h {
    buckets = add_outcome now success (bucket_count (policy_of h).window) h.buckets;
    last_probe = some now;
    last_reply = if success then some now else h.last_reply;
    successes = if success then h.successes + 1 else 0;
    failures = if success then 0 else h.failures + 1;
  }

  -- `recordOutcomeLocked`.
  unfoldable pub record_outcome : ℕ → Bool → Target F → Target F
  record_outcome now success t =
      evaluate_health now (record t { health = count_health now success t.health })

  -- `ConfigureHealth`: an invalid policy is replaced by the default.
  unfoldable pub configure_health : HealthPolicy F → ℕ → Target F → Target F
  configure_health p now t =
      let p' : HealthPolicy F = elim (validate_policy p) [ none ↦ p | some e ↦ default_policy ] in
      let same_window = eqb_ℤ t.health.policy.window p'.window in
      let h = t.health in
      let t' = evaluate_health now (record t {
        health = record h {
          buckets = if same_window then h.buckets else [];
          policy = p';
          configured = true;
        };
      }) in
      record t' { mutations = t'.mutations + 1 }
