-- ===== src/Target/Tests.antt =====
-- The statistics of internal/stats on small inputs.
use mping.Base.{
  ◌≤◌, length, ℕ, ◌+◌, ◌≡◌, List, [], ◌∷◌, true, false, some, arith, ◌||◌, ◌&&◌, not, take_last,
  if◌then◌else◌,
}
use mathlib.Core.List.{map}
use mathlib.Core.Option
use mping.Base.Int.{pos, ◌≤ℤ◌, leb_ℤ}
use mping.Base.Sample.{whole}
use mping.Checks.{history_size}
use mping.Rtt.{history_snapshot}
use mping.Target.Log.{max_target_events}
use mping.Target.Retained.{record_events, record_events-room}
use mping.Base.Text.{String}
use mping.Target.State.{Kind, Target, crit}
use mping.Target.New.{new_target_stats}
use mping.Target.Health.{policy_of, default_policy}
use mping.Target.Update.{reset}
use mping.Target.Probe.{Probe, new_probe}
use mping.Target.Tally.{tally}
use mping.Target.Window.{
  sent, success, failure, cancel, counted, call, call-belongs, TargetCall, through, restart, set_to,
  steps, calls, calls-reset,
}
use mping.Target.Setters.{address, event}
use mping.Target.Fresh.{SameMeasurements, SameSetup, new_route, reset_lem}
use mping.Target.Outcomes.{
  Outcome, reply, lost, sample, is_lost, is_reply, count_if, outcome, outcomes, outcomes-history,
}
use mping.Target.Hysteresis.{outcome-down, outcomes-down, outcomes-up}

abbrev host : Target ℕ
host = new_target_stats whole 1 "192.0.2.1" 1000

abbrev first_probe : Probe
first_probe = some 0

call-belongs_example :
    ((call whole first_probe (success (pos 7) (pos 64) 1007) host).0 ≡ true)
    × (tally (call whole first_probe (success (pos 7) (pos 64) 1007) host).1
        ≡ counted (success (pos 7) (pos 64) 1007) (tally host))
call-belongs_example =
    call-belongs whole first_probe (success (pos 7) (pos 64) 1007) host
      (unfold new_target_stats in ground arith)

-- Before the reset an address, a loss and a reset; after it an event and a send of the new window.
abbrev in_between : List (TargetCall whole)
in_between =
    set_to (address "192.0.2.7" 1005)
    ∷ through first_probe (failure "Timeout" 1006)
    ∷ restart 1007
    ∷ []

abbrev afterwards : List (TargetCall whole)
afterwards = set_to (event Kind.ping "noted" 1009) ∷ through (some 2) sent ∷ []

calls-reset_example :
    let t' = steps whole afterwards (reset whole 1008 (steps whole in_between host)) in
    calls whole (new_probe host) (failure "Timeout" 1009 ∷ cancel ∷ []) t' ≡ t'
calls-reset_example =
    calls-reset whole in_between afterwards (failure "Timeout" 1009 ∷ cancel ∷ []) 1008 host

reset_lem_example :
    let t' = reset whole 1008 (steps whole in_between host) in
    SameMeasurements t' (new_target_stats whole 2 "192.0.2.2" 1008)
    × (t'.mtr_stats ≡ Option.map new_route (steps whole in_between host).mtr_stats)
    × (t'.probe_epoch ≡ (steps whole in_between host).probe_epoch + 1)
    × SameSetup t' (steps whole in_between host)
reset_lem_example = reset_lem whole 2 1008 "192.0.2.2" (steps whole in_between host)

abbrev trace : List Outcome
trace = reply (pos 7) (pos 64) 1007 ∷ lost "Timeout" 1009 ∷ lost "Timeout" 1010 ∷ []

outcomes-history_example :
    let t' = outcomes whole trace (reset whole 1001 host) in
    (t'.recv ≡ count_if is_reply trace)
    × (t'.loss ≡ count_if is_lost trace)
    × (history_snapshot t'.rtt ≡ take_last history_size (map sample trace))
outcomes-history_example = outcomes-history whole trace 1001 host

-- The policy of a target that was never configured is the default one.
host_failures : pos 1 ≤ℤ (policy_of whole host.health).failures
unfolding policy_of new_target_stats default_policy
host_failures = omega arith

host_recoveries : pos 1 ≤ℤ (policy_of whole host.health).recoveries
unfolding policy_of new_target_stats default_policy
host_recoveries = omega arith

outcome-down_example :
    let p = policy_of whole host.health in
    (outcome whole (lost "Timeout" 1009) host).health.down ≡ (
      if is_lost (lost "Timeout" 1009)
      then host.health.down || leb_ℤ p.failures (pos (host.health.failures + 1))
      else host.health.down && not (leb_ℤ p.recoveries (pos (host.health.successes + 1))))
outcome-down_example = outcome-down whole (lost "Timeout" 1009) host host_failures host_recoveries

outcomes-down_example :
    let h =
      (outcome whole (lost "Timeout" 1011) (outcomes whole trace (reset whole 1001 host))).health in
    (h.down ≡ true) × (h.status ≡ crit)
outcomes-down_example =
    outcomes-down whole trace (lost "Timeout" 1011) 1001 host host_failures host_recoveries
      (unfold policy_of new_target_stats default_policy in omega arith)

abbrev recovery : List Outcome
recovery = reply (pos 7) (pos 64) 1012 ∷ []

outcomes-up_example :
    (outcome whole
      (reply (pos 7) (pos 64) 1013)
      (outcomes whole recovery (reset whole 1001 host))).health.down
    ≡ false
outcomes-up_example =
    outcomes-up whole recovery (reply (pos 7) (pos 64) 1013) 1001 host host_failures host_recoveries
      (unfold policy_of new_target_stats default_policy in omega arith)

abbrev incidents : List (Kind × String × ℕ)
incidents = (Kind.ping, "Timeout", 1009) ∷ (Kind.dns, "IP:  → 192.0.2.1", 1010) ∷ []

record_events-room_example :
    let t' = record_events incidents host in
    (length t'.events ≤ max_target_events)
    × (length host.events + host.events_dropped ≤ length t'.events + t'.events_dropped)
    × (length t'.events + t'.events_dropped
        ≤ length host.events + host.events_dropped + length incidents)
record_events-room_example =
    record_events-room incidents host (unfold new_target_stats in omega arith)
