-- ===== src/Target/Tally.antt =====
-- The counters of internal/stats/stats.go under each method that moves them.
use mping.Base.{
  ℕ, ◌+◌, ◌≡◌, refl, inl, inr, Bool, true, false, not, ◌&&◌, Option, none, some, List, arith,
  if◌then◌else◌, Bool-cases,
}
use mping.Base.Int.{ℤ, pos}
use mping.Base.Float.{Floats}
use mping.Base.Text.{String, is_empty, ◌<>◌}
use mping.Target.State.{Target, Event, Kind, TargetHealth}
use mping.Target.Log.{append_event, keep_event, record_event}
use mping.Target.Health.{
  evaluate_health, record_outcome, count_health, judge, status_string, status_eq, is_unset,
}
use mping.Target.Update.{append_history_at, count_success, on_success_locked, on_failure_locked}

-- The counters of a window, and which window it is.
pub record Tally : Type 0 where
  pub sent : ℕ
  pub recv : ℕ
  pub loss : ℕ
  pub duplicates : ℕ
  pub late_replies : ℕ
  pub cancelled : ℕ
  pub epoch : ℕ

unfoldable pub tally : {F : Type 0} → Target F → Tally
tally t = record {
  sent = t.sent;
  recv = t.recv;
  loss = t.loss;
  duplicates = t.duplicates;
  late_replies = t.late_replies;
  cancelled = t.cancelled;
  epoch = t.probe_epoch;
}

-- `t'` is `t` but for the event log.
unfoldable pub OnlyLog : {F : Type 0} → Target F → Target F → Type 0
OnlyLog t t' =
    (es : List Event) × (n : ℕ) × (out : List Event) × (t'
      ≡ record t { events = es; events_dropped = n; sunk = out })

-- `t'` is `t` but for the event log and the health.
unfoldable pub OnlyJudged : {F : Type 0} → TargetHealth F → Target F → Target F → Type 0
OnlyJudged h t t' =
    (es : List Event) × (n : ℕ) × (out : List Event) × (t'
      ≡ record t { health = h; events = es; events_dropped = n; sunk = out })

module _ {F : Type 0} where
  append_event-OnlyLog : (e : Event) (t : Target F) → OnlyLog t (append_event e t)
  unfolding OnlyLog append_event
  append_event-OnlyLog e t =
      let t' = append_event e t in (t'.events, t'.events_dropped, t'.sunk, ground arith)

  keep_event-OnlyLog :
      (found : Option (Event × List Event)) (e : Event) (t : Target F)
      → OnlyLog t (keep_event found e t)
  unfolding OnlyLog keep_event
  keep_event-OnlyLog (some (f, newest)) e t =
      let t' = keep_event (some (f, newest)) e t in
      (t'.events, t'.events_dropped, t'.sunk, ground arith)
  keep_event-OnlyLog none e t = append_event-OnlyLog e t

  pub record_event-OnlyLog :
      (kind : Kind) (message : String) (now : ℕ) (t : Target F)
      → OnlyLog t (record_event kind message now t)
  unfolding record_event
  record_event-OnlyLog kind message now t = keep_event-OnlyLog _ _ t

  pub tally-record_event :
      (kind : Kind) (message : String) (now : ℕ) (t : Target F)
      → tally (record_event kind message now t) ≡ tally t
  unfolding tally OnlyLog
  tally-record_event kind message now t =
      let (es, n, out, e) = record_event-OnlyLog kind message now t in rw e

  module _ (fl : Floats F) where
    pub evaluate_health-OnlyJudged :
        (now : ℕ) (t : Target F)
        → OnlyJudged (judge fl now t.last_rtt t.jitter t.health) t (evaluate_health fl now t)
    unfolding OnlyJudged OnlyLog evaluate_health
    evaluate_health-OnlyJudged now t =
        let h = judge fl now t.last_rtt t.jitter t.health in
        let t1 = record t { health = h } in
        let (es, n, out, e) =
          record_event-OnlyLog Kind.health (status_string h.status <> ": " <> h.reason) now t1 in
        elim (Bool-cases (
          (not (is_unset t.health.status) && not (status_eq h.status t.health.status))
          && h.configured)) [
            | inl yes_event ↦ rw yes_event (es, n, out, e)
            | inr no_event ↦ rw no_event (t.events, t.events_dropped, t.sunk, refl)
          ]

    -- The health after an outcome.
    abbrev pub judged : ℕ → Bool → Target F → TargetHealth F
    judged now success t = judge fl now t.last_rtt t.jitter (count_health fl now success t.health)

    pub record_outcome-OnlyJudged :
        (now : ℕ) (success : Bool) (t : Target F)
        → OnlyJudged (judged now success t) t (record_outcome fl now success t)
    unfolding record_outcome OnlyJudged
    record_outcome-OnlyJudged now success t =
        evaluate_health-OnlyJudged now (record t { health = count_health fl now success t.health })

    -- The target that a success leaves, but for its event log.
    abbrev pub succeeded : ℤ → ℤ → ℕ → Target F → Target F
    succeeded rtt ttl now t =
        let t1 = append_history_at rtt now (count_success fl rtt ttl t) in
        record t1 { health = judged now true t1; last_error = "" }

    recovery-OnlyLog :
        (now : ℕ) (t : Target F)
        → OnlyLog t (
            if is_empty t.last_error
            then t
            else record_event Kind.recovery "Ping replies resumed" now t)
    unfolding OnlyLog
    recovery-OnlyLog now t = elim (Bool-cases (is_empty t.last_error)) [
      | inl e ↦ rw e (t.events, t.events_dropped, t.sunk, refl)
      | inr e ↦ rw e (record_event-OnlyLog Kind.recovery "Ping replies resumed" now t)
    ]

    pub on_success_locked-OnlyLog :
        (rtt ttl : ℤ) (now : ℕ) (t : Target F)
        → OnlyLog (succeeded rtt ttl now t) (on_success_locked fl rtt ttl now t)
    unfolding on_success_locked OnlyLog OnlyJudged append_history_at count_success
    on_success_locked-OnlyLog rtt ttl now t =
        let (es, n, out, e) = recovery-OnlyLog now t in
        let t1 = record t { events = es; events_dropped = n; sunk = out } in
        let (es', n', out', e') =
          record_outcome-OnlyJudged now true
            (append_history_at rtt now (count_success fl rtt ttl t1)) in
        (es', n', out', rw e (rw e' refl))

    -- The target that a failure leaves, but for its event log.
    abbrev pub failed : String → ℕ → Target F → Target F
    failed reason now t =
        let t1 =
          append_history_at (pos 0) now
            (record t { loss = t.loss + 1; last_loss_time = some now; last_error = reason }) in
        record t1 { health = judged now false t1 }

    pub on_failure_locked-OnlyLog :
        (reason : String) (now : ℕ) (t : Target F)
        → OnlyLog (failed reason now t) (on_failure_locked fl reason now t)
    unfolding on_failure_locked OnlyLog OnlyJudged append_history_at
    on_failure_locked-OnlyLog reason now t =
        let t0 = record t { loss = t.loss + 1; last_loss_time = some now; last_error = reason } in
        let (es, n, out, e) = record_event-OnlyLog Kind.ping reason now t0 in
        let t1 = record t0 { events = es; events_dropped = n; sunk = out } in
        let (es', n', out', e') =
          record_outcome-OnlyJudged now false (append_history_at (pos 0) now t1) in
        (es', n', out', rw e (rw e' refl))

    pub tally-on_success_locked :
        (rtt ttl : ℤ) (now : ℕ) (t : Target F)
        → tally (on_success_locked fl rtt ttl now t) ≡ record (tally t) { recv = t.recv + 1 }
    unfolding tally OnlyLog append_history_at count_success
    tally-on_success_locked rtt ttl now t =
        let (es, n, out, e) = on_success_locked-OnlyLog rtt ttl now t in rw e

    pub tally-on_failure_locked :
        (reason : String) (now : ℕ) (t : Target F)
        → tally (on_failure_locked fl reason now t) ≡ record (tally t) { loss = t.loss + 1 }
    unfolding tally OnlyLog append_history_at
    tally-on_failure_locked reason now t =
        let (es, n, out, e) = on_failure_locked-OnlyLog reason now t in rw e
