-- ===== src/Target/Window.antt =====
-- internal/stats/probe.go and `Reset` of stats.go: what a probe counts, and in which window.
use mping.Base.{
  ℕ, ◌+◌, ◌≤◌, ◌≡◌, refl, ap, ◌∙◌, inl, inr, Bool, true, false, none, some, List, [], ◌∷◌, arith,
  ◌==◌, Bool-cases,
}
use mping.Base.Int.{ℤ}
use mping.Base.Float.{Floats}
use mping.Base.Text.{String}
use mping.Rtt.{fresh}
use mping.Target.State.{Target, Kind}
use mping.Target.Update.{
  reset, clear, fresh_health, inc_sent_locked, on_duplicate_locked, on_late_reply_locked,
  on_cancelled_locked,
}
use mping.Target.Setters.{Setter, set_by, set_by-epoch}
use mping.Target.Probe.{
  Probe, new_probe, update, inc_sent, on_duplicate, on_late_reply, on_cancelled, on_success,
  on_failure,
}
use mping.Target.Tally.{
  Tally, tally, OnlyLog, record_event-OnlyLog, tally-on_success_locked, tally-on_failure_locked,
}

-- The methods of a probe, with their arguments.
pub data ProbeCall : Type 0 where
  sent : ProbeCall
  success : ℤ → ℤ → ℕ → ProbeCall
  failure : String → ℕ → ProbeCall
  duplicate : ProbeCall
  late : ProbeCall
  cancel : ProbeCall

-- What each method adds to the counters of its window.
abbrev pub counted : ProbeCall → Tally → Tally
counted sent c = record c { sent = c.sent + 1 }
counted (success rtt ttl now) c = record c { recv = c.recv + 1 }
counted (failure reason now) c = record c { loss = c.loss + 1 }
counted duplicate c = record c { duplicates = c.duplicates + 1 }
counted late c = record c { late_replies = c.late_replies + 1 }
counted cancel c = record c { cancelled = c.cancelled + 1 }

-- Whether a probe belongs to the window `epoch`.
abbrev pub belongs : Probe → ℕ → Bool
belongs none epoch = false
belongs (some e) epoch = e == epoch

module _ {F : Type 0} (fl : Floats F) where
  unfoldable pub call : Probe → ProbeCall → Target F → Bool × Target F
  call p sent t = inc_sent p t
  call p (success rtt ttl now) t = on_success fl p rtt ttl now t
  call p (failure reason now) t = on_failure fl p reason now t
  call p duplicate t = on_duplicate p t
  call p late t = on_late_reply p t
  call p cancel t = on_cancelled p t

  call_zero : (c : ProbeCall) (t : Target F) → call none c t ≡ (false, t)
  unfolding call inc_sent on_success on_failure on_duplicate on_late_reply on_cancelled update
  call_zero sent t = refl
  call_zero _ t = refl

  pub call_lem :
      (p : Probe) (c : ProbeCall) (t : Target F)
      → (belongs p t.probe_epoch ≡ true
          → ((call p c t).0 ≡ true) × (tally (call p c t).1 ≡ counted c (tally t)))
        × (belongs p t.probe_epoch ≡ false → call p c t ≡ (false, t))
  unfolding call inc_sent on_success on_failure on_duplicate on_late_reply on_cancelled update tally
      inc_sent_locked on_duplicate_locked on_late_reply_locked on_cancelled_locked
  call_lem none c t = (λ h. cc, λ h. call_zero c t)
  call_lem (some e) sent t = (λ h. rw h (refl, refl), λ h. rw h)
  call_lem (some e) (success rtt ttl now) t =
      (λ h. rw h (refl, tally-on_success_locked fl rtt ttl now t), λ h. rw h)
  call_lem (some e) (failure reason now) t =
      (λ h. rw h (refl, tally-on_failure_locked fl reason now t), λ h. rw h)
  call_lem (some e) duplicate t = (λ h. rw h (refl, refl), λ h. rw h)
  call_lem (some e) late t = (λ h. rw h (refl, refl), λ h. rw h)
  call_lem (some e) cancel t = (λ h. rw h (refl, refl), λ h. rw h)

  -- A probe of the current window adds one to the one counter that its method is for, and says so.
  pub call-belongs :
      (p : Probe) (c : ProbeCall) (t : Target F)
      → belongs p t.probe_epoch ≡ true
      → ((call p c t).0 ≡ true) × (tally (call p c t).1 ≡ counted c (tally t))
  call-belongs p c t e = (call_lem p c t).0 e

  -- What else happens to a target: calls through any probes, resets, and the other methods.
  pub data TargetCall : Type 0 where
    through : Probe → ProbeCall → TargetCall
    restart : ℕ → TargetCall
    set_to : Setter F → TargetCall

  unfoldable pub step : TargetCall → Target F → Target F
  step (through p c) t = (call p c t).1
  step (restart now) t = reset fl now t
  step (set_to c) t = set_by fl c t

  unfoldable pub steps : List TargetCall → Target F → Target F
  steps [] t = t
  steps (c ∷ cs) t = steps cs (step c t)

  pub reset_fields :
      (now : ℕ) (t : Target F)
      → let t' = reset fl now t in
        (tally t' ≡ record {
          sent = 0;
          recv = 0;
          loss = 0;
          duplicates = 0;
          late_replies = 0;
          cancelled = 0;
          epoch = t.probe_epoch + 1;
        })
        × (t'.rtt ≡ fresh fl)
        × (t'.health ≡ fresh_health t.health)
  unfolding reset clear tally OnlyLog
  reset_fields now t =
      let (es, n, out, e) =
        record_event-OnlyLog Kind.reset_window "Statistics reset" now
          (record t { probe_epoch = t.probe_epoch + 1; window_started_at = now }) in
      rw e (refl, refl, refl)

  epoch-counted : (c : ProbeCall) (t : Target F) → (counted c (tally t)).epoch ≡ t.probe_epoch
  unfolding tally
  epoch-counted sent t = refl
  epoch-counted _ t = refl

  epoch-call :
      (p : Probe) (c : ProbeCall) (t : Target F) → (call p c t).1.probe_epoch ≡ t.probe_epoch
  unfolding tally
  epoch-call p c t = elim (Bool-cases (belongs p t.probe_epoch)) [
    | inl e ↦ ap (λ (k : Tally). k.epoch) ((call_lem p c t).0 e).1 ∙ epoch-counted c t
    | inr e ↦ rw ((call_lem p c t).1 e)
  ]

  epoch-step : (c : TargetCall) (t : Target F) → t.probe_epoch ≤ (step c t).probe_epoch
  unfolding step tally
  epoch-step (through p c) t = omega (arith, epoch-call p c t)
  epoch-step (restart now) t =
      let e : (reset fl now t).probe_epoch ≡ t.probe_epoch + 1 =
        ap (λ (k : Tally). k.epoch) (reset_fields now t).0 in
      omega arith
  epoch-step (set_to c) t = omega (arith, set_by-epoch fl c t)

  epoch-steps : (cs : List TargetCall) (t : Target F) → t.probe_epoch ≤ (steps cs t).probe_epoch
  unfolding steps
  epoch-steps [] t = omega arith
  epoch-steps (c ∷ cs) t = omega (arith, epoch-step c t, epoch-steps cs (step c t))

  unfoldable pub calls : Probe → List ProbeCall → Target F → Target F
  calls p [] t = t
  calls p (c ∷ cs) t = calls p cs (call p c t).1

  calls_foreign :
      (p : Probe) (cs : List ProbeCall) (t : Target F)
      → belongs p t.probe_epoch ≡ false
      → calls p cs t ≡ t
  unfolding calls
  calls_foreign p [] t h = refl
  calls_foreign p (c ∷ cs) t h = rw ((call_lem p c t).1 h) (calls_foreign p cs t h)

  -- Let an operation start, then any methods of the target run (calls through any probes, resets,
  -- setters), then a reset, then again any methods. Nothing that the operation reports at that moment
  -- changes the target: sends, replies, losses, duplicates, late replies and cancellations alike.
  pub calls-reset :
      (before after : List TargetCall) (late_calls : List ProbeCall) (now : ℕ) (t : Target F)
      → let t' = steps after (reset fl now (steps before t)) in
        calls (new_probe t) late_calls t' ≡ t'
  unfolding new_probe tally
  calls-reset before after late_calls now t =
      let t1 = steps before t in
      let e : (reset fl now t1).probe_epoch ≡ t1.probe_epoch + 1 =
        ap (λ (k : Tally). k.epoch) (reset_fields now t1).0 in
      calls_foreign (some t.probe_epoch) late_calls (steps after (reset fl now t1))
        (ground (arith, epoch-steps before t, epoch-steps after (reset fl now t1)))
