-- ===== src/Target/Hysteresis.antt =====
-- When internal/stats/health.go takes a target for unavailable.
use mping.Base.{
  ℕ, ◌+◌, ◌≡◌, refl, ap, ◌∙◌, Bool, true, false, not, ◌&&◌, ◌||◌, List, [], ◌∷◌, ◌++◌, arith,
  if◌then◌else◌, some,
}
use mping.Base.Int.{ℤ, pos, ◌≤ℤ◌, leb_ℤ}
use mping.Base.Float.{Floats}
use mping.Target.State.{Target, TargetHealth, HealthPolicy, crit}
use mping.Target.Health.{judge, count_health, policy_of, next_down, judge_down}
use mping.Target.Update.{reset, on_success, on_failure, append_history_at, count_success}
use mping.Target.Tally.{OnlyLog, on_success_locked-OnlyLog, on_failure_locked-OnlyLog, judged}
use mping.Target.Outcomes.{
  Outcome, reply, lost, is_lost, is_reply, trailing, trailing-append, outcome, outcomes,
  outcomes-Completed_from, reset-Completed,
}

module _ {F : Type 0} (fl : Floats F) where
  -- A judgment of a target that has been probed: whether it is down, and critical if it is.
  pub judge-down :
      (now at : ℕ) (last_rtt jitter : ℤ) (h : TargetHealth F)
      → h.last_probe ≡ some at
      → let h' = judge fl now last_rtt jitter h in
        (h'.down ≡ next_down fl (policy_of fl h) h.failures h.successes h.down)
        × (h'.down ≡ true → h'.status ≡ crit)
  unfolding judge judge_down
  judge-down now at last_rtt jitter h e = rw e (refl, λ d. rw d refl)

  judged-down :
      (now : ℕ) (success : Bool) (t : Target F)
      → let p = policy_of fl t.health in
        let h = judged fl now success t in
        (h.down
          ≡ next_down fl p
              (if success then 0 else t.health.failures + 1)
              (if success then t.health.successes + 1 else 0)
              t.health.down)
        × (h.down ≡ true → h.status ≡ crit)
  unfolding count_health policy_of
  judged-down now success t =
      judge-down now now t.last_rtt t.jitter (count_health fl now success t.health) refl

  pub outcome-judged :
      (o : Outcome) (t : Target F)
      → pos 1 ≤ℤ (policy_of fl t.health).failures
      → pos 1 ≤ℤ (policy_of fl t.health).recoveries
      → let p = policy_of fl t.health in
        let h = (outcome fl o t).health in
        (h.down ≡ (
          if is_lost o
          then t.health.down || leb_ℤ p.failures (pos (t.health.failures + 1))
          else t.health.down && not (leb_ℤ p.recoveries (pos (t.health.successes + 1)))))
        × (h.down ≡ true → h.status ≡ crit)
  unfolding outcome on_success on_failure OnlyLog append_history_at count_success next_down
  outcome-judged (reply rtt ttl now) t hf hr =
      let (es, n, out, e) = on_success_locked-OnlyLog fl rtt ttl now t in
      let t1 = append_history_at rtt now (count_success fl rtt ttl t) in
      let j = judged-down now true t1 in rw e (j.0 ∙ ground arith, j.1)
  outcome-judged (lost reason now) t hf hr =
      let (es, n, out, e) = on_failure_locked-OnlyLog fl reason now t in
      let t1 =
        append_history_at (pos 0) now
          (record t { loss = t.loss + 1; last_loss_time = some now; last_error = reason }) in
      let j = judged-down now false t1 in rw e (j.0 ∙ ground arith, j.1)

  abbrev hysteresis : Outcome → HealthPolicy F → Target F → Bool
  hysteresis o p t =
      if is_lost o
      then t.health.down || leb_ℤ p.failures (pos (t.health.failures + 1))
      else t.health.down && not (leb_ℤ p.recoveries (pos (t.health.successes + 1)))

  settle :
      (o : Outcome) (p : HealthPolicy F) (t : Target F) (os : List Outcome) (h : TargetHealth F)
      → t.health.failures ≡ trailing is_lost os
      → t.health.successes ≡ trailing is_reply os
      → pos 1 ≤ℤ p.failures
      → pos 1 ≤ℤ p.recoveries
      → h.down ≡ hysteresis o p t
      → (h.down ≡ true → h.status ≡ crit)
      → (p.failures ≤ℤ pos (trailing is_lost (os ++ (o ∷ [])))
          → (h.down ≡ true) × (h.status ≡ crit))
        × (p.recoveries ≤ℤ pos (trailing is_reply (os ++ (o ∷ []))) → h.down ≡ false)
  settle (reply rtt ttl now) p t os h ef es hf hr d critical =
      let o = reply rtt ttl now in
      (
        λ k. absurd (omega (arith, trailing-append is_lost os o)),
        λ k. ground (arith, trailing-append is_reply os o),
      )
  settle (lost reason now) p t os h ef es hf hr d critical =
      let o = lost reason now in
      let is_down = λ (k : p.failures ≤ℤ pos (trailing is_lost (os ++ (o ∷ [])))).
        let e : h.down ≡ true = ground (arith, trailing-append is_lost os o) in e in
      (
        λ k. (is_down k, critical (is_down k)),
        λ k. absurd (omega (arith, trailing-append is_reply os o)),
      )

  policy_of-eq : (h h' : TargetHealth F) → h.policy ≡ h'.policy → policy_of fl h ≡ policy_of fl h'
  unfolding policy_of
  policy_of-eq h h' e = rw e

  pub outcomes-judged :
      (os : List Outcome) (o : Outcome) (now : ℕ) (t : Target F)
      → pos 1 ≤ℤ (policy_of fl t.health).failures
      → pos 1 ≤ℤ (policy_of fl t.health).recoveries
      → let p = policy_of fl t.health in
        let h = (outcome fl o (outcomes fl os (reset fl now t))).health in
        (p.failures ≤ℤ pos (trailing is_lost (os ++ (o ∷ [])))
          → (h.down ≡ true) × (h.status ≡ crit))
        × (p.recoveries ≤ℤ pos (trailing is_reply (os ++ (o ∷ []))) → h.down ≡ false)
  outcomes-judged os o now t hf hr =
      let t' = outcomes fl os (reset fl now t) in
      let c =
        outcomes-Completed_from fl [] os t.health (reset fl now t) (reset-Completed fl now t) in
      let same : policy_of fl t'.health ≡ policy_of fl t.health =
        policy_of-eq t'.health t.health c.policy in
      let d = outcome-judged o t' (rw same hf) (rw same hr) in
      settle o (policy_of fl t.health) t' os (outcome fl o t').health c.failing c.succeeding hf hr
        (d.0 ∙ ap (λ p. hysteresis o p t') same) d.1

  -- A loss takes the target down if it makes the failures in a row as many as the policy says, and a
  -- reply brings it up again if it makes the replies in a row as many; otherwise the target stays as
  -- it was. The policy's two numbers are at least 1.
  pub outcome-down :
      (o : Outcome) (t : Target F)
      → pos 1 ≤ℤ (policy_of fl t.health).failures
      → pos 1 ≤ℤ (policy_of fl t.health).recoveries
      → let p = policy_of fl t.health in
        (outcome fl o t).health.down ≡ (
          if is_lost o
          then t.health.down || leb_ℤ p.failures (pos (t.health.failures + 1))
          else t.health.down && not (leb_ℤ p.recoveries (pos (t.health.successes + 1))))
  outcome-down o t hf hr = (outcome-judged o t hf hr).0

  -- In a window of outcomes, the target is down and critical whenever the losses at its end are at
  -- least as many as the policy's failures. The policy's two numbers are at least 1.
  pub outcomes-down :
      (os : List Outcome) (o : Outcome) (now : ℕ) (t : Target F)
      → pos 1 ≤ℤ (policy_of fl t.health).failures
      → pos 1 ≤ℤ (policy_of fl t.health).recoveries
      → (policy_of fl t.health).failures ≤ℤ pos (trailing is_lost (os ++ (o ∷ [])))
      → let h = (outcome fl o (outcomes fl os (reset fl now t))).health in
        (h.down ≡ true) × (h.status ≡ crit)
  outcomes-down os o now t hf hr e = (outcomes-judged os o now t hf hr).0 e

  -- In a window of outcomes, the target is not down whenever the replies at its end are at least as many
  -- as the policy's recoveries. The policy's two numbers are at least 1.
  pub outcomes-up :
      (os : List Outcome) (o : Outcome) (now : ℕ) (t : Target F)
      → pos 1 ≤ℤ (policy_of fl t.health).failures
      → pos 1 ≤ℤ (policy_of fl t.health).recoveries
      → (policy_of fl t.health).recoveries ≤ℤ pos (trailing is_reply (os ++ (o ∷ [])))
      → (outcome fl o (outcomes fl os (reset fl now t))).health.down ≡ false
  outcomes-up os o now t hf hr e = (outcomes-judged os o now t hf hr).1 e
