-- ===== src/Target/Probe.antt =====
-- internal/stats/probe.go: a handle on one statistics window of a target.
use mping.Base.{ℕ, Bool, true, false, Option, none, some, ◌==◌, if◌then◌else◌}
use mping.Base.Int.{ℤ}
use mping.Base.Float.{Floats}
use mping.Base.Text.{String}
use mping.Target.State.{Target}
use mping.Target.Update.{
  touch, on_success_locked, on_failure_locked, inc_sent_locked, on_duplicate_locked,
  on_late_reply_locked, on_cancelled_locked,
}

-- The window of the target at hand; `none` is the zero value, which has no target.
abbrev pub Probe : Type 0
Probe = Option ℕ

module _ {F : Type 0} where
  unfoldable pub new_probe : Target F → Probe
  new_probe t = some t.probe_epoch

  -- `update`: the change, if the window is still the same, and whether it was made.
  unfoldable pub update : Probe → (Target F → Target F) → Target F → Bool × Target F
  update none f t = (false, t)
  update (some epoch) f t = if epoch == t.probe_epoch then (true, touch (f t)) else (false, t)

  unfoldable pub inc_sent : Probe → Target F → Bool × Target F
  inc_sent p t = update p inc_sent_locked t

  unfoldable pub on_duplicate : Probe → Target F → Bool × Target F
  on_duplicate p t = update p on_duplicate_locked t

  unfoldable pub on_late_reply : Probe → Target F → Bool × Target F
  on_late_reply p t = update p on_late_reply_locked t

  unfoldable pub on_cancelled : Probe → Target F → Bool × Target F
  on_cancelled p t = update p on_cancelled_locked t

  module _ (fl : Floats F) where
    unfoldable pub on_success : Probe → ℤ → ℤ → ℕ → Target F → Bool × Target F
    on_success p rtt ttl now t = update p (on_success_locked fl rtt ttl now) t

    unfoldable pub on_failure : Probe → String → ℕ → Target F → Bool × Target F
    on_failure p reason now t = update p (on_failure_locked fl reason now) t
