-- ===== src/Target/Update.antt =====
-- internal/stats/stats.go and history.go: the methods that move a target's counters. The clock is
-- read once in each, as `now`.
use mping.Base.{
  ℕ, ◌+◌, ◌-◌, ◌%◌, true, false, not, ◌&&◌, Option, none, some, List, [], ◌∷◌, ◌++◌, length, drop,
  set, replicate, ltb, if◌then◌else◌,
}
use mathlib.Core.Option
use mping.Base.Int.{ℤ, pos}
use mping.Base.Float.{Floats}
use mping.Base.Text.{String, is_empty, str_eq, ◌<>◌}
use mping.Rtt.{fresh, record_rtt, append_history, update_jitter}
use mping.Route
use mping.Route.{new_mtr_stats, MtrStats}
use mping.Checks.{history_size}
use mping.Target.State.{Target, Kind, IpChange, PathMtuInfo, TargetHealth, unset}
use mping.Target.Log.{record_event}
use mping.Target.Health.{record_outcome}

abbrev pub times_buffer : Option (List ℕ) → List ℕ
times_buffer none = replicate history_size 0
times_buffer (some ts) = ts

-- `appendHistoryLocked`: the times' ring is written at the slot that the time ring has just filled.
unfoldable pub append_history_at : {F : Type 0} → ℤ → ℕ → Target F → Target F
append_history_at rtt now t =
    let acc = append_history rtt history_size t.rtt in
    record t {
      rtt = acc;
      history_times =
          some (set (times_buffer t.history_times) ((acc.history_idx - 1) % history_size) now);
    }

abbrev pub touch : {F : Type 0} → Target F → Target F
touch t = record t { mutations = t.mutations + 1 }

-- What `Reset` leaves of a health: the policy, and whether it was configured.
unfoldable pub fresh_health : {F : Type 0} → TargetHealth F → TargetHealth F
fresh_health h = record {
  policy = h.policy;
  configured = h.configured;
  status = unset;
  reason = "";
  since = none;
  last_probe = none;
  last_reply = none;
  failures = 0;
  successes = 0;
  down = false;
  buckets = [];
  recent_received = 0;
  recent_lost = 0;
  evaluated_at = none;
}

abbrev pub no_path_mtu : PathMtuInfo
no_path_mtu = record {
  ip = "";
  mtu = pos 0;
  payload = pos 0;
  source = "";
  status = "";
  bottleneck_ip = "";
}

module _ {F : Type 0} (fl : Floats F) where
  -- The counters of `onSuccessLocked`, after its event and before its judgment.
  unfoldable pub count_success : ℤ → ℤ → Target F → Target F
  count_success rtt ttl t = record t {
    jitter = if ltb 0 t.recv then update_jitter t.jitter rtt t.last_rtt else t.jitter;
    recv = t.recv + 1;
    last_rtt = rtt;
    last_ttl = ttl;
    rtt = record_rtt fl rtt t.rtt;
  }

  -- `onSuccessLocked`.
  unfoldable pub on_success_locked : ℤ → ℤ → ℕ → Target F → Target F
  on_success_locked rtt ttl now t =
      let t1 =
        if is_empty t.last_error
        then t
        else record_event Kind.recovery "Ping replies resumed" now t in
      let t2 = append_history_at rtt now (count_success rtt ttl t1) in
      let t3 = record_outcome fl now true t2 in record t3 { last_error = "" }

  -- `onFailureLocked`.
  unfoldable pub on_failure_locked : String → ℕ → Target F → Target F
  on_failure_locked reason now t =
      let t1 = record t { loss = t.loss + 1; last_loss_time = some now; last_error = reason } in
      let t2 = append_history_at (pos 0) now (record_event Kind.ping reason now t1) in
      record_outcome fl now false t2

  -- `OnSuccess`, `OnFailure`, `OnDuplicate`, `OnLateReply`, `IncSent`.
  unfoldable pub on_success : ℤ → ℤ → ℕ → Target F → Target F
  on_success rtt ttl now t = touch (on_success_locked rtt ttl now t)

  unfoldable pub on_failure : String → ℕ → Target F → Target F
  on_failure reason now t = touch (on_failure_locked reason now t)

  -- The fields that `Reset` clears.
  unfoldable pub clear : Target F → Target F
  clear t = record t {
    sent = 0;
    cancelled = 0;
    recv = 0;
    loss = 0;
    duplicates = 0;
    late_replies = 0;
    last_rtt = pos 0;
    last_ttl = pos 0;
    last_loss_time = none;
    last_error = "";
    rtt = fresh fl;
    history_times = none;
    health = fresh_health t.health;
    jitter = pos 0;
    mtr_stats = Option.map Route.reset t.mtr_stats;
  }

  -- `Reset`: a new window, in which the probes of the old one are not counted.
  unfoldable pub reset : ℕ → Target F → Target F
  reset now t =
      let t1 = record t { probe_epoch = t.probe_epoch + 1; window_started_at = now } in
      touch (clear (record_event Kind.reset_window "Statistics reset" now t1))

unfoldable pub inc_sent_locked : {F : Type 0} → Target F → Target F
inc_sent_locked t = record t { sent = t.sent + 1 }

unfoldable pub on_duplicate_locked : {F : Type 0} → Target F → Target F
on_duplicate_locked t = record t { duplicates = t.duplicates + 1 }

unfoldable pub on_late_reply_locked : {F : Type 0} → Target F → Target F
on_late_reply_locked t = record t { late_replies = t.late_replies + 1 }

unfoldable pub on_cancelled_locked : {F : Type 0} → Target F → Target F
on_cancelled_locked t = record t { cancelled = t.cancelled + 1 }

abbrev pub max_ip_history : ℕ
max_ip_history = 64

-- What `SetIP` records of a change of address.
unfoldable pub note_ip : {F : Type 0} → String → ℕ → Target F → Target F
note_ip ip now t =
    let t' = record_event Kind.dns ("IP: " <> t.ip <> " → " <> ip) now t in
    let seen : List IpChange = t'.ip_history ++ (record { at = now; ip = ip } ∷ []) in
    record t' {
      ip_changes = if is_empty t'.ip then t'.ip_changes else t'.ip_changes + 1;
      ip_history =
          if ltb max_ip_history (length seen)
          then drop (length seen - max_ip_history) seen
          else seen;
    }

-- `SetIP`: an estimate for another address is dropped, and a change is recorded.
unfoldable pub set_ip : {F : Type 0} → String → ℕ → Target F → Target F
set_ip ip now t =
    let stale = not (is_empty t.path_mtu.ip) && not (str_eq t.path_mtu.ip ip) in
    let t1 = record t { path_mtu = if stale then no_path_mtu else t.path_mtu } in
    let t2 = if str_eq t1.ip ip then t1 else note_ip ip now t1 in touch (record t2 { ip = ip })

-- `MTR`: created at the first call.
unfoldable pub mtr : {F : Type 0} → Target F → MtrStats × Target F
mtr t = elim t.mtr_stats [
  | some m ↦ (m, t)
  | none ↦ (new_mtr_stats, record t { mtr_stats = some new_mtr_stats })
]
