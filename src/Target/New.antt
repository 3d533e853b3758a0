-- ===== src/Target/New.antt =====
-- `NewTargetStats` of internal/stats/stats.go.
use mping.Base.{ℕ, false, none, []}
use mping.Base.Int.{pos}
use mping.Base.Float.{Floats}
use mping.Base.Text.{String}
use mping.Rtt.{fresh}
use mping.Target.State.{Target, TargetHealth, MeasurementState, unset}
use mping.Target.Update.{no_path_mtu}

-- A health before any policy is configured.
abbrev pub zero_health : {F : Type 0} → Floats F → TargetHealth F
zero_health fl = record {
  policy = record {
    window = pos 0;
    failures = pos 0;
    recoveries = pos 0;
    thresholds = record {
      rtt_warn = pos 0;
      rtt_crit = pos 0;
      jitter_warn = pos 0;
      jitter_crit = pos 0;
      loss_warn = fl.of_int (pos 0);
      loss_crit = fl.of_int (pos 0);
    };
  };
  configured = false;
  status = unset;
  reason = "";
  since = none;
  last_probe = none;
  last_reply = none;
  failures = 0;
  successes = 0;
  down = false;
  buckets = [];
  recent_received = 0;
  recent_lost = 0;
  evaluated_at = none;
}

-- `NewTargetStats`: the identity is the next of a process-wide counter.
unfoldable pub new_target_stats : {F : Type 0} → Floats F → ℕ → String → ℕ → Target F
new_target_stats fl id host now = record {
  id = id;
  host = host;
  started_at = now;
  window_started_at = now;
  ip_history = [];
  ip_changes = 0;
  cancelled = 0;
  ip = "";
  asn = "";
  country = "";
  org = "";
  ptr = "";
  dns_server = "";
  iface_mtu = pos 0;
  path_mtu = no_path_mtu;
  port_results = [];
  mtr_stats = none;
  sent = 0;
  recv = 0;
  loss = 0;
  duplicates = 0;
  late_replies = 0;
  last_rtt = pos 0;
  last_ttl = pos 0;
  last_loss_time = none;
  last_error = "";
  rtt = fresh fl;
  jitter = pos 0;
  events = [];
  events_dropped = 0;
  probe_epoch = 0;
  display_name = "";
  resolve_address = "";
  health = zero_health fl;
  history_times = none;
  measurement_state = MeasurementState.running;
  sink = false;
  sunk = [];
  mutations = 0;
}
